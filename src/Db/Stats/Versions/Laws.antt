-- ===== src/Db/Stats/Versions/Laws.antt =====
-- The version matrix: what its rows count, and their order.
use lumescope.Prelude.{
  ◌+◌, String, ◌≡◌, ap, ◌∙◌, Bool, not, List, [], ◌∷◌, ◌==◌, string_eq, All, All-image, any-image,
  any, filter, length, map, arith,
}
use lumescope.Db.Types.{SupernodeDb}
use lumescope.Db.Keyset.{descending}
use lumescope.Db.Keyset.Order.{All-order_by, All-map}
use lumescope.Db.Keyset.Ties.{IsOrdered, order_by-IsOrdered, any-order_by}
use lumescope.Db.Stats.Groups.{group_by, group_by-rows, any-group_by}
use lumescope.Db.Stats.Versions.{
  VersionRow, version_of, is_up, is_known, version_row, total_key, list_version_matrix,
}

-- the supernodes of a version
abbrev pub with_version : String → List SupernodeDb → List SupernodeDb
with_version v rows = filter (λ row. version_of row == v) (filter is_known rows)

-- what a row of the matrix counts
pub record IsRowOf (rows : List SupernodeDb) (vr : VersionRow) : Type 0 where
  pub total : vr.total ≡ length (with_version vr.version rows)
  pub available : vr.available ≡ length (filter is_up (with_version vr.version rows))
  pub parts : vr.total ≡ vr.available + vr.unavailable

split_length :
    (p : SupernodeDb → Bool) (rows : List SupernodeDb)
    → length rows ≡ length (filter p rows) + length (filter (λ row. not (p row)) rows)
split_length p [] = omega arith
split_length p (row ∷ rows) = ground (arith, split_length p rows)

version_row-IsRowOf :
    (rows : List SupernodeDb) (g : String × List SupernodeDb)
    → g.1 ≡ with_version g.0 rows
    → IsRowOf rows (version_row g)
version_row-IsRowOf rows g e = record {
  total = ap length e;
  available = ap (λ l. length (filter is_up l)) e;
  parts = split_length is_up g.1;
}

-- Each row of the version matrix counts the supernodes of which its version is known, and those
-- among them whose status API answered, the others being the unavailable ones; a version has a row
-- if it is known of a supernode; and no row stands behind one with a smaller total.
pub list_version_matrix_lem :
    (rows : List SupernodeDb)
    → All (IsRowOf rows) (list_version_matrix rows)
      × ((v : String)
          → any (λ (vr : VersionRow). vr.version == v) (list_version_matrix rows)
            ≡ any (λ row. version_of row == v) (filter is_known rows))
      × IsOrdered descending total_key (list_version_matrix rows)
unfolding list_version_matrix
list_version_matrix_lem rows =
    let gs = group_by version_of (filter is_known rows) in
    (
      All-order_by descending total_key (IsRowOf rows) (map version_row gs) (
          All-image (IsRowOf rows) version_row gs (
            All-map (version_row-IsRowOf rows) gs
              (group_by-rows version_of (filter is_known rows)))),
      λ v.
          any-order_by descending total_key _ (map version_row gs)
          ∙ any-image _ version_row gs
          ∙ any-group_by version_of v (filter is_known rows),
      order_by-IsOrdered descending total_key (map version_row gs),
    )
