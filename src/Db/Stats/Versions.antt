-- ===== src/Db/Stats/Versions.antt =====
-- internal/db/db.go: ListVersionMatrix, the supernodes by the version that is known of them.
pub mod Laws
use lumescope.Prelude.{
  ℕ, ◌+◌, ◌≡◌, String, Bool, not, Option, none, some, List, [], ◌∷◌, ◌==◌, string_eq, filter,
  length, map,
}
use lumescope.Db.Types.{SupernodeDb}
use lumescope.Db.Keyset.{descending, order_by}
use lumescope.Db.Supernodes.Filter.{shown_version}
use lumescope.Db.Stats.Groups.{group_by}

pub record VersionRow : Type 0 where
  pub version : String
  pub total : ℕ
  pub available : ℕ
  pub unavailable : ℕ

abbrev pub or_unknown : Option String → String
or_unknown none = "unknown"
or_unknown (some v) = v

-- COALESCE(NULLIF(...), NULLIF(...), 'unknown')
unfoldable pub version_of : SupernodeDb → String
unfolding shown_version
version_of row = or_unknown (shown_version row)

abbrev pub is_up : SupernodeDb → Bool
is_up row = row.is_status_api_available

abbrev pub version_row : String × List SupernodeDb → VersionRow
version_row g = record {
  version = g.0;
  total = length g.1;
  available = length (filter is_up g.1);
  unavailable = length (filter (λ row. not (is_up row)) g.1);
}

abbrev pub total_key : VersionRow → ℕ
total_key vr = vr.total

-- WHERE ... != 'unknown'
abbrev pub is_known : SupernodeDb → Bool
unfolding version_of
is_known row = not (version_of row == "unknown")

-- ORDER BY total DESC; SQL leaves open the order of equal totals
unfoldable pub list_version_matrix : List SupernodeDb → List VersionRow
unfolding version_of
list_version_matrix rows =
    order_by descending total_key (map version_row (group_by version_of (filter is_known rows)))
