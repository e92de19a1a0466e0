-- ===== src/Handlers/Version/Laws.antt =====
-- The version that the matrix calls the latest.
use lumescope.Prelude.{
  ◌≤◌, String, ◌≡◌, refl, sym, ap, ◌∙◌, Bool, true, false, List, [], ◌∷◌, ◌==◌, string_eq, eq_iff,
  All, any, filter, length, arith, Bool-cases, inl, inr, ltb,
}
use lumescope.Db.Types.{SupernodeDb}
use lumescope.Db.Keyset.{descending}
use lumescope.Db.Keyset.Ties.{IsOrdered}
use lumescope.Db.Stats.Versions.{VersionRow, list_version_matrix, total_key, version_of, is_known}
use lumescope.Db.Stats.Versions.Laws.{with_version, IsRowOf, list_version_matrix_lem}
use lumescope.Handlers.Reply.{ok}
use lumescope.Handlers.Version.{VersionMatrixResponse, version_matrix, matrix_response}

-- a row that passes a test, where there is one
find_row :
    (P Q : VersionRow → Type 0) (p : VersionRow → Bool) (vs : List VersionRow)
    → All P vs
    → All Q vs
    → any p vs ≡ true
    → (v : VersionRow) × (p v ≡ true) × P v × Q v
find_row P Q p [] all both h = absurd (ground arith)
find_row P Q p (v ∷ vs) all both h = elim (Bool-cases (p v)) [
  | inl e ↦ (v, e, all.0, both.0)
  | inr e ↦ find_row P Q p vs all.1 both.1 (ground arith)
]

none_pass :
    (p : SupernodeDb → Bool) (rows : List SupernodeDb)
    → any p rows ≡ false
    → length (filter p rows) ≡ 0
none_pass p [] h = refl
none_pass p (row ∷ rows) h = ground (arith, none_pass p rows)

module _ (rows : List SupernodeDb) (v : String) where
  abbrev runs : SupernodeDb → Bool
  runs row = version_of row == v

  abbrev is_row : VersionRow → Bool
  is_row vr = vr.version == v

  row_total :
      (first vr : VersionRow)
      → is_row vr ≡ true
      → IsRowOf rows first
      → IsRowOf rows vr
      → ltb first.total vr.total ≡ false
      → length (with_version v rows) ≤ length (with_version first.version rows)
  row_total first vr named own counts ordered =
      let same = ap (λ u. length (with_version u rows)) ((eq_iff vr.version v).0 named) in
      ground (arith, same, own.total, counts.total)

  most_common :
      (vs : List VersionRow)
      → All (IsRowOf rows) vs
      → IsOrdered descending total_key vs
      → any is_row vs ≡ any runs (filter is_known rows)
      → length (with_version v rows)
        ≤ length (with_version (matrix_response vs).latest_version rows)
  unfolding matrix_response
  most_common [] all ordered listed =
      omega (arith, none_pass runs (filter is_known rows) (sym listed))
  most_common (first ∷ vs) all ordered listed = elim (Bool-cases (any is_row (first ∷ vs))) [
    | inl e ↦
        let (vr, named, counts, behind) =
          find_row (IsRowOf rows) (λ vr. ltb first.total vr.total ≡ false) is_row (first ∷ vs) all
            (ground arith, ordered.0) e in
        row_total first vr named all.0 counts behind
    | inr e ↦ omega (arith, none_pass runs (filter is_known rows) (sym listed ∙ e))
  ]

  -- The latest version of the matrix is one that at least as many supernodes run as any other.
  pub latest_version_lem :
      (resp : VersionMatrixResponse) × (version_matrix false rows ≡ ok resp)
      × (length (with_version v rows) ≤ length (with_version resp.latest_version rows))
  unfolding version_matrix
  latest_version_lem =
      let (all, listed, ordered) = list_version_matrix_lem rows in
      (
        matrix_response (list_version_matrix rows),
        refl,
        most_common (list_version_matrix rows) all ordered (listed v),
      )
