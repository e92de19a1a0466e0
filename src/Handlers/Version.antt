-- ===== src/Handlers/Version.antt =====
-- internal/handlers/version.go: VersionMatrix. The present time, which the reply gives as
-- Last-Modified, is left out.
pub mod Laws
use lumescope.Prelude.{ℕ, String, Bool, List, [], ◌∷◌, ◌==◌, string_eq, map, if◌then◌else◌}
use lumescope.Db.Types.{SupernodeDb}
use lumescope.Db.Stats.Versions.{VersionRow, list_version_matrix}
use lumescope.Handlers.Reply.{Reply, ok, internal_error}

pub record VersionMatrixRow : Type 0 where
  pub version : String
  pub nodes_total : ℕ
  pub nodes_available : ℕ
  pub nodes_unavailable : ℕ
  pub is_latest : Bool

-- an empty latest_version is left out of the JSON
pub record VersionMatrixResponse : Type 0 where
  pub latest_version : String
  pub versions : List VersionMatrixRow

matrix_row : String → VersionRow → VersionMatrixRow
matrix_row latest v = record {
  version = v.version;
  nodes_total = v.total;
  nodes_available = v.available;
  nodes_unavailable = v.unavailable;
  is_latest = v.version == latest;
}

unfoldable pub matrix_response : List VersionRow → VersionMatrixResponse
unfolding matrix_row
matrix_response [] = record { latest_version = ""; versions = [] }
matrix_response (v ∷ vs) = record {
  latest_version = v.version;
  versions = map (matrix_row v.version) (v ∷ vs);
}

unfoldable pub version_matrix : Bool → List SupernodeDb → Reply VersionMatrixResponse
unfolding matrix_response
version_matrix fails rows =
    if fails
    then internal_error "failed to fetch version data"
    else ok (matrix_response (list_version_matrix rows))
