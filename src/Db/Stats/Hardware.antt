-- ===== src/Db/Stats/Hardware.antt =====
-- internal/db/db.go: GetAggregatedHardwareStats. The sum of double precision is a parameter.
use lumescope.Prelude.{
  ℕ, ◌+◌, Bool, not, ◌&&◌, Option, none, some, List, [], ◌∷◌, ◌==◌, string_eq, filter, length, leb,
  if◌then◌else◌,
}
use lumescope.Prelude.Int.{ℤ, pos, ◌+ℤ◌, pos_part, neg_part}
use lumescope.Strconv.{max_int64}
use lumescope.Db.Types.{Float64, SupernodeDb}
use lumescope.Db.Supernodes.Filter.{is_available, stopped}

pub record HardwareStats : Type 0 where
  pub total_cpu_cores : ℤ
  pub total_memory_gb : Float64
  pub total_storage_bytes : ℤ
  pub used_storage_bytes : ℤ
  pub total_p2p_db_size_mb : Float64
  pub total_p2p_records : ℤ
  pub available_supernodes : ℕ

-- the values of a column that are not NULL
abbrev pub present : {A : Type 0} → (SupernodeDb → Option A) → List SupernodeDb → List A
present column [] = []
present column (row ∷ rows) =
    let rest = present column rows in elim (column row) [ none ↦ rest | some v ↦ v ∷ rest ]

-- COALESCE(SUM(...), 0) of integers, which has no bounds
abbrev pub sum : List ℤ → ℤ
sum [] = pos 0
sum (v ∷ vs) = v +ℤ sum vs

-- the scan of a sum into an int64, which fails if it does not fit
abbrev pub scan_int64 : ℤ → Option ℤ
scan_int64 v =
    if leb (pos_part v) max_int64 && leb (neg_part v) (max_int64 + 1) then some v else none

-- the three conditions of "available", and the fourth on the chain's state
unfoldable pub is_fully_available : SupernodeDb → Bool
is_fully_available row = is_available row && not (row.current_state == stopped)

scan_stats :
    (List Float64 → Float64)
    → List SupernodeDb
    → Option ℤ
    → Option ℤ
    → Option ℤ
    → Option ℤ
    → Option HardwareStats
scan_stats sum_float rows (some cores) (some total) (some used) (some records) = some (record {
  total_cpu_cores = cores;
  total_memory_gb = sum_float (present (λ row. row.memory_total_gb) rows);
  total_storage_bytes = total;
  used_storage_bytes = used;
  total_p2p_db_size_mb = sum_float (present (λ row. row.p2p_db_size_mb) rows);
  total_p2p_records = records;
  available_supernodes = length rows;
})
scan_stats sum_float rows none total used records = none
scan_stats sum_float rows (some cores) none used records = none
scan_stats sum_float rows (some cores) (some total) none records = none
scan_stats sum_float rows (some cores) (some total) (some used) none = none

-- `none`: the query or the scan fails
unfoldable pub get_aggregated_hardware_stats :
    (List Float64 → Float64) → List SupernodeDb → Option HardwareStats
unfolding scan_stats is_fully_available
get_aggregated_hardware_stats sum_float rows =
    let up = filter is_fully_available rows in
    scan_stats sum_float up (scan_int64 (sum (present (λ row. row.cpu_cores) up)))
      (scan_int64 (sum (present (λ row. row.storage_total_bytes) up)))
      (scan_int64 (sum (present (λ row. row.storage_used_bytes) up)))
      (scan_int64 (sum (present (λ row. row.p2p_records) up)))
