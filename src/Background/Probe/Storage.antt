-- ===== src/Background/Probe/Storage.antt =====
-- The sums over the storage volumes, which are added on an int64.
use lumescope.Prelude.{ℕ, ◌+◌, ◌≤◌, ◌≡◌, ◌∙◌, ap, List, [], ◌∷◌, All, arith}
use lumescope.Prelude.Int.{ℤ, pos, pos_part, ◌+ℤ◌, wrap_int}
use lumescope.Strconv.{max_int64}
use lumescope.Db.Types.{Float64}
use lumescope.Background.Sync.{int_or_zero}
use lumescope.Background.Probe.Status.{
  StorageVolume, Storage, StatusResponse, sum_volumes, summarize,
}

abbrev pub total_of : StorageVolume → ℕ
total_of vol = pos_part (int_or_zero vol.total_bytes)

abbrev pub used_of : StorageVolume → ℕ
used_of vol = pos_part (int_or_zero vol.used_bytes)

-- neither size is negative
abbrev pub IsMeasured : StorageVolume → Type 0
IsMeasured vol =
    (int_or_zero vol.total_bytes ≡ pos (total_of vol))
    × (int_or_zero vol.used_bytes ≡ pos (used_of vol))

abbrev pub sum_by : (StorageVolume → ℕ) → List StorageVolume → ℕ
sum_by f [] = 0
sum_by f (vol ∷ vols) = f vol + sum_by f vols

abbrev pub last_percent : Float64 → List StorageVolume → Float64
last_percent d [] = d
last_percent d (vol ∷ vols) = last_percent vol.usage_percent vols

add_exact : (a b : ℕ) → a + b ≤ max_int64 → wrap_int 64 (pos a +ℤ pos b) ≡ pos (a + b)
add_exact a b h = ground arith

add_parsed :
    (a b : ℕ) (z : ℤ) → z ≡ pos b → a + b ≤ max_int64 → wrap_int 64 (pos a +ℤ z) ≡ pos (a + b)
add_parsed a b z e h = ap (λ y. wrap_int 64 (pos a +ℤ y)) e ∙ add_exact a b h

abbrev storage : ℕ → ℕ → Float64 → Storage
storage total used percent = record { total = pos total; used = pos used; usage_percent = percent }

same_record :
    (t : ℤ) (n : ℕ) (u : ℤ) (m : ℕ) (percent : Float64)
    → t ≡ pos n
    → u ≡ pos m
    → record { total = t; used = u; usage_percent = percent } ≡ storage n m percent
same_record t n u m percent e f = cc (e, f)

same_storage :
    (a b c d : ℕ) (percent : Float64) → a ≡ b → c ≡ d → storage a c percent ≡ storage b d percent
same_storage a b c d percent e f = cc (e, f)

sum_volumes_exact :
    (total used : ℕ) (percent : Float64) (vols : List StorageVolume)
    → All IsMeasured vols
    → total + sum_by total_of vols ≤ max_int64
    → used + sum_by used_of vols ≤ max_int64
    → sum_volumes (storage total used percent) vols
      ≡ storage
          (total + sum_by total_of vols)
          (used + sum_by used_of vols)
          (last_percent percent vols)
unfolding sum_volumes
sum_volumes_exact total used percent [] m ht hu =
    same_storage total _ used _ percent (omega arith) (omega arith)
sum_volumes_exact total used percent (vol ∷ vols) m ht hu =
    let here = add_parsed total (total_of vol) _ m.0.0 (omega (arith, ht)) in
    let here_used = add_parsed used (used_of vol) _ m.0.1 (omega (arith, hu)) in
    let rest =
      sum_volumes_exact (total + total_of vol) (used + used_of vol) vol.usage_percent vols m.1
        (omega (arith, ht)) (omega (arith, hu)) in
    ap (λ v. sum_volumes v vols)
      (same_record _ (total + total_of vol) _ (used + used_of vol) vol.usage_percent here here_used)
    ∙ rest
    ∙ same_storage (total + total_of vol + sum_by total_of vols) _
        (used + used_of vol + sum_by used_of vols) _ (last_percent vol.usage_percent vols)
        (omega arith) (omega arith)

-- If no volume has a negative size, and the sums are below 2^63, a summary holds the exact sums,
-- and the usage of the last volume.
pub summarize_storage :
    (sr : StatusResponse)
    → All IsMeasured sr.storage_volumes
    → sum_by total_of sr.storage_volumes ≤ max_int64
    → sum_by used_of sr.storage_volumes ≤ max_int64
    → ((summarize sr).storage_total_bytes ≡ pos (sum_by total_of sr.storage_volumes))
      × ((summarize sr).storage_used_bytes ≡ pos (sum_by used_of sr.storage_volumes))
      × ((summarize sr).storage_usage_percent ≡ last_percent 0 sr.storage_volumes)
unfolding summarize
summarize_storage sr m ht hu =
    let sums =
      sum_volumes_exact 0 0 0 sr.storage_volumes m (omega (arith, ht)) (omega (arith, hu)) in
    (
      ap (λ (s : Storage). s.total) sums ∙ ap pos (omega arith),
      ap (λ (s : Storage). s.used) sums ∙ ap pos (omega arith),
      ap (λ (s : Storage). s.usage_percent) sums,
    )
