-- ===== src/Background/Sync/Size.antt =====
-- The size of an action in bytes, computed in 64 bits from the kilobytes that the chain gives.
use lumescope.Prelude.{
  ℕ, ◌*◌, ◌^◌, ◌<◌, String, ◌≡◌, sym, ap, ◌∙◌, none, if-has, eq_iff, ◌==◌, string_eq, some, arith,
}
use lumescope.Prelude.Int.{ℤ, pos, wrap_int, times}
use lumescope.Strconv.{parse_int, ok?}
use lumescope.Background.Sync.{size_bytes, int_or_zero}

empty_unparsed : (text : String) (z : ℤ) → text ≡ "" → ok? (parse_int text) ≡ some z → pos 0 ≡ z
unfolding parse_int
empty_unparsed text z e parsed =
    let nothing : none ≡ some z = ap (λ t. ok? (parse_int t)) (sym e) ∙ parsed in ground arith

int_or_zero_lem : (text : String) (z : ℤ) → ok? (parse_int text) ≡ some z → int_or_zero text ≡ z
int_or_zero_lem text z parsed =
    if-has (λ t. t ≡ z) (text == "") (pos 0) _
      (λ e. empty_unparsed text z ((eq_iff text "").0 e) parsed) (λ _. rw parsed)

-- A number of kilobytes below 2 ^ 53 is converted exactly: no wrap-around takes place.
pub size_bytes_exact :
    (text : String) (kbs : ℕ)
    → ok? (parse_int text) ≡ some (pos kbs)
    → kbs < 2 ^ 53
    → size_bytes text ≡ pos (kbs * 1024)
unfolding size_bytes
size_bytes_exact text kbs parsed small =
    ap (λ z. wrap_int 64 (times z 1024)) (int_or_zero_lem text (pos kbs) parsed) ∙ ground arith
