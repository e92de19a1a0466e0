-- ===== src/Strconv/Bounds.antt =====
-- The bounds of what the parsers of numbers return.
use Prim.Native.Char.{code}
use lumescope.Prelude.{ℕ, ◌+◌, ◌-◌, ◌*◌, ◌≤◌, String, ◌≡◌, refl, arith, Bool, true, false}
use lumescope.Prelude.Int.{ℤ, pos, negsuc, pos_part, neg_part}
use lumescope.Strconv.{
  Parsed, parsed, syntax_error, range_error, value_or, max_uint64, max_int64, scan_uint, parse_uint,
  signed, parse_int,
}

scan_uint-le-max : (n : ℕ) (s : String) → n ≤ max_uint64 → value_or 0 (scan_uint n s) ≤ max_uint64
unfolding scan_uint
scan_uint-le-max n String.[] h = h
scan_uint-le-max n (String.◌∷◌ c s) h =
    ground (arith, scan_uint-le-max (n * 10 + (code c - b'0')) s)

-- A parsed uint64 fits in 64 bits, whether the error is looked at or not.
pub parse_uint-le-max : (s : String) → value_or 0 (parse_uint s) ≤ max_uint64
unfolding parse_uint
parse_uint-le-max String.[] = omega arith
parse_uint-le-max (String.◌∷◌ c s) = scan_uint-le-max 0 (String.◌∷◌ c s) (omega arith)

-- An int64 is at least -2^63 and less than 2^63.
abbrev pub IsInt64 : ℤ → Type 0
IsInt64 v = (pos_part v ≤ max_int64) × (neg_part v ≤ max_int64 + 1)

signed-IsInt64 : (negative : Bool) (p : Parsed ℕ) → IsInt64 (value_or (pos 0) (signed negative p))
signed-IsInt64 true (parsed n) = ground arith
signed-IsInt64 true syntax_error = ground arith
signed-IsInt64 true (range_error n) = ground arith
signed-IsInt64 false (parsed n) = ground arith
signed-IsInt64 false syntax_error = ground arith
signed-IsInt64 false (range_error n) = ground arith

pub parse_int-IsInt64 : (s : String) → IsInt64 (value_or (pos 0) (parse_int s))
unfolding parse_int
parse_int-IsInt64 String.[] = ground arith
parse_int-IsInt64 (String.◌∷◌ c s) = ground (
  arith,
  signed-IsInt64 false (parse_uint s),
  signed-IsInt64 true (parse_uint s),
  signed-IsInt64 false (parse_uint (String.◌∷◌ c s)),
)

parse_tests :
    (parse_int "-12" ≡ parsed (negsuc 11))
    × (parse_int "+7" ≡ parsed (pos 7))
    × (parse_int "" ≡ syntax_error)
    × (parse_int "-" ≡ syntax_error)
    × (parse_int "9223372036854775808" ≡ range_error (pos max_int64))
    × (parse_int "-9223372036854775808" ≡ parsed (negsuc max_int64))
    × (parse_uint "99999999999999999999999x" ≡ range_error max_uint64)
    × (parse_uint "12x" ≡ syntax_error)
unfolding parse_int parse_uint
parse_tests = (refl, refl, refl, refl, refl, refl, refl, refl)
