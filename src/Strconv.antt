-- ===== src/Strconv.antt =====
-- strconv of Go's standard library, as far as the program calls it: ParseUint, ParseInt and Atoi
-- in base 10 on a 64-bit machine. On an error Go returns a value beside it, which two callers use
-- without a look at the error: 0 after a syntax error, the nearest bound after a range error.
pub mod Bounds
use Prim.Native.Char.{code}
use lumescope.Prelude.{
  ℕ, ◌+◌, ◌-◌, ◌*◌, ◌^◌, String, Bool, ◌&&◌, ◌||◌, Option, none, some, leb, ltb, nat_beq,
  if◌then◌else◌,
}
use lumescope.Prelude.Int.{ℤ, pos, negsuc}

-- a result, or one of the two errors with the value that comes with it
pub data Parsed (A : Type 0) : Type 0 where
  parsed : A → Parsed A
  syntax_error : Parsed A
  range_error : A → Parsed A

module _ {A : Type 0} where
  -- `v, err := ...` followed by `err == nil`
  abbrev pub ok? : Parsed A → Option A
  ok? (parsed v) = some v
  ok? syntax_error = none
  ok? (range_error v) = none

  -- `v, _ := ...`
  abbrev pub value_or : A → Parsed A → A
  value_or zero_value (parsed v) = v
  value_or zero_value syntax_error = zero_value
  value_or zero_value (range_error v) = v

abbrev pub max_uint64 : ℕ
max_uint64 = 2 ^ 64 - 1

abbrev pub max_int64 : ℕ
max_int64 = 2 ^ 63 - 1

abbrev pub is_digit : ℕ → Bool
is_digit c = leb b'0' c && leb c b'9'

-- the loop of ParseUint: the range is tested at each digit, before the rest is read
scan_uint : ℕ → String → Parsed ℕ
scan_uint n String.[] = parsed n
scan_uint n (String.◌∷◌ ch s) =
    let d = code ch - b'0' in
    let rest = scan_uint (n * 10 + d) s in
    if is_digit (code ch)
    then if ltb max_uint64 (n * 10 + d) then range_error max_uint64 else rest
    else syntax_error

unfoldable pub parse_uint : String → Parsed ℕ
unfolding scan_uint
parse_uint String.[] = syntax_error
parse_uint (String.◌∷◌ c s) = scan_uint 0 (String.◌∷◌ c s)

-- an int64 from its sign and its magnitude
abbrev pub negate : ℕ → ℤ
negate n = if nat_beq n 0 then pos 0 else negsuc (n - 1)

abbrev signed : Bool → Parsed ℕ → Parsed ℤ
signed negative syntax_error = syntax_error
signed negative (range_error un) =
    range_error (if negative then negsuc max_int64 else pos max_int64)
signed negative (parsed un) =
    if negative
    then if ltb (max_int64 + 1) un then range_error (negsuc max_int64) else parsed (negate un)
    else if ltb max_int64 un
    then range_error (pos max_int64)
    else parsed (pos un)

unfoldable pub parse_int : String → Parsed ℤ
unfolding parse_uint
parse_int String.[] = syntax_error
parse_int (String.◌∷◌ c s) =
    if nat_beq (code c) b'+'
    then signed Bool.false (parse_uint s)
    else if nat_beq (code c) b'-'
    then signed Bool.true (parse_uint s)
    else signed Bool.false (parse_uint (String.◌∷◌ c s))
