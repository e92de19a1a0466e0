-- ===== src/Tests/Collation.antt =====
-- The collation "C", the order of the codes: one that `Db.Keyset.KeyOrder` can stand for.
use Prim.Native.Char.{code}
use text.Mathlib.TextEquality.{codes_equal}
use Prim.Native.Nat.{compare, Ordering}
use lumescope.Prelude.{ℕ, String, ◌≡◌, refl, Bool, true, false, arith, ltb, if◌then◌else◌}
use lumescope.Db.Keyset.{KeyOrder}

abbrev code_lt : String → String → Bool
code_lt String.[] String.[] = false
code_lt String.[] (String.◌∷◌ d t) = true
code_lt (String.◌∷◌ c s) String.[] = false
code_lt (String.◌∷◌ c s) (String.◌∷◌ d t) =
    if ltb (code c) (code d) then true else if ltb (code d) (code c) then false else code_lt s t

pub code_lt_irrefl : (s : String) → code_lt s s ≡ false
code_lt_irrefl String.[] = refl
code_lt_irrefl (String.◌∷◌ c s) = ground (arith, code_lt_irrefl s)

pub code_lt_trans : (s t u : String) → code_lt s t ≡ true → code_lt t u ≡ true → code_lt s u ≡ true
code_lt_trans String.[] String.[] String.[] h k = h
code_lt_trans String.[] (String.◌∷◌ d t) String.[] h k = ground arith
code_lt_trans String.[] t (String.◌∷◌ e u) h k = refl
code_lt_trans (String.◌∷◌ c s) String.[] u h k = ground arith
code_lt_trans (String.◌∷◌ c s) (String.◌∷◌ d t) String.[] h k = ground arith
code_lt_trans (String.◌∷◌ c s) (String.◌∷◌ d t) (String.◌∷◌ e u) h k =
    ground (arith, code_lt_trans s t u)

same_code : (a b : ℕ) → ltb a b ≡ false → ltb b a ≡ false → compare a b ≡ Ordering.eq
same_code a b h k = ground arith

pub code_lt_total : (s t : String) → code_lt s t ≡ false → code_lt t s ≡ false → s ≡ t
code_lt_total String.[] String.[] h k = refl
code_lt_total String.[] (String.◌∷◌ d t) h k = ground arith
code_lt_total (String.◌∷◌ c s) String.[] h k = ground arith
code_lt_total (String.◌∷◌ c s) (String.◌∷◌ d t) h k =
    let same = codes_equal c d (same_code (code c) (code d) (ground arith) (ground arith)) in
    let rest : s ≡ t = code_lt_total s t (ground arith) (ground arith) in
    λ i. String.◌∷◌ (same i) (rest i)

unfoldable pub by_code : KeyOrder String
by_code = record {
  lt = code_lt;
  irrefl = code_lt_irrefl;
  trans = code_lt_trans;
  total = code_lt_total;
}
