-- ===== src/Prelude/Text.antt =====
-- Go strings as native texts: their code points, and the functions of `strings` that the program
-- calls. Every separator is ASCII, so a cut never falls inside a character.
use Prim.Native.Char.{Char, code}
use text.Mathlib.Text.{◌==◌ as same_text}
use Prim.Native.String
use Prim.Native.String.{String}
use text.Mathlib.TextLemmas.{nil-append, cons-append}
use mathlib.Core.Path.{◌≡◌, refl, sym, ap, ◌∙◌}
use mathlib.Core.Logic.{inl, inr}
use mathlib.Core.Bool.{Bool, true, false, ◌||◌, ◌&&◌}
use mathlib.Core.Option.{Option, none, some}
use mathlib.Core.List.{List, [], ◌∷◌}
use Prim.Native.Nat.{ℕ}
use lumescope.Prelude.Tests.{nat_beq, leb, if◌then◌else◌, Bool-cases, if-has}
use lumescope.Prelude.Lists.{All}
use native.Mathlib.Omega.{arith}

abbrev pub codes : String → List ℕ
codes String.[] = []
codes (String.◌∷◌ c s) = code c ∷ codes s

-- strings.Contains(s, c) for a single character
abbrev pub contains_char : ℕ → String → Bool
contains_char n String.[] = false
contains_char n (String.◌∷◌ c s) = nat_beq (code c) n || contains_char n s

-- strings.TrimPrefix, with `none` where the prefix is missing: HasPrefix and the cut in one
abbrev pub strip_prefix? : String → String → Option String
strip_prefix? String.[] s = some s
strip_prefix? (String.◌∷◌ p ps) String.[] = none
strip_prefix? (String.◌∷◌ p ps) (String.◌∷◌ c s) =
    if nat_beq (code p) (code c) then strip_prefix? ps s else none

-- the part before the first occurrence of a character
abbrev pub before : ℕ → String → String
before n String.[] = ""
before n (String.◌∷◌ c s) = if nat_beq (code c) n then "" else String.◌∷◌ c (before n s)

abbrev pub cut : Bool → Char → List String → List String
cut true c parts = "" ∷ parts
cut false c [] = String.◌∷◌ c "" ∷ []
cut false c (part ∷ parts) = String.◌∷◌ c part ∷ parts

abbrev pub is_empty : String → Bool
is_empty String.[] = true
is_empty (String.◌∷◌ c s) = false

-- the text cut at each occurrence of a character: strings.Split for a separator of one character
abbrev pub split : ℕ → String → List String
split n String.[] = "" ∷ []
split n (String.◌∷◌ c s) = cut (nat_beq (code c) n) c (split n s)

-- strings.HasSuffix
abbrev pub has_suffix : String → String → Bool
has_suffix suffix String.[] = is_empty suffix
has_suffix suffix (String.◌∷◌ c s) = same_text (String.◌∷◌ c s) suffix || has_suffix suffix s

-- unicode.IsSpace
abbrev pub is_space : ℕ → Bool
is_space n =
    (leb 9 n && leb n 13)
    || (nat_beq n 32
        || (nat_beq n 0x85
            || (nat_beq n 0xA0
                || (nat_beq n 0x1680
                    || ((leb 0x2000 n && leb n 0x200A)
                        || (nat_beq n 0x2028
                            || (nat_beq n 0x2029
                                || (nat_beq n 0x202F
                                    || (nat_beq n 0x205F || nat_beq n 0x3000)))))))))

abbrev pub trim_left : String → String
trim_left String.[] = ""
trim_left (String.◌∷◌ c s) = if is_space (code c) then trim_left s else String.◌∷◌ c s

abbrev add_unless_blank : Bool → String → String → String
add_unless_blank true s String.[] = ""
add_unless_blank true s (String.◌∷◌ d r) = s
add_unless_blank false s r = s

trim_right : String → String
trim_right String.[] = ""
trim_right (String.◌∷◌ c s) =
    let rest = trim_right s in add_unless_blank (is_space (code c)) (String.◌∷◌ c rest) rest

-- strings.TrimSpace
unfoldable pub trim_space : String → String
unfolding trim_right
trim_space s = trim_right (trim_left s)

module _ (n : ℕ) where
  pub contains-before : (s : String) → contains_char n (before n s) ≡ false
  contains-before String.[] = refl
  contains-before (String.◌∷◌ c s) =
      if-has (λ t. contains_char n t ≡ false) (nat_beq (code c) n) "" (String.◌∷◌ c (before n s))
        (λ _. refl) (λ e. rw (e, contains-before s))

  contains-trim_left :
      (s : String) → contains_char n s ≡ false → contains_char n (trim_left s) ≡ false
  contains-trim_left String.[] h = refl
  contains-trim_left (String.◌∷◌ c s) h = elim (Bool-cases (is_space (code c))) [
    | inl e ↦ rw e (contains-trim_left s (ground arith))
    | inr e ↦ rw (e, h)
  ]

  contains-add_unless_blank :
      (b : Bool) (s r : String)
      → contains_char n s ≡ false
      → contains_char n r ≡ false
      → contains_char n (add_unless_blank b s r) ≡ false
  contains-add_unless_blank true s String.[] hs hr = refl
  contains-add_unless_blank true s (String.◌∷◌ d r) hs hr = hs
  contains-add_unless_blank false s r hs hr = hs

  contains-trim_right :
      (s : String) → contains_char n s ≡ false → contains_char n (trim_right s) ≡ false
  unfolding trim_right
  contains-trim_right String.[] h = refl
  contains-trim_right (String.◌∷◌ c s) h =
      contains-add_unless_blank (is_space (code c)) (String.◌∷◌ c (trim_right s)) (trim_right s)
        (ground (arith, contains-trim_right s)) (ground (arith, contains-trim_right s))

  -- Trimming brings no character in.
  pub contains-trim_space :
      (s : String) → contains_char n s ≡ false → contains_char n (trim_space s) ≡ false
  unfolding trim_space
  contains-trim_space s h = contains-trim_right (trim_left s) (contains-trim_left s h)

pub strip_prefix?-append : (p s : String) → strip_prefix? p (String.◌++◌ p s) ≡ some s
strip_prefix?-append String.[] s = rw (nil-append s)
strip_prefix?-append (String.◌∷◌ c p) s = rw (cons-append c p s) (
    if-has (λ o. o ≡ some s) (nat_beq (code c) (code c)) _ none (λ _. strip_prefix?-append p s)
      (λ ne. ground (arith, ne)))

trim_right-add :
    (c : Char) (r : String) (b : Bool)
    → is_space (code c) ≡ b
    → trim_right r ≡ r
    → trim_right (add_unless_blank b (String.◌∷◌ c r) r) ≡ add_unless_blank b (String.◌∷◌ c r) r
unfolding trim_right
trim_right-add c String.[] true e h = refl
trim_right-add c String.[] false e h = rw e
trim_right-add c (String.◌∷◌ d r) true e h =
    ap (λ t. add_unless_blank (is_space (code c)) (String.◌∷◌ c t) t) h ∙ rw e
trim_right-add c (String.◌∷◌ d r) false e h =
    ap (λ t. add_unless_blank (is_space (code c)) (String.◌∷◌ c t) t) h ∙ rw e

trim_right_twice : (s : String) → trim_right (trim_right s) ≡ trim_right s
unfolding trim_right
trim_right_twice String.[] = refl
trim_right_twice (String.◌∷◌ c s) =
    trim_right-add c (trim_right s) (is_space (code c)) refl (trim_right_twice s)

trim_left_trimmed : (s : String) → trim_left (trim_right (trim_left s)) ≡ trim_right (trim_left s)
unfolding trim_right
trim_left_trimmed String.[] = refl
trim_left_trimmed (String.◌∷◌ c s) = elim (Bool-cases (is_space (code c))) [
  | inl e ↦ rw e (trim_left_trimmed s)
  | inr e ↦
      let first : trim_right (String.◌∷◌ c s) ≡ String.◌∷◌ c (trim_right s) = rw e in
      let kept : trim_left (String.◌∷◌ c (trim_right s)) ≡ String.◌∷◌ c (trim_right s) = rw e in
      rw e (ap trim_left first ∙ kept ∙ sym first)
]

-- Trimming twice is trimming once.
pub trim_space_twice : (s : String) → trim_space (trim_space s) ≡ trim_space s
unfolding trim_space
trim_space_twice s = ap trim_right (trim_left_trimmed s) ∙ trim_right_twice (trim_left s)

module _ (n : ℕ) where
  cut-lacks :
      (c : Char) (parts : List String) (b : Bool)
      → nat_beq (code c) n ≡ b
      → All (λ p. contains_char n p ≡ false) parts
      → All (λ p. contains_char n p ≡ false) (cut b c parts)
  cut-lacks c parts true e h = (refl, h)
  cut-lacks c [] false e h = (rw e, tt)
  cut-lacks c (part ∷ parts) false e h = (rw (e, h.0), h.1)

  -- The parts of a text that is split lack the separator.
  pub split-lacks : (s : String) → All (λ p. contains_char n p ≡ false) (split n s)
  split-lacks String.[] = (refl, tt)
  split-lacks (String.◌∷◌ c s) = cut-lacks c (split n s) (nat_beq (code c) n) refl (split-lacks s)
