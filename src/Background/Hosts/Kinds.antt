-- ===== src/Background/Hosts/Kinds.antt =====
-- The characters of a host name: what the description asks of them, and which tests they pass.
use lumescope.Prelude.{
  ℕ, ◌≡◌, Bool, true, false, ◌&&◌, ◌||◌, not, List, [], ◌∷◌, ◌==◌, nat_eq, arith, Bool-cases, inl,
  inr, ◌<◌,
}
use lumescope.Strconv.{is_digit}
use lumescope.Background.Hosts.{is_letter}

abbrev pub is_dot : ℕ → Bool
is_dot c = c == b'.'

abbrev pub is_legal : ℕ → Bool
is_legal c = is_letter c || is_digit c || is_dot c || c == b'-'

abbrev pub all : (ℕ → Bool) → List ℕ → Bool
all p [] = true
all p (c ∷ cs) = p c && all p cs

-- a dot or a hyphen
abbrev pub is_mark : ℕ → Bool
is_mark c = is_dot c || c == b'-'

abbrev pub ends_well : List ℕ → Bool
ends_well [] = true
ends_well (c ∷ []) = not (is_mark c)
ends_well (c ∷ d ∷ cs) = ends_well (d ∷ cs)

abbrev pub starts_well : List ℕ → Bool
starts_well [] = true
starts_well (c ∷ cs) = not (is_mark c)

abbrev pub no_double_dot : ℕ → List ℕ → Bool
no_double_dot previous [] = true
no_double_dot previous (c ∷ cs) = not (is_dot previous && is_dot c) && no_double_dot c cs

-- the tests of the loop on one character, and those of the description
pub record Looks (c : ℕ) (letter dot digit hyphen : Bool) : Type 0 where
  pub letter_lem : is_letter c ≡ letter
  pub dot_lem : (c == b'.') ≡ dot
  pub digit_lem : is_digit c ≡ digit
  pub hyphen_lem : (c == b'-') ≡ hyphen

-- a character passes at most one of the tests
pub data Kind (c : ℕ) : Type 0 where
  a_letter : Looks c true false false false → Kind c
  a_dot : Looks c false true false false → Kind c
  a_digit : Looks c false false true false → Kind c
  a_hyphen : Looks c false false false true → Kind c
  other : Looks c false false false false → Kind c

not_letter : (c : ℕ) → c < b'A' → is_letter c ≡ false
not_letter c h = ground arith

pub classify : (c : ℕ) → Kind c
classify c = elim (Bool-cases (is_letter c)) [
  | inl e ↦ a_letter (record {
    letter_lem = e;
    dot_lem = ground arith;
    digit_lem = ground arith;
    hyphen_lem = ground arith;
  })
  | inr l ↦ elim (Bool-cases (c == b'.')) [
    | inl e ↦ a_dot (record {
      letter_lem = l;
      dot_lem = e;
      digit_lem = ground arith;
      hyphen_lem = ground arith;
    })
    | inr d ↦ elim (Bool-cases (is_digit c)) [
      | inl e ↦
          a_digit (record { letter_lem = l; dot_lem = d; digit_lem = e; hyphen_lem = ground arith })
      | inr g ↦ elim (Bool-cases (c == b'-')) [
        | inl e ↦ a_hyphen (record { letter_lem = l; dot_lem = d; digit_lem = g; hyphen_lem = e })
        | inr h ↦ other (record { letter_lem = l; dot_lem = d; digit_lem = g; hyphen_lem = h })
      ]
    ]
  ]
]
