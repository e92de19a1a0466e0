-- ===== src/Lumera/Coin/Laws.antt =====
-- `parse_coin_string` cuts a coin string at the end of its longest run of digits.
use Prim.Native.Char.{code}
use Prim.Native.String
use text.Mathlib.TextLemmas.{nil-append, cons-append}
use lumescope.Prelude.{
  ◌≡◌, refl, ap, ◌↔◌, true, false, none, some, arith, ◌∙◌, subst, Bool-cases, inl, inr, String,
}
use lumescope.Strconv.{is_digit}
use lumescope.Lumera.Coin.{parse_coin_string, PriceDecoder, unmarshal_price}

abbrev pub AreDigits : String → Type 0
AreDigits String.[] = Unit
AreDigits (String.◌∷◌ c s) = (is_digit (code c) ≡ true) × AreDigits s

abbrev pub StartsNoNumber : String → Type 0
StartsNoNumber String.[] = Unit
StartsNoNumber (String.◌∷◌ c s) = is_digit (code c) ≡ false

-- The promise of the parser: digits, then a rest that starts with none, and together the input.
pub record IsCoin (s amount denom : String) : Type 0 where
  pub whole : String.◌++◌ amount denom ≡ s
  pub digits : AreDigits amount
  pub rest : StartsNoNumber denom

parse_coin_string-IsCoin : (s : String) → IsCoin s (parse_coin_string s).0 (parse_coin_string s).1
unfolding parse_coin_string
parse_coin_string-IsCoin String.[] = record { whole = nil-append ""; digits = tt; rest = tt }
parse_coin_string-IsCoin (String.◌∷◌ c s) = elim (Bool-cases (is_digit (code c))) [
  | inl digit ↦
      let ih = parse_coin_string-IsCoin s in
      rw digit (record {
        whole = cons-append _ _ _ ∙ ap (λ r. String.◌∷◌ c r) ih.whole;
        digits = (digit, ih.digits);
        rest = ih.rest;
      })
  | inr other ↦ rw other (record { whole = nil-append _; digits = tt; rest = other })
]

parse_coin_string-append :
    (a d : String) → AreDigits a → StartsNoNumber d → parse_coin_string (String.◌++◌ a d) ≡ (a, d)
unfolding parse_coin_string
parse_coin_string-append String.[] String.[] h k = refl
parse_coin_string-append String.[] (String.◌∷◌ c d) h k = rw (nil-append, k)
parse_coin_string-append (String.◌∷◌ c a) d (h, hs) k =
    rw (cons-append, h, parse_coin_string-append a d hs k)

-- A coin string is parsed into an amount and a denom exactly when the amount is all digits, the
-- denom does not start with a digit, and the two make up the string.
pub parse_coin_string_iff :
    (s amount denom : String) → (parse_coin_string s ≡ (amount, denom)) ↔ IsCoin s amount denom
parse_coin_string_iff s a d = (
  λ e. subst (λ (p : String × String). IsCoin s p.0 p.1) e (parse_coin_string-IsCoin s),
  λ c. rw (← c.whole) (parse_coin_string-append a d c.digits c.rest),
)

-- A price is read alike from its struct form and from its coin string: where the struct decoding
-- gives nothing and the string decoding gives digits followed by a denom, the price has those two.
pub unmarshal_price_string :
    (json : PriceDecoder) (bytes amount denom : String)
    → json.as_struct bytes ≡ none
    → json.as_string bytes ≡ some (String.◌++◌ amount denom)
    → AreDigits amount
    → StartsNoNumber denom
    → unmarshal_price json bytes ≡ record { denom = denom; amount = amount }
unfolding unmarshal_price
unmarshal_price_string json bytes a d p q h k =
    ground (arith, p, q, parse_coin_string-append a d h k)
