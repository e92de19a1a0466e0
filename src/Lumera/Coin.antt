-- ===== src/Lumera/Coin.antt =====
-- internal/lumera/client.go: coin strings such as "10090ulume", and the two JSON forms of a price.
pub mod Laws
use Prim.Native.Char.{code}
use lumescope.Prelude.{String, ◌||◌, not, Option, none, some, ◌==◌, string_eq, if◌then◌else◌}
use lumescope.Strconv.{is_digit}

-- the amount and the denom; an empty string gives two empty ones
unfoldable pub parse_coin_string : String → String × String
parse_coin_string String.[] = ("", "")
parse_coin_string (String.◌∷◌ c s) =
    let (amount, denom) = parse_coin_string s in
    if is_digit (code c) then (String.◌∷◌ c amount, denom) else ("", String.◌∷◌ c s)

pub record PriceField : Type 0 where
  pub denom : String
  pub amount : String

-- json.Unmarshal of the bytes into the struct and into a string, `none` for its error
pub record PriceDecoder : Type 0 where
  pub as_struct : String → Option PriceField
  pub as_string : String → Option String

from_coin : Option String → PriceField
unfolding parse_coin_string
from_coin none = record { denom = ""; amount = "" }
from_coin (some s) = let (a, d) = parse_coin_string s in record { denom = d; amount = a }

unfoldable pub unmarshal_price : PriceDecoder → String → PriceField
unfolding from_coin
unmarshal_price json bytes = elim (json.as_struct bytes) [
  | some p ↦
      if not (p.denom == "") || not (p.amount == "") then p else from_coin (json.as_string bytes)
  | none ↦ from_coin (json.as_string bytes)
]
