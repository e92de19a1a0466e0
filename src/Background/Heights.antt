-- ===== src/Background/Heights.antt =====
-- internal/background/scheduler.go: the entry with the highest height of a state or address
-- history. The two loops of the source are one, over what has a height.
pub mod Laws
use lumescope.Prelude.{ℕ, ◌+◌, String, Option, none, some, List, [], ◌∷◌, get_or, if◌then◌else◌}
use lumescope.Prelude.Int.{ℤ, pos, ltb_ℤ}
use lumescope.Strconv.{parse_int, ok?}

pub record SupernodeState : Type 0 where
  pub state : String
  pub height : String

pub record PrevIpAddress : Type 0 where
  pub address : String
  pub height : String

-- the variables maxIdx and maxHeight
pub record Highest : Type 0 where
  pub index : ℕ
  pub height : ℤ

step : Highest → ℕ → Option ℤ → Highest
step best i none = best
step best i (some h) = if ltb_ℤ best.height h then record { index = i; height = h } else best

module _ {A : Type 0} (height : A → String) where
  scan : Highest → ℕ → List A → ℕ
  scan best i [] = best.index
  scan best i (x ∷ xs) = scan (step best i (ok? (parse_int (height x)))) (i + 1) xs

  -- the chosen entry of the non-empty list `x ∷ xs`
  unfoldable pub highest : A → List A → A
  unfolding scan step
  highest x xs = get_or (x ∷ xs) (scan (record { index = 0; height = pos 0 }) 0 (x ∷ xs)) x

abbrev pub state_height : SupernodeState → String
state_height s = s.height

abbrev pub address_height : PrevIpAddress → String
address_height a = a.height

unfoldable pub latest_state : List SupernodeState → String × String
latest_state [] = ("SUPERNODE_STATE_UNKNOWN", "")
latest_state (s ∷ states) = let best = highest state_height s states in (best.state, best.height)

unfoldable pub latest_ip_address : List PrevIpAddress → String
latest_ip_address [] = ""
latest_ip_address (a ∷ addresses) = (highest address_height a addresses).address
