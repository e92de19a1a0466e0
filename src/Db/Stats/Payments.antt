-- ===== src/Db/Stats/Payments.antt =====
-- internal/db/db.go: GetSupernodePaymentStats. PostgreSQL's cast of texts to numeric and the sum, as
-- a text, are a parameter.
pub mod Laws
use lumescope.Prelude.{
  ℕ, ◌≡◌, String, Bool, ◌&&◌, Option, none, some, List, [], ◌∷◌, ◌==◌, string_eq, option_eq, filter,
  map,
}
use lumescope.Db.Types.{ActionTransaction}
use lumescope.Db.Stats.Groups.{group_by}

pub record PaymentStat : Type 0 where
  pub denom : String
  pub total_action_price : String
  pub total_tx_fee : String

abbrev pub paid_to : String → Option String → Bool
paid_to account none = Bool.false
paid_to account (some payee) = payee == account

-- "txType" = 'finalize' AND "flowPayee" = $1
abbrev pub is_payment_to : String → ActionTransaction → Bool
is_payment_to account t = t.tx_type == "finalize" && paid_to account t.flow_payee

abbrev pub given : List (Option String) → List String
given [] = []
given (none ∷ os) = given os
given (some s ∷ os) = s ∷ given os

-- COALESCE(SUM(...::numeric), 0)::text
abbrev pub sum_or_zero : (List String → Option String) → List String → Option String
sum_or_zero sum_numeric [] = some "0"
sum_or_zero sum_numeric (s ∷ ss) = sum_numeric (s ∷ ss)

stat_from : Option String → Option String → Option String → Option PaymentStat
stat_from denom (some price) (some fee) = some (record {
  denom = elim denom [ none ↦ "" | some d ↦ d ];
  total_action_price = price;
  total_tx_fee = fee;
})
stat_from denom none fee = none
stat_from denom (some price) none = none

-- the columns of one group; `none`: a text is no number, and the query fails
unfoldable pub payment_stat :
    (List String → Option String) → Option String × List ActionTransaction → Option PaymentStat
unfolding stat_from
payment_stat sum_numeric (denom, rows) =
    stat_from denom
      (sum_or_zero sum_numeric (given (map (λ (t : ActionTransaction). t.action_price) rows)))
      (sum_or_zero sum_numeric (given (map (λ (t : ActionTransaction). t.tx_fee) rows)))

and_then : Option PaymentStat → Option (List PaymentStat) → Option (List PaymentStat)
and_then none stats = none
and_then (some s) none = none
and_then (some s) (some stats) = some (s ∷ stats)

-- the loop over the groups
pub payment_stats :
    (List String → Option String)
    → List (Option String × List ActionTransaction)
    → Option (List PaymentStat)
unfolding payment_stat and_then
payment_stats sum_numeric [] = some []
payment_stats sum_numeric (g ∷ gs) =
    and_then (payment_stat sum_numeric g) (payment_stats sum_numeric gs)

abbrev pub denom_of : ActionTransaction → Option String
denom_of t = t.action_price_denom

unfoldable pub get_supernode_payment_stats :
    (List String → Option String) → String → List ActionTransaction → Option (List PaymentStat)
unfolding payment_stats
get_supernode_payment_stats sum_numeric account txs =
    payment_stats sum_numeric (group_by denom_of (filter (is_payment_to account) txs))
