-- ===== src/Db/Stats/Payments/Laws.antt =====
-- The payments of a supernode by denomination.
use lumescope.Prelude.{
  ◌≡◌, refl, sym, ap, ◌∙◌, Bool, true, false, ◌&&◌, ◌||◌, String, Option, none, some, List, [], ◌∷◌,
  ◌==◌, string_eq, option_eq, All, any, any-image, filter, map, Bool-cases, inl, inr, subst,
}
use lumescope.Db.Types.{ActionTransaction}
use lumescope.Db.Keyset.Order.{Distinct, Distinct-image, All-map}
use lumescope.Db.Stats.Groups.{group_by, group_by-rows, group_by-Distinct, any-group_by, label}
use lumescope.Db.Stats.Payments.{
  PaymentStat, paid_to, is_payment_to, given, sum_or_zero, stat_from, payment_stat, and_then,
  denom_of, payment_stats, get_supernode_payment_stats,
}

-- a 'finalize' transaction that pays the account
abbrev pub pays : String → ActionTransaction → Bool
pays account t = t.tx_type == "finalize" && t.flow_payee == some account

-- the payments in one denomination, or without one
abbrev pub payments_in : String → List ActionTransaction → Option String → List ActionTransaction
payments_in account txs denom = filter (λ t. pays account t && t.action_price_denom == denom) txs

-- the texts in a column, without NULL
abbrev pub with_text : Option String → List String → List String
with_text none texts = texts
with_text (some s) texts = s ∷ texts

abbrev pub texts : (ActionTransaction → Option String) → List ActionTransaction → List String
texts column [] = []
texts column (t ∷ ts) = with_text (column t) (texts column ts)

-- the sum of the texts, 0 where there are none
abbrev pub total : (List String → Option String) → List String → Option String
total sum_numeric [] = some "0"
total sum_numeric (s ∷ ss) = sum_numeric (s ∷ ss)

abbrev pub denoms : String → List ActionTransaction → List (Option String)
denoms account txs = map label (group_by denom_of (filter (is_payment_to account) txs))

abbrev pub denom_text : Option String → String
denom_text none = ""
denom_text (some d) = d

abbrev pub is_missing : Option String → Bool
is_missing none = true
is_missing (some s) = false

module _ (sum_numeric : List String → Option String)
    (rows : Option String → List ActionTransaction) where
  abbrev pub price_total : Option String → Option String
  price_total denom = total sum_numeric (texts (λ t. t.action_price) (rows denom))

  abbrev pub fee_total : Option String → Option String
  fee_total denom = total sum_numeric (texts (λ t. t.tx_fee) (rows denom))

  -- the entry of a denomination
  abbrev pub IsEntry : Option String → PaymentStat → Type 0
  IsEntry denom stat =
      (stat.denom ≡ denom_text denom)
      × (price_total denom ≡ some stat.total_action_price)
      × (fee_total denom ≡ some stat.total_tx_fee)

  -- one entry for each denomination, in their order
  abbrev pub AreEntries : List (Option String) → List PaymentStat → Type 0
  AreEntries [] [] = Unit
  AreEntries [] (s ∷ stats) = ⊥
  AreEntries (k ∷ ks) [] = ⊥
  AreEntries (k ∷ ks) (s ∷ stats) = IsEntry k s × AreEntries ks stats

  -- the answer, or an error where the database cannot sum one of the columns
  abbrev pub IsAnswer : List (Option String) → Option (List PaymentStat) → Type 0
  IsAnswer ks none =
      any (λ denom. is_missing (price_total denom) || is_missing (fee_total denom)) ks ≡ true
  IsAnswer ks (some stats) = AreEntries ks stats

  IsAnswer-and_then :
      (k : Option String) (ks : List (Option String)) (price fee : Option String)
      → (rest : Option (List PaymentStat)) → price_total k ≡ price
      → fee_total k ≡ fee
      → IsAnswer ks rest
      → IsAnswer (k ∷ ks) (and_then (stat_from k price fee) rest)
  unfolding and_then stat_from
  IsAnswer-and_then k ks none fee rest hp hf h = rw hp
  IsAnswer-and_then k ks (some p) none rest hp hf h = rw (hp, hf)
  IsAnswer-and_then k ks (some p) (some f) none hp hf h = rw (hp, hf) h
  IsAnswer-and_then none ks (some p) (some f) (some stats) hp hf h = ((refl, hp, hf), h)
  IsAnswer-and_then (some k) ks (some p) (some f) (some stats) hp hf h = ((refl, hp, hf), h)

  with_text_lem :
      (o : Option String) (os : List (Option String)) → with_text o (given os) ≡ given (o ∷ os)
  with_text_lem none os = refl
  with_text_lem (some s) os = refl

  texts_lem :
      (column : ActionTransaction → Option String) (ts : List ActionTransaction)
      → texts column ts ≡ given (map column ts)
  texts_lem column [] = refl
  texts_lem column (t ∷ ts) =
      ap (with_text (column t)) (texts_lem column ts) ∙ with_text_lem (column t) (map column ts)

  total_lem : (ss : List String) → total sum_numeric ss ≡ sum_or_zero sum_numeric ss
  total_lem [] = refl
  total_lem (s ∷ ss) = refl

  payment_stats-IsAnswer :
      (ks : List (Option String))
      → IsAnswer ks (payment_stats sum_numeric (map (λ k. (k, rows k)) ks))
  unfolding payment_stats payment_stat
  payment_stats-IsAnswer [] = tt
  payment_stats-IsAnswer (k ∷ ks) =
      IsAnswer-and_then k ks _ _ _
        (ap (total sum_numeric) (texts_lem (λ t. t.action_price) (rows k))
          ∙ total_lem (given (map (λ (t : ActionTransaction). t.action_price) (rows k))))
        (ap (total sum_numeric) (texts_lem (λ t. t.tx_fee) (rows k))
          ∙ total_lem (given (map (λ (t : ActionTransaction). t.tx_fee) (rows k))))
        (payment_stats-IsAnswer ks)

with_rows :
    (f : Option String → List ActionTransaction)
    (gs : List (Option String × List ActionTransaction))
    → All (λ (g : Option String × List ActionTransaction). g.1 ≡ f g.0) gs
    → gs ≡ map (λ k. (k, f k)) (map label gs)
with_rows f [] h = refl
with_rows f (g ∷ gs) h = cc (h.0, with_rows f gs h.1)

paid_to_lem : (account : String) (o : Option String) → paid_to account o ≡ (o == some account)
paid_to_lem account none = refl
paid_to_lem account (some payee) = refl

is_payment_to-pays :
    (account : String) (t : ActionTransaction) → is_payment_to account t ≡ pays account t
is_payment_to-pays account t =
    ap (λ b. t.tx_type == "finalize" && b) (paid_to_lem account t.flow_payee)

filter-payments_in :
    (account : String) (denom : Option String) (txs : List ActionTransaction)
    → filter (λ t. denom_of t == denom) (filter (is_payment_to account) txs)
      ≡ payments_in account txs denom
filter-payments_in account denom [] = refl
filter-payments_in account denom (t ∷ txs) =
    let same = is_payment_to-pays account t in
    elim (Bool-cases (pays account t)) [
      | inr e ↦ rw (same ∙ e, e) (filter-payments_in account denom txs)
      | inl e ↦ elim (Bool-cases (denom_of t == denom)) [
        | inl k ↦ rw (same ∙ e, e, k) (ap (λ ts. t ∷ ts) (filter-payments_in account denom txs))
        | inr k ↦ rw (same ∙ e, e, k) (filter-payments_in account denom txs)
      ]
    ]

any-pays :
    (account : String) (p : ActionTransaction → Bool) (txs : List ActionTransaction)
    → any p (filter (is_payment_to account) txs) ≡ any (λ t. pays account t && p t) txs
any-pays account p [] = refl
any-pays account p (t ∷ txs) =
    let same = is_payment_to-pays account t in
    elim (Bool-cases (pays account t)) [
      | inl e ↦ rw (same ∙ e, e) (ap (λ b. p t || b) (any-pays account p txs))
      | inr e ↦ rw (same ∙ e, e) (any-pays account p txs)
    ]

-- The answer has one entry for each denomination of the 'finalize' transactions that pay the
-- supernode, and one for those without a denomination if there are any. The entry's price is the sum
-- of the prices of the payments in its denomination alone, its fee the sum of their fees, 0 where there
-- are none. The query fails only where the database cannot sum one of these columns.
pub get_supernode_payment_stats_lem :
    (sum_numeric : List String → Option String) (account : String) (txs : List ActionTransaction)
    → IsAnswer sum_numeric
        (payments_in account txs)
        (denoms account txs)
        (get_supernode_payment_stats sum_numeric account txs)
      × Distinct (λ (k : Option String). k) (denoms account txs)
      × ((k : Option String)
          → any (λ d. d == k) (denoms account txs)
            ≡ any (λ t. pays account t && t.action_price_denom == k) txs)
unfolding get_supernode_payment_stats
get_supernode_payment_stats_lem sum_numeric account txs =
    let paid = filter (is_payment_to account) txs in
    let groups = group_by denom_of paid in
    let grouped : groups ≡ map (λ k. (k, payments_in account txs k)) (denoms account txs) =
      with_rows (payments_in account txs) groups (
        All-map (λ g h. h ∙ filter-payments_in account g.0 txs) groups
          (group_by-rows denom_of paid)) in
    (
      subst
          (λ gs.
            IsAnswer sum_numeric (payments_in account txs) (denoms account txs)
              (payment_stats sum_numeric gs))
          (sym grouped)
          (payment_stats-IsAnswer sum_numeric (payments_in account txs) (denoms account txs)),
      Distinct-image (λ k. k) label groups (group_by-Distinct denom_of paid),
      λ k.
          any-image (λ d. d == k) label groups
          ∙ any-group_by denom_of k paid
          ∙ any-pays account (λ t. denom_of t == k) txs,
    )
