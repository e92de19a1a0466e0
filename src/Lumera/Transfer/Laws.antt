-- ===== src/Lumera/Transfer/Laws.antt =====
-- What a transfer event says, and which transfer is chosen as the flow of an action.
use lumescope.Prelude.{
  ℕ, String, ◌≡◌, refl, ap, ◌∙◌, Bool, any, ◌||◌, true, false, ◌&&◌, not, ◌⊎◌, inl, inr, Option,
  none, some, List, [], ◌∷◌, arith, ◌==◌, string_eq, if◌then◌else◌, Bool-cases, eq_iff,
}
use lumescope.Lumera.Coin.{parse_coin_string}
use lumescope.Lumera.Transfer.{
  Attribute, Event, AbciLog, TransferFlow, no_flow, keep_empty, with_party, read_attribute,
  read_attributes, parse_transfer_event, collect_transfers, pays_to, paid_by, paid_by_other,
  select_register, select_payout, FlowContext, extract_transfer_flow,
}
use lumescope.Lumera.Transfer.Best.{IsBest, rank_rule, try_rule-IsBest, first-IsBest}

-- The value that the last attribute with a value gives.
abbrev pub override : Option String → Option String → Option String
override none old = old
override (some s) old = some s

abbrev pub last_of : (Attribute → Option String) → List Attribute → Option String
last_of value [] = none
last_of value (a ∷ rest) = override (last_of value rest) (value a)

abbrev pub valued : String → Attribute → Option String
valued key a = if a.key == key then some a.value else none

abbrev nonempty : String → Option String
nonempty s = if s == "" then none else some s

abbrev pub amount_of : Attribute → Option String
amount_of a = if a.key == "amount" then nonempty (parse_coin_string a.value).0 else none

abbrev pub denom_of : Attribute → Option String
denom_of a = if a.key == "amount" then nonempty (parse_coin_string a.value).1 else none

abbrev pub described : List Attribute → TransferFlow
described attrs = record {
  amount = last_of amount_of attrs;
  denom = last_of denom_of attrs;
  payer = last_of (valued "sender") attrs;
  payee = last_of (valued "recipient") attrs;
}

abbrev over : TransferFlow → TransferFlow → TransferFlow
over new old = record {
  amount = override new.amount old.amount;
  denom = override new.denom old.denom;
  payer = override new.payer old.payer;
  payee = override new.payee old.payee;
}

override_assoc : (a b c : Option String) → override a (override b c) ≡ override (override a b) c
override_assoc none b c = refl
override_assoc (some s) b c = refl

abbrev one : Attribute → TransferFlow
one a = record {
  amount = amount_of a;
  denom = denom_of a;
  payer = valued "sender" a;
  payee = valued "recipient" a;
}

-- the keys are told apart, so at most one of the three tests passes
other_keys :
    (k : String)
    → ((k == "sender") ≡ true → ((k == "recipient") ≡ false) × ((k == "amount") ≡ false))
      × ((k == "recipient") ≡ true → (k == "amount") ≡ false)
other_keys k =
    (λ e. rw ((eq_iff k "sender").0 e) (refl, refl), λ e. rw ((eq_iff k "recipient").0 e) refl)

keep_empty-override :
    (old : Option String) (s : String) → keep_empty old s ≡ override (nonempty s) old
keep_empty-override old s = elim (Bool-cases (s == "")) [ inl e ↦ rw e | inr e ↦ rw e ]

read_attribute_lem : (tf : TransferFlow) (a : Attribute) → read_attribute tf a ≡ over (one a) tf
unfolding read_attribute
read_attribute_lem tf a = elim (Bool-cases (a.key == "sender")) [
  | inl e ↦ let (r, m) = (other_keys a.key).0 e in rw (e, r, m, read_attribute)
  | inr n ↦ elim (Bool-cases (a.key == "recipient")) [
    | inl e ↦ rw (n, e, (other_keys a.key).1 e, read_attribute)
    | inr k ↦ elim (Bool-cases (a.key == "amount")) [
      | inl e ↦
          rw (n, k, e, read_attribute)
            (let (amount, denom) = parse_coin_string a.value in
              rw (keep_empty-override tf.amount amount, keep_empty-override tf.denom denom))
      | inr m ↦ rw (n, k, m, read_attribute)
    ]
  ]
]

over_assoc : (a b c : TransferFlow) → over a (over b c) ≡ over (over a b) c
over_assoc a b c = ground (
  arith,
  override_assoc a.amount b.amount c.amount,
  override_assoc a.denom b.denom c.denom,
  override_assoc a.payer b.payer c.payer,
  override_assoc a.payee b.payee c.payee,
)

read_attributes_lem :
    (tf : TransferFlow) (attrs : List Attribute)
    → read_attributes tf attrs ≡ over (described attrs) tf
unfolding read_attributes
read_attributes_lem tf [] = refl
read_attributes_lem tf (a ∷ rest) =
    read_attributes_lem (read_attribute tf a) rest
    ∙ ap (over (described rest)) (read_attribute_lem tf a)
    ∙ over_assoc (described rest) (one a) tf

override-none : (o : Option String) → override o none ≡ o
override-none none = refl
override-none (some s) = refl

over-no_flow : (tf : TransferFlow) → over tf no_flow ≡ tf
over-no_flow tf = ground (
  arith,
  override-none tf.amount,
  override-none tf.denom,
  override-none tf.payer,
  override-none tf.payee,
)

abbrev is_given : Option String → Bool
is_given none = false
is_given (some s) = true

with_party_lem :
    (amount denom payer payee : Option String)
    → let tf : TransferFlow = record {
      amount = amount;
      denom = denom;
      payer = payer;
      payee = payee;
    } in
      with_party tf ≡ (if is_given payer || is_given payee then some tf else none)
with_party_lem amount denom none none = refl
with_party_lem amount denom none (some s) = refl
with_party_lem amount denom (some s) payee = refl

given-override :
    (new old : Option String) → is_given (override new old) ≡ (is_given old || is_given new)
given-override none none = refl
given-override none (some s) = refl
given-override (some t) none = refl
given-override (some t) (some s) = refl

given-last_of :
    (key : String) (attrs : List Attribute)
    → is_given (last_of (valued key) attrs) ≡ any (λ a. a.key == key) attrs
given-last_of key [] = refl
given-last_of key (a ∷ rest) =
    given-override (last_of (valued key) rest) (valued key a)
    ∙ ap (λ b. is_given (valued key a) || b) (given-last_of key rest)
    ∙ elim (Bool-cases (a.key == key)) [ inl e ↦ rw e | inr e ↦ rw e ]

any-or :
    (p q : Attribute → Bool) (attrs : List Attribute)
    → (any p attrs || any q attrs) ≡ any (λ a. p a || q a) attrs
any-or p q [] = refl
any-or p q (a ∷ rest) = ground (arith, any-or p q rest)

-- A transfer event gives a flow exactly if it has a sender or a recipient. Payer and payee are the
-- values of the last such attributes; amount and denom are the last non-empty halves of the
-- amounts.
pub parse_transfer_event_lem :
    (attrs : List Attribute)
    → parse_transfer_event attrs ≡ (
        if any (λ a. a.key == "sender" || a.key == "recipient") attrs
        then some (described attrs)
        else none)
unfolding parse_transfer_event
parse_transfer_event_lem attrs =
    let tf = described attrs in
    let chosen = λ (b : Bool). if b then some tf else none in
    ap with_party (read_attributes_lem no_flow attrs ∙ over-no_flow tf)
    ∙ with_party_lem tf.amount tf.denom tf.payer tf.payee
    ∙ ap (λ b. chosen (b || is_given tf.payee)) (given-last_of "sender" attrs)
    ∙ ap (λ b. chosen (any (λ a. a.key == "sender") attrs || b)) (given-last_of "recipient" attrs)
    ∙ ap chosen (any-or (λ a. a.key == "sender") (λ a. a.key == "recipient") attrs)

module _ (c : FlowContext) where
  -- How far down its rules a registration has to go to accept a transfer.
  abbrev pub register_rank : TransferFlow → ℕ
  register_rank =
      rank_rule (not (c.module_addr == "")) (pays_to c.module_addr)
        (rank_rule true (paid_by c.creator) (λ _. 0))

  -- The same for the payments of a finalization or an approval.
  abbrev pub payout_rank : TransferFlow → ℕ
  payout_rank =
      rank_rule (not (c.module_addr == "") && not (c.tx_signer == ""))
        (λ tf. paid_by c.module_addr tf && pays_to c.tx_signer tf)
        (rank_rule (not (c.module_addr == "") && not (c.supernode_account == ""))
          (λ tf. paid_by c.module_addr tf && pays_to c.supernode_account tf)
          (rank_rule (not (c.module_addr == "")) (paid_by c.module_addr) (
            rank_rule (not (c.tx_signer == "")) (pays_to c.tx_signer) (
              rank_rule (not (c.supernode_account == "")) (pays_to c.supernode_account)
                (rank_rule true (paid_by_other c.creator) (λ _. 0))))))

  -- The flow of a registration is a transfer of the transaction that no other transfer beats: by
  -- paying the module account (if its address is known), then by being paid by the creator. There
  -- is none only if the transaction has no transfer.
  pub register_flow :
      (events : List Event) (logs : List AbciLog)
      → IsBest register_rank
          (collect_transfers events logs)
          (extract_transfer_flow c "register" events logs)
  unfolding extract_transfer_flow select_register
  register_flow events logs = try_rule-IsBest _ _ _ _ _ (try_rule-IsBest _ _ _ _ _ (first-IsBest _))

  -- The flow of a finalization or an approval is a transfer of the transaction that no other
  -- transfer beats: from the module account to the signer, from it to the supernode, from it, to
  -- the signer, to the supernode, from anyone but the creator. A rule with an empty address is
  -- passed over. There is none only if the transaction has no transfer.
  pub payout_flow :
      (tx_type : String) (events : List Event) (logs : List AbciLog)
      → (tx_type ≡ "finalize") ⊎ (tx_type ≡ "approve")
      → IsBest payout_rank
          (collect_transfers events logs)
          (extract_transfer_flow c tx_type events logs)
  unfolding extract_transfer_flow select_payout
  payout_flow tx_type events logs kind =
      let ts = collect_transfers events logs in
      let best = try_rule-IsBest _ _ _ ts _ (
        try_rule-IsBest _ _ _ ts _ (
          try_rule-IsBest _ _ _ ts _ (
            try_rule-IsBest _ _ _ ts _
              (try_rule-IsBest _ _ _ ts _ (try_rule-IsBest _ _ _ ts _ (first-IsBest ts)))))) in
      elim kind [ inl e ↦ rw e best | inr e ↦ rw e best ]
