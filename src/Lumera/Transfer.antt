-- ===== src/Lumera/Transfer.antt =====
-- internal/lumera/client.go: which token transfer of a transaction is the flow of an action.
-- A pointer to a string is an `Option String`.
pub mod Laws
pub mod Best
use lumescope.Prelude.{
  String, Bool, true, false, ◌&&◌, not, Option, none, some, List, [], ◌∷◌, ◌++◌, ◌==◌, string_eq,
  find, if◌then◌else◌,
}
use lumescope.Lumera.Coin.{parse_coin_string}

pub record Attribute : Type 0 where
  pub key : String
  pub value : String

pub record Event : Type 0 where
  pub kind : String
  pub attributes : List Attribute

-- ABCILog; its message index is not read
pub record AbciLog : Type 0 where
  pub events : List Event

pub record TransferFlow : Type 0 where
  pub amount : Option String
  pub denom : Option String
  pub payer : Option String
  pub payee : Option String

abbrev pub no_flow : TransferFlow
no_flow = record { amount = none; denom = none; payer = none; payee = none }

-- `none` stands for "leave the field as it is"
abbrev keep_empty : Option String → String → Option String
keep_empty old s = if s == "" then old else some s

-- one round of the loop of `parse_transfer_event`
read_attribute : TransferFlow → Attribute → TransferFlow
read_attribute tf attr =
    if attr.key == "sender"
    then record tf { payer = some attr.value }
    else if attr.key == "recipient"
    then record tf { payee = some attr.value }
    else if attr.key == "amount"
    then (let (amount, denom) = parse_coin_string attr.value in
        record tf { amount = keep_empty tf.amount amount; denom = keep_empty tf.denom denom })
    else tf

read_attributes : TransferFlow → List Attribute → TransferFlow
read_attributes tf [] = tf
read_attributes tf (a ∷ rest) = read_attributes (read_attribute tf a) rest

abbrev pub with_party : TransferFlow → Option TransferFlow
with_party tf = elim tf.payer [
  | some _ ↦ some tf
  | none ↦ elim tf.payee [ some _ ↦ some tf | none ↦ none ]
]

unfoldable pub parse_transfer_event : List Attribute → Option TransferFlow
unfolding read_attributes read_attribute
parse_transfer_event attrs = with_party (read_attributes no_flow attrs)

abbrev add_parsed : Option TransferFlow → List TransferFlow → List TransferFlow
add_parsed none rest = rest
add_parsed (some tf) rest = tf ∷ rest

unfoldable pub transfers_of : List Event → List TransferFlow
transfers_of [] = []
transfers_of (e ∷ rest) =
    let later = transfers_of rest in
    if e.kind == "transfer" then add_parsed (parse_transfer_event e.attributes) later else later

log_transfers : List AbciLog → List TransferFlow
log_transfers [] = []
log_transfers (l ∷ rest) = transfers_of l.events ++ log_transfers rest

-- the two collecting loops: the top-level events, then those of the logs
unfoldable pub collect_transfers : List Event → List AbciLog → List TransferFlow
unfolding log_transfers
collect_transfers events logs = transfers_of events ++ log_transfers logs

abbrev is_party : Option String → String → Bool
is_party none s = false
is_party (some p) s = p == s

unfoldable pub pays_to : String → TransferFlow → Bool
pays_to addr tf = is_party tf.payee addr

unfoldable pub paid_by : String → TransferFlow → Bool
paid_by addr tf = is_party tf.payer addr

-- `tf.Payer != nil && *tf.Payer != creator`
unfoldable pub paid_by_other : String → TransferFlow → Bool
paid_by_other creator tf = elim tf.payer [ none ↦ false | some p ↦ not (p == creator) ]

-- `if applies { for ... { if test { return } } }`, then what follows
pub try_rule :
    Bool → (TransferFlow → Bool) → List TransferFlow → Option TransferFlow → Option TransferFlow
try_rule applies test ts later =
    if applies then elim (find test ts) [ some tf ↦ some tf | none ↦ later ] else later

-- the last fallback, `&transfers[0]`
pub first : List TransferFlow → Option TransferFlow
first [] = none
first (tf ∷ _) = some tf

unfoldable pub select_register : String → String → List TransferFlow → Option TransferFlow
select_register module_addr creator ts =
    try_rule (not (module_addr == "")) (pays_to module_addr) ts
      (try_rule true (paid_by creator) ts (first ts))

unfoldable pub select_payout :
    String → String → String → String → List TransferFlow → Option TransferFlow
select_payout module_addr signer supernode creator ts =
    try_rule (not (module_addr == "") && not (signer == ""))
      (λ tf. paid_by module_addr tf && pays_to signer tf) ts
      (try_rule (not (module_addr == "") && not (supernode == ""))
        (λ tf. paid_by module_addr tf && pays_to supernode tf) ts
        (try_rule (not (module_addr == "")) (paid_by module_addr) ts (
          try_rule (not (signer == "")) (pays_to signer) ts (
            try_rule (not (supernode == "")) (pays_to supernode) ts
              (try_rule true (paid_by_other creator) ts (first ts))))))

-- the action as far as the selection reads it
pub record FlowContext : Type 0 where
  pub creator : String
  pub supernode_account : String
  pub module_addr : String
  pub tx_signer : String

unfoldable pub extract_transfer_flow :
    FlowContext → String → List Event → List AbciLog → Option TransferFlow
extract_transfer_flow c tx_type events logs =
    let ts = collect_transfers events logs in
    if tx_type == "register"
    then select_register c.module_addr c.creator ts
    else if tx_type == "finalize"
    then select_payout c.module_addr c.tx_signer c.supernode_account c.creator ts
    else if tx_type == "approve"
    then select_payout c.module_addr c.tx_signer c.supernode_account c.creator ts
    else none
