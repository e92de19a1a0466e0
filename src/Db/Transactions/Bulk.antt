-- ===== src/Db/Transactions/Bulk.antt =====
-- internal/db/db.go: GetActionTransactionsByActionIDs, one query for the transactions of many
-- actions, beside the query for each action.
use mathlib.Core.List.{append-nil}
use lumescope.Prelude.{
  ℕ, ◌≡◌, ◌≢◌, refl, sym, ap, ◌∙◌, Bool, true, false, ◌||◌, ◌&&◌, List, [], ◌∷◌, ◌++◌, ◌==◌, nat_eq,
  All, any, filter, inl, inr, arith, ltb, Bool-cases, beq_refl, map, if◌then◌else◌,
}
use lumescope.Prelude.Int.{ℤ, pos, negsuc, ltb_ℤ}
use lumescope.Db.Types.{ActionTransaction}
use lumescope.Db.Keyset.Order.{All-map, Distinct}
use lumescope.Db.Keyset.Sort.Reorder.{Reordered, filter-Reordered, sort_rows-Reordered}
use lumescope.Db.Keyset.Sort.{sort_rows, filter-sort_rows, sort_rows-same}
use lumescope.Db.Transactions.{is_lower, order_by_height, get_action_transactions}

-- map[uint64][]ActionTransaction, as the list of its entries
abbrev pub TransactionMap : Type 0
TransactionMap = List (ℕ × List ActionTransaction)

-- ORDER BY "actionID", "height" ASC
abbrev comes_before : ActionTransaction → ActionTransaction → Bool
comes_before t u = ltb t.action_id u.action_id || (t.action_id == u.action_id && is_lower t u)

-- result[id], nil where there is no entry
unfoldable pub entry : ℕ → TransactionMap → List ActionTransaction
entry id [] = []
entry id ((k, ts) ∷ m) = let rest = entry id m in if k == id then ts else rest

-- result[t.ActionID] = append(result[t.ActionID], t)
add_row : ActionTransaction → TransactionMap → TransactionMap
add_row t [] = (t.action_id, t ∷ []) ∷ []
add_row t ((k, ts) ∷ m) =
    let rest = add_row t m in if k == t.action_id then (k, ts ++ t ∷ []) ∷ m else (k, ts) ∷ rest

group_rows : TransactionMap → List ActionTransaction → TransactionMap
unfolding add_row
group_rows m [] = m
group_rows m (t ∷ ts) = group_rows (add_row t m) ts

-- = ANY($1)
abbrev pub names : List ℕ → ℕ → Bool
names ids id = any (λ k. k == id) ids

unfoldable pub get_action_transactions_by_action_ids :
    List ℕ → List ActionTransaction → TransactionMap
unfolding group_rows
get_action_transactions_by_action_ids [] rows = []
get_action_transactions_by_action_ids (id ∷ ids) rows =
    group_rows [] (sort_rows comes_before (filter (λ t. names (id ∷ ids) t.action_id) rows))

abbrev is_of : ℕ → ActionTransaction → Bool
is_of id t = t.action_id == id

entry-add_row :
    (id : ℕ) (t : ActionTransaction) (m : TransactionMap)
    → entry id (add_row t m) ≡ (if is_of id t then entry id m ++ t ∷ [] else entry id m)
unfolding entry add_row
entry-add_row id t [] = refl
entry-add_row id t ((k, ts) ∷ m) = elim (Bool-cases (k == t.action_id)) [
  | inl e ↦
      let same : (k == id) ≡ is_of id t = ground arith in
      rw (e, same) (elim (Bool-cases (is_of id t)) [ inl f ↦ rw f | inr f ↦ rw f ])
  | inr e ↦ elim (Bool-cases (k == id)) [
    | inl f ↦ let other : is_of id t ≡ false = ground arith in rw (e, f, other)
    | inr f ↦ rw (e, f) (entry-add_row id t m)
  ]
]

append-assoc_one :
    (xs : List ActionTransaction) (t : ActionTransaction) (ys : List ActionTransaction)
    → (xs ++ t ∷ []) ++ ys ≡ xs ++ t ∷ ys
append-assoc_one [] t ys = refl
append-assoc_one (x ∷ xs) t ys = ap (λ zs. x ∷ zs) (append-assoc_one xs t ys)

entry-group_rows :
    (id : ℕ) (m : TransactionMap) (ts : List ActionTransaction)
    → entry id (group_rows m ts) ≡ entry id m ++ filter (is_of id) ts
unfolding group_rows
entry-group_rows id m [] = sym (append-nil (entry id m))
entry-group_rows id m (t ∷ ts) =
    entry-group_rows id (add_row t m) ts
    ∙ ap (λ us. us ++ filter (is_of id) ts) (entry-add_row id t m)
    ∙ elim (Bool-cases (is_of id t)) [
      | inl e ↦ rw e (append-assoc_one (entry id m) t (filter (is_of id) ts))
      | inr e ↦ rw e
    ]

comes_before_asymm : (t u : ActionTransaction) → comes_before t u ≡ true → comes_before u t ≡ false
comes_before_asymm t u h = ground arith

comes_before_trans :
    (t u v : ActionTransaction)
    → comes_before u t ≡ false
    → comes_before v u ≡ false
    → comes_before v t ≡ false
comes_before_trans t u v h k = ground arith

-- among the transactions of one action, the two orders agree
same_order :
    (id : ℕ) (t u : ActionTransaction)
    → is_of id t ≡ true
    → is_of id u ≡ true
    → comes_before t u ≡ is_lower t u
same_order id t u h k = ground arith

All-filtered : {A : Type 0} (p : A → Bool) (xs : List A) → All (λ x. p x ≡ true) (filter p xs)
All-filtered p [] = tt
All-filtered p (x ∷ xs) = elim (Bool-cases (p x)) [
  | inl e ↦ rw e (e, All-filtered p xs)
  | inr e ↦ rw e (All-filtered p xs)
]

-- the rows of one action, of those that the query names
filter-named :
    (id : ℕ) (ids : List ℕ) (rows : List ActionTransaction)
    → filter (is_of id) (filter (λ t. names ids t.action_id) rows)
      ≡ (if names ids id then filter (is_of id) rows else [])
filter-named id ids [] = elim (Bool-cases (names ids id)) [ inl e ↦ rw e | inr e ↦ rw e ]
filter-named id ids (t ∷ rows) = elim (Bool-cases (is_of id t)) [
  | inl f ↦
      let same : t.action_id ≡ id = ground arith in
      elim (Bool-cases (names ids id)) [
        | inl e ↦
            rw (ap (names ids) same ∙ e, f, e) (ap (λ us. t ∷ us) (filter-named id ids rows ∙ rw e))
        | inr e ↦ rw (ap (names ids) same ∙ e, e) (filter-named id ids rows ∙ rw e)
      ]
  | inr f ↦ elim (Bool-cases (names ids t.action_id)) [
    | inl g ↦ rw (g, f) (filter-named id ids rows)
    | inr g ↦ rw (g, f) (filter-named id ids rows)
  ]
]

-- the entry of an action, if both statements see the rows in one order
entry_of_table :
    (id : ℕ) (ids : List ℕ) (rows : List ActionTransaction)
    → entry id (get_action_transactions_by_action_ids ids rows)
      ≡ (if names ids id then get_action_transactions id rows else [])
unfolding get_action_transactions_by_action_ids get_action_transactions order_by_height entry
    sort_rows
entry_of_table id [] rows = refl
entry_of_table id (i ∷ is) rows =
    let ids = i ∷ is in
    let found = filter (λ t. names ids t.action_id) rows in
    entry-group_rows id [] (sort_rows comes_before found)
    ∙ filter-sort_rows comes_before comes_before_asymm comes_before_trans (is_of id) found
    ∙ sort_rows-same (λ t. is_of id t ≡ true) comes_before is_lower (same_order id)
        (filter (is_of id) found) (All-filtered (is_of id) found)
    ∙ ap (sort_rows is_lower) (filter-named id ids rows)
    ∙ elim (Bool-cases (names ids id)) [ inl e ↦ rw e | inr e ↦ rw e ]

is_lower_asymm : (t u : ActionTransaction) → is_lower t u ≡ true → is_lower u t ≡ false
is_lower_asymm t u h = ground arith

is_lower_trans :
    (t u v : ActionTransaction) → is_lower t u ≡ true → is_lower u v ≡ true → is_lower t v ≡ true
is_lower_trans t u v h k = ground arith

same_height : (a b : ℤ) → ltb_ℤ a b ≡ false → ltb_ℤ b a ≡ false → a ≡ b
same_height (pos a) (pos b) h k = ap pos (ground arith)
same_height (pos a) (negsuc b) h k = absurd (ground arith)
same_height (negsuc a) (pos b) h k = absurd (ground arith)
same_height (negsuc a) (negsuc b) h k = ap negsuc (ground arith)

is_lower_total :
    (t u : ActionTransaction) → t.height ≢ u.height → is_lower t u ≡ false → is_lower u t ≡ true
is_lower_total t u ne h = elim (Bool-cases (is_lower u t)) [
  | inl e ↦ e
  | inr e ↦ absurd (ne (same_height t.height u.height h e))
]

-- The two statements may see the rows of the table in different orders. If the heights of the
-- transactions of an action differ, one query for many actions gives for it, in the same order, the
-- transactions that a query for it alone gives, and nothing if the query does not name it.
pub entry-get_action_transactions_by_action_ids :
    (id : ℕ) (ids : List ℕ) (rows seen : List ActionTransaction)
    → Reordered rows seen
    → Distinct (λ (t : ActionTransaction). t.height) (filter (λ t. t.action_id == id) rows)
    → entry id (get_action_transactions_by_action_ids ids seen)
      ≡ (if names ids id then get_action_transactions id rows else [])
unfolding get_action_transactions order_by_height
entry-get_action_transactions_by_action_ids id ids rows seen reordered apart =
    entry_of_table id ids seen
    ∙ ap (λ ts. if names ids id then ts else [])
        (sym (
          sort_rows-Reordered is_lower (λ (t : ActionTransaction). t.height) is_lower_asymm
            is_lower_trans is_lower_total (filter-Reordered (is_of id) reordered) apart))

or_true : (b : Bool) → (b || true) ≡ true
or_true b = ground arith

All-names : (ids : List ℕ) → All (λ id. names ids id ≡ true) ids
All-names [] = tt
All-names (id ∷ ids) = (
  rw (beq_refl id),
  All-map (λ k h. ap (λ b. id == k || b) h ∙ or_true (id == k)) ids (All-names ids),
)

map-All : {A B : Type 0} (f g : A → B) (xs : List A) → All (λ x. f x ≡ g x) xs → map f xs ≡ map g xs
map-All f g [] h = refl
map-All f g (x ∷ xs) h = cc (h.0, map-All f g xs h.1)

All-of-image :
    {A B : Type 0} (f : A → B) (P : B → Type 0) (xs : List A)
    → All P (map f xs)
    → All (λ x. P (f x)) xs
All-of-image f P [] h = tt
All-of-image f P (x ∷ xs) h = (h.0, All-of-image f P xs h.1)

-- Whatever is made of rows with their transactions from one query for all of them, is what is made of
-- them with a query for each.
pub map-entry :
    {A B : Type 0} (key : A → ℕ) (f : A → List ActionTransaction → B) (xs : List A)
    → (rows : List ActionTransaction)
    → map (λ x. f x (entry (key x) (get_action_transactions_by_action_ids (map key xs) rows))) xs
      ≡ map (λ x. f x (get_action_transactions (key x) rows)) xs
map-entry key f xs rows = map-All _ _ xs (
    All-map (λ x named. ap (f x) (entry_of_table (key x) (map key xs) rows ∙ rw named)) xs
      (All-of-image key (λ id. names (map key xs) id ≡ true) xs (All-names (map key xs))))
