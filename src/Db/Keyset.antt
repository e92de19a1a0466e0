-- ===== src/Db/Keyset.antt =====
-- ORDER BY a unique key, LIMIT, and the keyset pagination that the list statements share.
pub mod Order
pub mod Walk
pub mod Ties
pub mod Sort
use lumescope.Prelude.{
  ℕ, zero, suc, ◌+◌, ◌≡◌, Bool, true, false, Option, none, some, List, [], ◌∷◌, ◌++◌, length, take,
  filter, last?, ltb, if◌then◌else◌, arith,
}

-- The order of a key column. That of numbers is known; that of texts is the collation of the
-- database, and taken as a parameter.
pub record KeyOrder (K : Type 0) : Type 0 where
  pub lt : K → K → Bool
  pub irrefl : (a : K) → lt a a ≡ false
  pub trans : (a b c : K) → lt a b ≡ true → lt b c ≡ true → lt a c ≡ true
  pub total : (a b : K) → lt a b ≡ false → lt b a ≡ false → a ≡ b

pub ltb_irrefl : (a : ℕ) → ltb a a ≡ false
ltb_irrefl a = ground arith

pub ltb_trans : (a b c : ℕ) → ltb a b ≡ true → ltb b c ≡ true → ltb a c ≡ true
ltb_trans a b c h k = ground arith

pub ltb_total : (a b : ℕ) → ltb a b ≡ false → ltb b a ≡ false → a ≡ b
ltb_total a b h k = ground arith

-- ORDER BY ... ASC
abbrev pub ascending : KeyOrder ℕ
ascending = record { lt = ltb; irrefl = ltb_irrefl; trans = ltb_trans; total = ltb_total }

-- ORDER BY ... DESC
abbrev pub descending : KeyOrder ℕ
descending = record {
  lt = λ a b. ltb b a;
  irrefl = ltb_irrefl;
  trans = λ a b c h k. ltb_trans c b a k h;
  total = λ a b h k. ltb_total a b k h;
}

module _ {A K : Type 0} (o : KeyOrder K) (key : A → K) where
  pub insert : A → List A → List A
  insert x [] = x ∷ []
  insert x (y ∷ ys) =
      let later = insert x ys in if o.lt (key y) (key x) then y ∷ later else x ∷ y ∷ ys

  unfoldable pub order_by : List A → List A
  unfolding insert
  order_by [] = []
  order_by (x ∷ xs) = insert x (order_by xs)

  -- the condition on the cursor
  abbrev pub is_after : Option K → A → Bool
  is_after none x = true
  is_after (some k) x = o.lt k (key x)

-- LIMIT n + 1, and the cut that sets hasMore
unfoldable pub page {ℓ} : {A : Type ℓ} → ℕ → List A → List A × Bool
page n rows =
    let got = take (n + 1) rows in if ltb n (length got) then (take n got, true) else (got, false)

-- what follows a page: its rows alone, or with those behind its last key
abbrev pub after_page : {A K : Type 0} → (A → K) → List A × Bool → (K → List A) → List A
after_page key (rows, false) next = rows
after_page key (rows, true) next = elim (last? rows) [ none ↦ rows | some x ↦ rows ++ next (key x) ]

-- What a client collects that asks for page after page: the cursor of a page is the key of its
-- last row, and the last page has no cursor.
module _ {A K : Type 0} (key : A → K) (fetch : Option K → List A × Bool) where
  unfoldable pub walk : ℕ → Option K → List A
  walk zero cursor = []
  walk (suc fuel) cursor = after_page key (fetch cursor) (λ k. walk fuel (some k))
