-- ===== src/Background/Heights/Laws.antt =====
-- The scan finds the first entry among those with the greatest height.
use mathlib.Core.List.{append_assoc, append-nil}
use lumescope.Prelude.{
  ℕ, ◌≤◌, ◌<◌, String, ◌≡◌, refl, sym, ap, ◌∙◌, Option, none, some, List, [], ◌∷◌, ◌++◌, get_or,
  arith, All, All-append, length, length-append, ◌⊎◌, inl, inr,
}
use lumescope.Prelude.Int.{ℤ, pos, negsuc, pos_part}
use lumescope.Strconv.{parse_int, ok?}
use lumescope.Background.Heights.{
  SupernodeState, PrevIpAddress, Highest, step, scan, highest, state_height, address_height,
  latest_state, latest_ip_address,
}

-- The height that a text counts as: 0, if it is no int64 or is negative.
abbrev positive : Option ℤ → ℕ
positive none = 0
positive (some h) = pos_part h

abbrev pub counts_as : String → ℕ
counts_as s = positive (ok? (parse_int s))

-- `x` is the first entry of the list among those with the greatest height.
pub record IsFirstHighest {A : Type 0} (value : A → ℕ) (xs : List A) (x : A) : Type 0 where
  pub before : List A
  pub after : List A
  pub whole : xs ≡ before ++ x ∷ after
  pub lower_before : All (λ y. value y < value x) before
  pub none_higher : All (λ y. value y ≤ value x) xs

module _ {A : Type 0} where
  get_or-append :
      (xs : List A) (x : A) (ys : List A) (d : A) → get_or (xs ++ x ∷ ys) (length xs) d ≡ x
  get_or-append [] x ys d = refl
  get_or-append (y ∷ xs) x ys d = get_or-append xs x ys d

  append_one : (xs : List A) (x : A) (ys : List A) → (xs ++ x ∷ []) ++ ys ≡ xs ++ x ∷ ys
  append_one [] x ys = refl
  append_one (z ∷ xs) x ys = ap (λ l. z ∷ l) (append_one xs x ys)

  All-weaken :
      (value : A → ℕ) (m n : ℕ) (xs : List A)
      → m ≤ n
      → All (λ y. value y ≤ m) xs
      → All (λ y. value y ≤ n) xs
  All-weaken value m n [] le h = tt
  All-weaken value m n (x ∷ xs) le h = (omega arith, All-weaken value m n xs le h.1)

  All-lower :
      (value : A → ℕ) (m n : ℕ) (xs : List A)
      → m < n
      → All (λ y. value y ≤ m) xs
      → All (λ y. value y < n) xs
  All-lower value m n [] lt h = tt
  All-lower value m n (x ∷ xs) lt h = (omega arith, All-lower value m n xs lt h.1)

module _ {A : Type 0} (value : A → ℕ) where
  extend_lower :
      (xs : List A) (b x : A)
      → value x ≤ value b
      → IsFirstHighest value xs b
      → IsFirstHighest value (xs ++ x ∷ []) b
  extend_lower xs b x le f = record {
    before = f.before;
    after = f.after ++ x ∷ [];
    whole = ap (λ l. l ++ x ∷ []) f.whole ∙ append_assoc f.before (b ∷ f.after) (x ∷ []);
    lower_before = f.lower_before;
    none_higher = All-append _ xs (x ∷ []) f.none_higher (le, tt);
  }

  extend_higher :
      (xs : List A) (b x : A)
      → value b < value x
      → IsFirstHighest value xs b
      → IsFirstHighest value (xs ++ x ∷ []) x
  extend_higher xs b x lt f = record {
    before = xs;
    after = [];
    whole = refl;
    lower_before = All-lower value (value b) (value x) xs lt f.none_higher;
    none_higher =
        All-append _ xs (x ∷ [])
          (All-weaken value (value b) (value x) xs (omega arith) f.none_higher) (omega arith, tt);
  }

abbrev at : ℕ → ℕ → Highest
at i m = record { index = i; height = pos m }

step_lem :
    (m i j : ℕ) (o : Option ℤ)
    → (positive o ≤ m) × (step (at j m) i o ≡ at j m)
      ⊎ (m < positive o) × (step (at j m) i o ≡ at i (positive o))
unfolding step
step_lem m i j none = ground arith
step_lem m i j (some (pos n)) = ground arith
step_lem m i j (some (negsuc n)) = ground arith

step_first : (o : Option ℤ) → step (at 0 0) 0 o ≡ at 0 (positive o)
unfolding step
step_first none = refl
step_first (some (pos n)) = ground arith
step_first (some (negsuc n)) = ground arith

module _ {A : Type 0} (height : A → String) where
  abbrev pub value_of : A → ℕ
  value_of x = counts_as (height x)

  -- behind `front`, the scan holds the first highest entry of `front`
  scan_lem :
      (whole front rest : List A) (b d : A) (f : IsFirstHighest value_of front b)
      → whole ≡ front ++ rest
      → IsFirstHighest value_of whole
          (get_or whole (scan height (at (length f.before) (value_of b)) (length front) rest) d)
  unfolding scan extend_lower extend_higher
  scan_lem whole front [] b d f e =
      let same = e ∙ append-nil front in
      let found =
        ap (λ l. get_or l (length f.before) d) (same ∙ f.whole)
        ∙ get_or-append f.before b f.after d in
      rw (found, same) f
  scan_lem whole front (x ∷ rest) b d f e =
      let e' = e ∙ sym (append_one front x rest) in
      let next = length-append front (x ∷ []) in
      elim (step_lem (value_of b) (length front) (length f.before) (ok? (parse_int (height x)))) [
        | inl (le, stays) ↦ rw stays (
            rw (← next)
              (scan_lem whole (front ++ x ∷ []) rest b d (extend_lower value_of front b x le f) e'))
        | inr (lt, moves) ↦ rw moves (
            rw (← next) (
              scan_lem whole (front ++ x ∷ []) rest x d (extend_higher value_of front b x lt f) e'))
      ]

  -- The chosen entry is the first among those with the greatest height, where a height that is no
  -- int64, or is negative, counts as 0.
  pub highest-IsFirstHighest :
      (x : A) (xs : List A) → IsFirstHighest value_of (x ∷ xs) (highest height x xs)
  unfolding highest
  highest-IsFirstHighest x xs = rw (step_first (ok? (parse_int (height x)))) (
      scan_lem (x ∷ xs) (x ∷ []) xs x x
        (record {
          before = [];
          after = [];
          whole = refl;
          lower_before = tt;
          none_higher = (omega arith, tt);
        })
        refl)

-- The state of a supernode is its first state entry among those with the greatest height, where a
-- height that is no int64, or is negative, counts as 0; with no entry it is unknown.
pub latest_state_lem :
    (latest_state [] ≡ ("SUPERNODE_STATE_UNKNOWN", ""))
    × ((s : SupernodeState) (states : List SupernodeState)
        → (best : SupernodeState) × (latest_state (s ∷ states) ≡ (best.state, best.height))
          × IsFirstHighest (λ x. counts_as x.height) (s ∷ states) best)
unfolding latest_state
latest_state_lem = (
  refl,
  λ s states. (highest state_height s states, refl, highest-IsFirstHighest state_height s states),
)

-- The same for the address: the first entry among those with the greatest height, or none.
pub latest_ip_address_lem :
    (latest_ip_address [] ≡ "")
    × ((a : PrevIpAddress) (addresses : List PrevIpAddress)
        → (best : PrevIpAddress) × (latest_ip_address (a ∷ addresses) ≡ best.address)
          × IsFirstHighest (λ x. counts_as x.height) (a ∷ addresses) best)
unfolding latest_ip_address
latest_ip_address_lem = (
  refl,
  λ a addresses.
      (highest address_height a addresses, refl, highest-IsFirstHighest address_height a addresses),
)
