-- ===== src/Db/Keyset/Order.antt =====
-- Rows with distinct keys are put into a strict order, and WHERE commutes with ORDER BY.
use lumescope.Prelude.{
  ◌≡◌, refl, sym, ap, ◌∙◌, ◌≢◌, Bool, true, false, List, [], ◌∷◌, inl, inr, arith, All, All-image,
  filter, map, Bool-cases, if◌then◌else◌,
}
use lumescope.Db.Keyset.{KeyOrder, insert, order_by}

pub All-map {ℓ} :
    {A : Type ℓ} {P Q : A → Type 0} (f : (a : A) → P a → Q a) (xs : List A) → All P xs → All Q xs
All-map f [] h = tt
All-map f (x ∷ xs) h = (f x h.0, All-map f xs h.1)

pub All-filter {ℓ} :
    {A : Type ℓ} (P : A → Type 0) (p : A → Bool) (xs : List A) → All P xs → All P (filter p xs)
All-filter P p [] h = tt
All-filter P p (x ∷ xs) h = elim (Bool-cases (p x)) [
  | inl e ↦ rw e (h.0, All-filter P p xs h.1)
  | inr e ↦ rw e (All-filter P p xs h.1)
]

module _ {A K : Type 0} (key : A → K) where
  abbrev pub IsNew : A → List A → Type 0
  IsNew x = All (λ y. key x ≢ key y)

  -- A PRIMARY KEY: no two rows have one key.
  abbrev pub Distinct : List A → Type 0
  Distinct [] = Unit
  Distinct (x ∷ xs) = IsNew x xs × Distinct xs

  pub Distinct-filter : (p : A → Bool) (xs : List A) → Distinct xs → Distinct (filter p xs)
  Distinct-filter p [] h = tt
  Distinct-filter p (x ∷ xs) h = elim (Bool-cases (p x)) [
    | inl e ↦ rw e (All-filter _ p xs h.0, Distinct-filter p xs h.1)
    | inr e ↦ rw e (Distinct-filter p xs h.1)
  ]

pub Distinct-image :
    {A B K : Type 0} (key : B → K) (f : A → B) (xs : List A)
    → Distinct (λ x. key (f x)) xs
    → Distinct key (map f xs)
Distinct-image key f [] d = tt
Distinct-image key f (x ∷ xs) d =
    (All-image (λ y. key (f x) ≢ key y) f xs d.0, Distinct-image key f xs d.1)

module _ {A K : Type 0} (o : KeyOrder K) (key : A → K) where
  abbrev pub Precedes : A → List A → Type 0
  Precedes x = All (λ y. o.lt (key x) (key y) ≡ true)

  abbrev pub IsSorted : List A → Type 0
  IsSorted [] = Unit
  IsSorted (x ∷ xs) = Precedes x xs × IsSorted xs

  pub lt_asymm : (a b : K) → o.lt a b ≡ true → o.lt b a ≡ false
  lt_asymm a b h = elim (Bool-cases (o.lt b a)) [
    | inl k ↦ cc (o.trans a b a h k, o.irrefl a)
    | inr e ↦ e
  ]

  lt_of_not : (a b : K) → a ≢ b → o.lt b a ≡ false → o.lt a b ≡ true
  lt_of_not a b ne h = elim (Bool-cases (o.lt a b)) [
    | inl e ↦ e
    | inr k ↦ absurd (ne (o.total a b k h))
  ]

  pub All-insert :
      (P : A → Type 0) (x : A) (ys : List A) → P x → All P ys → All P (insert o key x ys)
  unfolding insert
  All-insert P x [] h k = (h, tt)
  All-insert P x (y ∷ ys) h k = elim (Bool-cases (o.lt (key y) (key x))) [
    | inl e ↦ rw e (k.0, All-insert P x ys h k.1)
    | inr e ↦ rw e (h, k)
  ]

  pub All-order_by : (P : A → Type 0) (xs : List A) → All P xs → All P (order_by o key xs)
  unfolding order_by
  All-order_by P [] h = tt
  All-order_by P (x ∷ xs) h = All-insert P x (order_by o key xs) h.0 (All-order_by P xs h.1)

  insert-IsSorted :
      (x : A) (ys : List A) → IsNew key x ys → IsSorted ys → IsSorted (insert o key x ys)
  unfolding insert
  insert-IsSorted x [] new s = (tt, tt)
  insert-IsSorted x (y ∷ ys) new s = elim (Bool-cases (o.lt (key y) (key x))) [
    | inl e ↦ rw e (All-insert _ x ys e s.0, insert-IsSorted x ys new.1 s.1)
    | inr e ↦
        let first = lt_of_not (key x) (key y) new.0 e in
        rw e ((first, All-map (λ z k. o.trans (key x) (key y) (key z) first k) ys s.0), s)
  ]

  pub order_by-IsSorted : (xs : List A) → Distinct key xs → IsSorted (order_by o key xs)
  unfolding order_by
  order_by-IsSorted [] d = tt
  order_by-IsSorted (x ∷ xs) d =
      insert-IsSorted x (order_by o key xs) (All-order_by _ xs d.0) (order_by-IsSorted xs d.1)

  pub IsSorted-filter : (p : A → Bool) (xs : List A) → IsSorted xs → IsSorted (filter p xs)
  IsSorted-filter p [] s = tt
  IsSorted-filter p (x ∷ xs) s = elim (Bool-cases (p x)) [
    | inl e ↦ rw e (All-filter _ p xs s.0, IsSorted-filter p xs s.1)
    | inr e ↦ rw e (IsSorted-filter p xs s.1)
  ]

  insert_front :
      (x : A) (ys : List A)
      → All (λ y. o.lt (key y) (key x) ≡ false) ys
      → insert o key x ys ≡ x ∷ ys
  unfolding insert
  insert_front x [] h = refl
  insert_front x (y ∷ ys) h = rw h.0

  filter-insert :
      (p : A → Bool) (x : A) (ys : List A)
      → IsNew key x ys
      → IsSorted ys
      → filter p (insert o key x ys) ≡ (if p x then insert o key x (filter p ys) else filter p ys)
  unfolding insert
  filter-insert p x [] new s = refl
  filter-insert p x (y ∷ ys) new s = elim (Bool-cases (o.lt (key y) (key x))) [
    | inl e ↦ ground (arith, e, filter-insert p x ys new.1 s.1)
    | inr e ↦
        let first = lt_of_not (key x) (key y) new.0 e in
        let rest =
          All-map (λ z k. lt_asymm (key x) (key z) (o.trans (key x) (key y) (key z) first k)) ys
            s.0 in
        let front =
          insert_front x (filter p (y ∷ ys)) (All-filter _ p (y ∷ ys) (lt_asymm _ _ first, rest)) in
        rw e (ap (λ l. if p x then l else filter p (y ∷ ys)) (sym front))
  ]

  pub filter-order_by :
      (p : A → Bool) (xs : List A)
      → Distinct key xs
      → filter p (order_by o key xs) ≡ order_by o key (filter p xs)
  unfolding order_by
  filter-order_by p [] d = refl
  filter-order_by p (x ∷ xs) d =
      let here =
        filter-insert p x (order_by o key xs) (All-order_by _ xs d.0) (order_by-IsSorted xs d.1) in
      elim (Bool-cases (p x)) [
        | inl e ↦ here ∙ rw e (ap (insert o key x) (filter-order_by p xs d.1))
        | inr e ↦ here ∙ rw e (filter-order_by p xs d.1)
      ]
