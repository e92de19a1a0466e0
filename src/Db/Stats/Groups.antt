-- ===== src/Db/Stats/Groups.antt =====
-- GROUP BY: the rows of a table by the value of a column. SQL leaves open the order of the groups;
-- here a group stands where its last row put it.
use lumescope.Prelude.{
  ℕ, suc, ◌+◌, ◌≡◌, refl, sym, ap, ◌∙◌, ◌≢◌, Bool, false, ◌||◌, any, List, [], ◌∷◌, Eq, ◌==◌,
  beq_refl, All, filter, length, arith, if◌then◌else◌, Bool-cases, inl, inr, if-has,
}
use lumescope.Db.Keyset.Order.{Distinct, All-map}

module _ {A K : Type 0} ⦃eq : Eq K⦄ (key : A → K) where
  pub add_to_group : A → List (K × List A) → List (K × List A)
  add_to_group x [] = (key x, x ∷ []) ∷ []
  add_to_group x (g ∷ gs) =
      let rest = add_to_group x gs in if key x == g.0 then (g.0, x ∷ g.1) ∷ gs else g ∷ rest

  unfoldable pub group_by : List A → List (K × List A)
  unfolding add_to_group
  group_by [] = []
  group_by (x ∷ xs) = add_to_group x (group_by xs)

or_twice : (a b : Bool) → (a || b) ≡ (a || (a || b))
or_twice a b = ground arith

or_swap : (a b c : Bool) → (a || (b || c)) ≡ (b || (a || c))
or_swap a b c = ground arith

-- the value of a group
abbrev pub label {ℓ κ} : {K : Type ℓ} {B : Type κ} → K × B → K
label g = g.0

-- the sum of a count over a list
abbrev pub sum_of {ℓ} : {B : Type ℓ} → (B → ℕ) → List B → ℕ
sum_of f [] = 0
sum_of f (b ∷ bs) = f b + sum_of f bs

module _ {A K : Type 0} ⦃eq : Eq K⦄ (key : A → K) where
  abbrev pub rows_with : K → List A → List A
  rows_with k = filter (λ x. key x == k)

  abbrev pub size : K × List A → ℕ
  size g = length g.1

  different : (a b : K) → (a == b) ≡ false → a ≢ b
  different a b h e = cc ((eq.test_iff a b).1 e, h)

  add-IsNew :
      (x : A) (k : K) (gs : List (K × List A))
      → k ≢ key x
      → All (λ g. k ≢ g.0) gs
      → All (λ (g : K × List A). k ≢ g.0) (add_to_group key x gs)
  unfolding add_to_group
  add-IsNew x k [] ne h = (ne, tt)
  add-IsNew x k (g ∷ gs) ne h =
      if-has (All (λ (g : K × List A). k ≢ g.0)) (key x == g.0) _ _ (λ _. h)
        (λ _. (h.0, add-IsNew x k gs ne h.1))

  add-Distinct :
      (x : A) (gs : List (K × List A)) → Distinct label gs → Distinct label (add_to_group key x gs)
  unfolding add_to_group
  add-Distinct x [] d = (tt, tt)
  add-Distinct x (g ∷ gs) d =
      if-has (Distinct label) (key x == g.0) _ _ (λ _. d)
        (λ e.
          (add-IsNew x g.0 gs (λ s. different (key x) g.0 e (sym s)) d.0, add-Distinct x gs d.1))

  pub group_by-Distinct : (xs : List A) → Distinct label (group_by key xs)
  unfolding group_by
  group_by-Distinct [] = tt
  group_by-Distinct (x ∷ xs) = add-Distinct x (group_by key xs) (group_by-Distinct xs)

  add-sum :
      (x : A) (gs : List (K × List A)) → sum_of size (add_to_group key x gs) ≡ suc (sum_of size gs)
  unfolding add_to_group
  add-sum x [] = omega arith
  add-sum x (g ∷ gs) =
      if-has (λ (l : List (K × List A)). sum_of size l ≡ suc (sum_of size (g ∷ gs))) (key x == g.0)
        _ _ (λ _. omega arith) (λ _. omega (arith, add-sum x gs))

  pub group_by-sum : (xs : List A) → sum_of size (group_by key xs) ≡ length xs
  unfolding group_by
  group_by-sum [] = refl
  group_by-sum (x ∷ xs) = add-sum x (group_by key xs) ∙ ap suc (group_by-sum xs)

  -- the rows of the first group with a value
  abbrev pub rows_of : K → List (K × List A) → List A
  rows_of k [] = []
  rows_of k (g ∷ gs) = if g.0 == k then g.1 else rows_of k gs

  rows_of-add :
      (k : K) (x : A) (gs : List (K × List A))
      → rows_of k (add_to_group key x gs) ≡ (if key x == k then x ∷ rows_of k gs else rows_of k gs)
  unfolding add_to_group
  rows_of-add k x [] = refl
  rows_of-add k x (g ∷ gs) = elim (Bool-cases (key x == g.0)) [
    | inl e ↦
        let same = ap (λ a. a == k) ((eq.test_iff (key x) g.0).0 e) in
        elim (Bool-cases (g.0 == k)) [ inl y ↦ rw (e, y, same ∙ y) | inr n ↦ rw (e, n, same ∙ n) ]
    | inr e ↦ elim (Bool-cases (g.0 == k)) [
      | inl y ↦
          let other = ap (λ a. key x == a) (sym ((eq.test_iff g.0 k).0 y)) ∙ e in rw (e, y, other)
      | inr n ↦ rw (e, n) (rows_of-add k x gs)
    ]
  ]

  -- Each value's group holds the rows with that value; no group, no rows.
  pub rows_of-group_by : (k : K) (xs : List A) → rows_of k (group_by key xs) ≡ rows_with k xs
  unfolding group_by
  rows_of-group_by k [] = refl
  rows_of-group_by k (x ∷ xs) =
      rows_of-add k x (group_by key xs)
      ∙ ap (λ l. if key x == k then x ∷ l else l) (rows_of-group_by k xs)

  rows_of_later :
      (g : K × List A) (hs gs : List (K × List A))
      → All (λ h. g.0 ≢ h.0) hs
      → All (λ h. rows_of h.0 gs ≡ h.1) hs
      → All (λ (h : K × List A). rows_of h.0 (g ∷ gs) ≡ h.1) hs
  rows_of_later g [] gs new all = tt
  rows_of_later g (h ∷ hs) gs new all = (
    if-has (λ l. l ≡ h.1) (g.0 == h.0) _ _ (λ e. absurd (new.0 ((eq.test_iff g.0 h.0).0 e)))
        (λ _. all.0),
    rows_of_later g hs gs new.1 all.1,
  )

  rows_of_own :
      (gs : List (K × List A))
      → Distinct label gs
      → All (λ (g : K × List A). rows_of g.0 gs ≡ g.1) gs
  rows_of_own [] d = tt
  rows_of_own (g ∷ gs) d = (rw (beq_refl g.0), rows_of_later g gs gs d.0 (rows_of_own gs d.1))

  pub group_by-rows :
      (xs : List A) → All (λ (g : K × List A). g.1 ≡ rows_with g.0 xs) (group_by key xs)
  group_by-rows xs =
      All-map (λ g e. sym e ∙ rows_of-group_by g.0 xs) (group_by key xs)
        (rows_of_own (group_by key xs) (group_by-Distinct xs))

  any-add :
      (k : K) (x : A) (gs : List (K × List A))
      → any (λ (g : K × List A). g.0 == k) (add_to_group key x gs)
        ≡ ((key x == k) || any (λ (g : K × List A). g.0 == k) gs)
  unfolding add_to_group
  any-add k x [] = refl
  any-add k x (g ∷ gs) = elim (Bool-cases (key x == g.0)) [
    | inl e ↦
        let same = ap (λ a. a == k) ((eq.test_iff (key x) g.0).0 e) in
        rw (e, same) (or_twice (g.0 == k) (any (λ (h : K × List A). h.0 == k) gs))
    | inr e ↦ rw e (
        ap (λ b. (g.0 == k) || b) (any-add k x gs)
        ∙ or_swap (g.0 == k) (key x == k) (any (λ (h : K × List A). h.0 == k) gs))
  ]

  -- The values that have a group are those that occur.
  pub any-group_by :
      (k : K) (xs : List A)
      → any (λ (g : K × List A). g.0 == k) (group_by key xs) ≡ any (λ x. key x == k) xs
  unfolding group_by
  any-group_by k [] = refl
  any-group_by k (x ∷ xs) =
      any-add k x (group_by key xs) ∙ ap (λ b. (key x == k) || b) (any-group_by k xs)
