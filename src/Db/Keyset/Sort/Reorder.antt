-- ===== src/Db/Keyset/Sort/Reorder.antt =====
-- A statement sees the rows of a table in any order. ORDER BY takes the order away where no two rows
-- are equal in its columns.
use lumescope.Prelude.{
  ◌≡◌, ◌≢◌, refl, sym, ap, ◌∙◌, Bool, true, false, List, [], ◌∷◌, inl, inr, All, filter, Bool-cases,
}
use lumescope.Db.Keyset.Order.{Distinct}
use lumescope.Db.Keyset.Sort.{insert_row, sort_rows}

module _ {A : Type 0} where
  -- the same rows in another order
  pub data Reordered : List A → List A → Type 0 where
    same : (xs : List A) → Reordered xs xs
    keep : {xs ys : List A} (x : A) → Reordered xs ys → Reordered (x ∷ xs) (x ∷ ys)
    swap : (x y : A) (xs : List A) → Reordered (x ∷ y ∷ xs) (y ∷ x ∷ xs)
    through : {xs ys zs : List A} → Reordered xs ys → Reordered ys zs → Reordered xs zs

  filter-swap :
      (p : A → Bool) (x y : A) (xs : List A)
      → Reordered (filter p (x ∷ y ∷ xs)) (filter p (y ∷ x ∷ xs))
  filter-swap p x y xs = elim (Bool-cases (p x)) [
    | inl e ↦ elim (Bool-cases (p y)) [
      | inl h ↦ rw (e, h) (swap x y (filter p xs))
      | inr h ↦ rw (e, h) (same _)
    ]
    | inr e ↦ rw e (same _)
  ]

  pub filter-Reordered :
      (p : A → Bool) {xs ys : List A} → Reordered xs ys → Reordered (filter p xs) (filter p ys)
  filter-Reordered p (same xs) = same (filter p xs)
  filter-Reordered p (keep x r) = elim (Bool-cases (p x)) [
    | inl e ↦ rw e (keep x (filter-Reordered p r))
    | inr e ↦ rw e (filter-Reordered p r)
  ]
  filter-Reordered p (swap x y xs) = filter-swap p x y xs
  filter-Reordered p (through r s) = through (filter-Reordered p r) (filter-Reordered p s)

  All-Reordered : (P : A → Type 0) {xs ys : List A} → Reordered xs ys → All P xs → All P ys
  All-Reordered P (same xs) h = h
  All-Reordered P (keep x r) h = (h.0, All-Reordered P r h.1)
  All-Reordered P (swap x y xs) h = (h.1.0, (h.0, h.1.1))
  All-Reordered P (through r s) h = All-Reordered P s (All-Reordered P r h)

  Distinct-Reordered :
      {K : Type 0} (key : A → K) {xs ys : List A}
      → Reordered xs ys
      → Distinct key xs
      → Distinct key ys
  Distinct-Reordered key (same xs) d = d
  Distinct-Reordered key (keep x r) d = (All-Reordered _ r d.0, Distinct-Reordered key r d.1)
  Distinct-Reordered key (swap x y xs) d = ((λ e. d.0.0 (sym e), d.1.0), (d.0.1, d.1.1))
  Distinct-Reordered key (through r s) d = Distinct-Reordered key s (Distinct-Reordered key r d)

module _ {A : Type 0} (before : A → A → Bool) where
  put_behind :
      (t y : A) (ys : List A)
      → before y t ≡ true
      → insert_row before t (y ∷ ys) ≡ y ∷ insert_row before t ys
  unfolding insert_row
  put_behind t y ys h = rw h

  put_first :
      (t y : A) (ys : List A) → before y t ≡ false → insert_row before t (y ∷ ys) ≡ t ∷ y ∷ ys
  unfolding insert_row
  put_first t y ys h = rw h

module _ {A K : Type 0} (before : A → A → Bool) (key : A → K)
    (asymm : (t u : A) → before t u ≡ true → before u t ≡ false)
    (trans : (t u v : A) → before t u ≡ true → before u v ≡ true → before t v ≡ true)
    (total : (t u : A) → key t ≢ key u → before t u ≡ false → before u t ≡ true) where
  insert_row-swap :
      (t u : A) (xs : List A)
      → before t u ≡ true
      → insert_row before t (insert_row before u xs) ≡ insert_row before u (insert_row before t xs)
  unfolding insert_row
  insert_row-swap t u [] h = rw (asymm t u h, h)
  insert_row-swap t u (y ∷ ys) h = elim (Bool-cases (before y t)) [
    | inl e ↦
        let f = trans y t u e h in
        ap (insert_row before t) (put_behind before u y ys f)
        ∙ put_behind before t y (insert_row before u ys) e
        ∙ ap (λ zs. y ∷ zs) (insert_row-swap t u ys h)
        ∙ sym (put_behind before u y (insert_row before t ys) f)
        ∙ ap (insert_row before u) (sym (put_behind before t y ys e))
    | inr e ↦
        let right : insert_row before u (insert_row before t (y ∷ ys))
            ≡ t ∷ insert_row before u (y ∷ ys) =
          ap (insert_row before u) (put_first before t y ys e) ∙ put_behind before u t (y ∷ ys) h in
        elim (Bool-cases (before y u)) [
          | inl f ↦
              ap (insert_row before t) (put_behind before u y ys f)
              ∙ put_first before t y (insert_row before u ys) e
              ∙ ap (λ zs. t ∷ zs) (sym (put_behind before u y ys f))
              ∙ sym right
          | inr f ↦
              ap (insert_row before t) (put_first before u y ys f)
              ∙ put_first before t u (y ∷ ys) (asymm t u h)
              ∙ ap (λ zs. t ∷ zs) (sym (put_first before u y ys f))
              ∙ sym right
        ]
  ]

  pub sort_rows-Reordered :
      {xs ys : List A}
      → Reordered xs ys
      → Distinct key xs
      → sort_rows before xs ≡ sort_rows before ys
  unfolding sort_rows
  sort_rows-Reordered (same xs) d = refl
  sort_rows-Reordered (keep x r) d = ap (insert_row before x) (sort_rows-Reordered r d.1)
  sort_rows-Reordered (swap x y xs) d = elim (Bool-cases (before x y)) [
    | inl e ↦ insert_row-swap x y (sort_rows before xs) e
    | inr e ↦ sym (insert_row-swap y x (sort_rows before xs) (total x y d.0.0 e))
  ]
  sort_rows-Reordered (through r s) d =
      sort_rows-Reordered r d ∙ sort_rows-Reordered s (Distinct-Reordered key r d)
