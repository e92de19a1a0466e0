-- ===== src/Db/Keyset/Sort.antt =====
-- ORDER BY columns that several rows may share. SQL leaves open the order of equal rows; here it is
-- the table's.
pub mod Reorder
use lumescope.Prelude.{
  ◌≡◌, refl, sym, ap, ◌∙◌, Bool, true, false, List, [], ◌∷◌, inl, inr, All, any, ◌||◌, arith,
  filter, Bool-cases, if◌then◌else◌,
}
use lumescope.Db.Keyset.Order.{All-map, All-filter}

or_swap : (a b c : Bool) → (a || (b || c)) ≡ (b || (a || c))
or_swap a b c = ground arith

module _ {A : Type 0} (before : A → A → Bool) where
  insert_row : A → List A → List A
  insert_row t [] = t ∷ []
  insert_row t (u ∷ us) =
      let later = insert_row t us in if before u t then u ∷ later else t ∷ u ∷ us

  unfoldable pub sort_rows : List A → List A
  unfolding insert_row
  sort_rows [] = []
  sort_rows (t ∷ ts) = insert_row t (sort_rows ts)

  -- t may stand in front of these rows
  abbrev pub IsFirst : A → List A → Type 0
  IsFirst t = All (λ u. before u t ≡ false)

  abbrev pub IsSorted : List A → Type 0
  IsSorted [] = Unit
  IsSorted (t ∷ ts) = IsFirst t ts × IsSorted ts

  insert_row-IsFirst : (t : A) (us : List A) → IsFirst t us → insert_row t us ≡ t ∷ us
  unfolding insert_row
  insert_row-IsFirst t [] h = refl
  insert_row-IsFirst t (u ∷ us) h = rw h.0

  All-insert_row : (P : A → Type 0) (t : A) (us : List A) → P t → All P us → All P (insert_row t us)
  unfolding insert_row
  All-insert_row P t [] p h = (p, tt)
  All-insert_row P t (u ∷ us) p h = elim (Bool-cases (before u t)) [
    | inl e ↦ rw e (h.0, All-insert_row P t us p h.1)
    | inr e ↦ rw e (p, h)
  ]

  All-sort_rows : (P : A → Type 0) (ts : List A) → All P ts → All P (sort_rows ts)
  unfolding sort_rows
  All-sort_rows P [] h = tt
  All-sort_rows P (t ∷ ts) h = All-insert_row P t (sort_rows ts) h.0 (All-sort_rows P ts h.1)

  any-insert_row :
      (p : A → Bool) (t : A) (us : List A) → any p (insert_row t us) ≡ (p t || any p us)
  unfolding insert_row
  any-insert_row p t [] = refl
  any-insert_row p t (u ∷ us) = elim (Bool-cases (before u t)) [
    | inl e ↦ rw e (ap (λ b. p u || b) (any-insert_row p t us) ∙ or_swap (p u) (p t) (any p us))
    | inr e ↦ rw e
  ]

  pub any-sort_rows : (p : A → Bool) (ts : List A) → any p (sort_rows ts) ≡ any p ts
  unfolding sort_rows
  any-sort_rows p [] = refl
  any-sort_rows p (t ∷ ts) =
      any-insert_row p t (sort_rows ts) ∙ ap (λ b. p t || b) (any-sort_rows p ts)

  module _ (asymm : (t u : A) → before t u ≡ true → before u t ≡ false)
      (trans : (t u v : A) → before u t ≡ false → before v u ≡ false → before v t ≡ false) where
    insert_row-IsSorted : (t : A) (us : List A) → IsSorted us → IsSorted (insert_row t us)
    unfolding insert_row
    insert_row-IsSorted t [] s = (tt, tt)
    insert_row-IsSorted t (u ∷ us) s = elim (Bool-cases (before u t)) [
      | inl e ↦ rw e (All-insert_row _ t us (asymm u t e) s.0, insert_row-IsSorted t us s.1)
      | inr e ↦ rw e ((e, All-map (λ v. trans t u v e) us s.0), s)
    ]

    pub sort_rows-IsSorted : (ts : List A) → IsSorted (sort_rows ts)
    unfolding sort_rows
    sort_rows-IsSorted [] = tt
    sort_rows-IsSorted (t ∷ ts) = insert_row-IsSorted t (sort_rows ts) (sort_rows-IsSorted ts)

    filter-insert_row :
        (p : A → Bool) (t : A) (us : List A)
        → IsSorted us
        → filter p (insert_row t us) ≡ (if p t then insert_row t (filter p us) else filter p us)
    unfolding insert_row
    filter-insert_row p t [] s = refl
    filter-insert_row p t (u ∷ us) s = elim (Bool-cases (before u t)) [
      | inl e ↦ elim (Bool-cases (p u)) [
        | inl k ↦ elim (Bool-cases (p t)) [
          | inl h ↦ rw (e, k, h, e) (ap (λ vs. u ∷ vs) (filter-insert_row p t us s.1 ∙ rw h))
          | inr h ↦ rw (e, k, h) (ap (λ vs. u ∷ vs) (filter-insert_row p t us s.1 ∙ rw h))
        ]
        | inr k ↦ rw (e, k) (filter-insert_row p t us s.1)
      ]
      | inr e ↦ elim (Bool-cases (p t)) [
        | inr h ↦ rw (e, h)
        | inl h ↦
            rw (e, h)
              (sym (
                insert_row-IsFirst t (filter p (u ∷ us))
                  (All-filter _ p (u ∷ us) (e, All-map (λ v. trans t u v e) us s.0))))
      ]
    ]

    -- WHERE commutes with ORDER BY.
    pub filter-sort_rows :
        (p : A → Bool) (ts : List A) → filter p (sort_rows ts) ≡ sort_rows (filter p ts)
    unfolding sort_rows
    filter-sort_rows p [] = refl
    filter-sort_rows p (t ∷ ts) =
        filter-insert_row p t (sort_rows ts) (sort_rows-IsSorted ts) ∙ elim (Bool-cases (p t)) [
          | inl h ↦ rw h (ap (insert_row t) (filter-sort_rows p ts))
          | inr h ↦ rw h (filter-sort_rows p ts)
        ]

-- On rows where two orders agree, ORDER BY gives the same.
module _ {A : Type 0} (P : A → Type 0) (before before' : A → A → Bool)
    (same : (t u : A) → P t → P u → before t u ≡ before' t u) where
  insert_row-same :
      (t : A) (us : List A) → P t → All P us → insert_row before t us ≡ insert_row before' t us
  unfolding insert_row
  insert_row-same t [] p h = refl
  insert_row-same t (u ∷ us) p h = rw (same u t h.0 p, insert_row-same t us p h.1)

  pub sort_rows-same : (ts : List A) → All P ts → sort_rows before ts ≡ sort_rows before' ts
  unfolding sort_rows
  sort_rows-same [] h = refl
  sort_rows-same (t ∷ ts) h =
      insert_row-same t (sort_rows before ts) h.0 (All-sort_rows before P ts h.1)
      ∙ ap (insert_row before' t) (sort_rows-same ts h.1)
