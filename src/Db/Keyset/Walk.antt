-- ===== src/Db/Keyset/Walk.antt =====
-- Page after page, every row is read once, in order.
use lumescope.Prelude.{
  ℕ, zero, suc, ◌+◌, ◌-◌, ◌≤◌, ◌<◌, ◌≡◌, refl, sym, ap, subst, ◌∙◌, Bool, true, false, ◌&&◌, Option,
  none, some, List, [], ◌∷◌, ◌++◌, inl, inr, arith, All, filter, length, take, drop, last?,
  take-append-drop, ltb, Bool-cases, Option-cases,
}
use lumescope.Db.Keyset.{KeyOrder, is_after, page, after_page, walk}
use lumescope.Db.Keyset.Order.{IsSorted, IsSorted-filter, Precedes, lt_asymm}

module _ {ℓ} {A : Type ℓ} where
  pub length-take_le : (n : ℕ) (xs : List A) → length (take n xs) ≤ n
  length-take_le zero xs = omega arith
  length-take_le (suc n) [] = omega arith
  length-take_le (suc n) (x ∷ xs) = omega (arith, length-take_le n xs)

  pub length-take_full : (n : ℕ) (xs : List A) → n ≤ length xs → length (take n xs) ≡ n
  length-take_full zero xs h = refl
  length-take_full (suc n) [] h = absurd (omega arith)
  length-take_full (suc n) (x ∷ xs) h = ap suc (length-take_full n xs (omega arith))

  take_short : (n : ℕ) (xs : List A) → length (take (suc n) xs) ≤ n → take (suc n) xs ≡ take n xs
  take_short zero [] h = refl
  take_short zero (x ∷ xs) h = absurd (omega arith)
  take_short (suc n) [] h = refl
  take_short (suc n) (x ∷ xs) h = ap (λ l. x ∷ l) (take_short n xs (omega arith))

  pub take_all : (n : ℕ) (xs : List A) → length xs ≤ n → take n xs ≡ xs
  take_all zero [] h = refl
  take_all zero (x ∷ xs) h = absurd (omega arith)
  take_all (suc n) [] h = refl
  take_all (suc n) (x ∷ xs) h = ap (λ l. x ∷ l) (take_all n xs (omega arith))

  take-take : (n : ℕ) (xs : List A) → take n (take (suc n) xs) ≡ take n xs
  take-take zero xs = refl
  take-take (suc n) [] = refl
  take-take (suc n) (x ∷ xs) = ap (λ l. x ∷ l) (take-take n xs)

  lt-length-take_iff : (n : ℕ) (xs : List A) → ltb n (length (take (suc n) xs)) ≡ ltb n (length xs)
  lt-length-take_iff zero [] = refl
  lt-length-take_iff zero (x ∷ xs) = ground arith
  lt-length-take_iff (suc n) [] = refl
  lt-length-take_iff (suc n) (x ∷ xs) = ground (arith, lt-length-take_iff n xs)

  -- A page is the first rows, and says whether there are more.
  pub page_lem : (n : ℕ) (rows : List A) → page n rows ≡ (take n rows, ltb n (length rows))
  unfolding page
  page_lem n rows =
      let one : n + 1 ≡ suc n = omega arith in
      elim (Bool-cases (ltb n (length (take (suc n) rows)))) [
        | inl e ↦ rw (one, page) (ground (arith, e, take-take n rows, lt-length-take_iff n rows))
        | inr e ↦
            let short = take_short n rows (ground arith) in
            rw (one, page) (ground (arith, e, short, lt-length-take_iff n rows))
      ]

  pub last?-none : (n : ℕ) (xs : List A) → 0 < n → last? (take n xs) ≡ none → xs ≡ []
  last?-none zero xs h e = absurd (omega arith)
  last?-none (suc n) [] h e = refl
  last?-none (suc zero) (x ∷ xs) h e = cc
  last?-none (suc (suc n)) (x ∷ []) h e = cc
  last?-none (suc (suc n)) (x ∷ y ∷ xs) h e =
      let empty = last?-none (suc n) (y ∷ xs) (omega arith) e in cc

  filter-All : (p : A → Bool) (xs : List A) → All (λ x. p x ≡ true) xs → filter p xs ≡ xs
  filter-All p [] h = refl
  filter-All p (x ∷ xs) h = rw h.0 (ap (λ l. x ∷ l) (filter-All p xs h.1))

  pub filter_sound : (p : A → Bool) (xs : List A) → All (λ x. p x ≡ true) (filter p xs)
  filter_sound p [] = tt
  filter_sound p (x ∷ xs) = elim (Bool-cases (p x)) [
    | inl e ↦ rw e (e, filter_sound p xs)
    | inr e ↦ rw e (filter_sound p xs)
  ]

  pub length-drop : (n : ℕ) (xs : List A) → length (drop n xs) ≡ length xs - n
  length-drop zero xs = omega arith
  length-drop (suc n) [] = omega arith
  length-drop (suc n) (x ∷ xs) = omega (arith, length-drop n xs)

  pub All-of : {P : A → Type 0} (f : (a : A) → P a) (xs : List A) → All P xs
  All-of f [] = tt
  All-of f (x ∷ xs) = (f x, All-of f xs)

  pub filter_cong :
      (p q : A → Bool) → ((x : A) → p x ≡ q x) → (xs : List A) → filter p xs ≡ filter q xs
  filter_cong p q same [] = refl
  filter_cong p q same (x ∷ xs) = ground (arith, same x, filter_cong p q same xs)

  pub filter-and :
      (p q : A → Bool) (xs : List A) → filter (λ x. p x && q x) xs ≡ filter q (filter p xs)
  filter-and p q [] = refl
  filter-and p q (x ∷ xs) = ground (arith, filter-and p q xs)

  -- a test that implies another one makes it superfluous
  filter-filter :
      (p q : A → Bool) (xs : List A)
      → All (λ x. q x ≡ true → p x ≡ true) xs
      → filter q (filter p xs) ≡ filter q xs
  filter-filter p q [] h = refl
  filter-filter p q (x ∷ xs) h = ground (arith, h.0, filter-filter p q xs h.1)

pub All-last {ℓ} :
    {A : Type ℓ} (P : A → Type 0) (n : ℕ) (xs : List A) (x : A)
    → All P xs
    → last? (take n xs) ≡ some x
    → P x
All-last P zero xs x h e = cc
All-last P (suc n) [] x h e = cc
All-last P (suc zero) (y ∷ ys) x h e = let same : y ≡ x = cc in subst P same h.0
All-last P (suc (suc n)) (y ∷ []) x h e = let same : y ≡ x = cc in subst P same h.0
All-last P (suc (suc n)) (y ∷ z ∷ ys) x h e = All-last P (suc n) (z ∷ ys) x h.1 e

module _ {A K : Type 0} (o : KeyOrder K) (key : A → K) where
  not_after_self : (y x : A) → y ≡ x → o.lt (key x) (key y) ≡ false
  not_after_self y x same = subst (λ w. o.lt (key x) (key w) ≡ false) (sym same) (o.irrefl (key x))

  -- behind the last row of a page come exactly the rows that the page leaves out
  pub cut :
      (n : ℕ) (xs : List A) (x : A)
      → IsSorted o key xs
      → last? (take n xs) ≡ some x
      → filter (is_after o key (some (key x))) xs ≡ drop n xs
  cut zero xs x s e = cc
  cut (suc n) [] x s e = refl
  cut (suc zero) (y ∷ ys) x s e =
      let same : y ≡ x = cc in
      rw (not_after_self y x same)
        (filter-All (is_after o key (some (key x))) ys (subst (λ w. Precedes o key w ys) same s.0))
  cut (suc (suc n)) (y ∷ []) x s e = let same : y ≡ x = cc in rw (not_after_self y x same)
  cut (suc (suc n)) (y ∷ z ∷ zs) x s e =
      let before = All-last (λ w. o.lt (key y) (key w) ≡ true) (suc n) (z ∷ zs) x s.0 e in
      rw (lt_asymm o key (key y) (key x) before) (cut (suc n) (z ∷ zs) x s.1 e)

  -- no row of a page comes after its last one
  pub page_before_last :
      (n : ℕ) (xs : List A) (x : A)
      → IsSorted o key xs
      → last? (take n xs) ≡ some x
      → All (λ y. o.lt (key x) (key y) ≡ false) (take n xs)
  page_before_last zero xs x s e = tt
  page_before_last (suc n) [] x s e = tt
  page_before_last (suc zero) (y ∷ ys) x s e =
      let same : y ≡ x = cc in (not_after_self y x same, tt)
  page_before_last (suc (suc n)) (y ∷ []) x s e =
      let same : y ≡ x = cc in (not_after_self y x same, tt)
  page_before_last (suc (suc n)) (y ∷ z ∷ zs) x s e =
      let before = All-last (λ w. o.lt (key y) (key w) ≡ true) (suc n) (z ∷ zs) x s.0 e in
      (lt_asymm o key (key y) (key x) before, page_before_last (suc n) (z ∷ zs) x s.1 e)

  is_after_trans :
      (cursor : Option K) (x y : A)
      → is_after o key cursor x ≡ true
      → o.lt (key x) (key y) ≡ true
      → is_after o key cursor y ≡ true
  is_after_trans none x y h k = refl
  is_after_trans (some c) x y h k = o.trans c (key x) (key y) h k

  -- what lies behind the last row of a page, among all rows, is what the page leaves out
  next_rows :
      (n : ℕ) (xs : List A) (cursor : Option K) (x : A)
      → IsSorted o key xs
      → last? (take n (filter (is_after o key cursor) xs)) ≡ some x
      → filter (is_after o key (some (key x))) xs ≡ drop n (filter (is_after o key cursor) xs)
  next_rows n xs cursor x s e =
      let p = is_after o key cursor in
      let here = All-last (λ w. p w ≡ true) n (filter p xs) x (filter_sound p xs) e in
      sym (
        filter-filter p (is_after o key (some (key x))) xs
          (All-of (λ y. is_after_trans cursor x y here) xs))
      ∙ cut n (filter p xs) x (IsSorted-filter o key p xs s) e

  module _ (n : ℕ) (xs : List A) (fetch : Option K → List A × Bool) where
    -- A client that follows the cursors from a page on collects all rows behind its cursor, in
    -- order, if a page is never empty and there is fuel for each row.
    pub walk_all :
        (fuel : ℕ) (cursor : Option K)
        → IsSorted o key xs
        → 0 < n
        → ((c : Option K) → fetch c ≡ page n (filter (is_after o key c) xs))
        → length (filter (is_after o key cursor) xs) < fuel
        → walk key fetch fuel cursor ≡ filter (is_after o key cursor) xs
    unfolding walk
    walk_all zero cursor s pos pages enough = absurd (omega arith)
    walk_all (suc fuel) cursor s pos pages enough =
        let rows = filter (is_after o key cursor) xs in
        let turn = λ (p : List A × Bool). after_page key p (λ k. walk key fetch fuel (some k)) in
        let got = pages cursor ∙ page_lem n rows in
        elim (Bool-cases (ltb n (length rows))) [
          | inr e ↦
              let now = got ∙ ap (λ b. (take n rows, b)) e in
              ap turn now ∙ take_all n rows (ground arith)
          | inl e ↦
              let now = got ∙ ap (λ b. (take n rows, b)) e in
              elim (Option-cases (last? (take n rows))) [
                | inl gone ↦
                    let empty = last?-none n rows pos gone in
                    absurd (ground (arith, e, ap (λ (l : List A). length l) empty))
                | inr (x, last) ↦
                    let rest = next_rows n xs cursor x s last in
                    let fewer = length-drop n rows in
                    let later =
                      walk_all fuel (some (key x)) s pos pages
                        (ground (arith, e, fewer, ap (λ (l : List A). length l) rest)) in
                    ap turn now
                    ∙ rw (last, after_page)
                        (ap (λ l. take n rows ++ l) (later ∙ rest) ∙ take-append-drop n rows)
              ]
        ]

pub filter-true {ℓ} : {A : Type ℓ} (xs : List A) → filter (λ _. true) xs ≡ xs
filter-true [] = refl
filter-true (x ∷ xs) = ap (λ l. x ∷ l) (filter-true xs)
