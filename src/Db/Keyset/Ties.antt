-- ===== src/Db/Keyset/Ties.antt =====
-- ORDER BY a key that several rows may share: no row stands behind one that its key comes before.
use lumescope.Prelude.{
  ◌≡◌, refl, ap, ◌∙◌, Bool, false, ◌||◌, List, [], ◌∷◌, inl, inr, arith, All, any, Bool-cases,
}
use lumescope.Db.Keyset.{KeyOrder, insert, order_by}
use lumescope.Db.Keyset.Order.{All-map, All-insert, lt_asymm}

module _ {A K : Type 0} (o : KeyOrder K) (key : A → K) where
  abbrev pub NoneBefore : A → List A → Type 0
  NoneBefore x = All (λ y. o.lt (key y) (key x) ≡ false)

  abbrev pub IsOrdered : List A → Type 0
  IsOrdered [] = Unit
  IsOrdered (x ∷ xs) = NoneBefore x xs × IsOrdered xs

  not_lt_trans : (a b c : K) → o.lt b a ≡ false → o.lt c b ≡ false → o.lt c a ≡ false
  not_lt_trans a b c h k = elim (Bool-cases (o.lt c a)) [
    | inl e ↦ elim (Bool-cases (o.lt a b)) [
      | inl m ↦ cc (o.trans c a b e m, k)
      | inr m ↦ cc (ap (o.lt c) (o.total a b m h), k)
    ]
    | inr e ↦ e
  ]

  insert-IsOrdered : (x : A) (ys : List A) → IsOrdered ys → IsOrdered (insert o key x ys)
  unfolding insert
  insert-IsOrdered x [] s = (tt, tt)
  insert-IsOrdered x (y ∷ ys) s = elim (Bool-cases (o.lt (key y) (key x))) [
    | inl e ↦
        rw e (
          All-insert o key _ x ys (lt_asymm o key (key y) (key x) e) s.0,
          insert-IsOrdered x ys s.1,
        )
    | inr e ↦ rw e ((e, All-map (λ z. not_lt_trans (key x) (key y) (key z) e) ys s.0), s)
  ]

  pub order_by-IsOrdered : (xs : List A) → IsOrdered (order_by o key xs)
  unfolding order_by
  order_by-IsOrdered [] = tt
  order_by-IsOrdered (x ∷ xs) = insert-IsOrdered x (order_by o key xs) (order_by-IsOrdered xs)

  swap : (a b c : Bool) → (a || (b || c)) ≡ (b || (a || c))
  swap a b c = ground arith

  any-insert : (p : A → Bool) (x : A) (ys : List A) → any p (insert o key x ys) ≡ (p x || any p ys)
  unfolding insert
  any-insert p x [] = refl
  any-insert p x (y ∷ ys) = elim (Bool-cases (o.lt (key y) (key x))) [
    | inl e ↦ rw e (ap (λ b. p y || b) (any-insert p x ys) ∙ swap (p y) (p x) (any p ys))
    | inr e ↦ rw e
  ]

  pub any-order_by : (p : A → Bool) (xs : List A) → any p (order_by o key xs) ≡ any p xs
  unfolding order_by
  any-order_by p [] = refl
  any-order_by p (x ∷ xs) =
      any-insert p x (order_by o key xs) ∙ ap (λ b. p x || b) (any-order_by p xs)
