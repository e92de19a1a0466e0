-- ===== src/Background/Feed.antt =====
-- internal/background/scheduler.go: the loop over the pages of a listing of the chain, which
-- syncValidators, syncSupernodes and syncActions share. The requests themselves
-- (internal/lumera/client.go, over HTTP) are a parameter: `none` is an error.
pub mod Walk
use lumescope.Prelude.{
  ℕ, zero, suc, ◌≤◌, String, Bool, All, ◌≡◌, refl, sym, ap, ◌∙◌, true, false, Option, none, some,
  List, [], ◌∷◌, ◌++◌, ◌==◌, string_eq, arith,
}

-- how a loop ended, with the state that it left
pub data Outcome {ℓ} (S : Type ℓ) : Type ℓ where
  done : S → Outcome S
  failed : S → Outcome S
  out_of_fuel : S → Outcome S

abbrev pub state_of {ℓ} : {S : Type ℓ} → Outcome S → S
state_of (done s) = s
state_of (failed s) = s
state_of (out_of_fuel s) = s

module _ {A : Type 0} {S : Type 0} (visit : A → S → S) where
  unfoldable pub visit_all : List A → S → S
  visit_all [] s = s
  visit_all (x ∷ xs) s = visit_all xs (visit x s)

  after_fetch : Option (List A × String) → S → (String → S → Outcome S) → Outcome S
  unfolding visit_all
  after_fetch none s continue = failed s
  after_fetch (some (xs, key)) s continue = elim (key == "") [
    | true ↦ done (visit_all xs s)
    | false ↦ continue key (visit_all xs s)
  ]

  unfoldable pub each_page : (String → Option (List A × String)) → ℕ → String → S → Outcome S
  unfolding after_fetch
  each_page fetch zero key s = out_of_fuel s
  each_page fetch (suc fuel) key s = after_fetch (fetch key) s (each_page fetch fuel)

  pub visit_all-append :
      (xs ys : List A) (s : S) → visit_all (xs ++ ys) s ≡ visit_all ys (visit_all xs s)
  unfolding visit_all
  visit_all-append [] ys s = refl
  visit_all-append (x ∷ xs) ys s = visit_all-append xs ys (visit x s)

-- The chain answers from `key` on with `n` pages, which hold `xs` together.
module _ {A : Type 0} (fetch : String → Option (List A × String)) where
  pub data Serves : ℕ → String → List A → Type 0 where
    last_page : (key : String) (xs : List A) → fetch key ≡ some (xs, "") → Serves 1 key xs
    more_pages :
        (n : ℕ) (key next_key : String) (xs ys : List A)
        → fetch key ≡ some (xs, next_key)
        → (next_key == "") ≡ false
        → Serves n next_key ys
        → Serves (suc n) key (xs ++ ys)

-- The loop visits every entry of every page once, in the chain's order.
pub each_page_lem :
    {A S : Type 0} (visit : A → S → S) (fetch : String → Option (List A × String))
    → (n : ℕ) (key : String) (xs : List A) (fuel : ℕ) (s : S) → Serves fetch n key xs
    → n ≤ fuel
    → each_page visit fetch fuel key s ≡ done (visit_all visit xs s)
unfolding each_page visit_all
each_page_lem visit fetch n key xs zero s (last_page _ _ h) enough = ground arith
each_page_lem visit fetch n key xs (suc fuel) s (last_page _ _ h) enough = rw (h, after_fetch)
each_page_lem visit fetch n key xs zero s (more_pages _ _ _ _ _ _ _ _) enough = ground arith
each_page_lem visit fetch n key xs (suc fuel) s (more_pages m _ next_key ps ys h go rest) enough =
    rw (h, after_fetch, go)
      (each_page_lem visit fetch m next_key ys fuel (visit_all visit ps s) rest (omega arith)
        ∙ ap done (sym (visit_all-append visit ps ys s)))

-- What a walk over a list does to one part of the state, `look`, which only the entries that
-- `touches` marks may change.
module _ {A S V : Type 0} (visit : A → S → S) (look : S → V) (touches : A → Bool)
    (apart : (x : A) (s : S) → touches x ≡ false → look (visit x s) ≡ look s) where
  pub visit_all-apart :
      (xs : List A) (s : S) → All (λ x. touches x ≡ false) xs → look (visit_all visit xs s) ≡ look s
  unfolding visit_all
  visit_all-apart [] s none_touches = refl
  visit_all-apart (x ∷ xs) s none_touches =
      visit_all-apart xs (visit x s) none_touches.1 ∙ apart x s none_touches.0

  pub visit_all-one :
      (xs : List A) (x : A) (ys : List A) (s : S)
      → All (λ y. touches y ≡ false) ys
      → look (visit_all visit (xs ++ x ∷ ys) s) ≡ look (visit x (visit_all visit xs s))
  unfolding visit_all
  visit_all-one xs x ys s none_touches =
      ap look (visit_all-append visit xs (x ∷ ys) s)
      ∙ visit_all-apart ys (visit x (visit_all visit xs s)) none_touches
