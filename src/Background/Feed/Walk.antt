-- ===== src/Background/Feed/Walk.antt =====
-- internal/background/scheduler.go: the loop over the pages of a listing, up to its end or to the
-- first request that fails.
use lumescope.Prelude.{
  ℕ, zero, suc, ◌≤◌, String, Bool, true, false, ◌≡◌, sym, ap, ◌∙◌, Option, none, some, List, [],
  ◌++◌, ◌==◌, string_eq, arith,
}
use lumescope.Background.Feed.{
  Outcome, done, failed, each_page, after_fetch, visit_all, visit_all-append,
}

-- From `key` on, `n` requests are made, which give `xs`; the last of them ends the listing or fails.
pub data Walk {A : Type 0} (fetch : String → Option (List A × String))
    : Bool → ℕ → String → List A → Type 0 where
  ends : (key : String) (xs : List A) → fetch key ≡ some (xs, "") → Walk fetch true 1 key xs
  breaks : (key : String) → fetch key ≡ none → Walk fetch false 1 key []
  goes_on :
      (b : Bool) (n : ℕ) (key next_key : String) (xs ys : List A)
      → fetch key ≡ some (xs, next_key)
      → (next_key == "") ≡ false
      → Walk fetch b n next_key ys
      → Walk fetch b (suc n) key (xs ++ ys)

abbrev pub ended : {S : Type 0} → Bool → S → Outcome S
ended true s = done s
ended false s = failed s

pub each_page-Walk :
    {A S : Type 0} (visit : A → S → S) (fetch : String → Option (List A × String))
    → (b : Bool) (n : ℕ) (key : String) (xs : List A) (fuel : ℕ) (s : S) → Walk fetch b n key xs
    → n ≤ fuel
    → each_page visit fetch fuel key s ≡ ended b (visit_all visit xs s)
unfolding each_page visit_all
each_page-Walk visit fetch b n key xs zero s (ends _ _ _) enough = ground arith
each_page-Walk visit fetch b n key xs zero s (breaks _ _) enough = ground arith
each_page-Walk visit fetch b n key xs zero s (goes_on _ _ _ _ _ _ _ _ _) enough = ground arith
each_page-Walk visit fetch b n key xs (suc fuel) s (ends _ _ h) enough = rw (h, after_fetch)
each_page-Walk visit fetch b n key xs (suc fuel) s (breaks _ h) enough = rw (h, after_fetch)
each_page-Walk visit fetch b n key xs (suc fuel) s (goes_on _ m _ next_key ps ys h go rest) enough =
    rw (h, after_fetch, go)
      (each_page-Walk visit fetch b m next_key ys fuel (visit_all visit ps s) rest (omega arith)
        ∙ ap (ended b) (sym (visit_all-append visit ps ys s)))
