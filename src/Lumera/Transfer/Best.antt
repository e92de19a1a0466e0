-- ===== src/Lumera/Transfer/Best.antt =====
-- A chain of rules selects a transfer that no other transfer of the list beats.
use lumescope.Prelude.{
  ℕ, suc, ◌≤◌, ◌≡◌, refl, Bool, true, false, ◌&&◌, Option, none, some, List, [], ◌∷◌, arith, find,
  All, Member, inl, inr, if◌then◌else◌, Option-cases,
}
use lumescope.Lumera.Transfer.{TransferFlow, try_rule, first}

abbrev pub Flows : Type 0
Flows = List TransferFlow

-- `o` is a transfer of the list whose rank is the least; nothing only if there is no transfer
pub record IsBest (rank : TransferFlow → ℕ) (ts : Flows) (o : Option TransferFlow) : Type 0 where
  pub chosen : (tf : TransferFlow) → o ≡ some tf → Member tf ts × All (λ u. rank tf ≤ rank u) ts
  pub found : o ≡ none → ts ≡ []

-- the number of rules that come before the first one that fits
abbrev pub rank_rule : Bool → (TransferFlow → Bool) → (TransferFlow → ℕ) → TransferFlow → ℕ
rank_rule applies test rank tf = if applies && test tf then 0 else suc (rank tf)

module _ (test : TransferFlow → Bool) where
  find-Member : (ts : Flows) (tf : TransferFlow) → find test ts ≡ some tf → Member tf ts
  find-Member [] tf h = cc
  find-Member (t ∷ ts) tf h = ground (arith, find-Member ts tf)

  find-test : (ts : Flows) (tf : TransferFlow) → find test ts ≡ some tf → test tf ≡ true
  find-test [] tf h = cc
  find-test (t ∷ ts) tf h = ground (arith, find-test ts tf)

  find-none : (ts : Flows) → find test ts ≡ none → All (λ u. test u ≡ false) ts
  find-none [] h = tt
  find-none (t ∷ ts) h = ground (arith, find-none ts)

All-zero : (rank : TransferFlow → ℕ) (n : ℕ) (ts : Flows) → n ≡ 0 → All (λ u. n ≤ rank u) ts
All-zero rank n [] h = tt
All-zero rank n (t ∷ ts) h = (omega arith, All-zero rank n ts h)

module _ (applies : Bool) (test : TransferFlow → Bool) (rank : TransferFlow → ℕ) where
  -- where no transfer fits the rule, the ranks keep their order
  All-rank_rule :
      (tf : TransferFlow) (ts : Flows)
      → All (λ u. (applies && test u) ≡ false) ts
      → All (λ u. rank tf ≤ rank u) ts
      → All (λ u. rank_rule applies test rank tf ≤ rank_rule applies test rank u) ts
  All-rank_rule tf [] none_fits least = tt
  All-rank_rule tf (t ∷ ts) (no_fit, none_fits) (le, least) =
      (ground arith, All-rank_rule tf ts none_fits least)

  IsBest-suc :
      (ts : Flows) (later : Option TransferFlow)
      → All (λ u. (applies && test u) ≡ false) ts
      → IsBest rank ts later
      → IsBest (rank_rule applies test rank) ts later
  IsBest-suc ts later none_fits best = record {
    chosen = λ tf e.
        let (member, least) = best.chosen tf e in (member, All-rank_rule tf ts none_fits least);
    found = best.found;
  }

All-false : (test : TransferFlow → Bool) (ts : Flows) → All (λ u. (false && test u) ≡ false) ts
All-false test [] = tt
All-false test (t ∷ ts) = (refl, All-false test ts)

-- One rule in front of a chain that selects the best: the chain still does.
pub try_rule-IsBest :
    (applies : Bool) (test : TransferFlow → Bool) (rank : TransferFlow → ℕ) (ts : Flows)
    (later : Option TransferFlow)
    → IsBest rank ts later
    → IsBest (rank_rule applies test rank) ts (try_rule applies test ts later)
unfolding try_rule
try_rule-IsBest false test rank ts later best =
    IsBest-suc false test rank ts later (All-false test ts) best
try_rule-IsBest true test rank ts later best = elim (Option-cases (find test ts)) [
  | inl missed ↦
      rw (missed, try_rule) (IsBest-suc true test rank ts later (find-none test ts missed) best)
  | inr (t, fits) ↦
      rw (fits, try_rule)
        (record {
          chosen = λ tf e.
              let same : find test ts ≡ some tf = cc (fits, e) in
              let fit = find-test test ts tf same in
              (find-Member test ts tf same, All-zero _ _ ts (ground arith));
          found = λ e. cc;
        })
]

pub first-IsBest : (ts : Flows) → IsBest (λ _. 0) ts (first ts)
unfolding first
first-IsBest [] = record { chosen = λ tf e. cc; found = λ e. refl }
first-IsBest (t ∷ ts) = record {
  chosen = λ tf e. (inl (cc), All-zero (λ _. 0) 0 (t ∷ ts) refl);
  found = λ e. cc;
}
