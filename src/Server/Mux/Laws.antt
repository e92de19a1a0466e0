-- ===== src/Server/Mux/Laws.antt =====
-- What the mux finds is an entry whose pattern matches the path.
use Prim.Native.String as Text
use lumescope.Prelude.{
  String, ◌≡◌, sym, true, Option, none, some, List, [], ◌∷◌, ◌==◌, string_eq, All, if-has, eq_iff,
  subst, length, ltb,
}
use lumescope.Prelude.Text.{codes}
use lumescope.Server.Mux.{
  Dispatch, handled, moved, unmatched, dispatch, find_pattern, matches, canonical, lacks_slash,
  dispatch_clean, longer, handler_of,
}

module _ {E : Type 0} (P : String × E → Type 0) where
  abbrev IsHit : String → String × E → Type 0
  IsHit path entry = P entry × (matches path entry.0 ≡ true)

  abbrev IfAny : (String × E → Type 0) → Option (String × E) → Type 0
  IfAny Q none = Unit
  IfAny Q (some entry) = Q entry

  longer-has :
      (Q : String × E → Type 0) (entry : String × E) (best : Option (String × E))
      → Q entry
      → IfAny Q best
      → Q (longer entry best)
  longer-has Q entry none h k = h
  longer-has Q entry (some best) h k =
      if-has Q (ltb (length (codes entry.0)) (length (codes best.0))) best entry (λ _. k) (λ _. h)

  find_pattern-IsHit :
      (path : String) (entries : List (String × E))
      → All P entries
      → IfAny (IsHit path) (find_pattern entries path)
  find_pattern-IsHit path [] all = tt
  find_pattern-IsHit path (entry ∷ entries) all =
      let rest = find_pattern-IsHit path entries all.1 in
      if-has (IfAny (IsHit path)) (matches path entry.0) _ _
        (λ e. longer-has (IsHit path) entry (find_pattern entries path) (all.0, e) rest) (λ _. rest)

  -- a handler stands in the table under a pattern that matches the path, which is clean
  abbrev pub IsHandled : String → String → Dispatch E → Type 0
  IsHandled method path unmatched = Unit
  IsHandled method path (moved to) = Unit
  IsHandled method path (handled e) =
      (pattern : String) × P (pattern, e)
      × (matches path pattern ≡ true)
      × (canonical method path ≡ path)

  handler_of-IsHandled :
      (method path : String) (o : Option (String × E))
      → canonical method path ≡ path
      → IfAny (IsHit path) o
      → IsHandled method path (handler_of o)
  handler_of-IsHandled method path none e h = tt
  handler_of-IsHandled method path (some entry) e h = (entry.0, h.0, h.1, e)

  dispatch_clean-IsHandled :
      (method path : String) (entries : List (String × E))
      → All P entries
      → IsHandled method path (dispatch_clean entries path (canonical method path))
  dispatch_clean-IsHandled method path entries all =
      let clean = canonical method path in
      if-has (IsHandled method path) (clean == path) (handler_of (find_pattern entries clean))
        (moved clean)
        (λ e.
          let same = (eq_iff clean path).0 e in
          handler_of-IsHandled method path (find_pattern entries clean) same (
            subst (λ p. IfAny (IsHit path) (find_pattern entries p)) (sym same)
              (find_pattern-IsHit path entries all)))
        (λ _. tt)

  pub dispatch-IsHandled :
      (method path : String) (entries : List (String × E))
      → All P entries
      → IsHandled method path (dispatch entries method path)
  unfolding dispatch
  dispatch-IsHandled method path entries all =
      let clean = canonical method path in
      if-has (IsHandled method path) (lacks_slash entries clean) (moved (Text.◌++◌ clean "/"))
        (dispatch_clean entries path clean) (λ _. tt)
        (λ _. dispatch_clean-IsHandled method path entries all)
