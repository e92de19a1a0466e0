-- ===== src/Server/Mux.antt =====
-- http.ServeMux of Go's standard library, as far as the router uses it: patterns without a method or
-- a wildcard, of which the longest that matches is taken. A path is without escapes.
pub mod Laws
use Prim.Native.String as Text
use lumescope.Prelude.{
  ℕ, suc, ◌≡◌, refl, String, Bool, true, false, ◌&&◌, ◌||◌, not, Option, none, some, List, [], ◌∷◌,
  ◌==◌, string_eq, any, length, ltb, drop, if◌then◌else◌, arith, Bool-cases, inl, inr, ◌⊎◌, Member,
  sym, ap, ◌∙◌, if-has, eq_iff,
}
use lumescope.Prelude.Text.{codes, strip_prefix?, has_suffix, split}

-- path.Clean on the segments of a rooted path, the result in reverse
abbrev clean_segments : List String → List String → List String
clean_segments out [] = out
clean_segments out (s ∷ ss) =
    let skipped = clean_segments out ss in
    let back = clean_segments (drop 1 out) ss in
    let pushed = clean_segments (s ∷ out) ss in
    if s == "" || s == "." then skipped else if s == ".." then back else pushed

abbrev join_reversed : List String → String → String
join_reversed [] rest = rest
join_reversed (s ∷ ss) rest = join_reversed ss (Text.◌++◌ "/" (Text.◌++◌ s rest))

abbrev with_slash : Bool → String → String
with_slash ends p = if ends && not (p == "/") then Text.◌++◌ p "/" else p

abbrev rooted : String → String
rooted p = if p == "" then "/" else p

-- cleanPath; a path without a first slash gets one
abbrev pub clean_path : String → String
clean_path path =
    with_slash (has_suffix "/" path)
      (rooted (join_reversed (clean_segments [] (split b'/' path)) ""))

-- a pattern that ends in a slash matches each path below it
abbrev pub matches : String → String → Bool
matches path pattern =
    path == pattern
    || (has_suffix "/" pattern
        && elim (strip_prefix? pattern path) [ none ↦ false | some _ ↦ true ])

abbrev pub longer : {E : Type 0} → String × E → Option (String × E) → String × E
longer entry none = entry
longer entry (some best) =
    if ltb (length (codes entry.0)) (length (codes best.0)) then best else entry

-- the longest pattern that matches, with its handler
abbrev pub find_pattern : {E : Type 0} → List (String × E) → String → Option (String × E)
find_pattern [] path = none
find_pattern (entry ∷ entries) path =
    let best = find_pattern entries path in
    if matches path entry.0 then some (longer entry best) else best

pub data Dispatch (E : Type 0) : Type 0 where
  handled : E → Dispatch E
  moved : String → Dispatch E
  unmatched : Dispatch E

abbrev pub has_pattern : {E : Type 0} → List (String × E) → String → Bool
has_pattern entries pattern = any (λ entry. entry.0 == pattern) entries

abbrev pub handler_of : {E : Type 0} → Option (String × E) → Dispatch E
handler_of none = unmatched
handler_of (some entry) = handled entry.1

-- a CONNECT request is not cleaned
abbrev pub canonical : String → String → String
canonical method path = if method == "CONNECT" then path else clean_path path

-- /tree, where only /tree/ is a pattern
abbrev pub lacks_slash : {E : Type 0} → List (String × E) → String → Bool
lacks_slash entries clean =
    not (has_pattern entries clean) && has_pattern entries (Text.◌++◌ clean "/")

abbrev pub dispatch_clean : {E : Type 0} → List (String × E) → String → String → Dispatch E
dispatch_clean entries path clean =
    if clean == path then handler_of (find_pattern entries clean) else moved clean

-- the redirect from /tree to /tree/, that to the cleaned path, and else the handler
unfoldable pub dispatch : {E : Type 0} → List (String × E) → String → String → Dispatch E
dispatch entries method path =
    let clean = canonical method path in
    if lacks_slash entries clean
    then moved (Text.◌++◌ clean "/")
    else dispatch_clean entries path clean

mux_tests :
    (clean_path "/v1//supernodes/./a/../sync" ≡ "/v1/supernodes/sync")
    × (clean_path "/v1/actions/" ≡ "/v1/actions/")
    × (clean_path "/.." ≡ "/")
    × (clean_path "" ≡ "/")
    × (clean_path "/a/../" ≡ "/")
mux_tests = (refl, refl, refl, refl, refl)
