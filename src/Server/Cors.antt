-- ===== src/Server/Cors.antt =====
-- internal/server/router.go: withCORS, the headers that it sets and the reply to OPTIONS.
use lumescope.Prelude.{
  String, ◌≡◌, refl, subst, sym, ap, ◌∙◌, Bool, true, false, ◌&&◌, ◌||◌, not, Option, none, some,
  List, [], ◌∷◌, ◌==◌, string_eq, if◌then◌else◌, eq_iff, Bool-cases, inl, inr, if-has, any, arith,
  beq_refl, ◌⊎◌,
}

-- the headers of a reply that are set so far; Set replaces an earlier value
abbrev pub Headers : Type 0
Headers = List (String × String)

abbrev pub set_header : String → String → Headers → Headers
set_header name value [] = (name, value) ∷ []
set_header name value (h ∷ hs) =
    let rest = set_header name value hs in if h.0 == name then (name, value) ∷ hs else h ∷ rest

abbrev pub header : String → Headers → Option String
header name [] = none
header name (h ∷ hs) = if h.0 == name then some h.1 else header name hs

-- the loop over the allowed origins, with its break
abbrev pub allowed_origin : String → List String → String
allowed_origin origin [] = ""
allowed_origin origin (o ∷ os) = if o == "*" || o == origin then o else allowed_origin origin os

allow : String → String → Headers → Headers
allow allowed origin hs =
    if allowed == "*"
    then set_header "Access-Control-Allow-Origin" "*" hs
    else set_header "Vary" "Origin" (set_header "Access-Control-Allow-Origin" origin hs)

abbrev exposed_headers : String
exposed_headers = "ETag, Last-Modified"

abbrev request_headers : String
request_headers = "Accept, Authorization, Content-Type, If-None-Match, If-Modified-Since"

abbrev with_methods : Headers → Headers
with_methods hs = set_header "Access-Control-Allow-Methods" "GET, OPTIONS" hs

abbrev with_request_headers : Headers → Headers
with_request_headers hs =
    set_header "Access-Control-Allow-Headers" request_headers (with_methods hs)

-- the headers that do not depend on the origin
abbrev pub other_cors_headers : Headers → Headers
other_cors_headers hs =
    set_header "Access-Control-Expose-Headers" exposed_headers (with_request_headers hs)

unfoldable pub cors_headers : List String → String → Headers → Headers
unfolding allow
cors_headers allow_origins origin hs =
    let allowed = allowed_origin origin allow_origins in
    if allowed == "*" || (not (allowed == "") && not (origin == ""))
    then other_cors_headers (allow allowed origin hs)
    else hs

-- A header after a header was set.
pub header-set_header :
    (name other value : String) (hs : Headers)
    → header name (set_header other value hs)
      ≡ (if other == name then some value else header name hs)
header-set_header name other value [] = refl
header-set_header name other value (h ∷ hs) = ground (
  arith,
  header-set_header name other value hs,
  eq_iff h.0 other,
  eq_iff h.0 name,
  eq_iff other name,
)

abbrev pub lists : List String → String → Bool
lists allow_origins origin = any (λ o. o == origin) allow_origins

-- the entry that the loop finds is listed, and is the wildcard or the origin
IsFound : String → List String → String → Type 0
IsFound origin os a = (a == "") ≡ false → (lists os a ≡ true) × ((a == "*" || a == origin) ≡ true)

allowed_origin-IsFound :
    (origin : String) (os : List String) → IsFound origin os (allowed_origin origin os)
unfolding IsFound
allowed_origin-IsFound origin [] = λ h. absurd (ground arith)
allowed_origin-IsFound origin (o ∷ os) =
    if-has (IsFound origin (o ∷ os)) (o == "*" || o == origin) o (allowed_origin origin os)
      (λ e h. (rw (beq_refl o), e))
      (λ e h.
        let (listed, kind) = allowed_origin-IsFound origin os h in (ground (arith, listed), kind))

found_kind :
    (origin : String) (os : List String)
    → (allowed_origin origin os == "") ≡ false
    → (allowed_origin origin os == "*" || allowed_origin origin os == origin) ≡ true
unfolding IsFound
found_kind origin os h = (allowed_origin-IsFound origin os h).1

nothing_allowed :
    (origin : String) (os : List String)
    → lists os "" ≡ false
    → (allowed_origin origin os == "") ≡ not (lists os "*" || lists os origin)
nothing_allowed origin [] h = refl
nothing_allowed origin (o ∷ os) h =
    if-has (λ a. (a == "") ≡ not (lists (o ∷ os) "*" || lists (o ∷ os) origin))
      (o == "*" || o == origin) o (allowed_origin origin os) (λ e. ground (arith, e, h))
      (λ e. ground (arith, nothing_allowed origin os, e, h))

abbrev pub origin_header : String
origin_header = "Access-Control-Allow-Origin"

header-other :
    (hs : Headers) → header origin_header (other_cors_headers hs) ≡ header origin_header hs
header-other hs =
    header-set_header origin_header "Access-Control-Expose-Headers" exposed_headers
      (with_request_headers hs)
    ∙ header-set_header origin_header "Access-Control-Allow-Headers" request_headers
        (with_methods hs)
    ∙ header-set_header origin_header "Access-Control-Allow-Methods" "GET, OPTIONS" hs

header-allow :
    (allowed origin : String) (hs : Headers)
    → header origin_header (allow allowed origin hs) ≡ some (if allowed == "*" then "*" else origin)
unfolding allow
header-allow allowed origin hs = elim (Bool-cases (allowed == "*")) [
  | inl e ↦ rw e (header-set_header origin_header origin_header "*" hs)
  | inr e ↦ rw e (
      header-set_header origin_header "Vary" "Origin" (set_header origin_header origin hs)
      ∙ header-set_header origin_header origin_header origin hs)
]

-- what the header for the origin may be
abbrev pub IsGranted : List String → String → Option String → Type 0
IsGranted os origin none = (lists os "*" || lists os origin) ≡ false
IsGranted os origin (some v) =
    ((v ≡ "*") × (lists os "*" ≡ true)) ⊎ ((v ≡ origin) × (lists os origin ≡ true))

granted :
    (os : List String) (origin a : String)
    → IsFound origin os a
    → (a == "") ≡ false
    → IsGranted os origin (some (if a == "*" then "*" else origin))
unfolding IsFound
granted os origin a found h = elim (Bool-cases (a == "*")) [
  | inl e ↦ rw e (inl (refl, subst (λ t. lists os t ≡ true) ((eq_iff a "*").0 e) (found h).0))
  | inr e ↦ rw e (
      inr (
        refl,
        subst (λ t. lists os t ≡ true) ((eq_iff a origin).0 (ground (arith, (found h).1, e)))
            (found h).0,
      ))
]

named :
    (star empty blank : Bool)
    → (star || (not empty && not blank)) ≡ true
    → (star ≡ true → empty ≡ false)
    → empty ≡ false
named true empty blank h k = k refl
named false true blank h k = ground arith
named false false blank h k = refl

unnamed :
    (star empty blank same wildcard listed : Bool)
    → (star || (not empty && not blank)) ≡ false
    → empty ≡ not (wildcard || listed)
    → (empty ≡ false → (star || same) ≡ true)
    → (blank ≡ true → same ≡ true → empty ≡ true)
    → (wildcard || listed) ≡ false
unnamed true empty blank same wildcard listed h e k m = ground arith
unnamed false true blank same wildcard listed h e k m = ground arith
unnamed false false true same wildcard listed h e k m = ground (arith, k refl, m refl)
unnamed false false false same wildcard listed h e k m = ground arith

-- If no empty origin is configured and no header for the origin is set yet, the header is set
-- exactly if the wildcard or the request's origin is configured, and then to the wildcard if that is
-- configured, or to the request's origin if this is.
pub cors_headers_lem :
    (os : List String) (origin : String) (hs : Headers)
    → lists os "" ≡ false
    → header origin_header hs ≡ none
    → IsGranted os origin (header origin_header (cors_headers os origin hs))
unfolding cors_headers
cors_headers_lem os origin hs no_empty unset =
    let a = allowed_origin origin os in
    let found = allowed_origin-IsFound origin os in
    if-has (λ (r : Headers). IsGranted os origin (header origin_header r))
      (a == "*" || (not (a == "") && not (origin == ""))) _ hs
      (λ e.
        subst (IsGranted os origin)
          (sym (header-other (allow a origin hs) ∙ header-allow a origin hs))
          (granted os origin a found (
            named (a == "*") (a == "") (origin == "") e
              (λ k. ap (λ t. t == "") ((eq_iff a "*").0 k)))))
      (λ e. subst (IsGranted os origin) (sym unset) (
        unnamed (a == "*") (a == "") (origin == "") (a == origin) (lists os "*") (lists os origin) e
          (nothing_allowed origin os no_empty) (found_kind origin os)
          (λ o k. ap (λ t. t == "") ((eq_iff a origin).0 k) ∙ o)))
