-- ===== src/Background/Hosts/Laws.antt =====
-- `is_valid_host` against a description by independent conditions.
use lumescope.Prelude.{
  ℕ, suc, ◌+◌, ◌-◌, ◌≡◌, refl, ap, ◌∙◌, Bool, true, false, ◌&&◌, ◌||◌, not, List, [], ◌∷◌, ◌==◌,
  nat_eq, length, leb, ltb, any, arith, none, some, if◌then◌else◌, Bool-cases, inl, inr,
}
use lumescope.Background.Hosts.{is_letter, Scan, read_char, read_host, is_valid_host}
use lumescope.Background.Hosts.Kinds.{
  is_dot, is_legal, all, is_mark, ends_well, starts_well, no_double_dot, a_letter, a_dot, a_digit,
  a_hyphen, other, classify,
}

abbrev behind : ℕ → ℕ → ℕ → Bool → Bool → Scan
behind n i prev l d = record {
  size = n;
  index = suc i;
  previous = prev;
  has_letter = l;
  has_dot = d;
}

-- one round behind the first character
read_behind :
    (n i prev c : ℕ) (l d last : Bool)
    → (suc i == n - 1) ≡ last
    → read_char (behind n i prev l d) c ≡ (
        if is_legal c && (not (is_mark c && last) && not (is_dot prev && is_dot c))
        then some (behind n (suc i) c (l || is_letter c) (d || is_dot c))
        else none)
unfolding read_char
read_behind n i prev c l d last at_last = elim (classify c) [
  | a_letter k ↦ ground (arith, k.letter_lem, k.dot_lem, k.hyphen_lem, k.digit_lem)
  | a_dot k ↦ ground (arith, k.letter_lem, k.dot_lem, k.hyphen_lem, k.digit_lem)
  | a_digit k ↦ ground (arith, k.letter_lem, k.dot_lem, k.hyphen_lem, k.digit_lem)
  | a_hyphen k ↦ ground (arith, k.letter_lem, k.dot_lem, k.hyphen_lem, k.digit_lem)
  | other k ↦ ground (arith, k.letter_lem, k.dot_lem, k.hyphen_lem, k.digit_lem)
]

read_host_step :
    (n i prev c : ℕ) (l d last : Bool) (cs : List ℕ)
    → (suc i == n - 1) ≡ last
    → read_host (behind n i prev l d) (c ∷ cs) ≡ (
        is_legal c
        && (not (is_mark c && last) && not (is_dot prev && is_dot c))
        && read_host (behind n (suc i) c (l || is_letter c) (d || is_dot c)) cs)
unfolding read_host
read_host_step n i prev c l d last cs at_last =
    let fine = is_legal c && (not (is_mark c && last) && not (is_dot prev && is_dot c)) in
    elim (Bool-cases fine) [
      | inl e ↦ rw (read_behind n i prev c l d last at_last, read_host, e)
      | inr e ↦ rw (read_behind n i prev c l d last at_last, read_host, e)
    ]

regroup_one :
    (legal mark double l c d e : Bool)
    → ((legal && (not (mark && true) && not double))
        && (true && (true && (true && ((l || c || false) && (d || e || false))))))
      ≡ ((legal && true)
          && (not mark && ((not double && true) && ((l || (c || false)) && (d || (e || false))))))
regroup_one false mark double l c d e = refl
regroup_one true true double l c d e = refl
regroup_one true false true l c d e = refl
regroup_one true false false true c d e = ground arith
regroup_one true false false false c d e = ground arith

regroup_more :
    (legal mark double ok ends more l c a d e b : Bool)
    → ((legal && (not (mark && false) && not double))
        && (ok && (ends && (more && ((l || c || a) && (d || e || b))))))
      ≡ ((legal && ok) && (ends && ((not double && more) && ((l || (c || a)) && (d || (e || b))))))
regroup_more false mark double ok ends more l c a d e b = refl
regroup_more true mark true false ends more l c a d e b = ground arith
regroup_more true mark true true ends more l c a d e b = ground arith
regroup_more true mark false false ends more l c a d e b = ground arith
regroup_more true mark false true false more l c a d e b = ground arith
regroup_more true mark false true true false l c a d e b = ground arith
regroup_more true mark false true true true l c a d e b = ground arith

-- the loop behind the first character
read_host_lem :
    (n i prev : ℕ) (l d : Bool) (cs : List ℕ)
    → n ≡ suc i + length cs
    → read_host (behind n i prev l d) cs ≡ (
        all is_legal cs
        && (ends_well cs
            && (no_double_dot prev cs && ((l || any is_letter cs) && (d || any is_dot cs)))))
read_host_lem n i prev l d [] size = unfold read_host in ground arith
read_host_lem n i prev l d (c ∷ []) size =
    read_host_step n i prev c l d true [] (ground arith)
    ∙ ap (λ b. is_legal c && (not (is_mark c && true) && not (is_dot prev && is_dot c)) && b)
        (read_host_lem n (suc i) c (l || is_letter c) (d || is_dot c) [] (omega arith))
    ∙ regroup_one (is_legal c) (is_mark c) (is_dot prev && is_dot c) l (is_letter c) d (is_dot c)
read_host_lem n i prev l d (c ∷ e ∷ cs) size =
    read_host_step n i prev c l d false (e ∷ cs) (ground arith)
    ∙ ap (λ b. is_legal c && (not (is_mark c && false) && not (is_dot prev && is_dot c)) && b)
        (read_host_lem n (suc i) c (l || is_letter c) (d || is_dot c) (e ∷ cs) (omega arith))
    ∙ regroup_more (is_legal c) (is_mark c) (is_dot prev && is_dot c) (all is_legal (e ∷ cs))
        (ends_well (e ∷ cs)) (no_double_dot c (e ∷ cs)) l (is_letter c) (any is_letter (e ∷ cs)) d
        (is_dot c) (any is_dot (e ∷ cs))

-- What a host name has to be: 1 to 253 characters, each a letter, a digit, a dot or a hyphen, with
-- a letter and a dot among them, no dot or hyphen at either end, and no two dots in a row.
abbrev pub describes_host : List ℕ → Bool
describes_host cs =
    not (length cs == 0)
    && (leb (length cs) 253
        && (starts_well cs
            && (all is_legal cs
                && (ends_well cs && (no_double_dot 0 cs && (any is_letter cs && any is_dot cs))))))

abbrev start : ℕ → Scan
start n = record { size = n; index = 0; previous = 0; has_letter = false; has_dot = false }

read_first :
    (n c : ℕ)
    → read_char (start n) c ≡ (
        if is_legal c && not (is_mark c)
        then some (behind n 0 c (is_letter c) (is_dot c))
        else none)
unfolding read_char
read_first n c = elim (classify c) [
  | a_letter k ↦ ground (arith, k.letter_lem, k.dot_lem, k.hyphen_lem, k.digit_lem)
  | a_dot k ↦ ground (arith, k.letter_lem, k.dot_lem, k.hyphen_lem, k.digit_lem)
  | a_digit k ↦ ground (arith, k.letter_lem, k.dot_lem, k.hyphen_lem, k.digit_lem)
  | a_hyphen k ↦ ground (arith, k.letter_lem, k.dot_lem, k.hyphen_lem, k.digit_lem)
  | other k ↦ ground (arith, k.letter_lem, k.dot_lem, k.hyphen_lem, k.digit_lem)
]

read_host_first :
    (n c : ℕ) (cs : List ℕ)
    → read_host (start n) (c ∷ cs)
      ≡ (is_legal c && not (is_mark c) && read_host (behind n 0 c (is_letter c) (is_dot c)) cs)
unfolding read_host
read_host_first n c cs = elim (Bool-cases (is_legal c && not (is_mark c))) [
  | inl e ↦ rw (read_first n c, read_host, e)
  | inr e ↦ rw (read_first n c, read_host, e)
]

regroup_first :
    (short legal mark ok ends last more l a d b : Bool)
    → (mark ≡ false → last ≡ ends)
    → (short && (legal && not mark && (ok && (ends && (more && ((l || a) && (d || b)))))))
      ≡ (short && (not mark && ((legal && ok) && (last && (more && ((l || a) && (d || b)))))))
regroup_first false legal mark ok ends last more l a d b h = refl
regroup_first true false mark ok ends last more l a d b h = ground arith
regroup_first true true true ok ends last more l a d b h = refl
regroup_first true true false false ends last more l a d b h = refl
regroup_first true true false true ends last more l a d b h = rw (h refl)

ends_well-cons : (c : ℕ) (cs : List ℕ) → is_mark c ≡ false → ends_well (c ∷ cs) ≡ ends_well cs
ends_well-cons c [] h = rw h
ends_well-cons c (e ∷ cs) h = refl

not-ltb : (n : ℕ) → not (ltb 253 n) ≡ leb n 253
not-ltb n = ground arith

if_not : (big b : Bool) → (if big then false else b) ≡ (not big && b)
if_not true b = refl
if_not false b = refl

open_host :
    (is_ip : List ℕ → Bool) (c : ℕ) (cs : List ℕ)
    → is_valid_host is_ip (c ∷ cs) ≡ (
        if is_ip (c ∷ cs)
        then true
        else if ltb 253 (suc (length cs))
        then false
        else read_host (start (suc (length cs))) (c ∷ cs))
unfolding is_valid_host
open_host is_ip c cs =
    let some_chars : (suc (length cs) == 0) ≡ false = ground arith in rw some_chars

described_name :
    (c : ℕ) (cs : List ℕ)
    → (leb (suc (length cs)) 253 && read_host (start (suc (length cs))) (c ∷ cs))
      ≡ describes_host (c ∷ cs)
described_name c cs =
    let some_chars : (suc (length cs) == 0) ≡ false = ground arith in
    ap (λ b. leb (suc (length cs)) 253 && b)
      (read_host_first (suc (length cs)) c cs
        ∙ ap (λ b. is_legal c && not (is_mark c) && b)
            (read_host_lem (suc (length cs)) 0 c (is_letter c) (is_dot c) cs (omega arith)))
    ∙ regroup_first (leb (suc (length cs)) 253) (is_legal c) (is_mark c) (all is_legal cs)
        (ends_well cs) (ends_well (c ∷ cs)) (no_double_dot c cs) (is_letter c) (any is_letter cs)
        (is_dot c) (any is_dot cs) (ends_well-cons c cs)
    ∙ rw some_chars

if_or : (b x : Bool) → (if b then true else x) ≡ (b || x)
if_or true x = refl
if_or false x = refl

-- A host is accepted exactly if it is an IP address, or has 1 to 253 characters, all letters,
-- digits, hyphens and dots, with a letter and a dot among them, no dot or hyphen at either end, and
-- no two dots in a row. No label's length is tested, nor a hyphen beside a dot.
pub is_valid_host_lem :
    (is_ip : List ℕ → Bool) (host : List ℕ)
    → is_valid_host is_ip host ≡ (is_ip host || describes_host host)
is_valid_host_lem is_ip [] = unfold is_valid_host in ground arith
is_valid_host_lem is_ip (c ∷ cs) =
    let size = suc (length cs) in
    open_host is_ip c cs
    ∙ if_or (is_ip (c ∷ cs)) _
    ∙ ap (λ b. is_ip (c ∷ cs) || b)
        (if_not (ltb 253 size) (read_host (start size) (c ∷ cs))
          ∙ ap (λ b. b && read_host (start size) (c ∷ cs)) (not-ltb size)
          ∙ described_name c cs)
