-- ===== src/Background/Hosts.antt =====
-- internal/background/scheduler.go: which hosts are probed. A host is the list of its characters.
-- The source walks bytes; a host with a character outside ASCII is refused either way.
pub mod Kinds
pub mod Laws
use lumescope.Prelude.{
  ℕ, suc, ◌+◌, ◌-◌, Bool, true, false, ◌&&◌, ◌||◌, Option, none, some, List, [], ◌∷◌, ◌==◌, nat_eq,
  length, leb, ltb, if◌then◌else◌,
}
use lumescope.Strconv.{is_digit}

abbrev pub is_letter : ℕ → Bool
is_letter c = leb b'a' c && leb c b'z' || leb b'A' c && leb c b'Z'

-- the variables of the loop: the length and the position, the previous character, the two flags
pub record Scan : Type 0 where
  pub size : ℕ
  pub index : ℕ
  pub previous : ℕ
  pub has_letter : Bool
  pub has_dot : Bool

abbrev at_end : Scan → Bool
at_end s = s.index == 0 || s.index == s.size - 1

-- one round; `none` is `return false`
read_char : Scan → ℕ → Option Scan
read_char s c =
    let next = record s { index = s.index + 1; previous = c } in
    if is_letter c
    then some (record next { has_letter = true })
    else if c == b'.'
    then if at_end s || s.previous == b'.' then none else some (record next { has_dot = true })
    else if is_digit c
    then some next
    else if c == b'-'
    then if at_end s then none else some next
    else none

read_host : Scan → List ℕ → Bool
read_host s [] = s.has_letter && s.has_dot
read_host s (c ∷ cs) = elim (read_char s c) [ none ↦ false | some s' ↦ read_host s' cs ]

-- net.ParseIP, as a test, is a parameter
unfoldable pub is_valid_host : (List ℕ → Bool) → List ℕ → Bool
unfolding read_host read_char
is_valid_host is_ip host =
    if is_ip host
    then true
    else if length host == 0 || ltb 253 (length host)
    then false
    else read_host
        (record {
          size = length host;
          index = 0;
          previous = 0;
          has_letter = false;
          has_dot = false;
        })
        host
