-- ===== src/Network/Addresses.antt =====
-- The lines of a text and its IPv4 addresses, as Rust's standard library reads and prints them.
use mathlib.Core.List.{reverse}
use stt_server.Prelude.{
  ℕ, ◌+◌, ◌-◌, ◌*◌, ◌/◌, ◌%◌, ◌&&◌, List, [], ◌∷◌, ◌++◌, Option, none, some, Text, leb, ◌==◌,
  if◌then◌else◌,
}

pub record Ipv4Addr : Type 0 where
  pub a : ℕ  -- the four octets, u8
  pub b : ℕ
  pub c : ℕ
  pub d : ℕ

-- The parts between the occurrences of a separator; always at least one.
abbrev split_onto : ℕ → Text → Text → List Text
split_onto sep part [] = reverse part ∷ []
split_onto sep part (c ∷ cs) =
    let next = split_onto sep [] cs in
    let longer = split_onto sep (c ∷ part) cs in if c == sep then reverse part ∷ next else longer

abbrev pub split : ℕ → Text → List Text
split sep t = split_onto sep [] t

abbrev drop_cr : Text → Text
drop_cr t = elim (reverse t) [ [] ↦ [] | ◌∷◌ c rest ↦ if c == 13 then reverse rest else t ]

abbrev line_ends : List Text → List Text
line_ends [] = []
line_ends ([] ∷ []) = []
line_ends (l ∷ ls) = drop_cr l ∷ line_ends ls

-- `str::lines`: no empty line after a last line break.
unfoldable pub lines : Text → List Text
lines t = line_ends (split 10 t)

abbrev digit_onto : ℕ → Text → Option ℕ
digit_onto n [] = some n
digit_onto n (c ∷ cs) =
    let rest = digit_onto (n * 10 + (c - b'0')) cs in
    if leb b'0' c && leb c b'9' then rest else none

abbrev at_most_255 : Option ℕ → Option ℕ
at_most_255 none = none
at_most_255 (some n) = if leb n 255 then some n else none

-- An octet has no leading zero.
abbrev octet : Text → Option ℕ
octet [] = none
octet (c ∷ []) = digit_onto 0 (c ∷ [])
octet (c ∷ cs) = if c == b'0' then none else at_most_255 (digit_onto 0 (c ∷ cs))

abbrev address : List (Option ℕ) → Option Ipv4Addr
address (some a ∷ some b ∷ some c ∷ some d ∷ []) = some (record { a = a; b = b; c = c; d = d })
address _ = none

abbrev octets : List Text → List (Option ℕ)
octets [] = []
octets (t ∷ ts) = octet t ∷ octets ts

unfoldable pub parse_ipv4 : Text → Option Ipv4Addr
parse_ipv4 t = address (octets (split b'.' t))

abbrev show_octet : ℕ → Text
show_octet n =
    if leb 100 n
    then (b'0' + n / 100) ∷ (b'0' + n / 10 % 10) ∷ (b'0' + n % 10) ∷ []
    else if leb 10 n
    then (b'0' + n / 10) ∷ (b'0' + n % 10) ∷ []
    else (b'0' + n) ∷ []

unfoldable pub show_ipv4 : Ipv4Addr → Text
show_ipv4 ip =
    show_octet ip.a
    ++ (b'.' ∷ show_octet ip.b)
    ++ (b'.' ∷ show_octet ip.c)
    ++ (b'.' ∷ show_octet ip.d)
