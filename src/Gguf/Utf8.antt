-- ===== src/Gguf/Utf8.antt =====
-- `String::from_utf8_lossy` as src/gguf_probe.rs uses it: a decoder that reads byte by byte, and
-- puts one U+FFFD for each maximal part of a broken sequence.
use stt_server.Prelude.{
  ℕ, zero, suc, ◌+◌, ◌*◌, ◌-◌, ◌≡◌, refl, Bool, ◌&&◌, List, [], ◌∷◌, ◌++◌, Text, ltb, leb, ◌==◌,
  if◌then◌else◌,
}

-- Between characters, or inside one: bytes to come after the next one, the range of the next one,
-- and the bits so far.
pub data Decoder : Type 0 where
  ready : Decoder
  inside : ℕ → ℕ → ℕ → ℕ → Decoder

abbrev pub replacement : ℕ
replacement = 0xFFFD

abbrev between : ℕ → ℕ → ℕ → Bool
between lo hi b = leb lo b && leb b hi

-- A byte where a character may begin.
pub begin : ℕ → Text × Decoder
begin b =
    if ltb b 0x80
    then (b ∷ [], ready)
    else if between 0xC2 0xDF b
    then ([], inside 0 0x80 0xBF (b - 0xC0))
    else if b == 0xE0
    then ([], inside 1 0xA0 0xBF 0)
    else if b == 0xED
    then ([], inside 1 0x80 0x9F 0xD)
    else if between 0xE1 0xEF b
    then ([], inside 1 0x80 0xBF (b - 0xE0))
    else if b == 0xF0
    then ([], inside 2 0x90 0xBF 0)
    else if between 0xF1 0xF3 b
    then ([], inside 2 0x80 0xBF (b - 0xF0))
    else if b == 0xF4
    then ([], inside 2 0x80 0x8F 4)
    else (replacement ∷ [], ready)

abbrev broken : Text × Decoder → Text × Decoder
broken (out, d) = (replacement ∷ out, d)

pub feed : Decoder → ℕ → Text × Decoder
unfolding begin
feed ready b = begin b
feed (inside zero lo hi acc) b =
    if between lo hi b then ((acc * 64 + (b - 0x80)) ∷ [], ready) else broken (begin b)
feed (inside (suc k) lo hi acc) b =
    if between lo hi b then ([], inside k 0x80 0xBF (acc * 64 + (b - 0x80))) else broken (begin b)

pub decode : Decoder → List ℕ → Text
unfolding feed
decode ready [] = []
decode (inside _ _ _ _) [] = replacement ∷ []
decode ready (b ∷ bs) = let (out, d) = feed ready b in out ++ decode d bs
decode (inside k lo hi acc) (b ∷ bs) =
    let (out, d) = feed (inside k lo hi acc) b in out ++ decode d bs

unfoldable pub from_utf8_lossy : List ℕ → Text
unfolding decode
from_utf8_lossy bytes = decode ready bytes

euro :
    from_utf8_lossy (0x41 ∷ 0xE2 ∷ 0x82 ∷ 0xAC ∷ 0xF0 ∷ 0x9F ∷ 0x42 ∷ [])
    ≡ 0x41 ∷ 0x20AC ∷ 0xFFFD ∷ 0x42 ∷ []
unfolding from_utf8_lossy
euro = refl
