-- ===== src/Gguf/Slug.antt =====
-- src/gguf_probe.rs: `custom_model_id`.
use mathlib.Core.List.{reverse}
use stt_server.Prelude.{
  ℕ, ◌+◌, Bool, true, false, not, ◌&&◌, ◌||◌, [], ◌∷◌, ◌++◌, Text, codes, leb, ◌==◌, if◌then◌else◌,
  take, map,
}

abbrev between : ℕ → ℕ → ℕ → Bool
between lo hi c = leb lo c && leb c hi

-- `to_ascii_lowercase` and `is_ascii_alphanumeric` of one character.
abbrev pub lower : ℕ → ℕ
lower c = if between b'A' b'Z' c then c + 32 else c

abbrev pub is_alphanumeric : ℕ → Bool
is_alphanumeric c = between b'0' b'9' c || between b'A' b'Z' c || between b'a' b'z' c

-- The slug so far, its last character first, and whether that is a dash.
pub record Slug : Type 0 where
  pub built : Text
  pub last_was_dash : Bool

abbrev is_empty : Text → Bool
is_empty [] = true
is_empty (_ ∷ _) = false

-- One round of the loop over the characters.
unfoldable pub add : Slug → ℕ → Slug
add s ch =
    if is_alphanumeric ch
    then record { built = ch ∷ s.built; last_was_dash = false }
    else if not s.last_was_dash && not (is_empty s.built)
    then record { built = b'-' ∷ s.built; last_was_dash = true }
    else s

unfoldable pub add_all : Slug → Text → Slug
add_all s [] = s
add_all s (ch ∷ rest) = add_all (add s ch) rest

-- `while slug.ends_with('-') { slug.pop(); }`, at the end that is first here.
unfoldable pub trim_dashes : Text → Text
trim_dashes [] = []
trim_dashes (c ∷ cs) = let rest = trim_dashes cs in if c == b'-' then rest else c ∷ cs

abbrev pub or_model : Text → Text
or_model [] = codes "model"
or_model (c ∷ cs) = reverse (c ∷ cs)

unfoldable pub slug : Text → Text
unfolding add add_all trim_dashes
slug name =
    or_model
      (trim_dashes (add_all (record { built = []; last_was_dash = false }) (map lower name)).built)

-- `&sha256[..sha256.len().min(8)]`: a digest is ASCII, so bytes are characters.
unfoldable pub custom_model_id : Text → Text → Text
custom_model_id name sha256 = codes "custom-" ++ slug name ++ codes "-" ++ take 8 sha256
