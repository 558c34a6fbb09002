-- ===== src/Gguf/SlugShape.antt =====
-- src/gguf_probe.rs: what a custom model's id may look like.
use mathlib.Core.List.{reverse_aux}
use stt_server.Prelude.{
  ℕ, ◌≡◌, ◌⊎◌, inl, inr, refl, Bool, true, false, not, ◌&&◌, ◌||◌, [], ◌∷◌, Text, leb, ◌==◌,
  if◌then◌else◌, arith, map, Bool-cases,
}
use stt_server.Gguf.Slug.{lower, is_alphanumeric, Slug, add, add_all, trim_dashes, or_model, slug}

abbrev pub is_slug_char : ℕ → Bool
is_slug_char c = (leb b'0' c && leb c b'9') || (leb b'a' c && leb c b'z')

-- Lower-case letters and digits in runs joined by single dashes, not empty, with no dash at an end;
-- `open` says that a dash may not come next.
abbrev pub joined : Bool → Text → Bool
joined open_end [] = not open_end
joined open_end (c ∷ cs) =
    let after_dash = joined true cs in
    let after_char = joined false cs in
    if c == b'-' then not open_end && after_dash else is_slug_char c && after_char

abbrev heads_dash : Text → Bool
heads_dash [] = false
heads_dash (c ∷ _) = c == b'-'

abbrev Clean : Slug → Type 0
Clean s = (joined false s.built ≡ true) × (s.last_was_dash ≡ heads_dash s.built)

lower_char :
    (c : ℕ)
    → is_alphanumeric (lower c) ≡ true
    → (is_slug_char (lower c) ≡ true) × ((lower c == b'-') ≡ false)
lower_char c h = ground arith

add-Clean : (s : Slug) (c : ℕ) → Clean s → Clean (add s (lower c))
unfolding add
add-Clean s c h = by_built s.built s.last_was_dash refl refl
  where
    by_built : (t : Text) (d : Bool) → s.built ≡ t → s.last_was_dash ≡ d → Clean (add s (lower c))
    by_built [] d e e' = ground (arith, h, lower_char c)
    by_built (x ∷ xs) d e e' = ground (arith, h, lower_char c)

add_all-Clean : (t : Text) (s : Slug) → Clean s → Clean (add_all s (map lower t))
unfolding add_all
add_all-Clean [] s h = h
add_all-Clean (c ∷ t) s h = add_all-Clean t (add s (lower c)) (add-Clean s c h)

joined_weaken : (t : Text) → joined true t ≡ true → joined false t ≡ true
joined_weaken [] h = refl
joined_weaken (c ∷ cs) h = ground arith

trim_joined :
    (t : Text) → joined false t ≡ true → (trim_dashes t ≡ []) ⊎ (joined true (trim_dashes t) ≡ true)
unfolding trim_dashes
trim_joined [] h = inl refl
trim_joined (c ∷ cs) h = elim (Bool-cases (c == b'-')) [
  | inl e ↦ rw e (trim_joined cs (ground (arith, joined_weaken cs)))
  | inr e ↦ rw e (inr (ground arith))
]

abbrev open_after : Text → Bool
open_after [] = true
open_after (c ∷ _) = c == b'-'

joined_closed : (t : Text) → open_after t ≡ false → joined false t ≡ true → joined true t ≡ true
joined_closed [] h ht = cc
joined_closed (c ∷ cs) h ht = ground arith

reverse_joined :
    (xs ys : Text)
    → joined (open_after ys) xs ≡ true
    → joined false ys ≡ true
    → joined true (reverse_aux xs ys) ≡ true
reverse_joined [] ys h hy = joined_closed ys (ground arith) hy
reverse_joined (x ∷ xs) ys h hy =
    reverse_joined xs (x ∷ ys) (ground arith) (ground (arith, joined_closed ys))

or_model-joined : (t : Text) → (t ≡ []) ⊎ (joined true t ≡ true) → joined true (or_model t) ≡ true
or_model-joined [] h = refl
or_model-joined (c ∷ cs) (inl h) = absurd cc
or_model-joined (c ∷ cs) (inr h) = reverse_joined (c ∷ cs) [] h refl

-- Whatever the model is called, its slug is not empty, it holds only lower-case letters, digits and
-- dashes, and no dash stands at an end or beside another.
pub slug-joined : (name : Text) → joined true (slug name) ≡ true
unfolding slug
slug-joined name =
    let s : Slug = add_all (record { built = []; last_was_dash = false }) (map lower name) in
    let clean = add_all-Clean name (record { built = []; last_was_dash = false }) (refl, refl) in
    or_model-joined (trim_dashes s.built) (trim_joined s.built clean.0)
