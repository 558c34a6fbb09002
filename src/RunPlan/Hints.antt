-- ===== src/RunPlan/Hints.antt =====
-- src/run_plan.rs: the language that a hint resolves to is one of the model's.
use stt_server.Prelude.{
  ◌≡◌, refl, Bool, true, false, List, [], ◌∷◌, Option, none, some, Text, codes, text_eq, trim,
  text_eq_refl, any, find, arith,
}
use stt_server.Capabilities.{EffectiveCaps}
use stt_server.RunPlan.Language.{
  fallback_language, match_language_hint, matched_hint, resolve_language, Resolved, or_else,
  or_constrained, has_hint, same_base, same_canonical, base_language, normalize_cjk_language,
}

-- The language is one of the model's, or left to the engine to detect.
abbrev pub Among : List Text → Option Text → Type 0
Among languages none = Unit {0}
Among languages (some l) = any (λ x. text_eq x l) languages ≡ true

abbrev pub LanguageFits : EffectiveCaps → Resolved → Type 0
LanguageFits caps r = (r.language ≡ r.applied_language) × Among caps.loaded.languages r.language

find-Among : (p : Text → Bool) (xs : List Text) → Among xs (find p xs)
find-Among p [] = tt
find-Among p (x ∷ xs) = by_test (p x) refl (find p xs) (find-Among p xs) refl
  where
    by_test :
        (b : Bool)
        → p x ≡ b
        → (o : Option Text) → Among xs o
        → find p xs ≡ o
        → Among (x ∷ xs) (find p (x ∷ xs))
    by_test true e o h k = rw e (ground (arith, text_eq_refl x))
    by_test false e none h k = rw e (rw k tt)
    by_test false e (some l) h k = rw e (rw k (ground (arith, h)))

or_else-Among :
    (xs : List Text) (a b : Option Text) → Among xs a → Among xs b → Among xs (or_else a b)
or_else-Among xs none b ha hb = hb
or_else-Among xs (some a) b ha hb = ha

fallback-Among : (xs : List Text) (d : Bool) → Among xs (fallback_language xs d)
unfolding fallback_language
fallback-Among [] d = tt
fallback-Among (l ∷ ls) true = tt
fallback-Among (l ∷ ls) false =
    or_else-Among (l ∷ ls) (find (λ x. text_eq (base_language x) (codes "en")) (l ∷ ls)) (some l)
      (find-Among (λ x. text_eq (base_language x) (codes "en")) (l ∷ ls))
      (ground (arith, text_eq_refl l))

or_constrained-Fits :
    (caps : EffectiveCaps) (hint : Bool) (a b : Option Text)
    → Among caps.loaded.languages a
    → Among caps.loaded.languages b
    → LanguageFits caps (or_constrained hint a b)
or_constrained-Fits caps hint (some l) b ha hb = (refl, ha)
or_constrained-Fits caps hint none none ha hb = (refl, tt)
or_constrained-Fits caps hint none (some l) ha hb = (refl, hb)

module _ (to_lowercase : Text → Text) where
  matched-Among :
      (hint : Bool) (asked : Option Text) (xs : List Text)
      → Among xs (matched_hint to_lowercase hint asked xs)
  unfolding match_language_hint
  matched-Among false asked xs = tt
  matched-Among true none xs = tt
  matched-Among true (some raw) xs =
      let n = normalize_cjk_language (to_lowercase (trim raw)) in
      or_else-Among xs (find (λ l. same_base l n) xs) (find (λ l. same_canonical l n) xs)
        (find-Among (λ l. same_base l n) xs) (find-Among (λ l. same_canonical l n) xs)

  pub resolve_language-Fits :
      (asked : Option Text) (caps : EffectiveCaps)
      → LanguageFits caps (resolve_language to_lowercase asked caps)
  unfolding resolve_language
  resolve_language-Fits asked caps =
      or_constrained-Fits caps (has_hint asked)
        (matched_hint to_lowercase (has_hint asked) asked caps.loaded.languages)
        (fallback_language caps.loaded.languages caps.loaded.supports_language_detect)
        (matched-Among (has_hint asked) asked caps.loaded.languages)
        (fallback-Among caps.loaded.languages caps.loaded.supports_language_detect)
