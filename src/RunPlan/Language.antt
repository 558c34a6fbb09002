-- ===== src/RunPlan/Language.antt =====
-- src/run_plan.rs: matching a language hint with the languages of the loaded model.
-- Lower-casing follows the tables of Unicode; it is the parameter `to_lowercase` here.
use stt_server.Prelude.{
  ℕ, ◌+◌, Bool, true, false, not, ◌&&◌, ◌||◌, List, [], ◌∷◌, Option, none, some, Text, codes,
  text_eq, trim, find, leb, ◌==◌, if◌then◌else◌,
}
use stt_server.Capabilities.{EffectiveCaps}

abbrev ascii_lower : ℕ → ℕ
ascii_lower c = if leb b'A' c && leb c b'Z' then c + 32 else c

abbrev pub eq_ignore_ascii_case : Text → Text → Bool
eq_ignore_ascii_case [] [] = true
eq_ignore_ascii_case [] (_ ∷ _) = false
eq_ignore_ascii_case (_ ∷ _) [] = false
eq_ignore_ascii_case (a ∷ s) (b ∷ t) = (ascii_lower a == ascii_lower b) && eq_ignore_ascii_case s t

abbrev pub is_empty : Text → Bool
is_empty [] = true
is_empty (_ ∷ _) = false

unfoldable pub normalize_cjk_language : Text → Text
normalize_cjk_language language =
    if text_eq language (codes "zh-Hans") || text_eq language (codes "zh-Hant")
    then codes "zh"
    else language

-- The part before the first `-` or `_`.
unfoldable pub base_language : Text → Text
base_language [] = []
base_language (c ∷ cs) =
    let rest = base_language cs in if (c == b'-') || (c == b'_') then [] else c ∷ rest

unfoldable pub canonical_language_code : Text → Text
canonical_language_code language =
    let base = base_language language in
    if text_eq base (codes "nb")
    then codes "no"
    else if text_eq base (codes "fil")
    then codes "tl"
    else base

abbrev pub or_else {ℓ} : {A : Type ℓ} → Option A → Option A → Option A
or_else none other = other
or_else (some a) other = some a

abbrev pub same_base : Text → Text → Bool
same_base a b = text_eq (base_language a) (base_language b)

abbrev pub same_canonical : Text → Text → Bool
same_canonical a b = text_eq (canonical_language_code a) (canonical_language_code b)

unfoldable pub fallback_language : List Text → Bool → Option Text
fallback_language [] detects = none
fallback_language (l ∷ ls) true = none
fallback_language (l ∷ ls) false =
    or_else (find (λ x. text_eq (base_language x) (codes "en")) (l ∷ ls)) (some l)

-- The five results of `resolve_language`.
pub record Resolved : Type 0 where
  pub language : Option Text
  pub hint_applied : Bool
  pub hint_provided : Bool
  pub applied_language : Option Text
  pub evidence : Option Text

abbrev pub has_hint : Option Text → Bool
has_hint none = false
has_hint (some raw) =
    not (is_empty (trim raw)) && not (eq_ignore_ascii_case (trim raw) (codes "auto"))

abbrev matched_as : Text → Resolved
matched_as l = record {
  language = some l;
  hint_applied = true;
  hint_provided = true;
  applied_language = some l;
  evidence = some (codes "user_selected");
}

abbrev constrained : Bool → Option Text → Resolved
constrained hint none = record {
  language = none;
  hint_applied = false;
  hint_provided = hint;
  applied_language = none;
  evidence = none;
}
constrained hint (some l) = record {
  language = some l;
  hint_applied = false;
  hint_provided = hint;
  applied_language = some l;
  evidence = some (codes "model_constrained");
}

abbrev pub or_constrained : Bool → Option Text → Option Text → Resolved
or_constrained hint (some l) fallback = matched_as l
or_constrained hint none fallback = constrained hint fallback

module _ (to_lowercase : Text → Text) where
  unfoldable pub match_language_hint : Text → List Text → Option Text
  match_language_hint requested supported =
      let normalized = normalize_cjk_language (to_lowercase requested) in
      or_else (find (λ lang. same_base lang normalized) supported)
        (find (λ lang. same_canonical lang normalized) supported)

  abbrev pub matched_hint : Bool → Option Text → List Text → Option Text
  matched_hint true (some raw) supported = match_language_hint (trim raw) supported
  matched_hint _ _ supported = none

  unfoldable pub resolve_language : Option Text → EffectiveCaps → Resolved
  unfolding match_language_hint fallback_language
  resolve_language requested caps =
      or_constrained (has_hint requested)
        (matched_hint (has_hint requested) requested caps.loaded.languages)
        (fallback_language caps.loaded.languages caps.loaded.supports_language_detect)
