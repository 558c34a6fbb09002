-- ===== src/RunPlan/Refusals.antt =====
-- src/run_plan.rs, with src/errors.rs: which requests are never refused, and when a failed run is
-- tried again without timestamps.
use package.text.Mathlib.Text.{◌==◌ as str_eq}
use stt_server.Prelude.{
  ℕ, ◌≡◌, ◌∙◌, refl, ap, Bool, true, false, not, inl, inr, Bool-cases, ◌&&◌, List, Option, none,
  some, Text, arith,
}
use stt_server.Errors.{
  ApiResult, ok, ◌>>=◌, EngineError, unsupported, invalid_argument, input_too_long, aborted, busy,
  out_of_memory, other, output_truncated, map_engine_error,
}
use stt_server.Capabilities.{
  EffectiveCaps, supports_segment_timestamps, TimestampGranularity, no_timestamps, segment,
}
use stt_server.RunPlan.Language.{
  resolve_language, or_constrained, or_else, matched_hint, has_hint, fallback_language,
}
use stt_server.RunPlan.Sound.{OnOk, OnOk-bind, OnOk-skip, OnOk-at}
use stt_server.RunPlan.{
  Endpoint, transcriptions, ResponseFormat, json, plain, verbose_json, ParsedRequest, Plan,
  plan_prompt, plan_temperature, plan_format, requested, plan_timestamps, plan_task, plan,
  is_verbose, is_segment, should_retry_without_timestamps,
}

abbrev pub is_unsupported : {Transcript : Type 0} → EngineError Transcript → Bool
is_unsupported (unsupported _) = true
is_unsupported _ = false

code_unsupported :
    {Transcript : Type 0} (display : EngineError Transcript → Text) (e : EngineError Transcript)
    → str_eq (map_engine_error display e).code "engine_unsupported" ≡ is_unsupported e
unfolding map_engine_error
code_unsupported display (invalid_argument _) = refl
code_unsupported display (unsupported _) = refl
code_unsupported display (input_too_long _) = refl
code_unsupported display (aborted _) = refl
code_unsupported display (busy _) = refl
code_unsupported display (out_of_memory _) = refl
code_unsupported display (other _) = refl
code_unsupported display (output_truncated _) = refl

-- Segment timestamps that nobody asked for.
abbrev pub defaulted : EffectiveCaps → List Text → ResponseFormat → Bool
defaulted caps gs f =
    is_verbose f
    && (not (requested "word" gs)
        && (not (requested "segment" gs) && supports_segment_timestamps caps))

defaulted_lem :
    (caps : EffectiveCaps) (gs : List Text) (f : ResponseFormat)
    → OnOk
        (λ v. (is_verbose f && (is_segment v.0 && not v.1)) ≡ defaulted caps gs f)
        (plan_timestamps caps gs f)
unfolding plan_timestamps
defaulted_lem caps gs json = refl
defaulted_lem caps gs plain = refl
defaulted_lem caps gs verbose_json = ground arith

and_assoc3 : (a b c d : Bool) → (a && (b && (c && d))) ≡ ((a && (b && c)) && d)
and_assoc3 true true true d = refl
and_assoc3 true true false d = refl
and_assoc3 true false c d = refl
and_assoc3 false b c d = refl

abbrev Defaulted : {Float : Type 0} → EffectiveCaps → List Text → Plan Float → Type 0
Defaulted caps gs p =
    (is_verbose p.response_format && (is_segment p.timestamps && not p.timestamps_explicit))
    ≡ defaulted caps gs p.response_format

>>=-total :
    {A B : Type 0} (m : ApiResult A) (f : A → ApiResult B) (a : A)
    → m ≡ ok a
    → (b : B) × (f a ≡ ok b)
    → (b : B) × ((m >>= f) ≡ ok b)
>>=-total m f a h k = (k.0, rw h k.1)

-- Where no granularity is named the timestamps are never a reason to refuse.
timestamps_total :
    (caps : EffectiveCaps) (gs : List Text) (f : ResponseFormat)
    → requested "word" gs ≡ false
    → requested "segment" gs ≡ false
    → (v : TimestampGranularity × Bool) × (plan_timestamps caps gs f ≡ ok v)
unfolding plan_timestamps
timestamps_total caps gs json hw hs = ((no_timestamps, false), refl)
timestamps_total caps gs plain hw hs = ((no_timestamps, false), refl)
timestamps_total caps gs verbose_json hw hs = elim (Bool-cases (supports_segment_timestamps caps)) [
  | inl h ↦ ((segment, false), rw hw (rw hs (rw h refl)))
  | inr h ↦ ((no_timestamps, false), rw hw (rw hs (rw h refl)))
]

or_constrained-language :
    (hint : Bool) (a b : Option Text) → (or_constrained hint a b).language ≡ or_else a b
or_constrained-language hint (some l) b = refl
or_constrained-language hint none none = refl
or_constrained-language hint none (some l) = refl

module _ {Float : Type 0} (in_unit : Float → Bool) (to_lowercase : Text → Text) where
  resolve_language-language :
      (asked : Option Text) (caps : EffectiveCaps)
      → (resolve_language to_lowercase asked caps).language
        ≡ or_else
            (matched_hint to_lowercase (has_hint asked) asked caps.loaded.languages)
            (fallback_language caps.loaded.languages caps.loaded.supports_language_detect)
  unfolding resolve_language
  resolve_language-language asked caps =
      or_constrained-language (has_hint asked)
        (matched_hint to_lowercase (has_hint asked) asked caps.loaded.languages)
        (fallback_language caps.loaded.languages caps.loaded.supports_language_detect)

  plan-Defaulted :
      (request : ParsedRequest Float) (caps : EffectiveCaps) (endpoint : Endpoint)
      (tokenize : Option (Text → Option ℕ))
      → OnOk
          (Defaulted caps request.timestamp_granularities)
          (plan in_unit to_lowercase request caps endpoint tokenize)
  unfolding plan
  plan-Defaulted request caps endpoint tokenize =
      let gs = request.timestamp_granularities in
      let Q : Plan Float → Type 0 = Defaulted caps gs in
      OnOk-skip Q (plan_prompt caps tokenize request.prompt) _ (λ a.
        OnOk-skip Q (plan_temperature in_unit caps request.temperature) _ (λ b.
          OnOk-skip Q (plan_format request.response_format) _ (λ f.
            OnOk-bind (λ v. (is_verbose f && (is_segment v.0 && not v.1)) ≡ defaulted caps gs f) Q
              (plan_timestamps caps gs f) _ (defaulted_lem caps gs f)
              (λ v h.
                OnOk-skip Q
                  (plan_task caps
                    (resolve_language to_lowercase request.language caps).applied_language
                    request.target_language endpoint)
                  _ (λ t. h)))))

  -- A failed run of a plan is tried again without timestamps exactly when the answer was to be
  -- verbose, the request named no granularity `word` or `segment`, the model claims segment
  -- timestamps, and the engine's error is `Unsupported`.
  pub retry-defaulted :
      {Transcript : Type 0} (display : EngineError Transcript → Text) (e : EngineError Transcript)
      (request : ParsedRequest Float) (caps : EffectiveCaps) (endpoint : Endpoint)
      (tokenize : Option (Text → Option ℕ)) (p : Plan Float)
      → plan in_unit to_lowercase request caps endpoint tokenize ≡ ok p
      → should_retry_without_timestamps p.response_format p.timestamps p.timestamps_explicit
          (map_engine_error display e).code
        ≡ (defaulted caps request.timestamp_granularities p.response_format && is_unsupported e)
  unfolding should_retry_without_timestamps
  retry-defaulted display e request caps endpoint tokenize p h =
      and_assoc3 (is_verbose p.response_format) (is_segment p.timestamps)
        (not p.timestamps_explicit) (str_eq (map_engine_error display e).code "engine_unsupported")
      ∙ ap
          (λ b.
            (is_verbose p.response_format && (is_segment p.timestamps && not p.timestamps_explicit))
            && b)
          (code_unsupported display e)
      ∙ ap (λ b. b && is_unsupported e)
          (OnOk-at (Defaulted caps request.timestamp_granularities)
            (plan in_unit to_lowercase request caps endpoint tokenize) p
            (plan-Defaulted request caps endpoint tokenize) h)

  abbrev language_for : Option Text → EffectiveCaps → Option Text
  language_for asked caps =
      or_else (matched_hint to_lowercase (has_hint asked) asked caps.loaded.languages)
        (fallback_language caps.loaded.languages caps.loaded.supports_language_detect)

  plan-language :
      (request : ParsedRequest Float) (caps : EffectiveCaps) (endpoint : Endpoint)
      (tokenize : Option (Text → Option ℕ))
      → OnOk
          (λ p. p.language ≡ language_for request.language caps)
          (plan in_unit to_lowercase request caps endpoint tokenize)
  unfolding plan
  plan-language request caps endpoint tokenize =
      let Q : Plan Float → Type 0 = λ p. p.language ≡ language_for request.language caps in
      OnOk-skip Q (plan_prompt caps tokenize request.prompt) _ (λ a.
        OnOk-skip Q (plan_temperature in_unit caps request.temperature) _ (λ b.
          OnOk-skip Q (plan_format request.response_format) _ (λ f.
            OnOk-skip Q (plan_timestamps caps request.timestamp_granularities f) _ (λ v.
              OnOk-skip Q
                (plan_task caps
                  (resolve_language to_lowercase request.language caps).applied_language
                  request.target_language endpoint)
                _ (λ t. resolve_language-language request.language caps)))))

  plan_total :
      (request : ParsedRequest Float) (caps : EffectiveCaps) (tokenize : Option (Text → Option ℕ))
      (f : ResponseFormat)
      → request.prompt ≡ none
      → request.temperature ≡ none
      → plan_format request.response_format ≡ ok f
      → requested "word" request.timestamp_granularities ≡ false
      → requested "segment" request.timestamp_granularities ≡ false
      → (p : Plan Float) × (plan in_unit to_lowercase request caps transcriptions tokenize ≡ ok p)
  unfolding plan plan_prompt plan_temperature plan_task
  plan_total request caps tokenize f hp ht hf hw hs =
      >>=-total (plan_prompt caps tokenize request.prompt) _ none (rw hp refl) (
        >>=-total (plan_temperature in_unit caps request.temperature) _ none (rw ht refl) (
          >>=-total (plan_format request.response_format) _ f hf (
            let v = timestamps_total caps request.timestamp_granularities f hw hs in
            >>=-total (plan_timestamps caps request.timestamp_granularities f) _ v.0 v.1
              (_, refl))))

  -- A transcription request that sets no prompt, no temperature and no granularity, with a response
  -- format that is known or absent, is planned on every model and with every language hint: in the
  -- model's language that the hint matches, else in the one that it has without a hint.
  pub plan-accepts :
      (request : ParsedRequest Float) (caps : EffectiveCaps) (tokenize : Option (Text → Option ℕ))
      (f : ResponseFormat)
      → request.prompt ≡ none
      → request.temperature ≡ none
      → plan_format request.response_format ≡ ok f
      → requested "word" request.timestamp_granularities ≡ false
      → requested "segment" request.timestamp_granularities ≡ false
      → (p : Plan Float) × (plan in_unit to_lowercase request caps transcriptions tokenize ≡ ok p)
        × (p.language
            ≡ or_else
                (matched_hint to_lowercase
                  (has_hint request.language)
                  request.language
                  caps.loaded.languages)
                (fallback_language caps.loaded.languages caps.loaded.supports_language_detect))
  plan-accepts request caps tokenize f hp ht hf hw hs =
      let (p, e) = plan_total request caps tokenize f hp ht hf hw hs in
      (
        p,
        e,
        OnOk-at (λ p. p.language ≡ language_for request.language caps)
            (plan in_unit to_lowercase request caps transcriptions tokenize) p
            (plan-language request caps transcriptions tokenize) e,
      )
