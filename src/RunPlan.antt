-- ===== src/RunPlan.antt =====
-- src/run_plan.rs: from a parsed request and the loaded model's capabilities to a plan for the
-- engine, or a refusal. A temperature is a float, of which the planner only asks whether it lies
-- within 0.0..=1.0: `Float` and `in_unit` are parameters, and so is the tokenizer.
pub mod Language
mod Hints
pub mod Sound
pub mod Refusals
mod Tests
use stt_server.Prelude.{
  ℕ, Bool, true, false, not, ◌&&◌, List, [], ◌∷◌, ◌++◌, Option, none, some, String, Text, codes,
  text_eq, trim, any, length, ltb, ◌==◌, if◌then◌else◌,
}
use package.text.Mathlib.Text.{◌==◌ as str_eq}
use stt_server.Errors.{
  Json, number, text, array, object, Items, no_items, item, no_fields, field, ApiError, api_error,
  with_details, ApiResult, ok, err, ◌>>=◌,
}
use stt_server.Capabilities.{
  TimestampGranularity, no_timestamps, segment, word, EffectiveCaps, is_whisper,
  supports_translation, offers_translation_target, supports_segment_timestamps,
  supports_word_timestamps,
}
use stt_server.RunPlan.Language.{is_empty, same_canonical, Resolved, resolve_language}

pub data Endpoint : Type 0 where
  transcriptions translations : Endpoint

pub data PlannedTask : Type 0 where
  transcribe translate : PlannedTask

pub data ResponseFormat : Type 0 where
  json plain verbose_json : ResponseFormat

unfoldable pub parse_format : Text → Option ResponseFormat
parse_format raw =
    if text_eq raw (codes "json")
    then some json
    else if text_eq raw (codes "text")
    then some plain
    else if text_eq raw (codes "verbose_json")
    then some verbose_json
    else none

pub record ParsedRequest (Float : Type 0) : Type 0 where
  pub language : Option Text
  pub prompt : Option Text
  pub temperature : Option Float
  pub response_format : Option Text
  pub timestamp_granularities : List Text
  pub target_language : Option Text

pub record Plan (Float : Type 0) : Type 0 where
  pub language : Option Text
  pub task : PlannedTask
  pub target_language : Option Text
  pub initial_prompt : Option Text
  pub temperature : Option Float
  pub timestamps : TimestampGranularity
  pub response_format : ResponseFormat
  pub language_hint_applied : Bool
  pub language_hint_provided : Bool
  pub applied_language : Option Text
  pub language_evidence_hint : Option Text
  pub timestamps_explicit : Bool

abbrev pub unsupported_capability : Text → ApiError
unsupported_capability message = api_error 422 "unsupported_capability" message

-- `tokenize(prompt)`, where there is a tokenizer and it can count.
abbrev pub counted : Option (Text → Option ℕ) → Text → Option ℕ
counted none prompt = none
counted (some tokenize) prompt = tokenize prompt

abbrev pub too_long : Option ℕ → Option ℕ → Option (ℕ × ℕ)
too_long none _ = none
too_long (some _) none = none
too_long (some limit) (some actual) = if ltb limit actual then some (limit, actual) else none

abbrev prompt_too_long : ℕ → ℕ → ApiError
prompt_too_long limit actual =
    with_details
      (object (
        field "limit" (number limit)
          (field "actual" (number actual) (field "unit" (text (codes "tokens")) no_fields))))
      (api_error 422 "prompt_too_long" (codes "The prompt exceeds this model's prompt token limit"))

abbrev within_limit : Text → Option (ℕ × ℕ) → ApiResult (Option Text)
within_limit prompt none = ok (some prompt)
within_limit prompt (some (limit, actual)) = err (prompt_too_long limit actual)

unfoldable pub plan_prompt :
    EffectiveCaps → Option (Text → Option ℕ) → Option Text → ApiResult (Option Text)
plan_prompt caps tokenize none = ok none
plan_prompt caps tokenize (some []) = ok none
plan_prompt caps tokenize (some (c ∷ cs)) =
    if not (is_whisper caps)
    then err (unsupported_capability (codes "This model does not support 'prompt'"))
    else within_limit (c ∷ cs) (too_long caps.loaded.prompt_max_tokens (counted tokenize (c ∷ cs)))

unfoldable pub plan_temperature :
    {Float : Type 0} → (Float → Bool) → EffectiveCaps → Option Float → ApiResult (Option Float)
plan_temperature in_unit caps none = ok none
plan_temperature in_unit caps (some t) =
    if not (in_unit t)
    then err (api_error 400 "invalid_temperature" (codes "temperature must be between 0.0 and 1.0"))
    else if not (is_whisper caps)
    then err (unsupported_capability (codes "This model does not support 'temperature'"))
    else ok (some t)

abbrev or_unsupported_format : Text → Option ResponseFormat → ApiResult ResponseFormat
or_unsupported_format raw (some f) = ok f
or_unsupported_format raw none =
    err (unsupported_capability (codes "response_format '" ++ raw ++ codes "' is not supported"))

unfoldable pub plan_format : Option Text → ApiResult ResponseFormat
plan_format none = ok json
plan_format (some raw) = or_unsupported_format raw (parse_format raw)

abbrev pub requested : String → List Text → Bool
requested granularity granularities = any (λ g. text_eq g (codes granularity)) granularities

unfoldable pub plan_timestamps :
    EffectiveCaps → List Text → ResponseFormat → ApiResult (TimestampGranularity × Bool)
plan_timestamps caps granularities verbose_json =
    if requested "word" granularities
    then (if not (supports_word_timestamps caps)
        then err
            (unsupported_capability (codes "This model does not support word-level timestamps"))
        else ok (word, true))
    else if requested "segment" granularities
    then (if not (supports_segment_timestamps caps)
        then err (unsupported_capability (codes "This model does not support timestamps"))
        else ok (segment, true))
    else if supports_segment_timestamps caps
    then ok (segment, false)
    else ok (no_timestamps, false)
plan_timestamps caps granularities _ = ok (no_timestamps, false)

-- The trimmed target, English where none is given.
unfoldable pub target_of : Option Text → Text
target_of none = codes "en"
target_of (some raw) = if is_empty (trim raw) then codes "en" else trim raw

-- The language the plan settled on, or the only one the model has.
unfoldable pub source_language : Option Text → List Text → Option Text
source_language (some l) languages = some l
source_language none (l ∷ []) = some l
source_language none _ = none

unfoldable pub source_is_target : Option Text → Text → Bool
source_is_target none target = false
source_is_target (some source) target = same_canonical source target

abbrev items : List Text → Items
items [] = no_items
items (t ∷ ts) = item (text t) (items ts)

abbrev unsupported_target : EffectiveCaps → Text → ApiError
unsupported_target caps target =
    with_details
      (object (
        field "target_language" (text target) (
          field "target_languages" (array (items caps.loaded.translate_target_languages))
            no_fields)))
      (api_error 422 "unsupported_target_language"
        (codes "This model cannot translate into '" ++ target ++ codes "'"))

abbrev pub translate_into :
    EffectiveCaps → Option Text → Text → ApiResult (PlannedTask × Option Text)
translate_into caps applied target =
    if source_is_target (source_language applied caps.loaded.languages) target
    then ok (transcribe, none)
    else if not (offers_translation_target caps target)
    then err (unsupported_target caps target)
    else ok (translate, some target)

unfoldable pub plan_task :
    EffectiveCaps → Option Text → Option Text → Endpoint → ApiResult (PlannedTask × Option Text)
plan_task caps applied target transcriptions = ok (transcribe, none)
plan_task caps applied target translations =
    if not (supports_translation caps)
    then err (unsupported_capability (codes "This model does not support translation"))
    else translate_into caps applied (target_of target)

module _ {Float : Type 0} (in_unit : Float → Bool) (to_lowercase : Text → Text) where
  abbrev pub plan_with :
      Resolved
      → ParsedRequest Float
      → EffectiveCaps
      → Endpoint
      → Option (Text → Option ℕ)
      → ApiResult (Plan Float)
  plan_with resolved request caps endpoint tokenize = do
    initial_prompt ← plan_prompt caps tokenize request.prompt
    temperature ← plan_temperature in_unit caps request.temperature
    response_format ← plan_format request.response_format
    timestamps ← plan_timestamps caps request.timestamp_granularities response_format
    task ← plan_task caps resolved.applied_language request.target_language endpoint
    ok (record {
      language = resolved.language;
      task = task.0;
      target_language = task.1;
      initial_prompt = initial_prompt;
      temperature = temperature;
      timestamps = timestamps.0;
      response_format = response_format;
      language_hint_applied = resolved.hint_applied;
      language_hint_provided = resolved.hint_provided;
      applied_language = resolved.applied_language;
      language_evidence_hint = resolved.evidence;
      timestamps_explicit = timestamps.1;
    })

  unfoldable pub plan :
      ParsedRequest Float
      → EffectiveCaps
      → Endpoint
      → Option (Text → Option ℕ)
      → ApiResult (Plan Float)
  plan request caps endpoint tokenize =
      plan_with (resolve_language to_lowercase request.language caps) request caps endpoint tokenize

-- The fields of the engine's options that a plan sets; `family` is the whisper extension with its
-- prompt and temperature.
pub record RunOptions (Float : Type 0) : Type 0 where
  pub task : PlannedTask
  pub timestamps : TimestampGranularity
  pub language : Option Text
  pub target_language : Option Text
  pub family : Option (Option Text × Option Float)

module _ {Float : Type 0} where
  abbrev whisper_options : Option Text → Option Float → Option (Option Text × Option Float)
  whisper_options none none = none
  whisper_options prompt temperature = some (prompt, temperature)

  unfoldable pub to_run_options : Plan Float → RunOptions Float
  to_run_options p = record {
    task = p.task;
    timestamps = p.timestamps;
    language = p.language;
    target_language = p.target_language;
    family = whisper_options p.initial_prompt p.temperature;
  }

abbrev pub is_verbose : ResponseFormat → Bool
is_verbose verbose_json = true
is_verbose _ = false

abbrev pub is_segment : TimestampGranularity → Bool
is_segment segment = true
is_segment _ = false

unfoldable pub should_retry_without_timestamps :
    ResponseFormat → TimestampGranularity → Bool → String → Bool
should_retry_without_timestamps response_format timestamps timestamps_explicit error_code =
    is_verbose response_format
    && (is_segment timestamps
        && (not timestamps_explicit && str_eq error_code "engine_unsupported"))
