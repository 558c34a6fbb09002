-- ===== src/RunPlan/Tests.antt =====
-- Concrete requests, and the planner's theorems at them. Temperatures are tenths here, and only
-- ASCII letters are lower-cased.
use stt_server.Prelude.{
  ℕ, ◌+◌, ◌≡◌, refl, Bool, true, false, ◌&&◌, [], ◌∷◌, map, Option, none, some, Text, codes, leb,
  if◌then◌else◌,
}
use stt_server.Errors.{ApiResult, ok, err, unsupported, map_engine_error}
use stt_server.Capabilities.{
  EffectiveCaps, TimestampGranularity, word, segment, whisper_gate, supports_language_hint,
  mark_timestamp_granularity_rejected, supports_translation, offers_translation_target,
}
use stt_server.RunPlan.Language.{
  resolve_language, match_language_hint, base_language, canonical_language_code,
  normalize_cjk_language, or_else, matched_hint, has_hint, fallback_language,
}
use stt_server.RunPlan.Sound.{Fits, plan-Fits}
use stt_server.RunPlan.Refusals.{defaulted, is_unsupported, retry-defaulted, plan-accepts}
use stt_server.RunPlan.{
  ParsedRequest, Plan, translations, transcriptions, translate, verbose_json, parse_format,
  plan_prompt, plan_temperature, plan_format, plan_timestamps, target_of, source_language,
  source_is_target, plan_task, plan, should_retry_without_timestamps,
}

abbrev ascii_lowercase : Text → Text
ascii_lowercase = map (λ c. if leb b'A' c && leb c b'Z' then c + 32 else c)

abbrev in_unit : ℕ → Bool
in_unit t = leb t 10

abbrev whisper : EffectiveCaps
whisper = record {
  loaded = record {
    arch = codes "whisper";
    languages = codes "en" ∷ codes "de" ∷ codes "no" ∷ [];
    translate_target_languages = codes "en" ∷ codes "fr" ∷ [];
    supports_translate = true;
    supports_language_detect = true;
    max_timestamp_kind = word;
    feature_initial_prompt_flag = false;
    whisper_ext_accepted = some true;
    prompt_max_tokens = some 8;
    timestamp_granularity_rejected = false;
    supports_streaming = false;
    supports_spec_decode = false;
    supports_pnc = false;
    supports_itn = false;
    supports_cancellation = true;
    supports_long_form = true;
    native_sample_rate = 16000;
  };
}

abbrev count : Option (Text → Option ℕ)
count = some (λ t. some 3)

-- `nb` is what the model calls `no`.
abbrev request : ParsedRequest ℕ
request = record {
  language = some (codes " NB-no ");
  prompt = some (codes "Oslo");
  temperature = some 4;
  response_format = some (codes "verbose_json");
  timestamp_granularities = [];
  target_language = some (codes "fr");
}

abbrev planned : Plan ℕ
planned = record {
  language = some (codes "no");
  task = translate;
  target_language = some (codes "fr");
  initial_prompt = some (codes "Oslo");
  temperature = some 4;
  timestamps = segment;
  response_format = verbose_json;
  language_hint_applied = true;
  language_hint_provided = true;
  applied_language = some (codes "no");
  language_evidence_hint = some (codes "user_selected");
  timestamps_explicit = false;
}

plan_of_request : plan in_unit ascii_lowercase request whisper translations count ≡ ok planned
unfolding plan resolve_language match_language_hint base_language canonical_language_code
    normalize_cjk_language whisper_gate supports_translation offers_translation_target plan_prompt
    plan_temperature plan_format parse_format plan_timestamps target_of source_language
    source_is_target plan_task
plan_of_request = refl

plan-Fits_example : Fits in_unit request whisper count planned
plan-Fits_example =
    plan-Fits in_unit ascii_lowercase request whisper translations count planned plan_of_request

retry-defaulted_example :
    should_retry_without_timestamps verbose_json segment false
      (map_engine_error {Transcript = ℕ} (λ e. []) (unsupported (codes "timestamps"))).code
    ≡ (defaulted whisper [] verbose_json
        && is_unsupported {Transcript = ℕ} (unsupported (codes "timestamps")))
retry-defaulted_example =
    retry-defaulted in_unit ascii_lowercase (λ e. []) (unsupported (codes "timestamps")) request
      whisper translations count planned plan_of_request

abbrev bare : ParsedRequest ℕ
bare = record {
  language = some (codes "tlh");
  prompt = none;
  temperature = none;
  response_format = some (codes "verbose_json");
  timestamp_granularities = codes "sentence" ∷ [];
  target_language = none;
}

plan-accepts_example :
    (p : Plan ℕ) × (plan in_unit ascii_lowercase bare whisper transcriptions none ≡ ok p)
    × (p.language
        ≡ or_else
            (matched_hint ascii_lowercase
              (has_hint bare.language)
              bare.language
              whisper.loaded.languages)
            (fallback_language whisper.loaded.languages whisper.loaded.supports_language_detect))
unfolding plan_format parse_format
plan-accepts_example =
    plan-accepts in_unit ascii_lowercase bare whisper none verbose_json refl refl refl refl refl

-- What a plan that comes out asks of the engine: the language, with whether the hint counts as
-- applied, and the timestamps.
abbrev asks : ApiResult (Plan ℕ) → Option (Option Text × Bool × TimestampGranularity)
asks (ok p) = some (p.language, p.language_hint_applied, p.timestamps)
asks (err e) = none

abbrev granite : EffectiveCaps
granite = record { loaded = record whisper.loaded { arch = codes "granite" } }

abbrev in_german : ParsedRequest ℕ
in_german = record bare { language = some (codes "de") }

-- A model without support for a hint gets the hint all the same, and it counts as applied.
granite_hint :
    (supports_language_hint granite ≡ false)
    × (asks (plan in_unit ascii_lowercase in_german granite transcriptions none)
        ≡ some (some (codes "de"), true, segment))
unfolding plan resolve_language match_language_hint base_language canonical_language_code
    normalize_cjk_language whisper_gate plan_prompt plan_temperature plan_format parse_format
    plan_timestamps plan_task
granite_hint = (refl, refl)

-- After a run that rejected the timestamps, they are planned again.
rejected_timestamps :
    asks (
      plan in_unit ascii_lowercase in_german
        (mark_timestamp_granularity_rejected whisper)
        transcriptions
        none)
    ≡ some (some (codes "de"), true, segment)
unfolding plan resolve_language match_language_hint base_language canonical_language_code
    normalize_cjk_language whisper_gate plan_prompt plan_temperature plan_format parse_format
    plan_timestamps plan_task mark_timestamp_granularity_rejected
rejected_timestamps = refl
