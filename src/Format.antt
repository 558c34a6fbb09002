-- ===== src/Format.antt =====
-- src/format.rs: the answer for a finished transcript. The engine's transcript is a record of the
-- fields that the source reads; its times have a type of the engine's. `seconds` is the JSON number
-- of a time in milliseconds over 1000.0, `duration` that of a count of samples over 16000.0.
pub mod Rows
pub mod Keys
mod Tests
use stt_server.Prelude.{
  ℕ, zero, suc, ◌+◌, Bool, true, false, List, [], ◌∷◌, Option, none, some, String, Text, codes,
  text_eq, if◌then◌else◌,
}
use package.text.Mathlib.Text.{◌==◌ as str_eq}
use stt_server.Errors.{
  Json, null, boolean, number, text, array, object, Items, no_items, item, Fields, no_fields, field,
}
use stt_server.Capabilities.{TimestampGranularity, no_timestamps, segment, word, token}
use stt_server.RunPlan.{
  PlannedTask, transcribe, translate, ResponseFormat, json, plain, verbose_json, Plan,
}

pub data LanguageEvidence : Type 0 where
  translated_to_english user_selected model_constrained model_detected unknown : LanguageEvidence

abbrev pub as_str : LanguageEvidence → String
as_str translated_to_english = "translated_to_english"
as_str user_selected = "user_selected"
as_str model_constrained = "model_constrained"
as_str model_detected = "model_detected"
as_str unknown = "unknown"

abbrev detected : Bool → LanguageEvidence
detected true = model_detected
detected false = unknown

unfoldable pub resolve : Option Text → Bool → LanguageEvidence
resolve none engine_detected = detected engine_detected
resolve (some hint) engine_detected =
    if text_eq hint (codes "translated_to_english")
    then translated_to_english
    else if text_eq hint (codes "user_selected")
    then user_selected
    else if text_eq hint (codes "model_constrained")
    then model_constrained
    else detected engine_detected

-- The floats of the engine's timings are the JSON numbers that they are written as.
pub record DiagnosticsExtra : Type 0 where
  pub queue_wait_ms : ℕ
  pub inference_ms : ℕ
  pub audio_ms : ℕ
  pub model : Text
  pub backend : Text
  pub fallback_reason : Option Text
  pub mel_ms : Json
  pub encode_ms : Json
  pub decode_ms : Json
  pub truncated : Bool
  pub prompt_applied : Bool
  pub language_hint_applied : Option Bool
  pub applied_language : Option Text
  pub language_evidence : LanguageEvidence
  pub timestamps_unavailable : Bool
  pub target_language : Option Text

-- `v[key] = value` on the fields of an object.
unfoldable pub put : String → Json → Fields → Fields
put key value no_fields = field key value no_fields
put key value (field name old rest) =
    if str_eq key name then field name value rest else field name old (put key value rest)

-- `if let Some(x) = ... { v[key] = json!(x) }`, and `if flag { v[key] = json!(true) }`.
abbrev pub put_some : String → Option Json → Fields → Fields
put_some key none fields = fields
put_some key (some value) fields = put key value fields

abbrev pub flag : Bool → Option Json
flag true = some (boolean true)
flag false = none

abbrev pub or_null : Option Text → Json
or_null none = null
or_null (some t) = text t

abbrev pub json_text : Option Text → Option Json
json_text none = none
json_text (some t) = some (text t)

abbrev pub json_bool : Option Bool → Option Json
json_bool none = none
json_bool (some b) = some (boolean b)

abbrev engine_timings : DiagnosticsExtra → Json
engine_timings extra = object (
    field "mel_ms" extra.mel_ms
      (field "encode_ms" extra.encode_ms (field "decode_ms" extra.decode_ms no_fields)))

abbrev pub always_reported : DiagnosticsExtra → Fields
always_reported extra = field "queue_wait_ms" (number extra.queue_wait_ms) (
    field "inference_ms" (number extra.inference_ms) (
      field "audio_ms" (number extra.audio_ms) (
        field "model" (text extra.model) (
          field "backend" (text extra.backend) (
            field "fallback_reason" (or_null extra.fallback_reason) (
              field "language_evidence" (text (codes (as_str extra.language_evidence))) (
                field "prompt_applied" (boolean extra.prompt_applied)
                  (field "engine_timings" (engine_timings extra) no_fields))))))))

unfoldable pub diagnostics_json : DiagnosticsExtra → Json
diagnostics_json extra =
    let hint =
      put_some "language_hint_applied" (json_bool extra.language_hint_applied)
        (always_reported extra) in
    let applied = put_some "applied_language" (json_text extra.applied_language) hint in
    let target = put_some "target_language" (json_text extra.target_language) applied in
    let truncated = put_some "truncated" (flag extra.truncated) target in
    object (put_some "timestamps_unavailable" (flag extra.timestamps_unavailable) truncated)

-- A segment, a word or a token of the engine's.
pub record Timed (Time : Type 0) : Type 0 where
  pub t0_ms : Time
  pub t1_ms : Time
  pub text : Text

pub record Transcript (Time : Type 0) : Type 0 where
  pub text : Text
  pub language : Option Text
  pub segments : List (Timed Time)
  pub words : List (Timed Time)
  pub tokens : List (Timed Time)

pub data Formatted : Type 0 where
  json_body : Json → Formatted
  plain_text : Text → Formatted

abbrev pub or_else : Option Text → Option Text → Option Text
or_else none b = b
or_else (some a) _ = some a

abbrev pub is_word : TimestampGranularity → Bool
is_word word = true
is_word _ = false

abbrev task_name : PlannedTask → String
task_name transcribe = "transcribe"
task_name translate = "translate"

abbrev pub last : {A : Type 0} → A → List A → A
last a [] = a
last _ (b ∷ rest) = last b rest

module _ {Time : Type 0} (seconds : Time → Json) where
  abbrev pub segment_row : ℕ → Time → Time → Text → Json
  segment_row id start end said = object (
      field "id" (number id) (
        field "start" (seconds start)
          (field "end" (seconds end) (field "text" (text said) no_fields))))

  abbrev pub segment_rows : ℕ → List (Timed Time) → Items
  segment_rows id [] = no_items
  segment_rows id (s ∷ rest) =
      item (segment_row id s.t0_ms s.t1_ms s.text) (segment_rows (suc id) rest)

  -- One segment over the decoded tokens.
  abbrev pub spanning : Text → List (Timed Time) → Items
  spanning said [] = no_items
  spanning said (t ∷ rest) = item (segment_row 0 t.t0_ms (last t rest).t1_ms said) no_items

  abbrev pub from_tokens : TimestampGranularity → Text → List (Timed Time) → Items
  from_tokens no_timestamps said tokens = no_items
  from_tokens _ said tokens = spanning said tokens

  abbrev pub word_rows : List (Timed Time) → Items
  word_rows [] = no_items
  word_rows (w ∷ rest) =
      item
        (object (
          field "word" (text w.text)
            (field "start" (seconds w.t0_ms) (field "end" (seconds w.t1_ms) no_fields))))
        (word_rows rest)

  abbrev pub segments_of : TimestampGranularity → Transcript Time → List (Timed Time) → Items
  segments_of planned transcript [] = from_tokens planned transcript.text transcript.tokens
  segments_of _ transcript (s ∷ rest) = segment_rows 0 (s ∷ rest)

  abbrev pub words_of : Transcript Time → List (Timed Time) → Items
  words_of transcript [] = word_rows transcript.tokens
  words_of transcript (w ∷ rest) = word_rows (w ∷ rest)

  abbrev pub words_when : Bool → Transcript Time → Option Json
  words_when true transcript = some (array (words_of transcript transcript.words))
  words_when false transcript = none

  module _ {Float : Type 0} (duration : ℕ → Json) where
    abbrev pub always_there : Transcript Time → Plan Float → ℕ → DiagnosticsExtra → Fields
    always_there transcript plan samples extra =
        let segments = segments_of plan.timestamps transcript transcript.segments in
        field "task" (text (codes (task_name plan.task))) (
          field "duration" (duration samples) (
            field "text" (text transcript.text) (
              field "segments" (array segments)
                (field "x_diagnostics" (diagnostics_json extra) no_fields))))

    abbrev pub with_language : Transcript Time → Plan Float → ℕ → DiagnosticsExtra → Fields
    with_language transcript plan samples extra =
        let language = or_else extra.applied_language transcript.language in
        put_some "language" (json_text language) (always_there transcript plan samples extra)

    abbrev pub verbose_body : Transcript Time → Plan Float → ℕ → DiagnosticsExtra → Fields
    verbose_body transcript plan samples extra =
        put_some "words" (words_when (is_word plan.timestamps) transcript)
          (with_language transcript plan samples extra)

    abbrev pub formatted :
        Transcript Time → Plan Float → ℕ → DiagnosticsExtra → ResponseFormat → Formatted
    formatted transcript plan samples extra json = json_body (
        object (
          field "text" (text transcript.text)
            (field "x_diagnostics" (diagnostics_json extra) no_fields)))
    formatted transcript plan samples extra plain = plain_text transcript.text
    formatted transcript plan samples extra verbose_json =
        json_body (object (verbose_body transcript plan samples extra))

    unfoldable pub format_response : Transcript Time → Plan Float → ℕ → DiagnosticsExtra → Formatted
    format_response transcript plan samples extra =
        formatted transcript plan samples extra plan.response_format
