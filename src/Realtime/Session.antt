-- ===== src/Realtime/Session.antt =====
-- src/realtime.rs, SessionConfig: the settings of a connection and how a client changes them.
-- A session object is JSON; `pointer` is serde_json's, for the paths that the source uses.
pub mod Updates
use stt_server.Prelude.{
  ℕ, Bool, true, false, not, ◌&&◌, ◌||◌, List, [], ◌∷◌, Option, none, some, String, Text, codes,
  text_eq, leb, if◌then◌else◌,
}
use package.text.Mathlib.Text.{◌==◌ as str_eq}
use stt_server.Errors.{
  Json, null, boolean, number, other_number, text, array, object, Items, no_items, item, Fields,
  no_fields, field, ApiError, api_error, ApiResult, ok, err, ◌>>=◌,
}

-- A map's keys are different, so the first field of a name is the only one.
abbrev pub lookup : String → Fields → Option Json
lookup key no_fields = none
lookup key (field name value rest) = if str_eq key name then some value else lookup key rest

-- `Value::get` with a key.
abbrev pub get : String → Json → Option Json
get key (object fields) = lookup key fields
get key _ = none

-- A step of a path: a key of an object; in an array the paths of the source use only `0`.
abbrev pub step : String → Json → Option Json
step key (object fields) = lookup key fields
step key (array (item first _)) = if str_eq key "0" then some first else none
step key _ = none

abbrev pub and_then : {A B : Type 0} → Option A → (A → Option B) → Option B
and_then none f = none
and_then (some a) f = f a

abbrev pub pointer : List String → Json → Option Json
pointer [] value = some value
pointer (key ∷ path) value = and_then (step key value) (pointer path)

abbrev pub as_str : Json → Option Text
as_str (text t) = some t
as_str _ = none

abbrev pub as_u64 : Json → Option ℕ
as_u64 (number n) = some n
as_u64 _ = none

abbrev pub is_null : Json → Bool
is_null null = true
is_null _ = false

-- The comparison of a value with a string.
abbrev pub is_text : String → Json → Bool
is_text s (text t) = text_eq t (codes s)
is_text s _ = false

abbrev pub or_else : {A : Type 0} → Option A → Option A → Option A
or_else none b = b
or_else (some a) b = some a

abbrev pub is_some : {A : Type 0} → Option A → Bool
is_some none = false
is_some (some _) = true

-- `filter(|l| !l.is_empty())`.
abbrev pub non_empty : Option Text → Option Text
non_empty none = none
non_empty (some []) = none
non_empty (some (c ∷ cs)) = some (c ∷ cs)

pub record SessionConfig : Type 0 where
  pub id : Text
  pub model : Text
  pub language : Option Text
  pub target_language : Option Text
  pub prompt : Option Text
  pub sample_rate : ℕ

abbrev pub default_sample_rate : ℕ
default_sample_rate = 24000

abbrev pub or_default_model : Option Text → Text
or_default_model none = codes "default"
or_default_model (some model) = model

-- `id` is the fresh id that the session gets.
unfoldable pub new : Text → Option Text → SessionConfig
new id model = record {
  id = id;
  model = or_default_model model;
  language = none;
  target_language = none;
  prompt = none;
  sample_rate = default_sample_rate;
}

abbrev pub invalid : String → String → ApiError
invalid code message = api_error 400 code (codes message)

abbrev check_turn : Option Json → ApiResult (Unit {0})
check_turn none = ok tt
check_turn (some turn) =
    if is_null turn
    then ok tt
    else err (
        invalid "turn_detection_unsupported"
          "turn_detection must be null: the client commits each turn")

abbrev check_format : Option Json → ApiResult (Unit {0})
check_format none = ok tt
check_format (some format) =
    if is_text "pcm16" format
    then ok tt
    else err (invalid "unsupported_audio_format" "input_audio_format must be \"pcm16\"")

abbrev check_type : Option Json → ApiResult (Unit {0})
check_type none = ok tt
check_type (some kind) =
    if is_text "audio/pcm" kind
    then ok tt
    else err (invalid "unsupported_audio_format" "audio.input.format.type must be \"audio/pcm\"")

abbrev bad_rate : ApiResult ℕ
bad_rate =
    err (invalid "unsupported_audio_format" "the audio sample rate must be between 8000 and 48000")

abbrev pub rate_in_range : Option ℕ → ApiResult ℕ
rate_in_range none = bad_rate
rate_in_range (some r) = if leb 8000 r && leb r 48000 then ok r else bad_rate

abbrev pub read_rate : ℕ → Option Json → ApiResult ℕ
read_rate current none = ok current
read_rate current (some rate) = rate_in_range (as_u64 rate)

abbrev pub model_or_default : Text → Text
model_or_default [] = codes "default"
model_or_default (c ∷ cs) = c ∷ cs

abbrev pub set_model : Option Text → SessionConfig → SessionConfig
set_model none next = next
set_model (some model) next = record next { model = model_or_default model }

abbrev pub set_language : Json → SessionConfig → SessionConfig
set_language t next =
    let language =
      or_else (and_then (get "language" t) as_str)
        (and_then (pointer ("languages" ∷ "0" ∷ []) t) as_str) in
    if is_some (get "language" t) || is_some (get "languages" t)
    then record next { language = non_empty language }
    else next

abbrev pub set_prompt : Option Json → SessionConfig → SessionConfig
set_prompt none next = next
set_prompt (some prompt) next = record next { prompt = non_empty (as_str prompt) }

abbrev pub set_transcription : Option Json → SessionConfig → SessionConfig
set_transcription none next = next
set_transcription (some t) next =
    set_prompt (get "prompt" t) (set_language t (set_model (and_then (get "model" t) as_str) next))

abbrev pub set_target : Option Json → SessionConfig → SessionConfig
set_target none next = next
set_target (some target) next = record next { target_language = non_empty (as_str target) }

unfoldable pub check_session : Json → ApiResult (Unit {0})
check_session session = do
  _ ← check_turn (
      or_else (pointer ("turn_detection" ∷ []) session)
        (pointer ("audio" ∷ "input" ∷ "turn_detection" ∷ []) session))
  _ ← check_format (get "input_audio_format" session)
  check_type (and_then (pointer ("audio" ∷ "input" ∷ "format" ∷ []) session) (get "type"))

abbrev pub rate_value : Json → Option Json
rate_value session =
    or_else (pointer ("input_audio_sample_rate" ∷ []) session)
      (pointer ("audio" ∷ "input" ∷ "format" ∷ "rate" ∷ []) session)

abbrev pub transcription_value : Json → Option Json
transcription_value session =
    or_else (pointer ("input_audio_transcription" ∷ []) session)
      (pointer ("audio" ∷ "input" ∷ "transcription" ∷ []) session)

abbrev pub target_value : Json → Option Json
target_value session =
    or_else (pointer ("input_audio_transcription" ∷ "target_language" ∷ []) session) (
      or_else (pointer ("audio" ∷ "input" ∷ "transcription" ∷ "target_language" ∷ []) session)
        (pointer ("audio" ∷ "output" ∷ "language" ∷ []) session))

unfoldable pub set_all : SessionConfig → Json → ℕ → SessionConfig
set_all current session rate =
    set_target (target_value session)
      (set_transcription (transcription_value session) (record current { sample_rate = rate }))

-- The new settings, with nothing changed yet.
unfoldable pub read_session : SessionConfig → Json → ApiResult SessionConfig
read_session current session = do
  _ ← check_session session
  rate ← read_rate current.sample_rate (rate_value session)
  ok (set_all current session rate)

abbrev pub assigned : SessionConfig → ApiResult SessionConfig → SessionConfig × ApiResult (Unit {0})
assigned current (ok next) = (next, ok tt)
assigned current (err e) = (current, err e)

unfoldable pub update : Json → SessionConfig → SessionConfig × ApiResult (Unit {0})
update session current = assigned current (read_session current session)

abbrev pub or_null : Option Text → Json
or_null none = null
or_null (some t) = text t

unfoldable pub to_json : SessionConfig → Json
to_json c =
    let transcription = object (
      field "model" (text c.model) (
        field "language" (or_null c.language) (
          field "target_language" (or_null c.target_language)
            (field "prompt" (or_null c.prompt) no_fields)))) in
    object (
      field "id" (text c.id) (
        field "object" (text (codes "realtime.transcription_session")) (
          field "input_audio_format" (text (codes "pcm16")) (
            field "input_audio_sample_rate" (number c.sample_rate) (
              field "input_audio_transcription" transcription
                (field "turn_detection" null no_fields))))))
