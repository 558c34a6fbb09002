-- ===== src/Errors.antt =====
-- src/errors.rs: what a handler answers when it refuses, and how the engine's errors become answers.
-- The engine is another program: `EngineError` has the cases that the source names, with their
-- messages, and `other` for the rest with the text that they display; a transcript is a parameter.
use stt_server.Prelude.{ℕ, Bool, String, Text, codes, Option, none, some}

mutual
  pub data Json : Type 0 where
    null : Json
    boolean : Bool → Json
    number : ℕ → Json
    other_number : Text → Json  -- as it is written: negative, or with a fraction
    text : Text → Json
    array : Items → Json
    object : Fields → Json

  pub data Items : Type 0 where
    no_items : Items
    item : Json → Items → Items

  pub data Fields : Type 0 where
    no_fields : Fields
    field : String → Json → Fields → Fields

pub record ApiError : Type 0 where
  pub status : ℕ
  pub code : String
  pub message : Text
  pub details : Option Json

abbrev pub api_error : ℕ → String → Text → ApiError
api_error status code message = record {
  status = status;
  code = code;
  message = message;
  details = none;
}

abbrev pub with_details : Json → ApiError → ApiError
with_details details e = record e { details = some details }

pub data ApiResult {ℓ} (A : Type ℓ) : Type ℓ where
  ok : A → ApiResult A
  err : ApiError → ApiResult A

infixl 5 ◌>>=◌
abbrev pub ◌>>=◌ {ℓ κ} : {A : Type ℓ} {B : Type κ} → ApiResult A → (A → ApiResult B) → ApiResult B
ok a >>= f = f a
err e >>= f = err e

abbrev details_field : Option Json → Fields
details_field none = no_fields
details_field (some d) = field "details" d no_fields

-- The status and the body of the response.
unfoldable pub into_response : ApiError → ℕ × Json
into_response e =
    let error = object (
      field "code" (text (codes e.code))
        (field "message" (text e.message) (details_field e.details))) in
    (e.status, object (field "error" error no_fields))

unfoldable pub internal : Text → ApiError
internal error = api_error 500 "internal_error" error

-- `message` of a truncated run is not used, so it has none here.
pub data EngineError (Transcript : Type 0) : Type 0 where
  invalid_argument unsupported input_too_long aborted busy out_of_memory other :
      Text → EngineError Transcript
  output_truncated : Option Transcript → EngineError Transcript

module _ {Transcript : Type 0} where
  -- `display` is the text of an error that the table does not name.
  unfoldable pub map_engine_error :
      (EngineError Transcript → Text) → EngineError Transcript → ApiError
  map_engine_error display (invalid_argument message) =
      api_error 422 "engine_rejected_option" message
  map_engine_error display (unsupported message) = api_error 422 "engine_unsupported" message
  map_engine_error display (input_too_long message) = api_error 413 "audio_too_long" message
  map_engine_error display (aborted message) = api_error 500 "inference_failed" message
  map_engine_error display (busy message) = api_error 503 "engine_busy" message
  map_engine_error display (out_of_memory message) = api_error 507 "insufficient_memory" message
  map_engine_error display (other message) =
      api_error 500 "inference_failed" (display (other message))
  map_engine_error display (output_truncated partial) =
      api_error 500 "inference_failed" (display (output_truncated partial))

pub data RunOutcome (Transcript : Type 0) : Type 0 where
  success : Transcript → RunOutcome Transcript
  truncated : Transcript → RunOutcome Transcript
  failed : ApiError → RunOutcome Transcript

pub data RunResult (Transcript : Type 0) : Type 0 where
  finished : Transcript → RunResult Transcript
  stopped : EngineError Transcript → RunResult Transcript

module _ {Transcript : Type 0} (empty : Transcript) (display : EngineError Transcript → Text) where
  abbrev or_default : Option Transcript → Transcript
  or_default none = empty
  or_default (some t) = t

  -- `empty` is `Transcript::default()`.
  unfoldable pub classify_run_result : RunResult Transcript → RunOutcome Transcript
  classify_run_result (finished t) = success t
  classify_run_result (stopped (output_truncated partial)) = truncated (or_default partial)
  classify_run_result (stopped e) = failed (map_engine_error display e)
