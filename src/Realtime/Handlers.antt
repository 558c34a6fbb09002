-- ===== src/Realtime/Handlers.antt =====
-- src/realtime.rs: the client's events and the loop of a connection. The application's answers at
-- the moment of a message are its `App`.
use stt_server.Prelude.{
  ℕ, Bool, true, false, List, [], ◌∷◌, Option, none, some, Text, String, codes, text_eq,
  if◌then◌else◌,
}
use package.text.Mathlib.Text.{◌==◌ as str_eq}
use stt_server.Errors.{Json, null, api_error, ApiResult, ok, err}
use stt_server.Audio.{Resampler}
use stt_server.Audio.Live.{PcmStream, push, finish}
use stt_server.Realtime.Worker.{Engine}
use stt_server.Realtime.Session.{SessionConfig, get, invalid, update, and_then, as_str}
use stt_server.Realtime.Items.{Item, BufferedTurn, App, feed_item, finalize_item, start_item}
use stt_server.Realtime.Connection.{
  Handler, Flow, continue, close, session_created, session_updated, buffer_committed,
  buffer_cleared, done, waits, ◌>>=◌, ◌>>◌, pure, send, send_error, discard_item, settle,
  next_update, Received, got, nothing, on_update,
}

pub data Message : Type 0 where
  message_text : Option Json → Message
  message_binary message_close message_other timeout : Message

-- What the connections use of other code: the float of a sample, the resampler, the engine, the
-- planner's parameters, base64 and the batch run of a turn.
pub record Parts (Float F C S : Type 0) : Type 0 where
  pub sample : ℕ → F
  pub lib : Resampler F C
  pub engine : Engine F S
  pub in_unit : Float → Bool
  pub to_lowercase : Text → Text
  pub decode : Text → Option (List ℕ)
  pub translate : BufferedTurn Float F → ApiResult Text

-- A round of the loop: a message, or the next answer of the item's worker.
pub data Input (Float S : Type 0) : Type 0 where
  received : App Float S → Message → Input Float S
  answered : Input Float S

abbrev pub session_of : Option Json → Json
session_of none = null
session_of (some session) = session

abbrev pub is_kind : Option Text → String → Bool
is_kind none kind = false
is_kind (some t) kind = text_eq t (codes kind)

module _ {Float F C S : Type 0} where
  abbrev pub and_continue : Handler Float F C S (Unit {0}) → Handler Float F C S Flow
  and_continue m = m >> pure continue

  abbrev pub answer_update :
      String → SessionConfig × ApiResult (Unit {0}) → Handler Float F C S Flow
  answer_update kind (config, ok _) c =
      and_continue (send (session_updated kind config)) (record c { config = config })
  answer_update kind (config, err e) c = and_continue (send_error e) (record c { config = config })

  abbrev pub on_session : String → Json → Handler Float F C S Flow
  on_session kind message c =
      answer_update kind (update (session_of (get "session" message)) c.config) c

  -- An answer that is not there yet leaves everything as it is: this branch is not taken.
  abbrev pub take_answer : Received Float F C S → Handler Float F C S Flow
  take_answer nothing c = done continue c
  take_answer (got u i) c = and_continue (on_update u) (record c { item = some i })

  -- The loop, over the rounds that happen.
  abbrev pub unless_closed : Handler Float F C S Flow → Flow → Handler Float F C S Flow
  unless_closed rest close = pure close
  unless_closed rest continue = rest

module _ {Float F C S : Type 0} (parts : Parts Float F C S) where
  abbrev pub decoded_into :
      Item Float F C S → Option (PcmStream F C × ApiResult (List F)) → Handler Float F C S Flow
  decoded_into i none c = waits c
  decoded_into i (some (decoder, ok pcm)) c =
      done continue (record c { item = some (feed_item pcm (record i { decoder = decoder })) })
  decoded_into i (some (decoder, err e)) c =
      and_continue (send_error e) (record c { item = some (record i { decoder = decoder }) })

  abbrev pub push_to : List ℕ → Item Float F C S → Handler Float F C S Flow
  push_to bytes i = decoded_into i (push parts.lib parts.sample bytes i.decoder)

  abbrev pub started : List ℕ → ApiResult (Item Float F C S) → Handler Float F C S Flow
  started bytes (ok i) c = push_to bytes i (record c { item = some i })
  started bytes (err e) c =
      (send_error e >> pure (if str_eq e.code "streaming_unsupported" then close else continue)) c

  abbrev pub append_to : App Float S → List ℕ → Option (Item Float F C S) → Handler Float F C S Flow
  append_to app bytes (some i) c = push_to bytes i c
  append_to app bytes none c =
      started bytes (start_item parts.in_unit parts.to_lowercase parts.lib app c.config) c

  abbrev pub append_bytes : App Float S → Option (List ℕ) → Handler Float F C S Flow
  append_bytes app none =
      and_continue (send_error (invalid "invalid_audio" "audio must be base64-encoded PCM16"))
  append_bytes app (some bytes) = settle parts.engine >> (λ c. append_to app bytes c.item c)

  unfoldable pub on_append : App Float S → Json → Handler Float F C S Flow
  on_append app message =
      append_bytes app (and_then (and_then (get "audio" message) as_str) parts.decode)

  abbrev pub commit_tail :
      Item Float F C S → PcmStream F C × ApiResult (List F) → Handler Float F C S Flow
  commit_tail i (decoder, ok pcm) c =
      let finalized =
        finalize_item parts.translate (feed_item pcm (record i { decoder = decoder })) in
      and_continue (send (buffer_committed c.previous_item_id i.id))
        (record c { item = some (record finalized { committed_by_client = true }) })
  commit_tail i (decoder, err e) c =
      and_continue (send_error e)
        (record c { item = some (record i { decoder = decoder; committed_by_client = true }) })

  abbrev pub commit_item : Option (Item Float F C S) → Handler Float F C S Flow
  commit_item none =
      and_continue
        (send_error (invalid "input_audio_buffer_commit_empty" "There is no audio to commit"))
  commit_item (some i) = commit_tail i (finish parts.lib i.decoder)

  unfoldable pub on_commit : Handler Float F C S Flow
  on_commit = settle parts.engine >> (λ c. commit_item c.item c)

  unfoldable pub on_clear : Handler Float F C S Flow
  on_clear = and_continue (settle parts.engine >> discard_item parts.engine >> send buffer_cleared)

  abbrev pub on_event : App Float S → Json → Option Text → Handler Float F C S Flow
  on_event app message kind =
      if is_kind kind "session.update"
      then on_session "session.updated" message
      else if is_kind kind "transcription_session.update"
      then on_session "transcription_session.updated" message
      else if is_kind kind "input_audio_buffer.append"
      then on_append app message
      else if is_kind kind "input_audio_buffer.commit"
      then on_commit
      else if is_kind kind "input_audio_buffer.clear"
      then on_clear
      else and_continue (send_error (invalid "invalid_event" "Unknown or missing event type"))

  unfoldable pub on_text : App Float S → Option Json → Handler Float F C S Flow
  on_text app none =
      and_continue (send_error (invalid "invalid_json" "The event is not valid JSON"))
  on_text app (some message) = on_event app message (and_then (get "type" message) as_str)

  unfoldable pub on_message : App Float S → Message → Handler Float F C S Flow
  on_message app (message_text t) = on_text app t
  on_message app message_binary =
      and_continue
        (send_error (invalid "invalid_event" "Binary frames are not accepted; send JSON events"))
  on_message app message_close = pure close
  on_message app message_other = pure continue
  on_message app timeout = and_continue (
      discard_item parts.engine
      >> send_error (
          api_error 408 "idle_timeout"
            (codes "No audio or commit received; the buffered audio was discarded")))

  abbrev pub answer_for : Option (Item Float F C S) → Handler Float F C S Flow
  answer_for none c = done continue c
  answer_for (some i) c = take_answer (next_update parts.engine i) c

  abbrev pub and_close : Flow → Handler Float F C S Flow
  and_close close = discard_item parts.engine >> pure close
  and_close continue = pure continue

  unfoldable pub round : Input Float S → Handler Float F C S Flow
  round (received app m) c = (on_message app m >>= and_close) c
  round answered c = answer_for c.item c

  unfoldable pub run_rounds : List (Input Float S) → Handler Float F C S Flow
  run_rounds [] = pure continue
  run_rounds (input ∷ rest) = round input >>= unless_closed (run_rounds rest)

  unfoldable pub run : List (Input Float S) → Handler Float F C S Flow
  run inputs = (λ c. send (session_created c.config) c) >> run_rounds inputs
