-- ===== src/Realtime/Items.antt =====
-- src/realtime.rs: an item of a connection, the channel to its worker, and how it starts.
-- The channel's answers are computed from the commands sent so far; `received` counts those taken.
use stt_server.Prelude.{
  ℕ, Bool, true, false, not, ◌&&◌, List, [], ◌∷◌, ◌++◌, Option, none, some, Text, codes,
  if◌then◌else◌,
}
use stt_server.Errors.{api_error, ApiResult, ok, err, ◌>>=◌}
use stt_server.Capabilities.{EffectiveCaps}
use stt_server.RunPlan.{
  ParsedRequest, Endpoint, transcriptions, translations, RunOptions, plan, to_run_options,
}
use stt_server.Audio.{Resampler}
use stt_server.Audio.Live.{PcmStream}
use stt_server.Audio.Live as Live
use stt_server.Realtime.{Cmd, feed, finalize, Update}
use stt_server.Realtime.Worker.{Engine, stream_worker, sent, run_buffered_turn}
use stt_server.Realtime.Session.{SessionConfig, is_some}

pub record BufferedTurn (Float F : Type 0) : Type 0 where
  pub model : Text
  pub run : RunOptions Float
  pub pcm : List F

-- The sending side of `updates`: a stream's worker with the commands sent to it, a turn that was
-- run, or a turn that still collects.
pub data Channel (F S : Type 0) : Type 0 where
  stream : ApiResult S → List (Cmd F) → Channel F S
  turn : List Update → Channel F S
  held : Channel F S

pub record Item (Float F C S : Type 0) : Type 0 where
  pub id : Text
  pub updates : Channel F S
  pub received : ℕ
  pub decoder : PcmStream F C
  pub committed : Text
  pub committed_by_client : Bool
  pub buffered : Option (BufferedTurn Float F)

-- What `start_item` asks the application for, at that moment.
pub record App (Float S : Type 0) : Type 0 where
  pub try_acquire_stream : Bool
  pub resolve_requested_model : Text → ApiResult Text
  pub require_installed_verified : Text → ApiResult (Unit {0})
  pub limits : ApiResult (Unit {0})
  pub acquire : ApiResult (Unit {0})
  pub bind_or_swap_model : Text → ApiResult EffectiveCaps
  pub fresh_id : Text
  pub spawn : ApiResult (Unit {0})
  pub begin : Text → RunOptions Float → ApiResult S  -- what the worker's `session` and `stream` give

unfoldable pub check_streaming : EffectiveCaps → ApiResult (Unit {0})
check_streaming caps =
    if caps.loaded.supports_streaming
    then ok tt
    else err (
        api_error 422 "streaming_unsupported"
          (codes "This model does not support live streaming; use /v1/audio/transcriptions"))

abbrev pub collect :
    {Float F : Type 0} → List F → Option (BufferedTurn Float F) → Option (BufferedTurn Float F)
collect pcm none = none
collect pcm (some t) = some (record t { pcm = t.pcm ++ pcm })

module _ {Float F C S : Type 0} where
  abbrev pub feed_to : Channel F S → List F → Item Float F C S → Item Float F C S
  feed_to _ [] i = i
  feed_to (stream begun commands) (x ∷ pcm) i = record i {
    updates = stream begun (commands ++ (feed (x ∷ pcm) ∷ []));
  }
  feed_to (turn us) (x ∷ pcm) i = record i { buffered = collect (x ∷ pcm) i.buffered }
  feed_to held (x ∷ pcm) i = record i { buffered = collect (x ∷ pcm) i.buffered }

  -- Hand audio to the stream's worker, or collect it.
  unfoldable pub feed_item : List F → Item Float F C S → Item Float F C S
  feed_item pcm i = feed_to i.updates pcm i

module _ {Float F C S : Type 0} (translate : BufferedTurn Float F → ApiResult Text) where
  abbrev pub run_turn : Option (BufferedTurn Float F) → Item Float F C S → Item Float F C S
  run_turn none i = i
  run_turn (some t) i = record i {
    buffered = none;
    updates = turn (sent (run_buffered_turn (translate t)));
  }

  abbrev pub finalize_to : Channel F S → Item Float F C S → Item Float F C S
  finalize_to (stream begun commands) i = record i {
    updates = stream begun (commands ++ (finalize ∷ []));
  }
  finalize_to (turn us) i = run_turn i.buffered i
  finalize_to held i = run_turn i.buffered i

  -- End the stream, or run the buffered turn.
  unfoldable pub finalize_item : Item Float F C S → Item Float F C S
  finalize_item i = finalize_to i.updates i

-- The answers that the channel has had so far, with `item.commands` still there or dropped.
abbrev pub answers_when : {F S : Type 0} → Bool → Engine F S → Channel F S → List Update
answers_when dropped engine (stream begun commands) =
    sent (stream_worker engine begun dropped commands)
answers_when dropped engine (turn us) = us
answers_when dropped engine held = []

abbrev pub answers : {F S : Type 0} → Engine F S → Channel F S → List Update
answers engine u = answers_when false engine u

module _ {Float F C S : Type 0} (in_unit : Float → Bool) (to_lowercase : Text → Text)
    (lib : Resampler F C) (app : App Float S) (config : SessionConfig) where
  abbrev pub claimed : Bool → ApiResult (Unit {0})
  claimed true = ok tt
  claimed false = err (api_error 429 "stream_busy" (codes "Another live stream is already running"))

  abbrev pub request : ParsedRequest Float
  request = record {
    language = config.language;
    prompt = config.prompt;
    temperature = none;
    response_format = none;
    timestamp_granularities = [];
    target_language = config.target_language;
  }

  abbrev pub endpoint : Endpoint
  endpoint = if is_some config.target_language then translations else transcriptions

  abbrev pub new_item :
      PcmStream F C → Channel F S → Option (BufferedTurn Float F) → Item Float F C S
  new_item decoder updates buffered = record {
    id = app.fresh_id;
    updates = updates;
    received = 0;
    decoder = decoder;
    committed = [];
    committed_by_client = false;
    buffered = buffered;
  }

  abbrev pub start_buffered : Text → RunOptions Float → PcmStream F C → ApiResult (Item Float F C S)
  start_buffered target run decoder =
      ok (new_item decoder held (some (record { model = target; run = run; pcm = [] })))

  abbrev pub start_stream : Text → RunOptions Float → PcmStream F C → ApiResult (Item Float F C S)
  start_stream target run decoder = do
    _ ← app.spawn
    ok (new_item decoder (stream (app.begin target run) []) none)

  abbrev pub start_by :
      Bool → Text → RunOptions Float → PcmStream F C → ApiResult (Item Float F C S)
  start_by true = start_buffered
  start_by false = start_stream

  abbrev pub buffers : EffectiveCaps → Bool
  buffers caps = is_some config.target_language && not caps.loaded.supports_streaming

  unfoldable pub find_target : ApiResult Text
  find_target = do _ ← claimed app.try_acquire_stream; app.resolve_requested_model config.model

  unfoldable pub bind_target : Text → ApiResult EffectiveCaps
  bind_target target = do
    _ ← app.require_installed_verified target
    _ ← app.limits
    _ ← app.acquire
    app.bind_or_swap_model target

  unfoldable pub prepare : EffectiveCaps → ApiResult (RunOptions Float × PcmStream F C)
  prepare caps = do
    _ ← if buffers caps then ok tt else check_streaming caps
    planned ← plan in_unit to_lowercase request caps endpoint none
    decoder ← Live.new lib config.sample_rate
    ok (to_run_options planned, decoder)

  unfoldable pub start_item : ApiResult (Item Float F C S)
  start_item = do
    target ← find_target
    caps ← bind_target target
    prepared ← prepare caps
    start_by (buffers caps) target prepared.0 prepared.1
