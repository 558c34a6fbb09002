-- ===== src/Realtime/Worker.antt =====
-- src/realtime.rs: the workers of an item, as the sequence of what they do. A stream's worker has
-- read the commands of a list, and its channel is open or closed behind them; the engine is the
-- parameter `Engine`, whose errors are those that `map_engine_error` gave.
pub mod Endings
use stt_server.Prelude.{
  ℕ, Bool, true, false, ◌||◌, List, [], ◌∷◌, ◌++◌, Option, none, some, Text, trim, if◌then◌else◌,
}
use stt_server.Errors.{ApiError, ApiResult, ok, err, ◌>>=◌}
use stt_server.Realtime.{Cmd, feed, finalize, Update, partial, completed, failed, ended}

pub record StreamUpdate : Type 0 where
  pub committed_changed : Bool
  pub tentative_changed : Bool
  pub revision : ℕ  -- i32, passed on unread

pub record StreamText : Type 0 where
  pub committed : Text
  pub tentative : Text
  pub full : Text
  pub display : Text

-- transcribe_cpp's stream, with its states `S`.
pub record Engine (F S : Type 0) : Type 0 where
  pub push : List F → S → S × ApiResult StreamUpdate
  pub finish : S → S × ApiResult StreamUpdate
  pub read : S → StreamText

pub data Action : Type 0 where
  drop_batch_permit drop_stream_slot : Action
  send : Update → Action

-- What `run_stream` returned, or that it waits for a command.
pub data Progress : Type 0 where
  waiting : Progress
  returned : ApiResult (Option Text) → Progress

abbrev pub before : List Action → List Action × Progress → List Action × Progress
before actions (rest, progress) = (actions ++ rest, progress)

abbrev pub outcome_updates : ApiResult (Option Text) → List Action
outcome_updates (ok (some t)) = send (completed t) ∷ send ended ∷ []
outcome_updates (ok none) = send ended ∷ []
outcome_updates (err e) = send (failed e) ∷ send ended ∷ []

abbrev pub concluded : List Action × Progress → List Action
concluded (actions, waiting) = actions
concluded (actions, returned outcome) = actions ++ (drop_stream_slot ∷ outcome_updates outcome)

module _ {F S : Type 0} (engine : Engine F S) where
  abbrev pub report : S → StreamUpdate → List Action
  report stream update =
      let now = engine.read stream in
      if update.committed_changed || update.tentative_changed
      then send (partial now.committed now.tentative update.revision) ∷ []
      else []

  abbrev pub fed :
      (S → List Action × Progress) → S × ApiResult StreamUpdate → List Action × Progress
  fed go_on (stream, err e) = ([], returned (err e))
  fed go_on (stream, ok update) = before (report stream update) (go_on stream)

  abbrev pub finalized : S × ApiResult StreamUpdate → List Action × Progress
  finalized (stream, err e) = ([], returned (err e))
  finalized (stream, ok update) =
      let now = engine.read stream in
      (send (partial now.display [] update.revision) ∷ [], returned (ok (some (trim now.full))))

  -- The `while let` over the commands.
  unfoldable pub run_commands : Bool → List (Cmd F) → S → List Action × Progress
  run_commands closed [] stream = ([], if closed then returned (ok none) else waiting)
  run_commands closed (feed pcm ∷ rest) stream =
      fed (run_commands closed rest) (engine.push pcm stream)
  run_commands closed (finalize ∷ rest) stream = finalized (engine.finish stream)

  -- `begun` is what `session` and `stream` gave; the permit is dropped after either.
  unfoldable pub run_stream : ApiResult S → Bool → List (Cmd F) → List Action × Progress
  run_stream (err e) closed commands = (drop_batch_permit ∷ [], returned (err e))
  run_stream (ok stream) closed commands =
      before (drop_batch_permit ∷ []) (run_commands closed commands stream)

  unfoldable pub stream_worker : ApiResult S → Bool → List (Cmd F) → List Action
  stream_worker begun closed commands = concluded (run_stream begun closed commands)

-- What arrives in the channel.
abbrev pub sent : List Action → List Update
sent [] = []
sent (send u ∷ rest) = u ∷ sent rest
sent (drop_batch_permit ∷ rest) = sent rest
sent (drop_stream_slot ∷ rest) = sent rest

abbrev pub turn_delta : Text → List Action
turn_delta [] = []
turn_delta (c ∷ cs) = send (partial (c ∷ cs) [] 0) ∷ []

-- `translated` is what `translate_pcm` gave.
unfoldable pub run_buffered_turn : ApiResult Text → List Action
run_buffered_turn (ok t) =
    drop_stream_slot ∷ (turn_delta t ++ (send (completed t) ∷ send ended ∷ []))
run_buffered_turn (err e) = drop_stream_slot ∷ send (failed e) ∷ send ended ∷ []

-- What `translate_pcm` asks the application for: the limits, the batch permit with the model not
-- held by a stream, the model, and the run.
pub record BatchRun (F : Type 0) : Type 0 where
  pub limits : ApiResult (Unit {0})
  pub acquire_for_model : Text → ApiResult (Unit {0})
  pub bind_or_swap_model : Text → ApiResult (Unit {0})
  pub run : List F → ApiResult Text

unfoldable pub translate_pcm : {F : Type 0} → BatchRun F → Text → List F → ApiResult Text
translate_pcm app model [] = ok []
translate_pcm app model (x ∷ pcm) = do
  _ ← app.limits
  _ ← app.acquire_for_model model
  _ ← app.bind_or_swap_model model
  transcript ← app.run (x ∷ pcm)
  ok (trim transcript)
