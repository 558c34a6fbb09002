-- ===== src/Realtime/Tests.antt =====
-- Runs of src/realtime.rs with an engine that repeats its input, and the witnesses.
use stt_server.Prelude.{
  ℕ, ◌≡◌, refl, Bool, true, false, List, [], ◌∷◌, ◌++◌, Option, none, some, Text, codes, arith,
}
use stt_server.Errors.{Json, text, number, object, no_fields, field, ok, err, api_error}
use stt_server.Audio.{Resampler}
use stt_server.Audio.Live.{
  LiveResampler, PcmStream, push, finish, pairs, emit, drain, convert, finish_live,
}
use stt_server.Realtime.{partial, feed, finalize, delta_since}
use stt_server.Realtime.Session.{SessionConfig, new, update, to_json}
use stt_server.Realtime.Session.Updates.{IsValid, update-IsValid, update-to_json}
use stt_server.Realtime.Worker.{Engine, stream_worker, run_stream, run_commands}
use stt_server.Realtime.Worker.Endings.{Ordered, stream_worker-Ordered}
use stt_server.Realtime.Items.{Item, stream, App, start_item, find_target, feed_item, finalize_item}
use stt_server.Realtime.Connection.{
  Connection, Step, done, closed, waits, Flow, next_update, send, send_error, error_event, settle,
  settle_loop, on_update, discard_item,
}
use stt_server.Realtime.Handlers.{
  Parts, Input, received, answered, message_text, on_text, on_append, on_commit, on_message, round,
  run_rounds, run,
}
use stt_server.Realtime.Settling.{Ends, Inv}
use stt_server.Realtime.Settling.Steps.{Succeeds}
use stt_server.Realtime.Settling.Rounds.{run-Ends}
use stt_server.Realtime.Deltas.{Grown, on_updates, on_updates-Grown}

abbrev config : SessionConfig
config = record {
  id = codes "sess_1";
  model = codes "whisper";
  language = some (codes "de");
  target_language = none;
  prompt = none;
  sample_rate = 24000;
}

config-IsValid : IsValid config
config-IsValid = (omega arith, omega arith, refl, refl, refl, refl)

update-IsValid_example :
    IsValid (update (object (field "input_audio_sample_rate" (number 8000) no_fields)) config).0
update-IsValid_example =
    update-IsValid (object (field "input_audio_sample_rate" (number 8000) no_fields)) config
      config-IsValid

update-to_json_example :
    update (to_json config) (new (codes "sess_2") none)
    ≡ (record config { id = (new (codes "sess_2") none).id }, ok tt)
update-to_json_example = update-to_json config (new (codes "sess_2") none) config-IsValid

-- The text is the samples themselves, all of them committed.
abbrev echo : Engine ℕ (List ℕ)
echo = record {
  push = λ pcm s.
      (s ++ pcm, ok (record { committed_changed = true; tentative_changed = false; revision = 1 }));
  finish =
      λ s. (s, ok (record { committed_changed = false; tentative_changed = false; revision = 2 }));
  read = λ s. record { committed = s; tentative = []; full = s; display = s };
}

stream_worker-Ordered_example :
    Ordered (stream_worker echo (ok []) false (feed (65 ∷ []) ∷ finalize ∷ []))
stream_worker-Ordered_example =
    stream_worker-Ordered echo (ok []) false (feed (65 ∷ []) ∷ finalize ∷ []) refl

abbrev none_or : Option (List ℕ) → List ℕ
none_or none = []
none_or (some xs) = xs

abbrev plain : Resampler ℕ (Unit {0})
plain = record {
  create = λ _ _. ok tt;
  output_delay = λ _. 0;
  input_frames_next = λ _. 1;
  process = λ xs c. (c, ok xs);
  process_partial = λ xs c. (c, ok (none_or xs));
}

-- A resampler whose last chunk fails.
abbrev failing : Resampler ℕ (Unit {0})
failing = record plain { process_partial = λ xs c. (c, err (api_error 500 "internal_error" [])) }

abbrev parts : Resampler ℕ (Unit {0}) → Parts ℕ ℕ (Unit {0}) (List ℕ)
parts lib = record {
  sample = λ n. n;
  lib = lib;
  engine = echo;
  in_unit = λ _. true;
  to_lowercase = λ t. t;
  decode = λ t. some t;
  translate = λ _. ok [];
}

flushes_live : (o : Option (LiveResampler ℕ (Unit {0}))) → Succeeds (finish_live plain o).1
unfolding emit
flushes_live none = tt
flushes_live (some live) = by_tail live live.pending refl
  where
    by_tail :
        (live : LiveResampler ℕ (Unit {0})) (tail : List ℕ)
        → live.pending ≡ tail
        → Succeeds (finish_live plain (some live)).1
    by_tail live [] e = rw e tt
    by_tail live (x ∷ tail) e = rw e tt

flushes : (s : PcmStream ℕ (Unit {0})) → Succeeds (finish plain s).1
unfolding finish
flushes s = flushes_live s.live

abbrev app : App ℕ (List ℕ)
app = record {
  try_acquire_stream = false;
  resolve_requested_model = λ m. ok m;
  require_installed_verified = λ _. ok tt;
  limits = ok tt;
  acquire = ok tt;
  bind_or_swap_model = λ _. err (api_error 503 "engine_busy" []);
  fresh_id = codes "item_1";
  spawn = ok tt;
  begin = λ _ _. ok [];
}

abbrev kind : Text → Json
kind k = object (field "type" (text k) no_fields)

abbrev commit : Input ℕ (List ℕ)
commit = received app (message_text (some (kind (codes "input_audio_buffer.commit"))))

abbrev append : Input ℕ (List ℕ)
append = received app (
    message_text (
      some (
        object (
          field "type" (text (codes "input_audio_buffer.append"))
            (field "audio" (text (1 ∷ 0 ∷ [])) no_fields)))))

abbrev item_1 : Item ℕ ℕ (Unit {0}) (List ℕ)
item_1 = record {
  id = codes "item_1";
  updates = stream (ok []) [];
  received = 0;
  decoder = record {
    odd_byte = none;
    live = some (record { resampler = tt; pending = []; skip = 0 });
  };
  committed = [];
  committed_by_client = false;
  buffered = none;
}

abbrev start : Connection ℕ ℕ (Unit {0}) (List ℕ)
start = record { config = config; item = none; previous_item_id = none; room = 100; events = [] }

run-Ends_example :
    Ends
      (λ _ d. Inv echo d.item)
      (run (parts plain) (append ∷ commit ∷ answered ∷ append ∷ []) start)
run-Ends_example =
    run-Ends (parts plain) (λ c. omega arith) flushes (append ∷ commit ∷ answered ∷ append ∷ [])
      start refl

on_updates-Grown_example :
    Ends
      (λ _ d. Grown [] [] d.item d.events)
      (on_updates
        (some (partial (65 ∷ []) (66 ∷ []) 1) ∷ some (partial (65 ∷ 66 ∷ []) [] 2) ∷ [])
        (record start { item = some item_1 }))
on_updates-Grown_example =
    on_updates-Grown
      (some (partial (65 ∷ []) (66 ∷ []) 1) ∷ some (partial (65 ∷ 66 ∷ []) [] 2) ∷ []) item_1
      (record start { item = some item_1 }) refl

abbrev is_stuck : Step (Connection ℕ ℕ (Unit {0}) (List ℕ)) Flow → Bool
is_stuck (waits _) = true
is_stuck (done _ _) = false
is_stuck (closed _) = false

-- A commit after which the next audio starts another item.
append_again :
    is_stuck (
      run_rounds
        (parts plain)
        (append ∷ commit ∷ append ∷ [])
        (record start { item = some item_1 }))
    ≡ false
unfolding run_rounds round on_message on_text on_commit on_append settle settle_loop send send_error
    error_event discard_item next_update push finish pairs emit drain convert stream_worker
    run_stream run_commands feed_item finalize_item on_update delta_since start_item find_target
append_again = refl

-- Where the decoder's finish fails, the next message of the client waits for ever.
commit_stuck :
    is_stuck (
      run_rounds
        (parts failing)
        (append ∷ commit ∷ append ∷ [])
        (record start { item = some item_1 }))
    ≡ true
unfolding run_rounds round on_message on_text on_commit on_append settle settle_loop send send_error
    error_event discard_item next_update push finish pairs emit drain convert stream_worker
    run_stream run_commands feed_item finalize_item on_update delta_since
commit_stuck = refl
