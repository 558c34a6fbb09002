-- ===== src/Queue/Tests.antt =====
-- Runs of the queue, and its theorems at concrete histories.
use stt_server.Prelude.{
  ℕ, ◌+◌, ◌≤◌, ◌≡◌, refl, true, List, [], ◌∷◌, Option, some, arith, ◌==◌, All, to_ℕ,
}
use stt_server.Queue.{Priority, State, waiting, drop_permit, serve, next_waiter, remove, acquire}
use stt_server.Queue.Serving.{Serves, drop_permit-Serves}
use stt_server.Queue.System.{
  give, init, Event, arrive, receive, abandon, unregister, release, step, run,
}
use stt_server.Queue.System.Counting.{places}
use stt_server.Queue.System.Handing.{permits}
use stt_server.Queue.System.Invariant.{run-exclusive, run_wakes}
use stt_server.Queue.System.Capacity.{run-waiting}

abbrev bound : Option ℕ
bound = some 8

-- A normal request runs; a normal and an interactive one wait; the interactive one gives up while
-- its grant lies in the channel, so the slot goes on to the normal one.
abbrev history : List Event
history =
    arrive Priority.normal bound
    ∷ arrive Priority.normal bound
    ∷ arrive Priority.interactive bound
    ∷ release
    ∷ abandon 1
    ∷ unregister 1
    ∷ receive 0
    ∷ []

history_end : (run history init) ≡ record {
  state = record { busy = true; next_id = 2; interactive = []; normal = [] };
  receivers = [];
  leaving = 0 ∷ [];
  running = 1;
}
unfolding run init step give drop_permit serve next_waiter acquire remove
history_end = refl

abbrev crowd : State
crowd = record {
  busy = true;
  next_id = 3;
  interactive = record { id = 1 } ∷ [];
  normal = record { id = 0 } ∷ record { id = 2 } ∷ [];
}

drop_permit-Serves_example : Serves (λ w. w.id == 2) crowd (drop_permit (λ w. w.id == 2) crowd)
drop_permit-Serves_example = drop_permit-Serves (λ w. w.id == 2) crowd

run-exclusive_example :
    (permits (run history init) ≡ to_ℕ (run history init).state.busy)
    × (permits (run history init) ≤ 1)
run-exclusive_example = run-exclusive history (omega arith)

run_wakes_example :
    All (λ r. places r.id (run history init).state + to_ℕ r.holds ≡ 1) (run history init).receivers
    × (permits (run history init) ≡ 0 → (run history init).receivers ≡ [])
run_wakes_example = run_wakes history (omega arith)

run-waiting_example : waiting (run history init).state ≤ 8
run-waiting_example = run-waiting 8 history (refl, (refl, (refl, (tt, (tt, (tt, (tt, tt)))))))
