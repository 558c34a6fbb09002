-- ===== src/Operations/Tests.antt =====
-- A cancelled download, and the witnesses.
use stt_server.Prelude.{◌≡◌, refl, true, List, [], ◌∷◌, none, some, String, codes}
use stt_server.Errors.{ok}
use stt_server.Operations.{
  Tokens, Row, Change, authorize, operation_state, cancel_operation, update_operation_with_code,
  active_operation_id,
}
use stt_server.Operations.Cancelled.{
  act_update, act_cancel, Stays, run, updates, cancelled_in, run-Stays,
  cancel_operation-cancelled_in,
}

abbrev tokens : Tokens
tokens = record { token = codes "admin"; user_token = codes "user" }

abbrev running_row : Row
running_row = record {
  id = codes "a";
  state = "running";
  error = none;
  error_code = none;
  progress_bytes = 10;
  updated_at = 1;
  finished_at = none;
}

abbrev to_state : String → Change
to_state s = record {
  id = codes "a";
  state = s;
  error = none;
  error_code = none;
  progress_bytes = 20;
  now = 3;
}

abbrev rows : List Row
rows = running_row ∷ []

cancelled_row : cancel_operation tokens (some (codes "admin")) (codes "a") 2 (updates []) rows ≡ (
  record running_row {
    state = "cancelled";
    error_code = some "cancelled";
    updated_at = 2;
    finished_at = some 2;
  }
      ∷ [],
  ok tt,
)
unfolding cancel_operation authorize operation_state
cancelled_row = refl

active : active_operation_id rows ≡ some (codes "a")
unfolding active_operation_id
active = refl

run-Stays_example : Stays rows (
    run tokens
      (act_cancel (some (codes "admin")) (codes "a") 2 [] ∷ act_update (to_state "completed") ∷ [])
      rows)
run-Stays_example =
    run-Stays tokens
      (act_cancel (some (codes "admin")) (codes "a") 2 [] ∷ act_update (to_state "completed") ∷ [])
      rows

answered :
    (cancel_operation tokens
      (some (codes "admin"))
      (codes "a")
      2
      (updates (to_state "running" ∷ []))
      rows).1
    ≡ ok tt
unfolding cancel_operation authorize operation_state update_operation_with_code
answered = refl

cancel_operation-cancelled_in_example :
    (some (codes "admin") ≡ some tokens.token)
    × (cancelled_in
          (codes "a")
          (cancel_operation tokens
            (some (codes "admin"))
            (codes "a")
            2
            (updates (to_state "running" ∷ []))
            rows).0
        ≡ true)
cancel_operation-cancelled_in_example =
    cancel_operation-cancelled_in tokens (some (codes "admin")) (codes "a") 2
      (to_state "running" ∷ []) rows answered
