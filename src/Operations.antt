-- ===== src/Operations.antt =====
-- src/operations.rs and src/auth.rs: the table of operations, and who may act on it.
-- A statement of the database is a function on the rows; `now` is the clock in milliseconds. What
-- other threads do between two statements of a handler is its argument `meanwhile`.
pub mod Cancelled
mod Tests
use stt_server.Prelude.{
  ℕ, zero, suc, ◌+◌, Bool, true, false, not, ◌&&◌, ◌||◌, List, [], ◌∷◌, map, Option, none, some,
  String, Text, codes, text_eq, any, find, ltb, ◌==◌, if◌then◌else◌,
}
use text.Mathlib.Text.{◌==◌ as str_eq}
use stt_server.Errors.{ApiError, api_error, ApiResult, ok, err, ◌>>=◌}

pub data AccessLevel : Type 0 where
  user admin : AccessLevel

pub record Tokens : Type 0 where
  pub token : Text
  pub user_token : Text

abbrev pub unauthorized : ApiResult (Unit {0})
unauthorized = err (api_error 401 "unauthorized" (codes "A valid local bearer token is required"))

abbrev pub for_user : AccessLevel → ApiResult (Unit {0})
for_user user = ok tt
for_user admin = err (api_error 403 "admin_required" (codes "This route requires the admin token"))

-- `bearer` is the token of the request's header, where there is one.
unfoldable pub authorize : Tokens → Option Text → AccessLevel → ApiResult (Unit {0})
authorize app none required = unauthorized
authorize app (some token) required =
    if text_eq token app.token
    then ok tt
    else if text_eq token app.user_token
    then for_user required
    else unauthorized

abbrev pub authorized : Tokens → Option Text → ApiResult (Unit {0})
authorized app bearer = authorize app bearer admin

pub record Row : Type 0 where
  pub id : Text
  pub state : String
  pub error : Option Text
  pub error_code : Option String
  pub progress_bytes : ℕ
  pub updated_at : ℕ
  pub finished_at : Option ℕ

abbrev pub is_terminal : String → Bool
is_terminal state = str_eq state "completed" || (str_eq state "failed" || str_eq state "cancelled")

abbrev pub is_active : String → Bool
is_active state = str_eq state "queued" || str_eq state "running"

-- The columns that an update sets; a terminal state sets the finishing time too.
pub record Change : Type 0 where
  pub id : Text
  pub state : String
  pub error : Option Text
  pub error_code : Option String
  pub progress_bytes : ℕ
  pub now : ℕ

abbrev pub changed_row : Change → Row → Row
changed_row c r = record r {
  state = c.state;
  error = c.error;
  error_code = c.error_code;
  progress_bytes = c.progress_bytes;
  updated_at = c.now;
  finished_at = if is_terminal c.state then some c.now else r.finished_at;
}

abbrev pub update_row : Change → Row → Row
update_row c r =
    if text_eq r.id c.id && not (str_eq r.state "cancelled") then changed_row c r else r

unfoldable pub update_operation_with_code : Change → List Row → List Row
update_operation_with_code c rows = map (update_row c) rows

unfoldable pub operation_state : Text → List Row → Option String
operation_state id [] = none
operation_state id (r ∷ rows) =
    let rest = operation_state id rows in if text_eq r.id id then some r.state else rest

-- The row that was updated last, of those that are active.
abbrev pub later : Row → Option Row → Row
later r none = r
later r (some q) = if ltb r.updated_at q.updated_at then q else r

abbrev pub latest_active : List Row → Option Row
latest_active [] = none
latest_active (r ∷ rows) =
    let rest = latest_active rows in if is_active r.state then some (later r rest) else rest

abbrev pub id_of : Option Row → Option Text
id_of none = none
id_of (some r) = some r.id

unfoldable pub active_operation_id : List Row → Option Text
active_operation_id rows = id_of (latest_active rows)

abbrev pub cancels : Text → Row → Bool
cancels id r = text_eq r.id id && is_active r.state

abbrev pub cancel_row : Text → ℕ → Row → Row
cancel_row id now r =
    if cancels id r
    then record r {
      state = "cancelled";
      error_code = some "cancelled";
      updated_at = now;
      finished_at = some now;
    }
    else r

abbrev pub finished : ApiResult (Unit {0})
finished = err (api_error 409 "operation_finished" (codes "Operation already finished"))

abbrev pub execute_cancel : Text → ℕ → List Row → List Row × ApiResult (Unit {0})
execute_cancel id now rows =
    if any (cancels id) rows then (map (cancel_row id now) rows, ok tt) else (rows, finished)

abbrev pub cancel_in :
    Text → ℕ → (List Row → List Row) → List Row → Option String → List Row × ApiResult (Unit {0})
cancel_in id now meanwhile rows none =
    (rows, err (api_error 404 "operation_not_found" (codes "Unknown operation")))
cancel_in id now meanwhile rows (some state) =
    if is_active state then execute_cancel id now (meanwhile rows) else (rows, finished)

abbrev pub after_check :
    ApiResult (Unit {0})
    → List Row × ApiResult (Unit {0})
    → List Row
    → List Row × ApiResult (Unit {0})
after_check (err e) acted rows = (rows, err e)
after_check (ok _) acted rows = acted

unfoldable pub cancel_operation :
    Tokens
    → Option Text
    → Text
    → ℕ
    → (List Row → List Row)
    → List Row
    → List Row × ApiResult (Unit {0})
cancel_operation app bearer id now meanwhile rows =
    after_check (authorized app bearer) (cancel_in id now meanwhile rows (operation_state id rows))
      rows
