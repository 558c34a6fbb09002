-- ===== src/Download.antt =====
-- src/download.rs: fetching a model file into a partial file, over attempts that resume it.
-- The network and the disk answer from outside: an `Attempt` says what one request met, chunk by
-- chunk, and which of its file operations worked. Failures keep their code and not their message.
-- The digest of a file is the parameter `sha256`.
pub mod Transfer
pub mod Received
pub mod Attempts
pub mod Sources
pub mod Verified
pub mod Content
mod Tests
use stt_server.Prelude.{
  ℕ, zero, suc, ◌+◌, ◌-◌, ◌*◌, ◌^◌, min, Bool, true, false, not, ◌&&◌, ◌||◌, List, [], ◌∷◌, ◌++◌,
  Option, none, some, String, Text, codes, text_eq, length, take, ltb, leb, ◌==◌, if◌then◌else◌,
}

pub data ResumeDecision : Type 0 where
  verify_only restart_from_zero : ResumeDecision
  range : ℕ → ResumeDecision

unfoldable pub resume_decision : ℕ → ℕ → ResumeDecision
resume_decision partial_len expected_len =
    if ltb 0 expected_len && (partial_len == expected_len)
    then verify_only
    else if (partial_len == 0) || ltb expected_len partial_len
    then restart_from_zero
    else range partial_len

pub data RangeResponseOutcome : Type 0 where
  resume_accepted restart restart_416 invalid : RangeResponseOutcome

abbrev pub starts_at : Option ℕ → ℕ → Bool
starts_at none offset = false
starts_at (some start) offset = start == offset

unfoldable pub classify_range_response : ℕ → ℕ → Option ℕ → RangeResponseOutcome
classify_range_response offset status content_range_start =
    if status == 200
    then restart
    else if status == 206
    then (if starts_at content_range_start offset then resume_accepted else invalid)
    else if status == 416
    then restart_416
    else invalid

-- `headroom` is 1.05 times the remaining bytes, rounded up, in floats.
unfoldable pub disk_required_bytes : (ℕ → ℕ) → ℕ → ℕ → ℕ
disk_required_bytes headroom expected_size partial_bytes =
    min (headroom (expected_size - partial_bytes) + 64 * 1024 * 1024) (2 ^ 64 - 1)

unfoldable pub has_enough_disk_space : (ℕ → ℕ) → ℕ → ℕ → ℕ → Bool
has_enough_disk_space headroom available expected_size partial_bytes =
    leb (disk_required_bytes headroom expected_size partial_bytes) available

-- Milliseconds and bytes since the last time.
unfoldable pub should_flush_progress : ℕ → ℕ → Bool → Bool
should_flush_progress elapsed_since_last bytes_since_last force =
    force || (leb 250 elapsed_since_last || leb (4 * 1024 * 1024) bytes_since_last)

pub data OperationState : Type 0 where
  queued running completed failed cancelled : OperationState

-- What lies on disk and in the database: the partial file, the file put into quarantine, the
-- installed file, and the operation.
pub record Store : Type 0 where
  pub part : Option (List ℕ)
  pub quarantined : Option (List ℕ)
  pub installed : Option (List ℕ)
  pub operation : OperationState
  pub progress_bytes : ℕ

-- A chunk of a body: nothing in time, an error, or bytes. `cancels` is whether the client has
-- cancelled by then, `written` how many bytes were written when writing failed.
pub data Chunk : Type 0 where
  stall broken : Chunk
  bytes : List ℕ → Bool → Option ℕ → ℕ → Chunk

pub record Response : Type 0 where
  pub status : ℕ
  pub content_range_start : Option ℕ
  pub body : List Chunk

pub data Reply : Type 0 where
  no_answer unreachable : Reply
  answered : Response → Reply

pub record Attempt : Type 0 where
  pub reply : Reply
  pub remove_works : Bool
  pub open_works : Bool
  pub sync_works : Bool
  pub update_works : Bool

pub data Tried (A : Type 0) : Type 0 where
  done : A → Tried A
  failure : String → Tried A

abbrev pub Run : Type 0 → Type 0
Run A = Store → Store × Tried A

abbrev pub and_tried : {A B : Type 0} → (A → Run B) → Store × Tried A → Store × Tried B
and_tried f (s, done a) = f a s
and_tried f (s, failure code) = (s, failure code)

infixl 5 ◌>>=◌ ◌>>◌
abbrev pub ◌>>=◌ : {A B : Type 0} → Run A → (A → Run B) → Run B
◌>>=◌ m f s = and_tried f (m s)

abbrev pub ◌>>◌ : {A B : Type 0} → Run A → Run B → Run B
m >> k = m >>= λ _. k

abbrev pub pure : {A : Type 0} → A → Run A
pure a s = (s, done a)

abbrev pub fail : {A : Type 0} → String → Run A
fail code s = (s, failure code)

-- An operation that works or fails with an internal error, and what it does.
abbrev pub perform : Bool → (Store → Store) → Run (Unit {0})
perform true f s = (f s, done tt)
perform false f s = (s, failure "internal_error")

abbrev pub length_of : Option (List ℕ) → ℕ
length_of none = 0
length_of (some file) = length file

abbrev pub appended : Option (List ℕ) → List ℕ → Option (List ℕ)
appended none more = some more
appended (some file) more = some (file ++ more)

-- `UPDATE ... AND state <> 'cancelled'` to the state `running`.
abbrev pub set_running : OperationState → ℕ → Store → Store
set_running cancelled received s = s
set_running _ received s = record s { operation = running; progress_bytes = received }

abbrev pub cancel_state : OperationState → OperationState
cancel_state queued = cancelled
cancel_state running = cancelled
cancel_state other = other

-- The client's cancelling, when it came.
abbrev pub cancel_if : Bool → Store → Store
cancel_if false s = s
cancel_if true s = record s { operation = cancel_state s.operation }

abbrev pub is_cancelled : OperationState → Bool
is_cancelled cancelled = true
is_cancelled _ = false
