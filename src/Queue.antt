-- ===== src/Queue.antt =====
-- src/queue.rs: the dispatcher's state, the handing over of a permit, and joining the queue.
-- A waiter is named by its id, which also names its oneshot channel. `send` says whether the
-- channel's receiver is still there: tokio's `Sender::send` fails exactly when it is gone.
pub mod Serving
pub mod System
mod Tests
use stt_server.Prelude.{
  ℕ, zero, suc, ◌+◌, ◌%◌, ◌^◌, Bool, true, false, not, List, [], ◌∷◌, ◌++◌, Option, none, some,
  length, retain, leb, ◌==◌, if◌then◌else◌, String,
}
use text.Mathlib.Text.{◌==◌ as str_eq}

pub data QueueError : Type 0 where
  full timeout stream_active : QueueError

pub data Priority : Type 0 where
  normal interactive : Priority

unfoldable pub parse_priority : String → Option Priority
parse_priority value =
    if str_eq value "normal"
    then some Priority.normal
    else if str_eq value "interactive"
    then some Priority.interactive
    else none

pub record Waiter : Type 0 where
  pub id : ℕ

pub record State : Type 0 where
  pub busy : Bool
  pub next_id : ℕ  -- u64
  pub interactive : List Waiter
  pub normal : List Waiter

unfoldable pub new : State
new = record { busy = false; next_id = 0; interactive = []; normal = [] }

abbrev pub waiting : State → ℕ
waiting s = length s.interactive + length s.normal

-- The `or_else` of `next_waiter`: `normal` is asked when `interactive` is empty.
pop : State → List Waiter → List Waiter → Option (Waiter × State)
pop s [] [] = none
pop s [] (w ∷ rest) = some (w, record s { normal = rest })
pop s (w ∷ rest) _ = some (w, record s { interactive = rest })

unfoldable pub next_waiter : State → Option (Waiter × State)
unfolding pop
next_waiter s = pop s s.interactive s.normal

unfoldable pub remove : ℕ → State → State
remove id s = record s {
  interactive = retain (λ w. not (w.id == id)) s.interactive;
  normal = retain (λ w. not (w.id == id)) s.normal;
}

-- The `while let` of `InferencePermit::drop`; a failed send disarms its permit and goes on.
unfoldable pub serve : (Waiter → Bool) → ℕ → State → State × Option Waiter
serve send zero s = (s, none)
serve send (suc fuel) s = elim (next_waiter s) [
  | none ↦ (record s { busy = false }, none)
  | some (w, s') ↦ let rest = serve send fuel s' in if send w then (s', some w) else rest
]

-- `InferencePermit::drop` for a permit that owns the slot.
unfoldable pub drop_permit : (Waiter → Bool) → State → State × Option Waiter
drop_permit send s = serve send (suc (waiting s)) s

-- What the locked block of `acquire` decides.
pub data Joined : Type 0 where
  entered : Joined
  refused : QueueError → Joined
  queued : ℕ → Joined

abbrev pub exceeds : Option ℕ → ℕ → Bool
exceeds none n = false
exceeds (some bound) n = leb bound n

unfoldable pub push : Priority → Waiter → State → State
push Priority.interactive w s = record s { interactive = s.interactive ++ (w ∷ []) }
push Priority.normal w s = record s { normal = s.normal ++ (w ∷ []) }

unfoldable pub acquire : Priority → Option ℕ → State → State × Joined
unfolding push
acquire priority max_waiting s =
    if not s.busy
    then (record s { busy = true }, entered)
    else if exceeds max_waiting (waiting s)
    then (s, refused QueueError.full)
    else (
      push priority (record { id = s.next_id }) (record s { next_id = (s.next_id + 1) % 2 ^ 64 }),
      queued s.next_id,
    )

-- `acquire_unbounded`: a normal request with no bound.
unfoldable pub acquire_unbounded : State → State × Joined
acquire_unbounded = acquire Priority.normal none
