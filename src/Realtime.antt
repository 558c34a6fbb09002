-- ===== src/Realtime.antt =====
-- src/realtime.rs: live transcription over a WebSocket. A connection holds the session's settings
-- and at most one item; an item's worker runs on its own thread and answers over a channel.
-- This file has the commands and answers of the workers, and the deltas between answers.
pub mod Session
pub mod Worker
pub mod Items
pub mod Connection
pub mod Handlers
pub mod Settling
pub mod Deltas
mod Tests
use stt_server.Prelude.{
  ℕ, Bool, true, false, List, [], ◌∷◌, Option, none, some, Text, ◌==◌, if◌then◌else◌,
}
use stt_server.Errors.{ApiError}

pub data Cmd (F : Type 0) : Type 0 where
  feed : List F → Cmd F
  finalize : Cmd F

-- `partial` has the committed text, the tentative text and the engine's revision.
pub data Update : Type 0 where
  partial : Text → Text → ℕ → Update
  completed : Text → Update
  failed : ApiError → Update
  ended : Update

-- `str::strip_prefix`.
abbrev pub strip_prefix : Text → Text → Option Text
strip_prefix [] t = some t
strip_prefix (_ ∷ _) [] = none
strip_prefix (a ∷ p) (b ∷ t) = if a == b then strip_prefix p t else none

abbrev pub filled : Option Text → Option Text
filled none = none
filled (some []) = none
filled (some (c ∷ cs)) = some (c ∷ cs)

-- What `committed` added to the text reported before; `none` when nothing was appended.
unfoldable pub delta_since : Text → Text → Option Text
delta_since previous committed = filled (strip_prefix previous committed)

abbrev pub starts_with : Text → Text → Bool
starts_with t [] = true
starts_with [] (_ ∷ _) = false
starts_with (b ∷ t) (a ∷ p) = if a == b then starts_with t p else false
