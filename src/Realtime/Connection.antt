-- ===== src/Realtime/Connection.antt =====
-- src/realtime.rs, Connection: what a connection does on each message and each answer. A step ends
-- with a value, with the socket closed, or waiting for an answer that never comes. `room` is how
-- many more messages the socket takes; a text message is `none` where it is not valid JSON.
use stt_server.Prelude.{
  ℕ, zero, suc, ◌+◌, Bool, true, false, ◌&&◌, List, [], ◌∷◌, ◌++◌, Option, none, some, Text, String,
  drop, length, leb, ltb, if◌then◌else◌,
}
use stt_server.Errors.{ApiError}
use stt_server.Realtime.{Update, partial, completed, failed, ended, delta_since, starts_with}
use stt_server.Realtime.Worker.{Engine}
use stt_server.Realtime.Session.{SessionConfig}
use stt_server.Realtime.Items.{Item, BufferedTurn, answers_when, answers}

-- `error` has the type `invalid_request_error` for a client's error, else `server_error`.
pub data Event : Type 0 where
  session_created : SessionConfig → Event
  session_updated : String → SessionConfig → Event
  error : String → ApiError → Event
  buffer_committed : Option Text → Text → Event
  buffer_cleared : Event
  delta : Text → Text → Event
  partial_text : Text → Text → Text → ℕ → Event
  transcript : Text → Text → Event

unfoldable pub error_event : ApiError → Event
error_event e =
    error (if leb 400 e.status && ltb e.status 500 then "invalid_request_error" else "server_error")
      e

pub record Connection (Float F C S : Type 0) : Type 0 where
  pub config : SessionConfig
  pub item : Option (Item Float F C S)
  pub previous_item_id : Option Text
  pub room : ℕ
  pub events : List Event

pub data Flow : Type 0 where
  continue close : Flow

pub data Step (T A : Type 0) : Type 0 where
  done : A → T → Step T A
  closed : T → Step T A
  waits : T → Step T A

abbrev pub and_step : {T A B : Type 0} → (A → T → Step T B) → Step T A → Step T B
and_step f (done a s) = f a s
and_step f (closed s) = closed s
and_step f (waits s) = waits s

infixl 5 ◌>>=◌ ◌>>◌
abbrev pub ◌>>=◌ : {T A B : Type 0} → (T → Step T A) → (A → T → Step T B) → T → Step T B
◌>>=◌ m f s = and_step f (m s)

abbrev pub ◌>>◌ : {T A B : Type 0} → (T → Step T A) → (T → Step T B) → T → Step T B
m >> k = m >>= λ _. k

abbrev pub pure : {T A : Type 0} → A → T → Step T A
pure a s = done a s

-- What `next_update` gives.
pub data Received (Float F C S : Type 0) : Type 0 where
  got : Option Update → Item Float F C S → Received Float F C S
  nothing : Received Float F C S

abbrev pub Handler : (Float F C S : Type 0) → Type 0 → Type 0
Handler Float F C S A = Connection Float F C S → Step (Connection Float F C S) A

-- A channel is closed behind `ended`.
abbrev pub is_over : List Update → Bool
is_over [] = false
is_over (ended ∷ rest) = true
is_over (partial _ _ _ ∷ rest) = is_over rest
is_over (completed _ ∷ rest) = is_over rest
is_over (failed _ ∷ rest) = is_over rest

module _ {Float F C S : Type 0} where
  abbrev pub deliver : ℕ → Event → Handler Float F C S (Unit {0})
  deliver zero e c = closed c
  deliver (suc room) e c = done tt (record c { room = room; events = c.events ++ (e ∷ []) })

  unfoldable pub send : Event → Handler Float F C S (Unit {0})
  send e c = deliver c.room e c

  unfoldable pub send_error : ApiError → Handler Float F C S (Unit {0})
  send_error e = send (error_event e)

  abbrev pub set_item : Option (Item Float F C S) → Handler Float F C S (Unit {0})
  set_item i c = done tt (record c { item = i })

  abbrev pub next_of : List Update → Bool → Item Float F C S → Received Float F C S
  next_of (u ∷ _) over i = got (some u) (record i { received = i.received + 1 })
  next_of [] true i = got none i
  next_of [] false i = nothing

  unfoldable pub next_update : Engine F S → Item Float F C S → Received Float F C S
  next_update engine i =
      let all = answers engine i.updates in next_of (drop i.received all) (is_over all) i

  abbrev pub send_delta : Text → Option Text → Handler Float F C S (Unit {0})
  send_delta id none = pure tt
  send_delta id (some added) = send (delta id added)

  abbrev pub update_item : Update → Item Float F C S → Handler Float F C S (Unit {0})
  update_item (partial committed tentative revision) i =
      set_item (
        some (record i {
          committed = if starts_with committed i.committed then committed else i.committed;
        }))
      >> send_delta i.id (delta_since i.committed committed)
      >> send (partial_text i.id committed tentative revision)
  update_item (completed t) i =
      (λ c. done tt (record c { previous_item_id = some i.id })) >> send (transcript i.id t)
  update_item (failed e) i = send_error e
  update_item ended i = set_item none

  abbrev pub with_item :
      (Item Float F C S → Handler Float F C S (Unit {0}))
      → Option (Item Float F C S)
      → Handler Float F C S (Unit {0})
  with_item f none = pure tt
  with_item f (some i) = f i

  unfoldable pub on_update : Option Update → Handler Float F C S (Unit {0})
  on_update none c = set_item none c
  on_update (some u) c = with_item (update_item u) c.item c

  module _ (engine : Engine F S) where
    -- Receive for the item, note it, and go on.
    abbrev pub receive_for : Received Float F C S → Handler Float F C S (Unit {0})
    receive_for nothing c = waits c
    receive_for (got u i) c = on_update u (record c { item = some i })

    abbrev pub left : Option (Item Float F C S) → ℕ
    left none = 0
    left (some i) = suc (length (drop i.received (answers engine i.updates)))

    abbrev pub settle_with :
        Handler Float F C S (Unit {0}) → Option (Item Float F C S) → Handler Float F C S (Unit {0})
    settle_with again none c = done tt c
    settle_with again (some i) c =
        if i.committed_by_client then (receive_for (next_update engine i) >> again) c else done tt c

    -- The `while` of `settle`; each round takes one answer.
    unfoldable pub settle_loop : ℕ → Handler Float F C S (Unit {0})
    settle_loop zero c = waits c
    settle_loop (suc fuel) c = settle_with (settle_loop fuel) c.item c

    -- `recv()` until `Ended`, or until the channel is closed behind its last answer.
    abbrev pub await_ended : Bool → List Update → Handler Float F C S (Unit {0})
    await_ended over (ended ∷ rest) = pure tt
    await_ended over (partial _ _ _ ∷ rest) = await_ended over rest
    await_ended over (completed _ ∷ rest) = await_ended over rest
    await_ended over (failed _ ∷ rest) = await_ended over rest
    await_ended true [] = pure tt
    await_ended false [] = waits

    -- The commands are dropped; a turn that is still collected has no worker to wait for.
    abbrev pub abandon_with :
        Item Float F C S → Option (BufferedTurn Float F) → Handler Float F C S (Unit {0})
    abandon_with i (some t) = pure tt
    abandon_with i none =
        let all = answers_when true engine i.updates in
        await_ended (is_over all) (drop i.received all)

    abbrev pub abandon : Option (Item Float F C S) → Handler Float F C S (Unit {0})
    abandon none = pure tt
    abandon (some i) = abandon_with i i.buffered

    -- Take the item, and wait for its worker to end.
    unfoldable pub discard_item : Handler Float F C S (Unit {0})
    discard_item c = (set_item none >> abandon c.item) c

    -- Wait for a committed item to finish.
    unfoldable pub settle : Handler Float F C S (Unit {0})
    settle c = settle_loop (suc (left c.item)) c
