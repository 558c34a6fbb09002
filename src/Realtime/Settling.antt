-- ===== src/Realtime/Settling.antt =====
-- Waiting for a committed item to finish ends, and no client event waits for ever.
pub mod Items
pub mod Discards
pub mod Steps
pub mod Rounds
use stt_server.Prelude.{
  ℕ, zero, suc, ◌+◌, ◌-◌, ◌≤◌, ◌<◌, ◌≡◌, refl, sym, ap, subst, Bool, true, false, List, [], ◌∷◌,
  ◌++◌, Option, none, some, Text, arith, Bool-cases, inl, inr, any, ◌||◌, length, drop, length-drop,
  if◌then◌else◌,
}
use stt_server.Errors.{ApiError, ApiResult, ok, err}
use stt_server.Realtime.{
  Cmd, feed, finalize, Update, partial, completed, failed, ended, delta_since, starts_with,
}
use stt_server.Realtime.Worker.{
  Engine, Action, drop_batch_permit, drop_stream_slot, send, sent, stream_worker, turn_delta,
  run_buffered_turn,
}
use stt_server.Realtime.Worker.Endings.{
  Reports, Closing, Ordered, ends, is_finalize, stream_worker-Ordered,
}
use stt_server.Realtime.Items.{
  Item, Channel, stream, turn, held, BufferedTurn, answers_when, answers,
}
use stt_server.Realtime.Connection.{
  Connection, Handler, Step, done, closed, waits, ◌>>=◌, ◌>>◌, pure, and_step, Event, partial_text,
  transcript, send_error, is_over, deliver, set_item, next_of, next_update, Received, got, nothing,
  send_delta, update_item, with_item, on_update, receive_for, left, settle_with, settle_loop,
  settle, await_ended, abandon_with, abandon, discard_item,
}
use stt_server.Realtime.Connection as Connection

is_over-Closing : (xs : List Action) → Closing xs → is_over (sent xs) ≡ true
is_over-Closing (send ended ∷ []) h = refl
is_over-Closing (send (completed _) ∷ send ended ∷ []) h = refl
is_over-Closing (send (failed _) ∷ send ended ∷ []) h = refl
is_over-Closing xs h = absurd h

is_over-Reports :
    (xs ys : List Action) → Reports xs → is_over (sent ys) ≡ true → is_over (sent (xs ++ ys)) ≡ true
is_over-Reports [] ys h o = o
is_over-Reports (send (partial _ _ _) ∷ xs) ys h o = is_over-Reports xs ys h o
is_over-Reports (send (completed _) ∷ xs) ys h o = absurd h
is_over-Reports (send (failed _) ∷ xs) ys h o = absurd h
is_over-Reports (send ended ∷ xs) ys h o = absurd h
is_over-Reports (drop_batch_permit ∷ xs) ys h o = absurd h
is_over-Reports (drop_stream_slot ∷ xs) ys h o = absurd h

pub is_over-Ordered : (xs : List Action) → Ordered xs → is_over (sent xs) ≡ true
is_over-Ordered xs (reports, closing, r, c, e) =
    rw e (is_over-Reports reports (drop_stream_slot ∷ closing) r (is_over-Closing closing c))

is_over-turn_delta :
    (t : Text) (ys : List Action)
    → is_over (sent ys) ≡ true
    → is_over (sent (turn_delta t ++ ys)) ≡ true
is_over-turn_delta [] ys h = h
is_over-turn_delta (c ∷ cs) ys h = h

pub is_over-run_buffered_turn : (r : ApiResult Text) → is_over (sent (run_buffered_turn r)) ≡ true
unfolding run_buffered_turn
is_over-run_buffered_turn (ok t) = is_over-turn_delta t (send (completed t) ∷ send ended ∷ []) refl
is_over-run_buffered_turn (err e) = refl

-- A turn that is held is there to be run, and one that was run is over.
abbrev pub ChannelOk : {Float F S : Type 0} → Channel F S → Option (BufferedTurn Float F) → Type 0
ChannelOk (stream begun commands) b = Unit {0}
ChannelOk (turn us) b = is_over us ≡ true
ChannelOk held none = ⊥
ChannelOk held (some t) = Unit {0}

abbrev pub OverIf : Bool → List Update → Type 0
OverIf true us = is_over us ≡ true
OverIf false us = Unit {0}

-- A step that does not wait for ever, and what holds when it is done.
abbrev pub Ends : {T A : Type 0} → (A → T → Type 0) → Step T A → Type 0
Ends Q (done a s) = Q a s
Ends Q (closed s) = Unit {0}
Ends Q (waits s) = ⊥

pub Ends-bind :
    {T A B : Type 0}
    → (P : A → T → Type 0) (Q : B → T → Type 0) (f : A → T → Step T B) (m : Step T A) → Ends P m
    → ((a : A) (s : T) → P a s → Ends Q (f a s))
    → Ends Q (and_step f m)
Ends-bind P Q f (done a s) h k = k a s h
Ends-bind P Q f (closed s) h k = tt
Ends-bind P Q f (waits s) h k = h

pub Ends-map :
    {T A : Type 0}
    → (P Q : A → T → Type 0) (m : Step T A) → ((a : A) (s : T) → P a s → Q a s)
    → Ends P m
    → Ends Q m
Ends-map P Q (done a s) k h = k a s h
Ends-map P Q (closed s) k h = tt
Ends-map P Q (waits s) k h = h

module _ {Float F C S : Type 0} where
  -- What an answer leaves of an item.
  abbrev pub After : Item Float F C S → Option (Item Float F C S) → Type 0
  After i none = Unit {0}
  After i (some j) =
      (j.updates ≡ i.updates)
      × (j.received ≡ i.received)
      × (j.committed_by_client ≡ i.committed_by_client)
      × (j.buffered ≡ i.buffered)

  -- Sending changes nothing but the messages sent.
  abbrev pub Same : Connection Float F C S → Connection Float F C S → Type 0
  Same c d = (d.item ≡ c.item) × (d.config ≡ c.config)

  deliver-Same :
      (room : ℕ) (e : Event) (c : Connection Float F C S)
      → Ends (λ _ d. Same c d) (deliver room e c)
  deliver-Same zero e c = tt
  deliver-Same (suc room) e c = (refl, refl)

  pub send-Same :
      (e : Event) (c : Connection Float F C S) → Ends (λ _ d. Same c d) (Connection.send e c)
  unfolding Connection.send
  send-Same e c = deliver-Same c.room e c

  pub send_error-Same :
      (e : ApiError) (c : Connection Float F C S) → Ends (λ _ d. Same c d) (send_error e c)
  unfolding send_error
  send_error-Same e c = send-Same _ c

  send_delta-Same :
      (id : Text) (d : Option Text) (c : Connection Float F C S)
      → Ends (λ _ d. Same c d) (send_delta id d c)
  send_delta-Same id none c = (refl, refl)
  send_delta-Same id (some t) c = send-Same _ c

  Same-After :
      (i : Item Float F C S) (c d : Connection Float F C S)
      → After i c.item
      → Same c d
      → After i d.item
  Same-After i c d h (e, _) = subst (After i) (sym e) h

  update_item-After :
      (u : Update) (i : Item Float F C S) (c : Connection Float F C S)
      → c.item ≡ some i
      → Ends (λ _ d. After i d.item) (update_item u i c)
  update_item-After (partial t v r) i c e =
      let next : Item Float F C S = record i {
        committed = if starts_with t i.committed then t else i.committed;
      } in
      let start : Connection Float F C S = record c { item = some next } in
      Ends-bind (λ _ d. After i d.item) (λ _ d. After i d.item)
        (λ _. Connection.send (partial_text i.id t v r))
        (send_delta i.id (delta_since i.committed t) start)
        (Ends-map (λ _ d. Same start d) (λ _ d. After i d.item)
          (send_delta i.id (delta_since i.committed t) start)
          (λ _ d. Same-After i start d (refl, refl, refl, refl))
          (send_delta-Same i.id (delta_since i.committed t) start))
        (λ _ d h.
          Ends-map (λ _ d'. Same d d') (λ _ d'. After i d'.item)
            (Connection.send (partial_text i.id t v r) d) (λ _ d'. Same-After i d d' h)
            (send-Same (partial_text i.id t v r) d))
  update_item-After (completed t) i c e =
      let start : Connection Float F C S = record c { previous_item_id = some i.id } in
      Ends-map (λ _ d. Same start d) (λ _ d. After i d.item)
        (Connection.send (transcript i.id t) start)
        (λ _ d. Same-After i start d (subst (After i) (sym e) (refl, refl, refl, refl)))
        (send-Same (transcript i.id t) start)
  update_item-After (failed x) i c e =
      Ends-map (λ _ d. Same c d) (λ _ d. After i d.item) (send_error x c)
        (λ _ d. Same-After i c d (subst (After i) (sym e) (refl, refl, refl, refl)))
        (send_error-Same x c)
  update_item-After ended i c e = tt

  pub on_update-After :
      (u : Option Update) (i : Item Float F C S) (c : Connection Float F C S)
      → Ends (λ _ d. After i d.item) (on_update u (record c { item = some i }))
  unfolding on_update
  on_update-After none i c = tt
  on_update-After (some u) i c = update_item-After u i (record c { item = some i }) refl

  module _ (engine : Engine F S) where
    -- The worker of a committed item ends.
    abbrev pub Inv : Option (Item Float F C S) → Type 0
    Inv none = Unit {0}
    Inv (some i) =
        ChannelOk i.updates i.buffered × OverIf i.committed_by_client (answers engine i.updates)

    -- No committed item is left.
    abbrev pub Settled : Option (Item Float F C S) → Type 0
    Settled none = Unit {0}
    Settled (some i) = ChannelOk i.updates i.buffered × (i.committed_by_client ≡ false)

    pub After-Inv :
        (i : Item Float F C S) (o : Option (Item Float F C S)) → Inv (some i) → After i o → Inv o
    After-Inv i none h a = tt
    After-Inv i (some j) (ok_i, over) (u, r, b, t) = rw (u, b, t) (ok_i, over)

    After-left :
        (i : Item Float F C S) (o : Option (Item Float F C S))
        → After i o
        → left engine o ≤ left engine (some i)
    After-left i none a = omega arith
    After-left i (some j) (u, r, b, t) = rw (u, r) (omega arith)

    -- One answer fewer is left.
    abbrev Fewer : Item Float F C S → Connection Float F C S → Type 0
    Fewer i d = Inv d.item × (left engine d.item < left engine (some i))

    received-Fewer :
        (rest : List Update) (i : Item Float F C S) (c : Connection Float F C S)
        → Inv (some i)
        → drop i.received (answers engine i.updates) ≡ rest
        → Ends (λ _ d. Fewer i d) (receive_for engine (next_of rest true i) c)
    unfolding on_update
    received-Fewer [] i c h e = (tt, omega arith)
    received-Fewer (u ∷ rest) i c h e =
        let next : Item Float F C S = record i { received = i.received + 1 } in
        let all = answers engine i.updates in
        Ends-map (λ _ d. After next d.item) (λ _ d. Fewer i d)
          (on_update (some u) (record c { item = some next }))
          (λ _ d a. (
            After-Inv next d.item h a,
            omega (
              arith,
              After-left next d.item a,
              length-drop {0} i.received all,
              length-drop {0} (i.received + 1) all,
              ap length e,
            ),
          ))
          (on_update-After (some u) next c)

    next_update-over :
        (i : Item Float F C S)
        → is_over (answers engine i.updates) ≡ true
        → next_update engine i ≡ next_of (drop i.received (answers engine i.updates)) true i
    unfolding next_update
    next_update-over i e = ap (λ b. next_of (drop i.received (answers engine i.updates)) b i) e

    settle_with-Settled :
        (again : Handler Float F C S (Unit {0})) (o : Option (Item Float F C S))
        (c : Connection Float F C S)
        → Inv o
        → c.item ≡ o
        → ((i : Item Float F C S) (d : Connection Float F C S)
            → o ≡ some i
            → Fewer i d
            → Ends (λ _ r. Settled r.item) (again d))
        → Ends (λ _ r. Settled r.item) (settle_with engine again o c)
    settle_with-Settled again none c h e k = rw e tt
    settle_with-Settled again (some i) c (ok_i, over) e k =
        let all = answers engine i.updates in
        let pick = λ (b : Bool).
          if b then (receive_for engine (next_update engine i) >> again) c else done tt c in
        elim (Bool-cases i.committed_by_client) [
          | inl b ↦
              let over_now = subst (λ b. OverIf b all) b over in
              let step =
                subst (λ n. Ends (λ _ d. Fewer i d) (receive_for engine n c))
                  (sym (next_update-over i over_now))
                  (received-Fewer (drop i.received all) i c (ok_i, over) refl) in
              subst (λ b. Ends (λ _ r. Settled r.item) (pick b)) (sym b)
                (Ends-bind (λ _ d. Fewer i d) (λ _ r. Settled r.item) (λ _. again)
                  (receive_for engine (next_update engine i) c) step (λ _ d f. k i d refl f))
          | inr b ↦
              subst (λ b. Ends (λ _ r. Settled r.item) (pick b)) (sym b)
                (subst Settled (sym e) (ok_i, b))
        ]

    settle_loop-Settled :
        (fuel : ℕ) (c : Connection Float F C S)
        → Inv c.item
        → left engine c.item < fuel
        → Ends (λ _ r. Settled r.item) (settle_loop engine fuel c)
    unfolding settle_loop
    settle_loop-Settled zero c h l = absurd (omega arith)
    settle_loop-Settled (suc fuel) c h l =
        settle_with-Settled (settle_loop engine fuel) c.item c h refl
          (λ i d e f. settle_loop-Settled fuel d f.0 (omega (arith, f.1, ap (left engine) e)))

    -- Waiting for an item ends, and leaves none that is committed, when the worker of a committed
    -- item ends.
    pub settle-Settled :
        (c : Connection Float F C S) → Inv c.item → Ends (λ _ r. Settled r.item) (settle engine c)
    unfolding settle
    settle-Settled c h = settle_loop-Settled (suc (left engine c.item)) c h (omega arith)
