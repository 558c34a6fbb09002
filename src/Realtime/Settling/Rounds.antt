-- ===== src/Realtime/Settling/Rounds.antt =====
-- The invariant of a connection over its rounds: the worker of a committed item ends.
use stt_server.Prelude.{
  ◌≤◌, ◌≡◌, refl, sym, subst, drop, Bool, true, false, List, [], ◌∷◌, Option, none, some, Text,
  if◌then◌else◌,
}
use stt_server.Errors.{Json}
use stt_server.Audio.Live.{PcmStream, finish}
use stt_server.Realtime.{Update}
use stt_server.Realtime.Session.{get, and_then, as_str}
use stt_server.Realtime.Items.{Item, App, answers}
use stt_server.Realtime.Connection.{
  session_created, next_of, Connection, Handler, Flow, continue, close, send, next_update, Received,
  got, nothing, on_update, is_over, discard_item, send_error, ◌>>◌, pure,
}
use stt_server.Realtime.Handlers.{
  Parts, is_kind, Message, message_text, message_binary, message_close, message_other, timeout,
  Input, received, answered, on_event, on_text, on_message, and_close, take_answer, answer_for,
  round, unless_closed, run_rounds, run,
}
use stt_server.Realtime.Settling.{
  Ends, Ends-bind, Ends-map, Inv, send-Same, send_error-Same, After, After-Inv, on_update-After,
}
use stt_server.Realtime.Settling.Steps.{
  Succeeds, Good, Fine, answer_update-Fine, on_append-Fine, on_commit-Fine, on_clear-Fine,
  discard_item-Fine, Fine-send_error, Fine-Same, Fine-and_continue,
}

module _ {Float F C S : Type 0} (parts : Parts Float F C S)
    (hungry : (c : C) → 1 ≤ parts.lib.input_frames_next c)
    (flushes : (s : PcmStream F C) → Succeeds (finish parts.lib s).1) where
  -- A handler that ends and keeps the invariant.
  abbrev Keeps : Handler Float F C S Flow → Type 0
  Keeps m =
      (c : Connection Float F C S) → Good parts hungry flushes c → Fine parts hungry flushes (m c)

  Keeps-if :
      (b : Bool) (m k : Handler Float F C S Flow) → Keeps m → Keeps k → Keeps (if b then m else k)
  Keeps-if true m k h l = h
  Keeps-if false m k h l = l

  on_event-Keeps :
      (app : App Float S) (m : Json) (kind : Option Text) → Keeps (on_event parts app m kind)
  on_event-Keeps app m kind =
      Keeps-if (is_kind kind "session.update") _ _
        (λ c. answer_update-Fine parts hungry flushes "session.updated" _ c)
        (Keeps-if (is_kind kind "transcription_session.update") _ _
          (λ c. answer_update-Fine parts hungry flushes "transcription_session.updated" _ c)
          (Keeps-if (is_kind kind "input_audio_buffer.append") _ _
            (on_append-Fine parts hungry flushes app m)
            (Keeps-if (is_kind kind "input_audio_buffer.commit") _ _
              (on_commit-Fine parts hungry flushes)
              (Keeps-if (is_kind kind "input_audio_buffer.clear") _ _
                (on_clear-Fine parts hungry flushes) (Fine-send_error parts hungry flushes _)))))

  on_text-Keeps : (app : App Float S) (t : Option Json) → Keeps (on_text parts app t)
  unfolding on_text
  on_text-Keeps app none = Fine-send_error parts hungry flushes _
  on_text-Keeps app (some m) = on_event-Keeps app m (and_then (get "type" m) as_str)

  on_message-Keeps : (app : App Float S) (m : Message) → Keeps (on_message parts app m)
  unfolding on_message
  on_message-Keeps app (message_text t) = on_text-Keeps app t
  on_message-Keeps app message_binary = Fine-send_error parts hungry flushes _
  on_message-Keeps app message_close = λ c g. g
  on_message-Keeps app message_other = λ c g. g
  on_message-Keeps app timeout = λ c g.
      Fine-and_continue parts hungry flushes (discard_item parts.engine >> send_error _) c (
        Ends-bind (λ _ d. Good parts hungry flushes d) (λ _ d. Good parts hungry flushes d)
          (λ _. send_error _) (discard_item parts.engine c)
          (discard_item-Fine parts hungry flushes c g)
          (λ _ d h. Fine-Same parts hungry flushes d (send_error _ d) h (send_error-Same _ d)))

  -- The item that an answer was received for is as it was.
  abbrev Holds : Received Float F C S → Type 0
  Holds nothing = Unit {0}
  Holds (got u i) = Inv parts.engine (some i)

  next_of-Holds :
      (us : List Update) (over : Bool) (i : Item Float F C S)
      → Inv parts.engine (some i)
      → Holds (next_of us over i)
  next_of-Holds (u ∷ us) over i h = h
  next_of-Holds [] true i h = h
  next_of-Holds [] false i h = tt

  next_update-Holds :
      (i : Item Float F C S) → Inv parts.engine (some i) → Holds (next_update parts.engine i)
  unfolding next_update
  next_update-Holds i h =
      next_of-Holds (drop i.received (answers parts.engine i.updates))
        (is_over (answers parts.engine i.updates)) i h

  take_answer-Fine :
      (r : Received Float F C S) (c : Connection Float F C S)
      → Good parts hungry flushes c
      → Holds r
      → Fine parts hungry flushes (take_answer r c)
  take_answer-Fine nothing c g h = g
  take_answer-Fine (got u i) c g h =
      Fine-and_continue parts hungry flushes (on_update u) (record c { item = some i })
        (Ends-map (λ _ d. After i d.item) (λ _ d. Good parts hungry flushes d)
          (on_update u (record c { item = some i })) (λ _ d a. After-Inv parts.engine i d.item h a)
          (on_update-After u i c))

  answer_for-Fine :
      (o : Option (Item Float F C S)) (c : Connection Float F C S)
      → c.item ≡ o
      → Good parts hungry flushes c
      → Fine parts hungry flushes (answer_for parts o c)
  answer_for-Fine none c e g = g
  answer_for-Fine (some i) c e g =
      take_answer-Fine (next_update parts.engine i) c g
        (next_update-Holds i (subst (Inv parts.engine) e g))

  and_close-Keeps : (f : Flow) → Keeps (and_close parts f)
  and_close-Keeps close = λ c g.
      Ends-bind (λ _ d. Good parts hungry flushes d) (λ _ d. Good parts hungry flushes d)
        (λ _. pure close) (discard_item parts.engine c) (discard_item-Fine parts hungry flushes c g)
        (λ _ d h. h)
  and_close-Keeps continue = λ c g. g

  round-Keeps : (input : Input Float S) → Keeps (round parts input)
  unfolding round
  round-Keeps (received app m) c g =
      Ends-bind (λ _ d. Good parts hungry flushes d) (λ _ d. Good parts hungry flushes d)
        (and_close parts) (on_message parts app m c) (on_message-Keeps app m c g)
        (λ f d h. and_close-Keeps f d h)
  round-Keeps answered c g = answer_for-Fine c.item c refl g

  unless_closed-Keeps :
      (rest : Handler Float F C S Flow) (f : Flow) → Keeps rest → Keeps (unless_closed rest f)
  unless_closed-Keeps rest close h = λ c g. g
  unless_closed-Keeps rest continue h = h

  run_rounds-Keeps : (inputs : List (Input Float S)) → Keeps (run_rounds parts inputs)
  unfolding run_rounds
  run_rounds-Keeps [] = λ c g. g
  run_rounds-Keeps (input ∷ rest) = λ c g.
      Ends-bind (λ _ d. Good parts hungry flushes d) (λ _ d. Good parts hungry flushes d)
        (unless_closed (run_rounds parts rest)) (round parts input c) (round-Keeps input c g)
        (λ f d h. unless_closed-Keeps (run_rounds parts rest) f (run_rounds-Keeps rest) d h)

  -- When the decoder's finish never fails and the resampler wants at least one frame for each
  -- chunk, a connection that starts without an item never waits for ever, whatever messages and
  -- answers come in what order: not for a committed item that it settles, nor for the worker of an
  -- item that it discards on a clear, an idle timeout or a close. And it leaves no committed item
  -- whose worker does not end.
  pub run-Ends :
      (inputs : List (Input Float S)) (c : Connection Float F C S)
      → c.item ≡ none
      → Ends (λ _ d. Inv parts.engine d.item) (run parts inputs c)
  unfolding run
  run-Ends inputs c e =
      Ends-bind (λ _ d. Good parts hungry flushes d) (λ _ d. Good parts hungry flushes d)
        (λ _. run_rounds parts inputs) (send (session_created c.config) c)
        (Fine-Same parts hungry flushes c (send (session_created c.config) c)
          (subst (Inv parts.engine) (sym e) tt) (send-Same (session_created c.config) c))
        (λ _ d g. run_rounds-Keeps inputs d g)
