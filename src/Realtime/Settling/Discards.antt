-- ===== src/Realtime/Settling/Discards.antt =====
-- Discarding an item ends: its worker does, once its commands are dropped.
use stt_server.Prelude.{◌≡◌, refl, sym, subst, true, List, [], ◌∷◌, Option, none, some, drop}
use stt_server.Realtime.{Cmd, feed, finalize, Update, partial, completed, failed, ended}
use stt_server.Realtime.Worker.{Engine, stream_worker}
use stt_server.Realtime.Worker.Endings.{ends, stream_worker-Ordered}
use stt_server.Realtime.Items.{Item, Channel, stream, turn, held, BufferedTurn, answers_when}
use stt_server.Realtime.Connection.{
  Connection, is_over, await_ended, abandon_with, abandon, discard_item,
}
use stt_server.Realtime.Settling.{ChannelOk, is_over-Ordered, Ends, Ends-map, Same, Inv}

-- Commands that are dropped end the worker.
ends-dropped : {F : Type 0} → (commands : List (Cmd F)) → ends true commands ≡ true
ends-dropped [] = refl
ends-dropped (feed _ ∷ commands) = ends-dropped commands
ends-dropped (finalize ∷ commands) = refl

-- Without a turn to collect, the channel whose commands are dropped is closed in the end.
answers_when-over :
    {Float F S : Type 0}
    → (engine : Engine F S) (u : Channel F S) (b : Option (BufferedTurn Float F)) → ChannelOk u b
    → b ≡ none
    → is_over (answers_when true engine u) ≡ true
answers_when-over engine (stream begun commands) b h e =
    is_over-Ordered (stream_worker engine begun true commands)
      (stream_worker-Ordered engine begun true commands (ends-dropped commands))
answers_when-over engine (turn us) b h e = h
answers_when-over engine held none h e = absurd h
answers_when-over engine held (some t) h e = cc e

module _ {Float F C S : Type 0} (engine : Engine F S) where
  await_ended-Same :
      (us : List Update) (c : Connection Float F C S)
      → Ends (λ _ d. Same c d) (await_ended engine true us c)
  await_ended-Same [] c = (refl, refl)
  await_ended-Same (ended ∷ rest) c = (refl, refl)
  await_ended-Same (partial _ _ _ ∷ rest) c = await_ended-Same rest c
  await_ended-Same (completed _ ∷ rest) c = await_ended-Same rest c
  await_ended-Same (failed _ ∷ rest) c = await_ended-Same rest c

  abandon_with-Same :
      (i : Item Float F C S) (b : Option (BufferedTurn Float F)) (c : Connection Float F C S)
      → ChannelOk i.updates b
      → Ends (λ _ d. Same c d) (abandon_with engine i b c)
  abandon_with-Same i (some t) c h = (refl, refl)
  abandon_with-Same i none c h =
      let all = answers_when true engine i.updates in
      subst (λ over. Ends (λ _ d. Same c d) (await_ended engine over (drop i.received all) c))
        (sym (answers_when-over engine i.updates none h refl))
        (await_ended-Same (drop i.received all) c)

  abandon-Same :
      (o : Option (Item Float F C S)) (c : Connection Float F C S)
      → Inv engine o
      → Ends (λ _ d. Same c d) (abandon engine o c)
  abandon-Same none c h = (refl, refl)
  abandon-Same (some i) c h = abandon_with-Same i i.buffered c h.0

  -- A discarded item's worker ends, committed or not, and no item is left.
  pub discard_item-none :
      (c : Connection Float F C S)
      → Inv engine c.item
      → Ends (λ _ d. d.item ≡ none) (discard_item engine c)
  unfolding discard_item
  discard_item-none c h =
      let start : Connection Float F C S = record c { item = none } in
      Ends-map (λ _ d. Same start d) (λ _ d. d.item ≡ none) (abandon engine c.item start)
        (λ _ d s. s.0) (abandon-Same c.item start h)
