-- ===== src/Realtime/Settling/Items.antt =====
-- Audio leaves an item open, and the worker of a finalized item ends.
use stt_server.Prelude.{
  ◌≡◌, refl, subst, true, false, List, [], ◌∷◌, ◌++◌, Option, none, some, Text, inl, inr, ◌⊎◌,
}
use stt_server.Errors.{ApiResult}
use stt_server.Realtime.{Update, Cmd, feed, finalize}
use stt_server.Realtime.Worker.{Engine}
use stt_server.Realtime.Worker.Endings.{ends, stream_worker-Ordered}
use stt_server.Realtime.Items.{
  Item, Channel, stream, turn, held, BufferedTurn, answers, collect, feed_to, feed_item,
  finalize_to, finalize_item, run_turn,
}
use stt_server.Realtime.Connection.{is_over}
use stt_server.Realtime.Settling.{ChannelOk, is_over-Ordered, is_over-run_buffered_turn}

ends_finalize :
    {F : Type 0} → (commands : List (Cmd F)) → ends false (commands ++ (finalize ∷ [])) ≡ true
ends_finalize [] = refl
ends_finalize (feed _ ∷ cs) = ends_finalize cs
ends_finalize (finalize ∷ cs) = refl

collect-ChannelOk :
    {Float F S : Type 0}
    → (u : Channel F S) (pcm : List F) (b : Option (BufferedTurn Float F)) → ChannelOk u b
    → ChannelOk u (collect pcm b)
collect-ChannelOk u pcm none h = h
collect-ChannelOk (stream begun commands) pcm (some t) h = tt
collect-ChannelOk (turn us) pcm (some t) h = h
collect-ChannelOk held pcm (some t) h = tt

module _ {Float F C S : Type 0} where
  -- An item that the client has not committed.
  abbrev pub Open : Item Float F C S → Type 0
  Open i = ChannelOk i.updates i.buffered × (i.committed_by_client ≡ false)

  feed_to-Open :
      (u : Channel F S) (pcm : List F) (i : Item Float F C S)
      → i.updates ≡ u
      → Open i
      → Open (feed_to u pcm i)
  feed_to-Open u [] i e (h, b) = (h, b)
  feed_to-Open (stream begun commands) (x ∷ pcm) i e (h, b) = (tt, b)
  feed_to-Open (turn us) (x ∷ pcm) i e (h, b) =
      (collect-ChannelOk i.updates (x ∷ pcm) i.buffered h, b)
  feed_to-Open held (x ∷ pcm) i e (h, b) = (collect-ChannelOk i.updates (x ∷ pcm) i.buffered h, b)

  pub feed_item-Open : (pcm : List F) (i : Item Float F C S) → Open i → Open (feed_item pcm i)
  unfolding feed_item
  feed_item-Open pcm i h = feed_to-Open i.updates pcm i refl h

  module _ (engine : Engine F S) (translate : BufferedTurn Float F → ApiResult Text) where
    -- Its worker ends.
    abbrev pub Finalized : Item Float F C S → Type 0
    Finalized i = ChannelOk i.updates i.buffered × (is_over (answers engine i.updates) ≡ true)

    run_turn-Finalized :
        (b : Option (BufferedTurn Float F)) (i : Item Float F C S)
        → i.buffered ≡ b
        → (us : List Update) → ((i.updates ≡ turn us) ⊎ (i.updates ≡ held))
        → ChannelOk i.updates b
        → Finalized (run_turn translate b i)
    run_turn-Finalized none i e us (inl w) h =
        let o = subst (λ w. ChannelOk {Float = Float} w none) w h in rw w (o, o)
    run_turn-Finalized none i e us (inr w) h =
        absurd (subst (λ w. ChannelOk {Float = Float} w none) w h)
    run_turn-Finalized (some t) i e us w h =
        (is_over-run_buffered_turn (translate t), is_over-run_buffered_turn (translate t))

    finalize_to-Finalized :
        (u : Channel F S) (i : Item Float F C S)
        → i.updates ≡ u
        → Open i
        → Finalized (finalize_to translate u i)
    finalize_to-Finalized (stream begun commands) i e h =
        let all = commands ++ (finalize ∷ []) in
        (
          tt,
          is_over-Ordered _ (stream_worker-Ordered engine begun false all (ends_finalize commands)),
        )
    finalize_to-Finalized (turn us) i e h = run_turn-Finalized i.buffered i refl us (inl e) h.0
    finalize_to-Finalized held i e h = run_turn-Finalized i.buffered i refl [] (inr e) h.0

    pub finalize_item-Finalized :
        (i : Item Float F C S) → Open i → Finalized (finalize_item translate i)
    unfolding finalize_item
    finalize_item-Finalized i h = finalize_to-Finalized i.updates i refl h
