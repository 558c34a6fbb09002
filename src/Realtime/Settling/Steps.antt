-- ===== src/Realtime/Settling/Steps.antt =====
-- The handlers that wait for a committed item end, and keep it so that its worker ends.
use stt_server.Prelude.{
  ℕ, ◌≤◌, ◌≡◌, refl, sym, subst, Bool, true, false, List, Option, none, some, Text, String,
}
use stt_server.Errors.{Json, ApiError, ApiResult, ok, err}
use stt_server.Errors as Errors
use stt_server.Audio.Live.{PcmStream, finish}
use stt_server.Audio.Live.Pushes.{push_returns}
use stt_server.Capabilities.{EffectiveCaps}
use stt_server.RunPlan.{RunOptions}
use stt_server.Realtime.Session.{SessionConfig, get, and_then, as_str}
use stt_server.Realtime.Items.{
  find_target, bind_target, prepare, buffers, Item, App, answers, feed_item, finalize_item,
  start_item, start_by,
}
use stt_server.Realtime.Connection.{
  session_updated, buffer_committed, buffer_cleared, Connection, Handler, continue, Event, Step,
  ◌>>◌, pure, send, send_error, settle, discard_item,
}
use stt_server.Realtime.Handlers.{
  Parts, and_continue, decoded_into, push_to, started, append_to, append_bytes, on_append,
  commit_tail, commit_item, on_commit, on_clear, answer_update, run,
}
use stt_server.Realtime.Settling.Items.{Open, feed_item-Open, finalize_item-Finalized}
use stt_server.Realtime.Settling.{
  Ends, Ends-bind, Ends-map, OverIf, Inv, Settled, Same, send-Same, send_error-Same, settle-Settled,
}
use stt_server.Realtime.Settling.Discards.{discard_item-none}

abbrev pub Succeeds : {A : Type 0} → ApiResult A → Type 0
Succeeds (ok a) = Unit {0}
Succeeds (err e) = ⊥

module _ {Float F C S : Type 0} (parts : Parts Float F C S)
    (hungry : (c : C) → 1 ≤ parts.lib.input_frames_next c)
    (flushes : (s : PcmStream F C) → Succeeds (finish parts.lib s).1) where
  abbrev pub Good : Connection Float F C S → Type 0
  Good c = Inv parts.engine c.item

  -- The step ends, and the invariant holds when it is done.
  abbrev pub Fine : {A : Type 0} → Step (Connection Float F C S) A → Type 0
  Fine m = Ends (λ _ d. Good d) m

  pub Fine-Same :
      (c : Connection Float F C S) (m : Step (Connection Float F C S) (Unit {0}))
      → Good c
      → Ends (λ _ d. Same c d) m
      → Fine m
  Fine-Same c m g =
      Ends-map (λ _ d. Same c d) (λ _ d. Good d) m (λ _ d s. subst (Inv parts.engine) (sym s.0) g)

  pub Fine-and_continue :
      (m : Handler Float F C S (Unit {0})) (c : Connection Float F C S)
      → Fine (m c)
      → Fine (and_continue m c)
  Fine-and_continue m c h =
      Ends-bind (λ _ d. Good d) (λ _ d. Good d) (λ _. pure continue) (m c) h (λ _ d g. g)

  pub Fine-send_error :
      (e : ApiError) (c : Connection Float F C S) → Good c → Fine (and_continue (send_error e) c)
  Fine-send_error e c g =
      Fine-and_continue (send_error e) c (Fine-Same c (send_error e c) g (send_error-Same e c))

  Fine-send : (e : Event) (c : Connection Float F C S) → Good c → Fine (and_continue (send e) c)
  Fine-send e c g = Fine-and_continue (send e) c (Fine-Same c (send e c) g (send-Same e c))

  Open-Inv : (i : Item Float F C S) → Open i → Inv parts.engine (some i)
  Open-Inv i (h, b) = (h, subst (λ b. OverIf b (answers parts.engine i.updates)) (sym b) tt)

  Settled-Inv : (o : Option (Item Float F C S)) → Settled parts.engine o → Inv parts.engine o
  Settled-Inv none h = tt
  Settled-Inv (some i) h = Open-Inv i h

  decoded_into-Fine :
      (i : Item Float F C S) (r : PcmStream F C × ApiResult (List F)) (c : Connection Float F C S)
      → Open i
      → Fine (decoded_into parts i (some r) c)
  decoded_into-Fine i (decoder, ok pcm) c h =
      Open-Inv (feed_item pcm (record i { decoder = decoder }))
        (feed_item-Open pcm (record i { decoder = decoder }) h)
  decoded_into-Fine i (decoder, err e) c h =
      Fine-send_error e (record c { item = some (record i { decoder = decoder }) })
        (Open-Inv (record i { decoder = decoder }) h)

  push_to-Fine :
      (bytes : List ℕ) (i : Item Float F C S) (c : Connection Float F C S)
      → Open i
      → Fine (push_to parts bytes i c)
  push_to-Fine bytes i c h =
      let (r, e) = push_returns parts.lib hungry parts.sample bytes i.decoder in
      rw e (decoded_into-Fine i r c h)

  -- What starts is open.
  abbrev StartsOpen : ApiResult (Item Float F C S) → Type 0
  StartsOpen (ok i) = Open i
  StartsOpen (err e) = Unit {0}

  StartsOpen-bind :
      {A : Type 0}
      → (r : ApiResult A) (f : A → ApiResult (Item Float F C S)) → ((a : A) → StartsOpen (f a))
      → StartsOpen (Errors.◌>>=◌ r f)
  StartsOpen-bind (ok a) f h = h a
  StartsOpen-bind (err e) f h = tt

  start_by-StartsOpen :
      (app : App Float S) (config : SessionConfig) (buffered : Bool) (target : Text)
      (run : RunOptions Float) (decoder : PcmStream F C)
      → StartsOpen (
          start_by parts.in_unit parts.to_lowercase parts.lib app config buffered target run
            decoder)
  start_by-StartsOpen app config true target run decoder = (tt, refl)
  start_by-StartsOpen app config false target run decoder =
      StartsOpen-bind app.spawn _ (λ _. (tt, refl))

  start_item-StartsOpen :
      (app : App Float S) (config : SessionConfig)
      → StartsOpen (start_item parts.in_unit parts.to_lowercase parts.lib app config)
  unfolding start_item
  start_item-StartsOpen app config =
      let start = start_by parts.in_unit parts.to_lowercase parts.lib app config in
      let ready = prepare parts.in_unit parts.to_lowercase parts.lib app config in
      let next = λ (target : Text) (caps : EffectiveCaps). Errors.◌>>=◌ (ready caps) λ p.
        start (buffers parts.in_unit parts.to_lowercase parts.lib app config caps) target p.0 p.1 in
      StartsOpen-bind (find_target parts.in_unit parts.to_lowercase parts.lib app config)
        (λ target.
          Errors.◌>>=◌ (bind_target parts.in_unit parts.to_lowercase parts.lib app config target)
            (next target))
        (λ target.
          StartsOpen-bind (bind_target parts.in_unit parts.to_lowercase parts.lib app config target)
            (next target)
            (λ caps.
              StartsOpen-bind (ready caps)
                (λ p.
                  start (buffers parts.in_unit parts.to_lowercase parts.lib app config caps) target
                    p.0 p.1)
                (λ p.
                  start_by-StartsOpen app config
                    (buffers parts.in_unit parts.to_lowercase parts.lib app config caps) target p.0
                    p.1)))

  started-Fine :
      (bytes : List ℕ) (r : ApiResult (Item Float F C S)) (c : Connection Float F C S)
      → Good c
      → StartsOpen r
      → Fine (started parts bytes r c)
  started-Fine bytes (ok i) c g h = push_to-Fine bytes i (record c { item = some i }) h
  started-Fine bytes (err e) c g h =
      Ends-bind (λ _ d. Good d) (λ _ d. Good d) (λ _. pure _) (send_error e c)
        (Fine-Same c (send_error e c) g (send_error-Same e c)) (λ _ d g. g)

  append_to-Fine :
      (app : App Float S) (bytes : List ℕ) (o : Option (Item Float F C S))
      (c : Connection Float F C S)
      → c.item ≡ o
      → Settled parts.engine o
      → Fine (append_to parts app bytes o c)
  append_to-Fine app bytes none c e h =
      started-Fine bytes _ c (subst (Inv parts.engine) (sym e) tt)
        (start_item-StartsOpen app c.config)
  append_to-Fine app bytes (some i) c e h = push_to-Fine bytes i c h

  append_bytes-Fine :
      (app : App Float S) (o : Option (List ℕ)) (c : Connection Float F C S)
      → Good c
      → Fine (append_bytes parts app o c)
  append_bytes-Fine app none c g = Fine-send_error _ c g
  append_bytes-Fine app (some bytes) c g =
      Ends-bind (λ _ d. Settled parts.engine d.item) (λ _ d. Good d)
        (λ _ d. append_to parts app bytes d.item d) (settle parts.engine c)
        (settle-Settled parts.engine c g) (λ _ d h. append_to-Fine app bytes d.item d refl h)

  commit_tail-Fine :
      (i : Item Float F C S) (r : PcmStream F C × ApiResult (List F)) (c : Connection Float F C S)
      → Open i
      → Succeeds r.1
      → Good c
      → Fine (commit_tail parts i r c)
  commit_tail-Fine i (decoder, err e) c h s g = absurd s
  commit_tail-Fine i (decoder, ok pcm) c h s g =
      let now : Item Float F C S = feed_item pcm (record i { decoder = decoder }) in
      let final = finalize_item parts.translate now in
      let over =
        finalize_item-Finalized parts.engine parts.translate now
          (feed_item-Open pcm (record i { decoder = decoder }) h) in
      Fine-send (buffer_committed c.previous_item_id i.id)
        (record c { item = some (record final { committed_by_client = true }) }) over

  commit_item-Fine :
      (o : Option (Item Float F C S)) (c : Connection Float F C S)
      → c.item ≡ o
      → Settled parts.engine o
      → Fine (commit_item parts o c)
  commit_item-Fine none c e h = Fine-send_error _ c (subst (Inv parts.engine) (sym e) tt)
  commit_item-Fine (some i) c e h =
      commit_tail-Fine i (finish parts.lib i.decoder) c h (flushes i.decoder)
        (subst (Inv parts.engine) (sym e) (Open-Inv i h))

  pub on_commit-Fine : (c : Connection Float F C S) → Good c → Fine (on_commit parts c)
  unfolding on_commit
  on_commit-Fine c g =
      Ends-bind (λ _ d. Settled parts.engine d.item) (λ _ d. Good d)
        (λ _ d. commit_item parts d.item d) (settle parts.engine c)
        (settle-Settled parts.engine c g) (λ _ d h. commit_item-Fine d.item d refl h)

  pub discard_item-Fine : (c : Connection Float F C S) → Good c → Fine (discard_item parts.engine c)
  discard_item-Fine c g =
      Ends-map (λ _ d. d.item ≡ none) (λ _ d. Good d) (discard_item parts.engine c)
        (λ _ d e. subst (Inv parts.engine) (sym e) tt) (discard_item-none parts.engine c g)

  pub on_clear-Fine : (c : Connection Float F C S) → Good c → Fine (on_clear parts c)
  unfolding on_clear
  on_clear-Fine c g =
      Fine-and_continue (settle parts.engine >> discard_item parts.engine >> send buffer_cleared) c
        (Ends-bind (λ _ d. Good d) (λ _ d. Good d) (λ _. send buffer_cleared)
          ((settle parts.engine >> discard_item parts.engine) c)
          (Ends-bind (λ _ d. Settled parts.engine d.item) (λ _ d. Good d)
            (λ _. discard_item parts.engine) (settle parts.engine c)
            (settle-Settled parts.engine c g) (λ _ d h. discard_item-Fine d (Settled-Inv d.item h)))
          (λ _ d h. Fine-Same d (send buffer_cleared d) h (send-Same buffer_cleared d)))

  pub answer_update-Fine :
      (kind : String) (r : SessionConfig × ApiResult (Unit {0})) (c : Connection Float F C S)
      → Good c
      → Fine (answer_update kind r c)
  answer_update-Fine kind (config, ok _) c g =
      Fine-send (session_updated kind config) (record c { config = config }) g
  answer_update-Fine kind (config, err e) c g = Fine-send_error e (record c { config = config }) g

  pub on_append-Fine :
      (app : App Float S) (m : Json) (c : Connection Float F C S)
      → Good c
      → Fine (on_append parts app m c)
  unfolding on_append
  on_append-Fine app m c g =
      append_bytes-Fine app (and_then (and_then (get "audio" m) as_str) parts.decode) c g
