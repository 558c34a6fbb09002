-- ===== src/Realtime/Deltas.antt =====
-- The deltas that a client gets make up the committed text.
use stt_server.Prelude.{
  ℕ, zero, suc, ◌≡◌, refl, sym, ap, ◌∙◌, subst, List, [], ◌∷◌, ◌++◌, Option, none, some, Text,
  arith, Bool-cases, inl, inr, append_assoc, append-nil, if◌then◌else◌, ◌==◌,
}
use stt_server.Realtime.{
  Update, partial, completed, failed, ended, strip_prefix, filled, delta_since, starts_with,
}
use stt_server.Realtime.Items.{Item}
use stt_server.Realtime.Connection.{
  Connection, Handler, Event, session_created, session_updated, error, buffer_committed,
  buffer_cleared, delta, partial_text, transcript, error_event, done, ◌>>◌, deliver, send,
  send_error, send_delta, update_item, with_item, on_update,
}
use stt_server.Realtime.Settling.{Ends, Ends-bind, Ends-map}

-- The text of the deltas among these events.
abbrev pub deltas : List Event → Text
deltas [] = []
deltas (delta id t ∷ rest) = t ++ deltas rest
deltas (session_created _ ∷ rest) = deltas rest
deltas (session_updated _ _ ∷ rest) = deltas rest
deltas (error _ _ ∷ rest) = deltas rest
deltas (buffer_committed _ _ ∷ rest) = deltas rest
deltas (buffer_cleared ∷ rest) = deltas rest
deltas (partial_text _ _ _ _ ∷ rest) = deltas rest
deltas (transcript _ _ ∷ rest) = deltas rest

abbrev or_empty : Option Text → Text
or_empty none = []
or_empty (some t) = t

-- The text that `update_item` keeps.
abbrev kept : Text → Text → Text
kept previous committed = if starts_with committed previous then committed else previous

or_empty-filled : (o : Option Text) → or_empty (filled o) ≡ or_empty o
or_empty-filled none = refl
or_empty-filled (some []) = refl
or_empty-filled (some (c ∷ cs)) = refl

kept-strip_prefix :
    (previous committed : Text)
    → kept previous committed ≡ previous ++ or_empty (strip_prefix previous committed)
kept-strip_prefix [] t = refl
kept-strip_prefix (a ∷ p) [] = ap (λ q. a ∷ q) (sym (append-nil p))
kept-strip_prefix (a ∷ p) (b ∷ t) = elim (Bool-cases (a == b)) [
  | inl e ↦ ground (arith, e, kept-strip_prefix p t)
  | inr e ↦ rw e (ap (λ q. a ∷ q) (sym (append-nil p)))
]

deltas-append : (xs ys : List Event) → deltas (xs ++ ys) ≡ deltas xs ++ deltas ys
deltas-append [] ys = refl
deltas-append (delta id t ∷ xs) ys =
    ap (λ q. t ++ q) (deltas-append xs ys) ∙ sym (append_assoc t (deltas xs) (deltas ys))
deltas-append (session_created _ ∷ xs) ys = deltas-append xs ys
deltas-append (session_updated _ _ ∷ xs) ys = deltas-append xs ys
deltas-append (error _ _ ∷ xs) ys = deltas-append xs ys
deltas-append (buffer_committed _ _ ∷ xs) ys = deltas-append xs ys
deltas-append (buffer_cleared ∷ xs) ys = deltas-append xs ys
deltas-append (partial_text _ _ _ _ ∷ xs) ys = deltas-append xs ys
deltas-append (transcript _ _ ∷ xs) ys = deltas-append xs ys

kept-delta_since :
    (before committed : Text)
    → kept before committed ≡ before ++ or_empty (delta_since before committed)
unfolding delta_since
kept-delta_since before committed =
    kept-strip_prefix before committed
    ∙ ap (λ q. before ++ q) (sym (or_empty-filled (strip_prefix before committed)))

module _ {Float F C S : Type 0} where
  -- The messages sent since, whose deltas make up what was committed since.
  abbrev pub Grown : Text → List Event → Option (Item Float F C S) → List Event → Type 0
  Grown before events none later = Unit {0}
  Grown before events (some j) later =
      (new : List Event) × (later ≡ events ++ new) × (j.committed ≡ before ++ deltas new)

  abbrev Appends : Text → Connection Float F C S → Connection Float F C S → Type 0
  Appends t c d =
      (new : List Event) × (d.events ≡ c.events ++ new) × (deltas new ≡ t) × (d.item ≡ c.item)

  deliver-Appends :
      (room : ℕ) (e : Event) (c : Connection Float F C S)
      → Ends (λ _ d. Appends (deltas (e ∷ [])) c d) (deliver room e c)
  deliver-Appends zero e c = tt
  deliver-Appends (suc room) e c = (e ∷ [], refl, refl, refl)

  send-Appends :
      (e : Event) (c : Connection Float F C S)
      → Ends (λ _ d. Appends (deltas (e ∷ [])) c d) (send e c)
  unfolding send
  send-Appends e c = deliver-Appends c.room e c

  send_delta-Appends :
      (id : Text) (o : Option Text) (c : Connection Float F C S)
      → Ends (λ _ d. Appends (or_empty o) c d) (send_delta id o c)
  send_delta-Appends id none c = ([], sym (append-nil c.events), refl, refl)
  send_delta-Appends id (some t) c =
      Ends-map (λ _ d. Appends (t ++ []) c d) (λ _ d. Appends t c d) (send (delta id t) c)
        (λ _ d h. subst (λ q. Appends q c d) (append-nil t) h) (send-Appends (delta id t) c)

  Appends-trans :
      (t u : Text) (b c d : Connection Float F C S)
      → Appends t b c
      → Appends u c d
      → Appends (t ++ u) b d
  Appends-trans t u b c d (n, e, f, g) (m, p, q, r) = (
    n ++ m,
    p ∙ (ap (λ w. w ++ m) e ∙ append_assoc b.events n m),
    deltas-append n m ∙ (ap (λ w. w ++ deltas m) f ∙ ap (λ w. t ++ w) q),
    r ∙ g,
  )

  Appends-Grown :
      (i : Item Float F C S) (t before : Text) (c d : Connection Float F C S)
      → c.item ≡ some i
      → i.committed ≡ before ++ t
      → Appends t c d
      → Grown before c.events d.item d.events
  Appends-Grown i t before c d e k (n, p, q, r) =
      subst (λ o. Grown before c.events o d.events) (sym (r ∙ e))
        (n, p, k ∙ ap (λ w. before ++ w) (sym q))

  quiet-Grown :
      (e : Event) (i : Item Float F C S) (c : Connection Float F C S)
      → c.item ≡ some i
      → deltas (e ∷ []) ≡ []
      → Ends (λ _ d. Grown i.committed c.events d.item d.events) (send e c)
  quiet-Grown e i c w k =
      Ends-map (λ _ d. Appends (deltas (e ∷ [])) c d)
        (λ _ d. Grown i.committed c.events d.item d.events) (send e c)
        (λ _ d h.
          Appends-Grown i [] i.committed c d w (sym (append-nil i.committed))
            (subst (λ q. Appends q c d) k h))
        (send-Appends e c)

  update_item-Grown :
      (u : Update) (i : Item Float F C S) (c : Connection Float F C S)
      → c.item ≡ some i
      → Ends (λ _ d. Grown i.committed c.events d.item d.events) (update_item u i c)
  unfolding send_error error_event
  update_item-Grown (partial t v r) i c w =
      let next : Item Float F C S = record i { committed = kept i.committed t } in
      let start : Connection Float F C S = record c { item = some next } in
      let o = delta_since i.committed t in
      let added = or_empty o in
      let shown = partial_text i.id t v r in
      Ends-bind (λ _ d. Appends added start d) (λ _ d. Grown i.committed c.events d.item d.events)
        (λ _. send shown) (send_delta i.id o start) (send_delta-Appends i.id o start)
        (λ _ d h.
          Ends-map (λ _ f. Appends [] d f) (λ _ f. Grown i.committed c.events f.item f.events)
            (send shown d)
            (λ _ f k.
              Appends-Grown next (added ++ []) i.committed start f refl
                (kept-delta_since i.committed t
                  ∙ ap (λ q. i.committed ++ q) (sym (append-nil added)))
                (Appends-trans added [] start d f h k))
            (send-Appends shown d))
  update_item-Grown (completed t) i c w =
      quiet-Grown (transcript i.id t) i (record c { previous_item_id = some i.id }) w refl
  update_item-Grown (failed x) i c w = quiet-Grown (error_event x) i c w refl
  update_item-Grown ended i c w = tt

  -- The answers of an item's worker, one after the other.
  abbrev pub on_updates : List (Option Update) → Handler Float F C S (Unit {0})
  on_updates [] c = done tt c
  on_updates (u ∷ us) c = (on_update u >> on_updates us) c

  on_update-Grown :
      (u : Option Update) (i : Item Float F C S) (c : Connection Float F C S)
      → c.item ≡ some i
      → Ends (λ _ d. Grown i.committed c.events d.item d.events) (on_update u c)
  unfolding on_update
  on_update-Grown none i c w = tt
  on_update-Grown (some u) i c w =
      subst
        (λ o.
          Ends (λ _ d. Grown i.committed c.events d.item d.events) (with_item (update_item u) o c))
        (sym w) (update_item-Grown u i c w)

  Grown-trans :
      (before : Text) (events : List Event) (j : Item Float F C S) (l : List Event)
      (o : Option (Item Float F C S)) (m : List Event)
      → Grown before events (some j) l
      → Grown j.committed l o m
      → Grown before events o m
  Grown-trans before events j l none m g h = tt
  Grown-trans before events j l (some k) m (n, e, f) (n', e', f') = (
    n ++ n',
    e' ∙ (ap (λ q. q ++ n') e ∙ append_assoc events n n'),
    f'
        ∙ (ap (λ q. q ++ deltas n') f
            ∙ (append_assoc before (deltas n) (deltas n')
                ∙ ap (λ q. before ++ q) (sym (deltas-append n n')))),
  )

  on_update-none :
      (u : Option Update) (c : Connection Float F C S)
      → c.item ≡ none
      → Ends (λ _ d. d.item ≡ none) (on_update u c)
  unfolding on_update
  on_update-none none c w = refl
  on_update-none (some u) c w =
      subst (λ o. Ends (λ _ d. d.item ≡ none) (with_item (update_item u) o c)) (sym w) w

  on_updates_from :
      (us : List (Option Update)) (o : Option (Item Float F C S)) (before : Text)
      (events : List Event) (c : Connection Float F C S)
      → c.item ≡ o
      → Grown before events o c.events
      → Ends (λ _ d. Grown before events d.item d.events) (on_updates us c)
  on_updates_from [] o before events c w g = subst (λ o. Grown before events o c.events) (sym w) g
  on_updates_from (u ∷ us) none before events c w g =
      Ends-bind (λ _ d. d.item ≡ none) (λ _ d. Grown before events d.item d.events)
        (λ _. on_updates us) (on_update u c) (on_update-none u c w)
        (λ _ d n. on_updates_from us none before events d n tt)
  on_updates_from (u ∷ us) (some i) before events c w g =
      Ends-bind (λ _ d. Grown i.committed c.events d.item d.events)
        (λ _ d. Grown before events d.item d.events) (λ _. on_updates us) (on_update u c)
        (on_update-Grown u i c w)
        (λ _ d h.
          on_updates_from us d.item before events d refl
            (Grown-trans before events i c.events d.item d.events g h))

  -- Whatever answers a worker gives, as long as its item is there: the deltas sent to the client
  -- since then, one behind the other, are exactly what the item's committed text has grown by, and
  -- no message sent before is touched.
  pub on_updates-Grown :
      (us : List (Option Update)) (i : Item Float F C S) (c : Connection Float F C S)
      → c.item ≡ some i
      → Ends (λ _ d. Grown i.committed c.events d.item d.events) (on_updates us c)
  on_updates-Grown us i c w =
      on_updates_from us (some i) i.committed c.events c w
        ([], sym (append-nil c.events), sym (append-nil i.committed))
