-- ===== src/Queue/System/Arriving.antt =====
-- The invariant when a request arrives.
use stt_server.Prelude.{
  ℕ, suc, ◌+◌, ◌%◌, ◌^◌, ◌≤◌, ◌<◌, ◌≡◌, refl, Bool, true, false, not, List, [], ◌∷◌, Option, arith,
  All, All-map, All-append, ◌==◌, to_ℕ, ◌∙◌, if◌then◌else◌,
}
use mathlib.Core.Bool.{true≢false}
use stt_server.Queue.{
  Priority, Waiter, State, QueueError, waiting, exceeds, entered, refused, queued, push, acquire,
}
use stt_server.Queue.System.{Receiver, Queue, alive, arrive, joined, step}
use stt_server.Queue.System.Counting.{
  places, Fresh, Falling, IsPlaced, count-append, count-Fresh, Fresh-mono, Falling-mono,
}
use stt_server.Queue.System.Handing.{Shape, Inv, Shape-busy}

places-push :
    (id : ℕ) (priority : Priority) (w : Waiter) (s : State)
    → places id (push priority w s) ≡ places id s + to_ℕ (w.id == id)
unfolding push
places-push id Priority.interactive w s = omega (arith, count-append id s.interactive (w ∷ []))
places-push id Priority.normal w s = omega (arith, count-append id s.normal (w ∷ []))

IsPlaced-push :
    (n : ℕ) (priority : Priority) (s s' : State) (rs : List Receiver)
    → Falling n rs
    → ((id : ℕ) → places id s' ≡ places id s + to_ℕ (n == id))
    → All (IsPlaced s) rs
    → All (IsPlaced s') rs
IsPlaced-push n priority s s' [] f h p = tt
IsPlaced-push n priority s s' (r ∷ rs) f h p = (
  ground (arith, h r.id),
  IsPlaced-push n priority s s' rs (Falling-mono r.id n rs (omega arith) f.1) h p.1,
)

Fresh-push :
    (m n : ℕ) (priority : Priority) (w : Waiter) (s : State)
    → m ≤ n
    → w.id < n
    → Fresh m s.interactive
    → Fresh m s.normal
    → Fresh n (push priority w s).interactive × Fresh n (push priority w s).normal
unfolding push
Fresh-push m n Priority.interactive w s h b fi fn = (
  All-append (λ x. x.id < n) s.interactive (w ∷ []) (Fresh-mono m n s.interactive h fi) (b, tt),
  Fresh-mono m n s.normal h fn,
)
Fresh-push m n Priority.normal w s h b fi fn = (
  Fresh-mono m n s.interactive h fi,
  All-append (λ x. x.id < n) s.normal (w ∷ []) (Fresh-mono m n s.normal h fn) (b, tt),
)

-- The state once the next id is given out.
abbrev stepped : State → State
stepped s = record s { next_id = (s.next_id + 1) % 2 ^ 64 }

wraps_not : (k : ℕ) → suc k < 2 ^ 64 → (k + 1) % 2 ^ 64 ≡ suc k
wraps_not k h = omega arith

push-next_id :
    (priority : Priority) (w : Waiter) (s : State) → (push priority w s).next_id ≡ s.next_id
unfolding push
push-next_id Priority.interactive w s = refl
push-next_id Priority.normal w s = refl

push-busy : (priority : Priority) (w : Waiter) (s : State) → (push priority w s).busy ≡ s.busy
unfolding push
push-busy Priority.interactive w s = refl
push-busy Priority.normal w s = refl

arrived-Shape :
    (n : ℕ) (priority : Priority) (s s' : State) (rs : List Receiver) (ids : List ℕ)
    → s'.next_id ≡ suc s.next_id
    → suc n < 2 ^ 64
    → Shape n s rs ids
    → ((id : ℕ) → places id s' ≡ places id s + to_ℕ (s.next_id == id))
    → Fresh (suc s.next_id) s'.interactive × Fresh (suc s.next_id) s'.normal
    → Shape (suc n) s' (record { id = s.next_id; holds = false } ∷ rs) ids
arrived-Shape n priority s s' rs ids e small v pl fr = record {
  placed = (
    ground (
      arith,
      pl s.next_id,
      count-Fresh s.next_id s.interactive v.fresh_interactive,
      count-Fresh s.next_id s.normal v.fresh_normal,
    ),
    IsPlaced-push s.next_id priority s s' rs v.falling pl v.placed,
  );
  falling = (omega arith, v.falling);
  fresh_interactive = rw e fr.0;
  fresh_normal = rw e fr.1;
  gone = apart ids v.gone v.gone_below;
  gone_below =
      rw e (
        All-map (λ i. i < s.next_id) (λ i. i < suc s.next_id) (λ i h. omega arith) ids
          v.gone_below);
  counted = omega (arith, v.counted);
}
  where
    apart :
        (is : List ℕ)
        → All (λ i. alive rs i ≡ false) is
        → All (λ i. i < s.next_id) is
        → All (λ i. alive (record { id = s.next_id; holds = false } ∷ rs) i ≡ false) is
    apart [] g b = tt
    apart (i ∷ is) g b = (ground arith, apart is g.1 b.1)

Shape-suc :
    (n : ℕ) (s : State) (rs : List Receiver) (ids : List ℕ)
    → Shape n s rs ids
    → Shape (suc n) s rs ids
Shape-suc n s rs ids v = record {
  placed = v.placed;
  falling = v.falling;
  fresh_interactive = v.fresh_interactive;
  fresh_normal = v.fresh_normal;
  gone = v.gone;
  gone_below = v.gone_below;
  counted = omega (arith, v.counted);
}

pushed-Shape :
    (n : ℕ) (priority : Priority) (s : State) (rs : List Receiver) (ids : List ℕ)
    → suc n < 2 ^ 64
    → Shape n s rs ids
    → Shape
        (suc n)
        (push priority (record { id = s.next_id }) (stepped s))
        (record { id = s.next_id; holds = false } ∷ rs)
        ids
pushed-Shape n priority s rs ids small v =
    arrived-Shape n priority s _ rs ids
      (push-next_id priority (record { id = s.next_id }) (stepped s)
        ∙ wraps_not s.next_id (omega (arith, v.counted)))
      small v (λ id. places-push id priority (record { id = s.next_id }) (stepped s))
      (Fresh-push s.next_id (suc s.next_id) priority (record { id = s.next_id }) (stepped s)
        (omega arith) (omega arith) v.fresh_interactive v.fresh_normal)

-- The three answers of the locked block, by its two tests.
arrived-Inv :
    (n : ℕ) (priority : Priority) (q : Queue) (busy full_up : Bool)
    → suc n < 2 ^ 64
    → Inv n q
    → q.state.busy ≡ busy
    → Inv (suc n) (
        joined q (
          if not busy
          then (record q.state { busy = true }, entered)
          else if full_up
          then (q.state, refused QueueError.full)
          else (
            push priority (record { id = q.state.next_id }) (stepped q.state),
            queued q.state.next_id,
          )))
arrived-Inv n priority q false full_up small v e = record {
  shape =
      Shape-suc n _ q.receivers q.leaving (Shape-busy n q.state q.receivers q.leaving true v.shape);
  exclusive = ground (arith, v.exclusive);
  idle = λ b. absurd (true≢false b);
}
arrived-Inv n priority q true true small v e = record {
  shape = Shape-suc n q.state q.receivers q.leaving v.shape;
  exclusive = v.exclusive;
  idle = v.idle;
}
arrived-Inv n priority q true false small v e = record {
  shape = pushed-Shape n priority q.state q.receivers q.leaving small v.shape;
  exclusive =
      ground (
        arith,
        v.exclusive,
        push-busy priority (record { id = q.state.next_id }) (stepped q.state),
      );
  idle =
      λ b. ground (arith, push-busy priority (record { id = q.state.next_id }) (stepped q.state));
}

pub arrive-Inv :
    (n : ℕ) (priority : Priority) (bound : Option ℕ) (q : Queue)
    → suc n < 2 ^ 64
    → Inv n q
    → Inv (suc n) (step (arrive priority bound) q)
unfolding step acquire
arrive-Inv n priority bound q small v =
    arrived-Inv n priority q q.state.busy (exceeds bound (waiting q.state)) small v refl

pub Inv-suc : (n : ℕ) (q : Queue) → Inv n q → Inv (suc n) q
Inv-suc n q v = record {
  shape = Shape-suc n q.state q.receivers q.leaving v.shape;
  exclusive = v.exclusive;
  idle = v.idle;
}
