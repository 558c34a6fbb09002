-- ===== src/Queue/System/Handing.antt =====
-- What a dropped permit does to the receivers and the waiting lists.
use stt_server.Prelude.{
  ℕ, ◌+◌, ◌≤◌, ◌<◌, ◌≡◌, refl, Bool, true, false, List, [], ◌∷◌, Option, none, some, arith, All,
  All-map, ◌==◌, to_ℕ, sym, subst, ◌∙◌,
}
use stt_server.Queue.{Waiter, State, drop_permit}
use stt_server.Queue.Serving.{from_normal, from_interactive, drop_permit-policy}
use stt_server.Queue.System.{Receiver, Queue, alive, deliver, deliver_to, give}
use stt_server.Queue.System.Counting.{
  places, holding, Fresh, Falling, IsPlaced, Takes, first_live-Takes, All-alive, holding-deliver,
  Falling-deliver, alive-deliver,
}

-- What holds of the queue whoever has the slot; `n` bounds the ids given out.
pub record Shape (n : ℕ) (s : State) (rs : List Receiver) (ids : List ℕ) : Type 0 where
  pub placed : All (IsPlaced s) rs
  pub falling : Falling s.next_id rs
  pub fresh_interactive : Fresh s.next_id s.interactive
  pub fresh_normal : Fresh s.next_id s.normal
  pub gone : All (λ id. alive rs id ≡ false) ids
  pub gone_below : All (λ id. id < s.next_id) ids
  pub counted : s.next_id ≤ n

pub Shape-busy :
    (n : ℕ) (s : State) (rs : List Receiver) (ids : List ℕ) (b : Bool)
    → Shape n s rs ids
    → Shape n (record s { busy = b }) rs ids
Shape-busy n s rs ids b v = record {
  placed = v.placed;
  falling = v.falling;
  fresh_interactive = v.fresh_interactive;
  fresh_normal = v.fresh_normal;
  gone = v.gone;
  gone_below = v.gone_below;
  counted = v.counted;
}

-- The slot went to a live waiter, who left the lists; the rest stayed as it was.
record Taken (live : ℕ → Bool) (s s' : State) (w : Waiter) : Type 0 where
  live_taker : live w.id ≡ true
  same_busy : s'.busy ≡ s.busy
  same_next : s'.next_id ≡ s.next_id
  moved : (id : ℕ) → live id ≡ true → places id s ≡ to_ℕ (w.id == id) + places id s'
  fresh :
      (n : ℕ)
      → Fresh n s.interactive
      → Fresh n s.normal
      → Fresh n s'.interactive × Fresh n s'.normal

abbrev Outcome : (ℕ → Bool) → State → State × Option Waiter → Type 0
Outcome live s (s', none) =
    (s' ≡ record s { busy = false; interactive = []; normal = [] })
    × ((id : ℕ) → live id ≡ true → places id s ≡ 0)
Outcome live s (s', some w) = Taken live s s' w

from_normal-Outcome :
    (live : ℕ → Bool) (s : State) (o : Option (Waiter × List Waiter))
    → Takes live s.interactive none
    → Takes live s.normal o
    → Outcome live s (from_normal s o)
from_normal-Outcome live s none ti tn = (refl, λ id h. omega (arith, ti id h, tn id h))
from_normal-Outcome live s (some (w, rest)) ti tn = record {
  live_taker = tn.0;
  same_busy = refl;
  same_next = refl;
  moved = λ id h. omega (arith, ti id h, tn.1 id h);
  fresh = λ n fi fn. (tt, tn.2 n fn);
}

from_interactive-Outcome :
    (live : ℕ → Bool) (s : State) (o : Option (Waiter × List Waiter))
    → Takes live s.interactive o
    → Outcome live s (from_interactive (λ w. live w.id) s o)
from_interactive-Outcome live s none t =
    from_normal-Outcome live s _ t (first_live-Takes live s.normal)
from_interactive-Outcome live s (some (w, rest)) t = record {
  live_taker = t.0;
  same_busy = refl;
  same_next = refl;
  moved = λ id h. omega (arith, t.1 id h);
  fresh = λ n fi fn. (t.2 n fi, fn);
}

drop_permit-Outcome :
    (live : ℕ → Bool) (s : State) → Outcome live s (drop_permit (λ w. live w.id) s)
drop_permit-Outcome live s =
    subst (Outcome live s) (sym (drop_permit-policy (λ w. live w.id) s))
      (from_interactive-Outcome live s _ (first_live-Takes live s.interactive))

IsPlaced-deliver :
    (live : ℕ → Bool) (s s' : State) (w : Waiter)
    → Taken live s s' w
    → (rs : List Receiver) → All (λ r. live r.id ≡ true) rs
    → All (IsPlaced s) rs
    → All (IsPlaced s') (deliver w.id rs)
IsPlaced-deliver live s s' w t [] l p = tt
IsPlaced-deliver live s s' w t (r ∷ rs) l p =
    (ground (arith, t.moved r.id l.0), IsPlaced-deliver live s s' w t rs l.1 p.1)

-- The taker's receiver was empty.
empty_taker :
    (live : ℕ → Bool) (s s' : State) (w : Waiter)
    → Taken live s s' w
    → (rs : List Receiver) → All (λ r. live r.id ≡ true) rs
    → All (IsPlaced s) rs
    → All (λ r. (r.id == w.id) ≡ true → r.holds ≡ false) rs
empty_taker live s s' w t [] l p = tt
empty_taker live s s' w t (r ∷ rs) l p =
    (λ e. ground (arith, t.moved r.id l.0), empty_taker live s s' w t rs l.1 p.1)

-- With no one to take it, every receiver that is left holds a permit already.
placed-freed :
    (live : ℕ → Bool) (s : State)
    → ((id : ℕ) → live id ≡ true → places id s ≡ 0)
    → (rs : List Receiver) → All (λ r. live r.id ≡ true) rs
    → All (IsPlaced s) rs
    → All (λ r. r.holds ≡ true) rs
placed-freed live s z [] l p = tt
placed-freed live s z (r ∷ rs) l p = (ground (arith, z r.id l.0), placed-freed live s z rs l.1 p.1)

All-alive-deliver :
    (rs : List Receiver) (other : ℕ) (ids : List ℕ)
    → All (λ id. alive rs id ≡ false) ids
    → All (λ id. alive (deliver other rs) id ≡ false) ids
All-alive-deliver rs other ids =
    All-map (λ id. alive rs id ≡ false) (λ id. alive (deliver other rs) id ≡ false)
      (λ id h. alive-deliver id other rs ∙ h) ids

-- The permits in the queue: held by callers, or lying in channels.
abbrev pub permits : Queue → ℕ
permits q = q.running + holding q.receivers

abbrev pub Free : State → Type 0
Free s = (s.interactive ≡ []) × (s.normal ≡ [])

-- The invariant of the queue, with `k` permits on their way.
pub record Inv (n : ℕ) (q : Queue) : Type 0 where
  pub shape : Shape n q.state q.receivers q.leaving
  pub exclusive : permits q ≡ to_ℕ q.state.busy
  pub idle : q.state.busy ≡ false → Free q.state

give_by :
    (n : ℕ) (q : Queue)
    → Shape n q.state q.receivers q.leaving
    → permits q ≡ 0
    → q.state.busy ≡ true
    → (r : State × Option Waiter) → Outcome (alive q.receivers) q.state r
    → Inv n (record q { state = r.0; receivers = deliver_to r.1 q.receivers })
give_by n q v z b (s', none) (e, empty) = subst (λ x. Inv n (record q { state = x })) (sym e) freed
  where
    holders : All (λ r. r.holds ≡ true) q.receivers
    holders =
        placed-freed (alive q.receivers) q.state empty q.receivers (All-alive q.receivers) v.placed

    freed :
        Inv n (record q { state = record q.state { busy = false; interactive = []; normal = [] } })
    freed = record {
      shape = record {
        falling = v.falling;
        gone = v.gone;
        gone_below = v.gone_below;
        counted = v.counted;
        placed = All-map (λ r. r.holds ≡ true) (λ r. 0 + to_ℕ r.holds ≡ 1) (λ r h. rw h) _ holders;
        fresh_interactive = tt;
        fresh_normal = tt;
      };
      exclusive = z;
      idle = λ _. (refl, refl);
    }
give_by n q v z b (s', some w) t = record {
  shape = record {
    placed = IsPlaced-deliver live q.state s' w t q.receivers (All-alive q.receivers) v.placed;
    falling = rw t.same_next (Falling-deliver w.id q.state.next_id q.receivers v.falling);
    fresh_interactive = rw t.same_next (later.0);
    fresh_normal = rw t.same_next (later.1);
    gone = All-alive-deliver q.receivers w.id q.leaving v.gone;
    gone_below = rw t.same_next v.gone_below;
    counted = rw t.same_next v.counted;
  };
  exclusive = ground (
    arith,
    holding-deliver w.id q.state.next_id q.receivers v.falling
        (empty_taker live q.state s' w t q.receivers (All-alive q.receivers) v.placed),
    t.live_taker,
    t.same_busy,
  );
  idle = λ h. ground (arith, t.same_busy);
}
  where
    live : ℕ → Bool
    live = alive q.receivers

    later : Fresh q.state.next_id s'.interactive × Fresh q.state.next_id s'.normal
    later = t.fresh q.state.next_id v.fresh_interactive v.fresh_normal

-- Dropping the only permit keeps the invariant.
pub give-Inv :
    (n : ℕ) (q : Queue)
    → Shape n q.state q.receivers q.leaving
    → permits q ≡ 0
    → q.state.busy ≡ true
    → Inv n (give q)
unfolding give
give-Inv n q v z b = give_by n q v z b _ (drop_permit-Outcome (alive q.receivers) q.state)
