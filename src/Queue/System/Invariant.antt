-- ===== src/Queue/System/Invariant.antt =====
-- The invariant of the queue through every history.
use stt_server.Prelude.{
  ℕ, suc, ◌+◌, ◌^◌, ◌≤◌, ◌<◌, ◌≡◌, refl, List, [], ◌∷◌, arith, All, length, to_ℕ, subst,
}
use stt_server.Queue.{State}
use stt_server.Queue.System.{
  Receiver, Queue, init, Event, arrive, receive, abandon, unregister, release, step, run,
}
use stt_server.Queue.System.Counting.{places, holding, IsPlaced}
use stt_server.Queue.System.Handing.{Inv, permits}
use stt_server.Queue.System.Leaving.{unregister-Inv, receive-Inv, abandon-Inv, release-Inv}
use stt_server.Queue.System.Arriving.{arrive-Inv, Inv-suc}

init-Inv : Inv 0 init
unfolding init
init-Inv = record {
  shape = record {
    placed = tt;
    falling = tt;
    fresh_interactive = tt;
    fresh_normal = tt;
    gone = tt;
    gone_below = tt;
    counted = omega arith;
  };
  exclusive = refl;
  idle = λ _. (refl, refl);
}

-- `arrive` gives out at most one id, and no other event does.
step-Inv : (n : ℕ) (e : Event) (q : Queue) → suc n < 2 ^ 64 → Inv n q → Inv (suc n) (step e q)
step-Inv n (arrive p b) q h v = arrive-Inv n p b q h v
step-Inv n (receive id) q h v = Inv-suc n _ (receive-Inv n id q v)
step-Inv n (abandon id) q h v = Inv-suc n _ (abandon-Inv n id q v)
step-Inv n (unregister id) q h v = Inv-suc n _ (unregister-Inv n id q v)
step-Inv n release q h v = Inv-suc n _ (unfold step in release-Inv n q.running q v refl)

run-Inv :
    (es : List Event) (n m : ℕ) (q : Queue)
    → length es + n ≡ m
    → m < 2 ^ 64
    → Inv n q
    → Inv m (run es q)
unfolding run
run-Inv [] n m q e h v = subst (λ k. Inv k q) (omega arith) v
run-Inv (x ∷ es) n m q e h v =
    run-Inv es (suc n) m (step x q) (omega arith) h (step-Inv n x q (omega arith) v)

pub run-init-Inv : (es : List Event) → length es < 2 ^ 64 → Inv (length es) (run es init)
run-init-Inv es h = run-Inv es 0 (length es) init (omega arith) h init-Inv

-- After any history of fewer than 2^64 events at most one permit is about, in a caller's hands or
-- in a channel, and the busy flag says whether there is one.
pub run-exclusive :
    (es : List Event)
    → length es < 2 ^ 64
    → let q = run es init in (permits q ≡ to_ℕ q.state.busy) × (permits q ≤ 1)
run-exclusive es h = let v = run-init-Inv es h in (v.exclusive, ground (arith, v.exclusive))

no_receivers :
    (s : State) (rs : List Receiver)
    → s.interactive ≡ []
    → s.normal ≡ []
    → holding rs ≡ 0
    → All (IsPlaced s) rs
    → rs ≡ []
no_receivers s [] i n h p = refl
no_receivers s (r ∷ rs) i n h p = absurd (ground (arith, i, n, p.0))

-- No wakeup is lost: after any history of fewer than 2^64 events every live receiver stands in
-- one place of the waiting lists, or holds a permit and stands in none; and while no permit is
-- about, nobody waits.
pub run_wakes :
    (es : List Event)
    → length es < 2 ^ 64
    → let q = run es init in
      All (λ r. places r.id q.state + to_ℕ r.holds ≡ 1) q.receivers
      × (permits q ≡ 0 → q.receivers ≡ [])
run_wakes es h =
    let v = run-init-Inv es h in
    let q = run es init in
    (
      v.shape.placed,
      λ z.
          no_receivers q.state q.receivers (v.idle (ground (arith, v.exclusive))).0
            (v.idle (ground (arith, v.exclusive))).1 (omega arith) v.shape.placed,
    )
