-- ===== src/Queue/System/Capacity.antt =====
-- The bound on the waiting lists.
use stt_server.Prelude.{
  ℕ, zero, suc, ◌≤◌, ◌≡◌, refl, Bool, List, [], ◌∷◌, Option, none, some, arith, All, length,
  length-append, length-retain-le, find, ◌==◌, not,
}
use stt_server.Queue.{Priority, Waiter, State, waiting, remove, drop_permit, acquire}
use stt_server.Queue.Serving.{first_live, from_normal, from_interactive, drop_permit-policy}
use stt_server.Queue.System.{
  Receiver, Queue, init, alive, give, leave, Event, arrive, receive, abandon, unregister, release,
  receive_from, abandon_by, release_from, step, run,
}

-- Every request that arrives bounds the waiting lists by `m`.
abbrev pub Bounded : ℕ → Event → Type 0
Bounded m (arrive p bound) = bound ≡ some m
Bounded m _ = Unit {0}

first_live-length :
    (send : Waiter → Bool) (ws : List Waiter) (w : Waiter) (rest : List Waiter)
    → first_live send ws ≡ some (w, rest)
    → length rest ≤ length ws
first_live-length send [] w rest e = cc
first_live-length send (x ∷ ws) w rest e = ground (arith, first_live-length send ws w rest)

drop_permit-waiting :
    (send : Waiter → Bool) (s : State) → waiting (drop_permit send s).0 ≤ waiting s
drop_permit-waiting send s =
    rw drop_permit-policy (by_interactive (first_live send s.interactive) refl)
  where
    by_normal :
        (o : Option (Waiter × List Waiter))
        → first_live send s.normal ≡ o
        → waiting (from_normal s o).0 ≤ waiting s
    by_normal none e = omega arith
    by_normal (some (w, rest)) e = omega (arith, first_live-length send s.normal w rest e)

    by_interactive :
        (o : Option (Waiter × List Waiter))
        → first_live send s.interactive ≡ o
        → waiting (from_interactive send s o).0 ≤ waiting s
    by_interactive none e = by_normal (first_live send s.normal) refl
    by_interactive (some (w, rest)) e = omega (arith, first_live-length send s.interactive w rest e)

give-waiting : (q : Queue) → waiting (give q).state ≤ waiting q.state
unfolding give
give-waiting q = drop_permit-waiting (λ w. alive q.receivers w.id) q.state

arrive-waiting :
    (m : ℕ) (p : Priority) (q : Queue)
    → waiting q.state ≤ m
    → waiting (step (arrive p (some m)) q).state ≤ m
unfolding step acquire
arrive-waiting m Priority.normal q h =
    ground (arith, length-append q.state.normal (record { id = q.state.next_id } ∷ []))
arrive-waiting m Priority.interactive q h =
    ground (arith, length-append q.state.interactive (record { id = q.state.next_id } ∷ []))

receive_from-waiting :
    (q : Queue) (o : Option Receiver) → waiting (receive_from q o).state ≡ waiting q.state
receive_from-waiting q none = refl
receive_from-waiting q (some r) = ground arith

abandon_by-waiting :
    (q : Queue) (o : Option Receiver) → waiting (abandon_by q o).state ≤ waiting q.state
abandon_by-waiting q none = omega arith
abandon_by-waiting q (some r) = ground (arith, give-waiting (leave r.id q))

release_from-waiting : (q : Queue) (n : ℕ) → waiting (release_from q n).state ≤ waiting q.state
release_from-waiting q zero = omega arith
release_from-waiting q (suc n) = give-waiting (record q { running = n })

step-waiting :
    (m : ℕ) (e : Event) (q : Queue)
    → Bounded m e
    → waiting q.state ≤ m
    → waiting (step e q).state ≤ m
step-waiting m (arrive p b) q eq h = rw eq (arrive-waiting m p q h)
step-waiting m (receive id) q eq h =
    unfold step in omega (arith, receive_from-waiting q (find (λ r. r.id == id) q.receivers))
step-waiting m (abandon id) q eq h =
    unfold step in omega (arith, abandon_by-waiting q (find (λ r. r.id == id) q.receivers))
step-waiting m (unregister id) q eq h =
    unfold step remove in
    ground (
      arith,
      length-retain-le (λ w. not (w.id == id)) q.state.interactive,
      length-retain-le (λ w. not (w.id == id)) q.state.normal,
    )
step-waiting m release q eq h = unfold step in omega (arith, release_from-waiting q q.running)

run-waiting_from :
    (m : ℕ) (es : List Event) (q : Queue)
    → All (Bounded m) es
    → waiting q.state ≤ m
    → waiting (run es q).state ≤ m
unfolding run
run-waiting_from m [] q b h = h
run-waiting_from m (e ∷ es) q b h = run-waiting_from m es (step e q) b.1 (step-waiting m e q b.0 h)

-- When every request that arrives passes the bound `m`, no history makes more than `m` wait.
pub run-waiting : (m : ℕ) (es : List Event) → All (Bounded m) es → waiting (run es init).state ≤ m
run-waiting m es b = run-waiting_from m es init b (unfold init in omega arith)
