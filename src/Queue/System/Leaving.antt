-- ===== src/Queue/System/Leaving.antt =====
-- The invariant when waits end: a grant is received, a wait is abandoned, an entry is dropped, a
-- running caller is done.
use stt_server.Prelude.{
  ℕ, zero, suc, ◌+◌, ◌<◌, ◌≡◌, true, false, List, [], ◌∷◌, some, arith, All, All-map, All-retain,
  any, find, retain, ◌==◌, to_ℕ, ap, inl, inr, Bool-cases, Option-cases,
}
use stt_server.Queue.{State, remove}
use stt_server.Queue.System.{
  Receiver, Queue, alive, without, leave, receive, abandon, unregister, receive_from, abandon_by,
  release_from, step,
}
use stt_server.Queue.System.Counting.{
  holding, Falling, IsPlaced, count-retain, Falling-without, alive-without, alive-without_self,
  holding-without,
}
use stt_server.Queue.System.Handing.{Shape, Inv, give-Inv}

-- Other receivers keep their places when an id leaves the lists.
IsPlaced-remove :
    (id : ℕ) (s : State) (rs : List Receiver)
    → alive rs id ≡ false
    → All (IsPlaced s) rs
    → All (IsPlaced (remove id s)) rs
unfolding remove
IsPlaced-remove id s [] h p = tt
IsPlaced-remove id s (r ∷ rs) h p = (
  ground (arith, count-retain r.id id s.interactive, count-retain r.id id s.normal),
  IsPlaced-remove id s rs (ground arith) p.1,
)

gone_of_any :
    (id : ℕ) (rs : List Receiver) (ids : List ℕ)
    → All (λ i. alive rs i ≡ false) ids
    → any (λ i. i == id) ids ≡ true
    → alive rs id ≡ false
gone_of_any id rs [] g h = cc
gone_of_any id rs (i ∷ ids) g h = ground (arith, gone_of_any id rs ids g.1)

pub unregister-Inv : (n id : ℕ) (q : Queue) → Inv n q → Inv n (step (unregister id) q)
unfolding step remove
unregister-Inv n id q v = elim (Bool-cases (any (λ i. i == id) q.leaving)) [
  | inr h ↦ rw h v
  | inl h ↦ rw h (record {
    shape = record {
      placed =
          IsPlaced-remove id q.state q.receivers
            (gone_of_any id q.receivers q.leaving v.shape.gone h) v.shape.placed;
      falling = v.shape.falling;
      fresh_interactive = All-retain _ _ q.state.interactive v.shape.fresh_interactive;
      fresh_normal = All-retain _ _ q.state.normal v.shape.fresh_normal;
      gone = All-retain _ _ q.leaving v.shape.gone;
      gone_below = All-retain _ _ q.leaving v.shape.gone_below;
      counted = v.shape.counted;
    };
    exclusive = v.exclusive;
    idle = λ b. (ap (retain _) (v.idle b).0, ap (retain _) (v.idle b).1);
  })
]

leave-Shape :
    (n id : ℕ) (q : Queue)
    → id < q.state.next_id
    → Shape n q.state q.receivers q.leaving
    → Shape n q.state (without id q.receivers) (id ∷ q.leaving)
leave-Shape n id q below v = record {
  placed = All-retain (IsPlaced q.state) _ q.receivers v.placed;
  falling = Falling-without id q.state.next_id q.receivers v.falling;
  fresh_interactive = v.fresh_interactive;
  fresh_normal = v.fresh_normal;
  gone = (
    alive-without_self id q.receivers,
    All-map (λ i. alive q.receivers i ≡ false) (λ i. alive (without id q.receivers) i ≡ false)
        (λ i h. alive-without i id q.receivers h) q.leaving v.gone,
  );
  gone_below = (below, v.gone_below);
  counted = v.counted;
}

find_below :
    (id n : ℕ) (rs : List Receiver) (r : Receiver)
    → Falling n rs
    → find (λ x. x.id == id) rs ≡ some r
    → r.id < n
find_below id n [] r f e = cc
find_below id n (x ∷ rs) r f e = ground (arith, find_below id x.id rs r f.1)

-- The counts when the receiver `r` is dropped.
dropped :
    (n id : ℕ) (q : Queue) (r : Receiver)
    → Inv n q
    → find (λ x. x.id == id) q.receivers ≡ some r
    → (q.running + (to_ℕ r.holds + holding (without r.id q.receivers)) ≡ to_ℕ q.state.busy)
      × (r.id < q.state.next_id)
dropped n id q r v e =
    let (h, i) = holding-without id q.state.next_id q.receivers r v.shape.falling e in
    (rw (i, ← h) v.exclusive, find_below id q.state.next_id q.receivers r v.shape.falling e)

pub receive-Inv : (n id : ℕ) (q : Queue) → Inv n q → Inv n (step (receive id) q)
unfolding step
receive-Inv n id q v = elim (Option-cases (find (λ x. x.id == id) q.receivers)) [
  | inl e ↦ rw e v
  | inr (r, e) ↦ rw e (taken r e (dropped n id q r v e))
]
  where
    taken :
        (r : Receiver)
        → find (λ x. x.id == id) q.receivers ≡ some r
        → (q.running + (to_ℕ r.holds + holding (without r.id q.receivers)) ≡ to_ℕ q.state.busy)
          × (r.id < q.state.next_id)
        → Inv n (receive_from q (some r))
    taken r e d = elim (Bool-cases r.holds) [
      | inr h ↦ rw h v
      | inl h ↦ rw h (record {
        shape = leave-Shape n r.id q d.1 v.shape;
        exclusive = ground (arith, d.0);
        idle = v.idle;
      })
    ]

pub abandon-Inv : (n id : ℕ) (q : Queue) → Inv n q → Inv n (step (abandon id) q)
unfolding step
abandon-Inv n id q v = elim (Option-cases (find (λ x. x.id == id) q.receivers)) [
  | inl e ↦ rw e v
  | inr (r, e) ↦ rw e (dead r (dropped n id q r v e))
]
  where
    dead :
        (r : Receiver)
        → (q.running + (to_ℕ r.holds + holding (without r.id q.receivers)) ≡ to_ℕ q.state.busy)
          × (r.id < q.state.next_id)
        → Inv n (abandon_by q (some r))
    dead r d = elim (Bool-cases r.holds) [
      | inr h ↦ rw h (record {
        shape = leave-Shape n r.id q d.1 v.shape;
        exclusive = ground (arith, d.0);
        idle = v.idle;
      })
      | inl h ↦ rw h (
          give-Inv n (leave r.id q) (leave-Shape n r.id q d.1 v.shape) (ground (arith, d.0))
            (ground (arith, d.0)))
    ]

pub release-Inv : (n k : ℕ) (q : Queue) → Inv n q → q.running ≡ k → Inv n (release_from q k)
release-Inv n zero q v e = v
release-Inv n (suc k) q v e =
    give-Inv n (record q { running = k }) v.shape (ground (arith, v.exclusive))
      (ground (arith, v.exclusive))
