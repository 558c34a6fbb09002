-- ===== src/Queue/System.antt =====
-- The callers of src/queue.rs around its state: each waiting future holds the receiver of its
-- channel and a `WaiterEntry`; a permit is held by a running caller or lies in a channel.
-- Every event is one atomic step: a block under the mutex, or the drop of one value.
pub mod Counting
pub mod Handing
mod Leaving
mod Arriving
pub mod Invariant
pub mod Capacity
use stt_server.Prelude.{
  ℕ, zero, suc, ◌+◌, Bool, true, false, not, ◌||◌, List, [], ◌∷◌, Option, none, some, any, find,
  map, retain, ◌==◌, if◌then◌else◌,
}
use stt_server.Queue.{
  Priority, Waiter, State, Joined, entered, refused, queued, new, remove, drop_permit, acquire,
}

-- The receiver of a waiting future; `holds` once a permit was sent to it.
pub record Receiver : Type 0 where
  pub id : ℕ
  pub holds : Bool

pub record Queue : Type 0 where
  pub state : State
  pub receivers : List Receiver
  pub leaving : List ℕ  -- entries of ended waits that have not been dropped yet
  pub running : ℕ  -- permits held by callers

unfoldable pub init : Queue
unfolding new
init = record { state = new; receivers = []; leaving = []; running = 0 }

abbrev pub alive : List Receiver → ℕ → Bool
alive rs id = any (λ r. r.id == id) rs

-- `send` into the channel of a receiver that is there.
abbrev pub deliver : ℕ → List Receiver → List Receiver
deliver id [] = []
deliver id (r ∷ rs) = (if r.id == id then record r { holds = true } else r) ∷ deliver id rs

abbrev pub without : ℕ → List Receiver → List Receiver
without id = retain (λ r. not (r.id == id))

abbrev pub deliver_to : Option Waiter → List Receiver → List Receiver
deliver_to none rs = rs
deliver_to (some w) rs = deliver w.id rs

-- A permit that owns the slot is dropped.
unfoldable pub give : Queue → Queue
give q =
    let (s, taker) = drop_permit (λ w. alive q.receivers w.id) q.state in
    record q { state = s; receivers = deliver_to taker q.receivers }

pub data Event : Type 0 where
  arrive : Priority → Option ℕ → Event  -- the locked block of `acquire`
  receive : ℕ → Event  -- a granted wait returns its permit
  abandon : ℕ → Event  -- a receiver is dropped: deadline passed, or caller gone
  unregister : ℕ → Event  -- `WaiterEntry::drop`
  release : Event  -- a running caller drops its permit

abbrev joined : Queue → State × Joined → Queue
joined q (s, entered) = record q { state = s; running = suc q.running }
joined q (s, refused e) = record q { state = s }
joined q (s, queued id) = record q {
  state = s;
  receivers = record { id = id; holds = false } ∷ q.receivers;
}

abbrev leave : ℕ → Queue → Queue
leave id q = record q { receivers = without id q.receivers; leaving = id ∷ q.leaving }

abbrev receive_from : Queue → Option Receiver → Queue
receive_from q none = q
receive_from q (some r) = if r.holds then record (leave r.id q) { running = suc q.running } else q

-- A permit that lies in the channel is dropped with the receiver, and passed on.
abbrev abandon_by : Queue → Option Receiver → Queue
abandon_by q none = q
abandon_by q (some r) = if r.holds then give (leave r.id q) else leave r.id q

abbrev release_from : Queue → ℕ → Queue
release_from q zero = q
release_from q (suc n) = give (record q { running = n })

unfoldable pub step : Event → Queue → Queue
step (arrive priority bound) q = joined q (acquire priority bound q.state)
step (receive id) q = receive_from q (find (λ r. r.id == id) q.receivers)
step (abandon id) q = abandon_by q (find (λ r. r.id == id) q.receivers)
step (unregister id) q =
    if any (λ i. i == id) q.leaving
    then record q { state = remove id q.state; leaving = retain (λ i. not (i == id)) q.leaving }
    else q
step release q = release_from q q.running

unfoldable pub run : List Event → Queue → Queue
run [] q = q
run (e ∷ es) q = run es (step e q)
