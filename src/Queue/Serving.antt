-- ===== src/Queue/Serving.antt =====
-- Whom `InferencePermit::drop` serves.
use stt_server.Prelude.{
  ℕ, zero, suc, ◌+◌, ◌<◌, ◌≡◌, refl, Bool, false, List, [], ◌∷◌, Option, none, some, arith, length,
  if◌then◌else◌, All, ◌++◌, ◌⊎◌, inl, inr, true, Bool-cases, subst, sym,
}
use stt_server.Queue.{Waiter, State, waiting, next_waiter, serve, drop_permit}

-- The first waiter of a list that is still there, and those behind it.
abbrev pub first_live : (Waiter → Bool) → List Waiter → Option (Waiter × List Waiter)
first_live send [] = none
first_live send (w ∷ rest) = if send w then some (w, rest) else first_live send rest

abbrev pub freed : State → State × Option Waiter
freed s = (record s { busy = false; interactive = []; normal = [] }, none)

abbrev pub from_normal : State → Option (Waiter × List Waiter) → State × Option Waiter
from_normal s none = freed s
from_normal s (some (w, rest)) = (record s { interactive = []; normal = rest }, some w)

abbrev pub from_interactive :
    (Waiter → Bool) → State → Option (Waiter × List Waiter) → State × Option Waiter
from_interactive send s none = from_normal s (first_live send s.normal)
from_interactive send s (some (w, rest)) = (record s { interactive = rest }, some w)

-- The policy: the first interactive waiter that is still there, or else the first such normal one,
-- or else the slot is freed. Those passed over leave the lists.
abbrev pub policy : (Waiter → Bool) → State → State × Option Waiter
policy send s = from_interactive send s (first_live send s.interactive)

serve-policy :
    (send : Waiter → Bool) (b : Bool) (n : ℕ) (is ns : List Waiter) (fuel : ℕ)
    → length is + length ns < fuel
    → let s : State = record { busy = b; next_id = n; interactive = is; normal = ns } in
      serve send fuel s ≡ policy send s
unfolding serve next_waiter
serve-policy send b n is ns zero h = absurd (omega arith)
serve-policy send b n [] [] (suc fuel) h = refl
serve-policy send b n [] (w ∷ ns) (suc fuel) h = ground (arith, serve-policy send b n [] ns fuel)
serve-policy send b n (w ∷ is) ns (suc fuel) h = ground (arith, serve-policy send b n is ns fuel)

-- Dropping a permit ends within as many rounds as there are waiters, and follows the policy: the
-- slot goes to the first interactive waiter whose channel is open, else to the first such normal
-- one, and is freed, with both lists empty, when there is none.
pub drop_permit-policy : (send : Waiter → Bool) (s : State) → drop_permit send s ≡ policy send s
unfolding drop_permit
drop_permit-policy send s =
    serve-policy send s.busy s.next_id s.interactive s.normal (suc (waiting s)) (omega arith)

-- Nobody in the list is there any more.
abbrev pub AllGone : (Waiter → Bool) → List Waiter → Type 0
AllGone send ws = All (λ w. send w ≡ false) ws

-- The list begins with waiters that are gone, then `w`, then `rest`.
abbrev pub Heads : (Waiter → Bool) → List Waiter → Waiter → List Waiter → Type 0
Heads send ws w rest =
    (front : List Waiter) × (ws ≡ front ++ (w ∷ rest)) × AllGone send front × (send w ≡ true)

-- What the drop of a permit promises.
abbrev pub Serves : (Waiter → Bool) → State → State × Option Waiter → Type 0
Serves send s (s', none) =
    AllGone send s.interactive
    × AllGone send s.normal
    × (s' ≡ record s { busy = false; interactive = []; normal = [] })
Serves send s (s', some w) =
    (s'.busy ≡ s.busy)
    × ((Heads send s.interactive w s'.interactive × (s'.normal ≡ s.normal))
        ⊎ (AllGone send s.interactive × (s'.interactive ≡ []) × Heads send s.normal w s'.normal))

first_live-Heads :
    (send : Waiter → Bool) (ws : List Waiter) (w : Waiter) (rest : List Waiter)
    → first_live send ws ≡ some (w, rest)
    → Heads send ws w rest
first_live-Heads send [] w rest e = cc
first_live-Heads send (x ∷ ws) w rest e = elim (Bool-cases (send x)) [
  | inl here ↦ ([], ground arith, tt, ground arith)
  | inr gone ↦
      let (front, split, dead, live) = first_live-Heads send ws w rest (rw gone at e) in
      (x ∷ front, cc, (gone, dead), live)
]

first_live-AllGone :
    (send : Waiter → Bool) (ws : List Waiter) → first_live send ws ≡ none → AllGone send ws
first_live-AllGone send [] e = tt
first_live-AllGone send (x ∷ ws) e = ground (arith, first_live-AllGone send ws)

from_normal-Serves :
    (send : Waiter → Bool) (s : State) (o : Option (Waiter × List Waiter))
    → first_live send s.interactive ≡ none
    → first_live send s.normal ≡ o
    → Serves send s (from_normal s o)
from_normal-Serves send s none i e =
    (first_live-AllGone send s.interactive i, first_live-AllGone send s.normal e, refl)
from_normal-Serves send s (some (w, rest)) i e = (
  refl,
  inr (first_live-AllGone send s.interactive i, refl, first_live-Heads send s.normal w rest e),
)

from_interactive-Serves :
    (send : Waiter → Bool) (s : State) (o : Option (Waiter × List Waiter))
    → first_live send s.interactive ≡ o
    → Serves send s (from_interactive send s o)
from_interactive-Serves send s none e = from_normal-Serves send s (first_live send s.normal) e refl
from_interactive-Serves send s (some (w, rest)) e =
    (refl, inl (first_live-Heads send s.interactive w rest e, refl))

-- Dropping a permit serves the first interactive waiter whose channel is open; when no interactive
-- waiter is left it serves the first such normal one; when none is left at all it frees the slot
-- and leaves both lists empty. Only waiters that are gone are passed over, the order behind the
-- one served is kept, and an interactive grant does not touch the normal list.
pub drop_permit-Serves : (send : Waiter → Bool) (s : State) → Serves send s (drop_permit send s)
drop_permit-Serves send s =
    subst (Serves send s) (sym (drop_permit-policy send s))
      (from_interactive-Serves send s (first_live send s.interactive) refl)
