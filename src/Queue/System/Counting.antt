-- ===== src/Queue/System/Counting.antt =====
-- How often an id waits, and how many receivers hold a permit.
use stt_server.Prelude.{
  ℕ, ◌+◌, ◌≤◌, ◌<◌, ◌≡◌, refl, Bool, true, false, not, List, [], ◌∷◌, ◌++◌, Option, none, some,
  arith, All, All-map, retain, find, ◌==◌, to_ℕ, inl, inr, Bool-cases,
}
use stt_server.Queue.{Waiter, State}
use stt_server.Queue.Serving.{first_live}
use stt_server.Queue.System.{Receiver, alive, deliver, without}

abbrev pub count : ℕ → List Waiter → ℕ
count id [] = 0
count id (w ∷ ws) = to_ℕ (w.id == id) + count id ws

-- In how many places of the waiting lists the id stands.
abbrev pub places : ℕ → State → ℕ
places id s = count id s.interactive + count id s.normal

abbrev pub holding : List Receiver → ℕ
holding [] = 0
holding (r ∷ rs) = to_ℕ r.holds + holding rs

abbrev pub Fresh : ℕ → List Waiter → Type 0
Fresh n ws = All (λ w. w.id < n) ws

-- Ids fall along the list and stay under the bound.
abbrev pub Falling : ℕ → List Receiver → Type 0
Falling n [] = Unit {0}
Falling n (r ∷ rs) = (r.id < n) × Falling r.id rs

-- A live receiver waits in one place, or holds a permit and waits in none.
abbrev pub IsPlaced : State → Receiver → Type 0
IsPlaced s r = places r.id s + to_ℕ r.holds ≡ 1

pub count-append : (id : ℕ) (xs ys : List Waiter) → count id (xs ++ ys) ≡ count id xs + count id ys
count-append id [] ys = omega arith
count-append id (x ∷ xs) ys = omega (arith, count-append id xs ys)

pub count-Fresh : (n : ℕ) (ws : List Waiter) → Fresh n ws → count n ws ≡ 0
count-Fresh n [] h = refl
count-Fresh n (w ∷ ws) h = ground (arith, count-Fresh n ws h.1)

pub count-retain :
    (id other : ℕ) (ws : List Waiter)
    → (other == id) ≡ false
    → count id (retain (λ w. not (w.id == other)) ws) ≡ count id ws
count-retain id other [] h = refl
count-retain id other (w ∷ ws) h = ground (arith, count-retain id other ws h)

pub Fresh-mono : (m n : ℕ) (ws : List Waiter) → m ≤ n → Fresh m ws → Fresh n ws
Fresh-mono m n [] h f = tt
Fresh-mono m n (w ∷ ws) h f = (omega arith, Fresh-mono m n ws h f.1)

pub Falling-mono : (m n : ℕ) (rs : List Receiver) → m ≤ n → Falling m rs → Falling n rs
Falling-mono m n [] h f = tt
Falling-mono m n (r ∷ rs) h f = (omega arith, f.1)

pub Falling-without : (id n : ℕ) (rs : List Receiver) → Falling n rs → Falling n (without id rs)
Falling-without id n [] f = tt
Falling-without id n (r ∷ rs) f =
    ground (arith, Falling-without id r.id rs f.1, Falling-mono r.id n (without id rs))

pub Falling-deliver : (id n : ℕ) (rs : List Receiver) → Falling n rs → Falling n (deliver id rs)
Falling-deliver id n [] f = tt
Falling-deliver id n (r ∷ rs) f = ground (arith, Falling-deliver id r.id rs f.1)

pub alive_above : (id n : ℕ) (rs : List Receiver) → Falling n rs → n ≤ id → alive rs id ≡ false
alive_above id n [] f h = refl
alive_above id n (r ∷ rs) f h = ground (arith, alive_above id r.id rs f.1)

pub alive-deliver : (id other : ℕ) (rs : List Receiver) → alive (deliver other rs) id ≡ alive rs id
alive-deliver id other [] = refl
alive-deliver id other (r ∷ rs) = ground (arith, alive-deliver id other rs)

pub alive-without_self : (id : ℕ) (rs : List Receiver) → alive (without id rs) id ≡ false
alive-without_self id [] = refl
alive-without_self id (r ∷ rs) = ground (arith, alive-without_self id rs)

pub alive-without :
    (id other : ℕ) (rs : List Receiver) → alive rs id ≡ false → alive (without other rs) id ≡ false
alive-without id other [] h = refl
alive-without id other (r ∷ rs) h = ground (arith, alive-without id other rs)

pub All-alive : (rs : List Receiver) → All (λ r. alive rs r.id ≡ true) rs
All-alive [] = tt
All-alive (r ∷ rs) = (
  ground arith,
  All-map (λ x. alive rs x.id ≡ true) (λ x. alive (r ∷ rs) x.id ≡ true) (λ x h. ground arith) rs
      (All-alive rs),
)

-- What `first_live` takes out, told by the count of every live id.
abbrev pub Takes : (ℕ → Bool) → List Waiter → Option (Waiter × List Waiter) → Type 0
Takes live ws none = (id : ℕ) → live id ≡ true → count id ws ≡ 0
Takes live ws (some (w, rest)) =
    (live w.id ≡ true)
    × ((id : ℕ) → live id ≡ true → count id ws ≡ to_ℕ (w.id == id) + count id rest)
    × ((n : ℕ) → Fresh n ws → Fresh n rest)

-- A dead waiter in front changes no live count.
dead-Takes :
    (live : ℕ → Bool) (w : Waiter) (ws : List Waiter) (o : Option (Waiter × List Waiter))
    → live w.id ≡ false
    → Takes live ws o
    → Takes live (w ∷ ws) o
dead-Takes live w ws none d t = λ id h. ground (arith, t id)
dead-Takes live w ws (some (x, rest)) d t = (t.0, λ id h. ground (arith, t.1 id), λ n f. t.2 n f.1)

pub first_live-Takes :
    (live : ℕ → Bool) (ws : List Waiter) → Takes live ws (first_live (λ w. live w.id) ws)
first_live-Takes live [] = λ id h. refl
first_live-Takes live (w ∷ ws) = elim (Bool-cases (live w.id)) [
  | inl here ↦ rw here (here, λ id h. refl, λ n f. f.1)
  | inr gone ↦ rw gone (dead-Takes live w ws _ gone (first_live-Takes live ws))
]

deliver_above : (id n : ℕ) (rs : List Receiver) → Falling n rs → n ≤ id → deliver id rs ≡ rs
deliver_above id n [] f h = refl
deliver_above id n (r ∷ rs) f h = ground (arith, deliver_above id r.id rs f.1)

without_above : (id n : ℕ) (rs : List Receiver) → Falling n rs → n ≤ id → without id rs ≡ rs
without_above id n [] f h = refl
without_above id n (r ∷ rs) f h = ground (arith, without_above id r.id rs f.1)

pub holding-without :
    (id n : ℕ) (rs : List Receiver) (r : Receiver)
    → Falling n rs
    → find (λ x. x.id == id) rs ≡ some r
    → (holding rs ≡ to_ℕ r.holds + holding (without id rs)) × (r.id ≡ id)
holding-without id n [] r f e = cc
holding-without id n (x ∷ rs) r f e =
    ground (arith, without_above id x.id rs f.1, holding-without id x.id rs r f.1)

pub holding-deliver :
    (id n : ℕ) (rs : List Receiver)
    → Falling n rs
    → All (λ r. (r.id == id) ≡ true → r.holds ≡ false) rs
    → holding (deliver id rs) ≡ holding rs + to_ℕ (alive rs id)
holding-deliver id n [] f h = refl
holding-deliver id n (r ∷ rs) f h = ground (
  arith,
  deliver_above id r.id rs f.1,
  alive_above id r.id rs f.1,
  holding-deliver id r.id rs f.1 h.1,
)
