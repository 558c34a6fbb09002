-- ===== src/Vad/Spacing.antt =====
-- src/vad.rs: speech spans are in order, apart, long enough and within the audio, and no
-- subtraction on the way goes below zero.
mod Scanning
pub mod Result
use stt_server.Prelude.{
  ℕ, zero, suc, ◌+◌, ◌-◌, ◌*◌, ◌/◌, ◌≤◌, ◌<◌, ◌≡◌, refl, Bool, true, false, List, [], ◌∷◌, ◌++◌,
  Option, none, some, length, min, max, ltb, leb, if◌then◌else◌, arith, Bool-cases, inl, inr,
}
use stt_server.Vad.{
  Span, ◌>>=◌, checked_sub, pad_from, parted, end_at, start_at, pad_spans, merge_from, merge_spans,
}

-- From `lo` to `hi`, each span more than `m` long and starting at least `g` after the one before.
abbrev pub Chain : ℕ → ℕ → ℕ → List Span → ℕ → Type 0
Chain g m lo [] hi = Unit {0}
Chain g m lo (s ∷ rest) hi =
    (lo ≤ s.start) × (s.start + m < s.end) × (s.end ≤ hi) × Chain g m (s.end + g) rest hi

pub Chain-widen :
    (g m lo hi hi' : ℕ) (xs : List Span) → hi ≤ hi' → Chain g m lo xs hi → Chain g m lo xs hi'
Chain-widen g m lo hi hi' [] h c = tt
Chain-widen g m lo hi hi' (s ∷ rest) h c =
    (c.0, c.1, omega arith, Chain-widen g m (s.end + g) hi hi' rest h c.3)

pub Chain-lower :
    (g m lo lo' hi : ℕ) (xs : List Span) → lo' ≤ lo → Chain g m lo xs hi → Chain g m lo' xs hi
Chain-lower g m lo lo' hi [] h c = tt
Chain-lower g m lo lo' hi (s ∷ rest) h c = (omega arith, c.1, c.2, c.3)

pub Chain-snoc :
    (m lo hi : ℕ) (xs : List Span) (s : Span)
    → Chain 0 m lo xs hi
    → lo ≤ s.start
    → hi ≤ s.start
    → s.start + m < s.end
    → Chain 0 m lo (xs ++ (s ∷ [])) s.end
Chain-snoc m lo hi [] s c h k n = (h, n, omega arith, tt)
Chain-snoc m lo hi (x ∷ xs) s c h k n =
    (c.0, c.1, omega arith, Chain-snoc m (x.end + 0) hi xs s c.3 (omega arith) k n)

pub checked_sub_ok : (a b : ℕ) → b ≤ a → checked_sub a b ≡ some (a - b)
checked_sub_ok a b h = ground arith

pub >>=-Total :
    {A B : Type 0} (o : Option A) (f : A → Option B) (P : B → Type 0) (a : A)
    → o ≡ some a
    → (b : B) × (f a ≡ some b) × P b
    → (b : B) × ((o >>= f) ≡ some b) × P b
>>=-Total o f P a h k = (k.0, rw h k.1, k.2)

parted-Chain :
    (m lo total next_start by : ℕ) (span : Span) (rest : Option (List Span))
    → by ≤ next_start
    → lo ≤ span.start
    → span.start + m < span.end
    → span.end ≤ total
    → (out : List Span) × (rest ≡ some out) × Chain 0 m span.end out total
    → (out : List Span) × (parted next_start by span rest ≡ some out) × Chain 0 m lo out total
parted-Chain m lo total next_start by span rest h a b c (out, e, k) = (
  span ∷ out,
  rw (checked_sub_ok next_start by h) (rw e refl),
  (a, b, c, Chain-lower 0 m span.end (span.end + 0) total out (omega arith) k),
)

pub pad_from-Chain :
    (m pad total lo : ℕ) (span : Span) (rest : List Span)
    → lo ≤ span.start
    → span.start + m < span.end
    → span.end ≤ total
    → Chain 0 m span.end rest total
    → (out : List Span) × (pad_from pad total span rest ≡ some out) × Chain 0 m lo out total
unfolding pad_from
pad_from-Chain m pad total lo span [] a b c k = (_, refl, (a, omega arith, omega arith, tt))
pad_from-Chain m pad total lo span (next ∷ rest) a b c k =
    >>=-Total (checked_sub next.start span.end) _ (λ out. Chain 0 m lo out total)
      (next.start - span.end) (checked_sub_ok next.start span.end k.0)
      (elim (Bool-cases (ltb (next.start - span.end) (2 * pad))) [
        | inl h ↦ rw h (
            parted-Chain m lo total next.start half (end_at span (span.end + half)) _ (omega arith)
              a (omega arith) (omega arith)
              (pad_from-Chain m pad total (span.end + half) (start_at next (next.start - half)) rest
                (omega arith) (omega arith) k.2 (later k.3)))
        | inr h ↦ rw h (
            parted-Chain m lo total next.start pad (end_at span (min (span.end + pad) total)) _
              (ground arith) a (omega arith) (omega arith)
              (pad_from-Chain m pad total (min (span.end + pad) total)
                (start_at next (next.start - pad)) rest (ground arith) (omega arith) k.2
                (later k.3)))
      ])
  where
    half : ℕ
    half = (next.start - span.end) / 2

    later : Chain 0 m (next.end + 0) rest total → Chain 0 m next.end rest total
    later = Chain-lower 0 m (next.end + 0) next.end total rest (omega arith)

pub merge_from-Chain :
    (m total lo : ℕ) (last : Span) (rest : List Span)
    → lo ≤ last.start
    → last.start + m < last.end
    → last.end ≤ total
    → Chain 0 m last.end rest total
    → Chain 2 m lo (merge_from last rest) total
unfolding merge_from
merge_from-Chain m total lo last [] a b c k = (a, b, c, tt)
merge_from-Chain m total lo last (s ∷ rest) a b c k =
    elim (Bool-cases (leb s.start (last.end + 1))) [
      | inl h ↦ rw h (
          merge_from-Chain m total lo (end_at last (max last.end s.end)) rest a (omega arith)
            (omega arith)
            (Chain-lower 0 m (s.end + 0) (max last.end s.end) total rest (omega arith) k.3))
      | inr h ↦ rw h (
        a,
        b,
        c,
        merge_from-Chain m total (last.end + 2) s rest (ground arith) k.1 k.2
            (Chain-lower 0 m (s.end + 0) s.end total rest (omega arith) k.3),
      )
    ]
