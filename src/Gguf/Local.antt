-- ===== src/Gguf/Local.antt =====
-- The readers of src/gguf_probe.rs and their buffer: the two facts that every reader keeps, and the
-- rules by which the readers that are put together keep them.
use stt_server.Prelude.{
  ℕ, zero, suc, ◌+◌, ◌≤◌, ◌<◌, ◌≡◌, refl, Bool, true, false, List, [], ◌∷◌, length, length-append,
  take, drop, ap, ◌++◌, arith, String, if◌then◌else◌,
}
use stt_server.Gguf.Cursor.{
  not_gguf, unsupported_version, truncated, malformed, Result, ok, err, Reader, pure, fail,
  then_read, ◌>>=◌, usize_max, take_bytes,
}

-- The position only moves forward, within the buffer; a request for more names more than there is.
abbrev pub InBounds : {A : Type 0} → List ℕ → ℕ → Result (A × ℕ) → Type 0
InBounds buf pos (ok (a, p)) = (pos ≤ p) × (p ≤ length buf)
InBounds buf pos (err (truncated needed)) = length buf < needed
InBounds buf pos (err _) = Unit {0}

-- The answer is not that more bytes are needed.
abbrev pub Settled : {A : Type 0} → Result (A × ℕ) → Type 0
Settled (ok _) = Unit {0}
Settled (err (truncated needed)) = ⊥
Settled (err _) = Unit {0}

-- A reader keeps within its buffer, and bytes added behind the buffer change no settled answer.
pub record IsLocal {A : Type 0} (m : Reader A) : Type 0 where
  pub bounded :
      (buf : List ℕ) (pos : ℕ)
      → length buf < usize_max
      → pos ≤ length buf
      → InBounds buf pos (m buf pos)
  pub stable : (buf more : List ℕ) (pos : ℕ) → Settled (m buf pos) → m (buf ++ more) pos ≡ m buf pos

pub pure-IsLocal : {A : Type 0} (a : A) → IsLocal (pure a)
pure-IsLocal a = record {
  bounded = λ buf pos small h. (omega arith, h);
  stable = λ buf more pos s. refl;
}

pub malformed-IsLocal : (A : Type 0) (why : String) → IsLocal (fail {A = A} (malformed why))
malformed-IsLocal A why = record {
  bounded = λ buf pos small h. tt;
  stable = λ buf more pos s. refl;
}

pub not_gguf-IsLocal : (A : Type 0) → IsLocal (fail {A = A} not_gguf)
not_gguf-IsLocal A = record { bounded = λ buf pos small h. tt; stable = λ buf more pos s. refl }

pub version-IsLocal : (A : Type 0) (v : ℕ) → IsLocal (fail {A = A} (unsupported_version v))
version-IsLocal A v = record { bounded = λ buf pos small h. tt; stable = λ buf more pos s. refl }

widen-InBounds :
    {B : Type 0} (buf : List ℕ) (pos p : ℕ) (r : Result (B × ℕ))
    → pos ≤ p
    → InBounds buf p r
    → InBounds buf pos r
widen-InBounds buf pos p (ok (b, q)) h k = (omega arith, k.1)
widen-InBounds buf pos p (err not_gguf) h k = k
widen-InBounds buf pos p (err (unsupported_version v)) h k = k
widen-InBounds buf pos p (err (truncated n)) h k = k
widen-InBounds buf pos p (err (malformed why)) h k = k

module _ {A B : Type 0} (f : A → Reader B) (hf : (a : A) → IsLocal (f a)) where
  then_read-InBounds :
      (buf : List ℕ) (pos : ℕ)
      → length buf < usize_max
      → (r : Result (A × ℕ)) → InBounds buf pos r
      → InBounds buf pos (then_read f buf r)
  then_read-InBounds buf pos small (ok (a, p)) h =
      widen-InBounds buf pos p (f a buf p) h.0 ((hf a).bounded buf p small h.1)
  then_read-InBounds buf pos small (err not_gguf) h = h
  then_read-InBounds buf pos small (err (unsupported_version v)) h = h
  then_read-InBounds buf pos small (err (truncated n)) h = h
  then_read-InBounds buf pos small (err (malformed why)) h = h

  then_read-Settled : (buf : List ℕ) (r : Result (A × ℕ)) → Settled (then_read f buf r) → Settled r
  then_read-Settled buf (ok p) s = tt
  then_read-Settled buf (err not_gguf) s = tt
  then_read-Settled buf (err (unsupported_version v)) s = tt
  then_read-Settled buf (err (truncated n)) s = s
  then_read-Settled buf (err (malformed why)) s = tt

  then_read_stable :
      (buf more : List ℕ) (r : Result (A × ℕ))
      → Settled (then_read f buf r)
      → then_read f (buf ++ more) r ≡ then_read f buf r
  then_read_stable buf more (ok (a, p)) s = (hf a).stable buf more p s
  then_read_stable buf more (err e) s = refl

  pub >>=-IsLocal : (m : Reader A) → IsLocal m → IsLocal (m >>= f)
  >>=-IsLocal m hm = record {
    bounded = λ buf pos small h.
        then_read-InBounds buf pos small (m buf pos) (hm.bounded buf pos small h);
    stable = λ buf more pos s.
        rw (hm.stable buf more pos (then_read-Settled buf (m buf pos) s))
          (then_read_stable buf more (m buf pos) s);
  }

pub if-IsLocal :
    {A : Type 0} (b : Bool) (m k : Reader A) → IsLocal m → IsLocal k → IsLocal (if b then m else k)
if-IsLocal true m k hm hk = hm
if-IsLocal false m k hm hk = hk

take-append : (n : ℕ) (xs ys : List ℕ) → n ≤ length xs → take n (xs ++ ys) ≡ take n xs
take-append zero xs ys h = refl
take-append (suc n) [] ys h = absurd (omega arith)
take-append (suc n) (x ∷ xs) ys h = ap (◌∷◌ x) (take-append n xs ys (omega arith))

slice-append :
    (n pos : ℕ) (xs ys : List ℕ)
    → pos + n ≤ length xs
    → take n (drop pos (xs ++ ys)) ≡ take n (drop pos xs)
slice-append n zero xs ys h = take-append n xs ys (omega arith)
slice-append zero (suc pos) [] ys h = refl
slice-append (suc n) (suc pos) [] ys h = absurd (omega arith)
slice-append n (suc pos) (x ∷ xs) ys h = slice-append n pos xs ys (omega arith)

pub take_bytes-IsLocal : (n : ℕ) → IsLocal (take_bytes n)
unfolding take_bytes
take_bytes-IsLocal n = record {
  bounded = λ buf pos small h. ground arith;
  stable = λ buf more pos s. ground (arith, slice-append n pos buf more, length-append buf more);
}

pub ruleset local = (
  pure-IsLocal, malformed-IsLocal, not_gguf-IsLocal, version-IsLocal, >>=-IsLocal, if-IsLocal,
  take_bytes-IsLocal,
)
