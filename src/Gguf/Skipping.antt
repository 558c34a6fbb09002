-- ===== src/Gguf/Skipping.antt =====
-- src/gguf_probe.rs: `skip_value` goes where `read_value` goes.
use stt_server.Prelude.{
  ℕ, zero, suc, ◌+◌, ◌*◌, ◌≤◌, ◌≡◌, inl, inr, refl, List, Text, Option, none, some, length, ltb,
  arith, Bool-cases,
}
use stt_server.Gguf.Cursor.{
  Result, ok, err, Reader, pure, then_read, ◌>>=◌, ◌>>◌, usize_max, take_bytes, u32, u64,
  string_len, string, skip_string,
}
use stt_server.Gguf.Values.{
  Value, Values, text, cons, Kind, string_kind, array_kind, kind_of, read_flat, read_element,
  read_elements, scalar_size, skip_strings, skip_elements,
}

-- The reader went `s` bytes on, inside the buffer.
abbrev pub Ended : ℕ → List ℕ → ℕ → ℕ → Type 0
Ended s buf pos p = (p ≡ pos + s) × (p ≤ length buf) × (p ≤ usize_max)

pub read_flat-Ended :
    (k : Kind) (s : ℕ) (buf : List ℕ) (pos p : ℕ) (v : Value)
    → scalar_size k ≡ some s
    → read_flat k buf pos ≡ ok (v, p)
    → Ended s buf pos p
unfolding scalar_size read_flat take_bytes u32 u64
read_flat-Ended string_kind s buf pos p v e h = cc
read_flat-Ended array_kind s buf pos p v e h = cc
read_flat-Ended _ s buf pos p v e h = ground arith

-- Taking as many bytes at once ends in the same place.
pub take_bytes_ends :
    (s : ℕ) (buf : List ℕ) (pos p : ℕ)
    → Ended s buf pos p
    → (do take_bytes s; pure tt) buf pos ≡ ok (tt, p)
unfolding take_bytes
take_bytes_ends s buf pos p h = ground arith

-- `k` ends where `m` ends.
abbrev pub SkippedBy : {A : Type 0} → Reader A → Reader (Unit {0}) → Type 0
SkippedBy {A} m k =
    (buf : List ℕ) (pos p : ℕ) (a : A) → m buf pos ≡ ok (a, p) → k buf pos ≡ ok (tt, p)

then_read_skipped :
    {A B : Type 0} (f : A → Reader B) (g : A → Reader (Unit {0}))
    → ((a : A) → SkippedBy (f a) (g a))
    → (buf : List ℕ) (r : Result (A × ℕ)) (p : ℕ) (b : B) → then_read f buf r ≡ ok (b, p)
    → then_read g buf r ≡ ok (tt, p)
then_read_skipped f g h buf (ok (a, q)) p b e = h a buf q p b e
then_read_skipped f g h buf (err x) p b e = cc

bind_skipped :
    {A B : Type 0} (m : Reader A) (f : A → Reader B) (g : A → Reader (Unit {0}))
    → ((a : A) → SkippedBy (f a) (g a))
    → SkippedBy (m >>= f) (m >>= g)
bind_skipped m f g h buf pos p b e = then_read_skipped f g h buf (m buf pos) p b e

pub string_skipped : SkippedBy string skip_string
unfolding string skip_string
string_skipped =
    bind_skipped string_len _ _
      (λ len. bind_skipped (take_bytes len) _ _ (λ bytes buf pos p s e. cc))

-- An element of a scalar kind, and of the others.
read_element-Ended :
    (t : ℕ) (k : Kind) (s : ℕ)
    → kind_of t ≡ some k
    → scalar_size k ≡ some s
    → (buf : List ℕ) (pos p : ℕ) (v : Value) → read_element t buf pos ≡ ok (v, p)
    → Ended s buf pos p
unfolding read_element
read_element-Ended t k s e z buf pos p v h = read_flat-Ended k s buf pos p v z (rw e at h)

first_element :
    (n t : ℕ) (buf : List ℕ) (pos p : ℕ) (vs : Values)
    → read_elements (suc n) t buf pos ≡ ok (vs, p)
    → (v : Value) × (q : ℕ) × (ws : Values) × (read_element t buf pos ≡ ok (v, q))
      × (read_elements n t buf q ≡ ok (ws, p))
unfolding read_elements
first_element n t buf pos p vs h = by_first (read_element t buf pos) refl h
  where
    by_rest :
        (v : Value) (q : ℕ) (r : Result (Values × ℕ))
        → read_element t buf pos ≡ ok (v, q)
        → read_elements n t buf q ≡ r
        → then_read (λ ws. pure (cons v ws)) buf r ≡ ok (vs, p)
        → (v : Value) × (q : ℕ) × (ws : Values) × (read_element t buf pos ≡ ok (v, q))
          × (read_elements n t buf q ≡ ok (ws, p))
    by_rest v q (ok (ws, o)) e e' k = (v, q, ws, e, cc)
    by_rest v q (err x) e e' k = cc

    by_first :
        (r : Result (Value × ℕ))
        → read_element t buf pos ≡ r
        → then_read (λ v. read_elements n t >>= λ ws. pure (cons v ws)) buf r ≡ ok (vs, p)
        → (v : Value) × (q : ℕ) × (ws : Values) × (read_element t buf pos ≡ ok (v, q))
          × (read_elements n t buf q ≡ ok (ws, p))
    by_first (ok (v, q)) e k = by_rest v q (read_elements n t buf q) e refl k
    by_first (err x) e k = cc

-- `n + 1` elements of `s` bytes end `(n + 1) * s` bytes on.
read_elements-Ended :
    (n t s : ℕ)
    → ((buf : List ℕ) (pos p : ℕ) (v : Value)
        → read_element t buf pos ≡ ok (v, p)
        → Ended s buf pos p)
    → (buf : List ℕ) (pos p : ℕ) (vs : Values) → read_elements (suc n) t buf pos ≡ ok (vs, p)
    → Ended (suc n * s) buf pos p
read_elements-Ended zero t s one buf pos p vs h =
    let (v, q, ws, e, rest) = first_element zero t buf pos p vs h in
    omega (arith, one buf pos q v e, last q ws rest)
  where
    last : (q : ℕ) (ws : Values) → read_elements zero t buf q ≡ ok (ws, p) → q ≡ p
    last q ws k = unfold read_elements in ground arith
read_elements-Ended (suc n) t s one buf pos p vs h =
    let (v, q, ws, e, rest) = first_element (suc n) t buf pos p vs h in
    omega (arith, one buf pos q v e, read_elements-Ended n t s one buf q p ws rest)

read_elements_skipped :
    (n t : ℕ) → kind_of t ≡ some string_kind → SkippedBy (read_elements n t) (skip_strings n)
unfolding skip_strings
read_elements_skipped zero t e buf pos p vs h = unfold read_elements in ground arith
read_elements_skipped (suc n) t e buf pos p vs h =
    let (v, q, ws, first, rest) = first_element n t buf pos p vs h in
    rw (one v q first) (read_elements_skipped n t e buf q p ws rest)
  where
    as_text : SkippedBy (string >>= λ s. pure (text s)) skip_string
    as_text b x y v k = by_read (string b x) refl k
      where
        by_read :
            (r : Result (Text × ℕ))
            → string b x ≡ r
            → then_read (λ s. pure (text s)) b r ≡ ok (v, y)
            → skip_string b x ≡ ok (tt, y)
        by_read (ok (s, q)) e k = string_skipped b x y s cc
        by_read (err z) e k = cc

    one :
        (v : Value) (q : ℕ) → read_element t buf pos ≡ ok (v, q) → skip_string buf pos ≡ ok (tt, q)
    one v q k = as_text buf pos q v (unfold read_element read_flat in (rw e at k))

skip_scalars :
    (n s : ℕ) (k : Kind) (buf : List ℕ) (pos p : ℕ)
    → scalar_size k ≡ some s
    → Ended (suc n * s) buf pos p
    → skip_elements (some k) (suc n) buf pos ≡ ok (tt, p)
unfolding skip_elements
skip_scalars n s k buf pos p e h = rw e (elim (Bool-cases (ltb usize_max (suc n * s))) [
  | inl over ↦ absurd (ground (arith, h))
  | inr fits ↦ rw fits (take_bytes_ends (suc n * s) buf pos p h)
])

pub elements_skipped :
    (n t : ℕ) (o : Option Kind)
    → kind_of t ≡ o
    → SkippedBy (read_elements (suc n) t) (skip_elements o (suc n))
elements_skipped n t none e buf pos p vs h =
    let (v, q, ws, first, _) = first_element n t buf pos p vs h in
    absurd (unfold read_element in (cc (rw e at first)))
elements_skipped n t (some k) e buf pos p vs h = by_size (scalar_size k) refl
  where
    sizeless :
        (x : Kind)
        → kind_of t ≡ some x
        → scalar_size x ≡ none
        → skip_elements (some x) (suc n) buf pos ≡ ok (tt, p)
    sizeless string_kind e' z =
        unfold skip_elements scalar_size in read_elements_skipped (suc n) t e' buf pos p vs h
    sizeless array_kind e' z =
        let (v, q, ws, first, _) = first_element n t buf pos p vs h in
        absurd (unfold read_element read_flat in (cc (rw e' at first)))
    sizeless _ e' z = absurd (unfold scalar_size in cc)

    by_size :
        (o : Option ℕ) → scalar_size k ≡ o → skip_elements (some k) (suc n) buf pos ≡ ok (tt, p)
    by_size (some s) z =
        skip_scalars n s k buf pos p z
          (read_elements-Ended n t s (read_element-Ended t k s e z) buf pos p vs h)
    by_size none z = sizeless k e z
