-- ===== src/Gguf/SkipValue.antt =====
-- src/gguf_probe.rs: `skip_value` against `read_value`.
use stt_server.Prelude.{
  ℕ, zero, suc, ◌≡◌, ◌≢◌, refl, Bool, true, false, List, Text, Option, none, some, ltb, ◌==◌,
  if◌then◌else◌,
}
use stt_server.Gguf.Cursor.{
  malformed, Result, ok, err, Reader, pure, fail, then_read, ◌>>=◌, u32, u64, string, skip_string,
}
use stt_server.Gguf.Values.{
  Value, Values, array, text, nil, Kind, string_kind, array_kind, kind_of, or_unknown, read_kind,
  skip_known, skip_sized, read_flat, read_elements, read_items, read_array, read_value, scalar_size,
  skip_elements, skip_array, skip_value, max_array_len, max_stored_array_len,
}
use stt_server.Gguf.Skipping.{string_skipped, take_bytes_ends, read_flat-Ended, elements_skipped}

-- The bind rule at one result.
then_read_at :
    {A B : Type 0} (f : A → Reader B) (g : A → Reader (Unit {0})) (buf : List ℕ) (p : ℕ) (b : B)
    → ((a : A) (q : ℕ) → f a buf q ≡ ok (b, p) → g a buf q ≡ ok (tt, p))
    → (r : Result (A × ℕ)) → then_read f buf r ≡ ok (b, p)
    → then_read g buf r ≡ ok (tt, p)
then_read_at f g buf p b h (ok (a, q)) e = h a q e
then_read_at f g buf p b h (err x) e = cc

abbrev skip_items : ℕ → ℕ → Reader (Unit {0})
skip_items t len =
    if ltb max_array_len len
    then fail (malformed "array length too large")
    else skip_elements (kind_of t) len

array_read :
    (buf : List ℕ) (p : ℕ) (v : Value) (r : Result (Values × ℕ))
    → then_read (λ vs. pure (array vs)) buf r ≡ ok (v, p)
    → (vs : Values) × (r ≡ ok (vs, p))
array_read buf p v (ok (vs, q)) h = (vs, cc)
array_read buf p v (err x) h = cc

-- What `read_items` has read, by its two tests.
items_read :
    (m : Reader Values) (big stored : Bool) (why also : Reader Value) (buf : List ℕ) (pos p : ℕ)
    (v : Value)
    → why buf pos ≢ ok (v, p)
    → also buf pos ≢ ok (v, p)
    → (if big then why else if stored then also else (m >>= λ vs. pure (array vs))) buf pos
      ≡ ok (v, p)
    → (big ≡ false) × (vs : Values) × (m buf pos ≡ ok (vs, p))
items_read m true stored why also buf pos p v n n' h = absurd (n h)
items_read m false true why also buf pos p v n n' h = absurd (n' h)
items_read m false false why also buf pos p v n n' h =
    let (vs, e) = array_read buf p v (m buf pos) h in (refl, vs, e)

items_skipped :
    (t len : ℕ) (buf : List ℕ) (pos p : ℕ) (v : Value)
    → v ≢ array nil
    → read_items t len buf pos ≡ ok (v, p)
    → skip_items t len buf pos ≡ ok (tt, p)
items_skipped t zero buf pos p v ne h = absurd (ne (unfold read_items read_elements in cc))
items_skipped t (suc n) buf pos p v ne h =
    let (small, vs, e) =
      items_read (read_elements (suc n) t) (ltb max_array_len (suc n))
        (ltb max_stored_array_len (suc n)) (fail (malformed "array length too large"))
        (fail (malformed "stored array length too large")) buf pos p v (λ x. cc) (λ x. cc)
        (unfold read_items in h) in
    rw small (elements_skipped n t (kind_of t) refl buf pos p vs e)

abbrev array_of : ℕ → Reader Value
array_of t =
    if t == 9
    then fail (malformed "nested arrays are not allowed")
    else (u64 >>= λ len. read_items t len)

abbrev skip_array_of : ℕ → Reader (Unit {0})
skip_array_of t =
    if t == 9
    then fail (malformed "nested arrays are not allowed")
    else (u64 >>= λ len. skip_items t len)

array_of_skipped :
    (t : ℕ) (buf : List ℕ) (pos p : ℕ) (v : Value)
    → v ≢ array nil
    → array_of t buf pos ≡ ok (v, p)
    → skip_array_of t buf pos ≡ ok (tt, p)
array_of_skipped t buf pos p v ne h = by_test (t == 9) h
  where
    by_test :
        (b : Bool)
        → (if b
              then fail (malformed "nested arrays are not allowed")
              else (u64 >>= λ len. read_items t len))
            buf pos
          ≡ ok (v, p)
        → (if b
              then fail (malformed "nested arrays are not allowed")
              else (u64 >>= λ len. skip_items t len))
            buf pos
          ≡ ok (tt, p)
    by_test true k = cc
    by_test false k =
        then_read_at (λ len. read_items t len) (λ len. skip_items t len) buf p v
          (λ len q. items_skipped t len buf q p v ne) (u64 buf pos) k

array_skipped :
    (buf : List ℕ) (pos p : ℕ) (v : Value)
    → v ≢ array nil
    → read_array buf pos ≡ ok (v, p)
    → skip_array buf pos ≡ ok (tt, p)
unfolding read_array skip_array
array_skipped buf pos p v ne h =
    then_read_at array_of skip_array_of buf p v (λ t q. array_of_skipped t buf q p v ne)
      (u32 buf pos) h

text_skipped :
    (buf : List ℕ) (pos p : ℕ) (v : Value)
    → read_flat string_kind buf pos ≡ ok (v, p)
    → skip_string buf pos ≡ ok (tt, p)
unfolding read_flat
text_skipped buf pos p v h = by_read (string buf pos) refl h
  where
    by_read :
        (r : Result (Text × ℕ))
        → string buf pos ≡ r
        → then_read (λ s. pure (text s)) buf r ≡ ok (v, p)
        → skip_string buf pos ≡ ok (tt, p)
    by_read (ok (s, q)) e k = string_skipped buf pos p s cc
    by_read (err z) e k = cc

kind_skipped :
    (k : Kind) (o : Option ℕ) (buf : List ℕ) (pos p : ℕ) (v : Value)
    → scalar_size k ≡ o
    → v ≢ array nil
    → read_kind k buf pos ≡ ok (v, p)
    → skip_sized o k buf pos ≡ ok (tt, p)
kind_skipped array_kind (some s) buf pos p v e ne h = absurd (unfold scalar_size in cc)
kind_skipped string_kind (some s) buf pos p v e ne h = absurd (unfold scalar_size in cc)
kind_skipped _ (some s) buf pos p v e ne h =
    take_bytes_ends s buf pos p (read_flat-Ended _ s buf pos p v e h)
kind_skipped array_kind none buf pos p v e ne h = array_skipped buf pos p v ne h
kind_skipped string_kind none buf pos p v e ne h = text_skipped buf pos p v h
kind_skipped _ none buf pos p v e ne h = absurd (unfold scalar_size in cc)

-- Where reading a value succeeds with anything but an empty array, skipping it succeeds too, and
-- ends at the same position.
pub skip_value-read_value :
    (t : ℕ) (buf : List ℕ) (pos p : ℕ) (v : Value)
    → v ≢ array nil
    → read_value t buf pos ≡ ok (v, p)
    → skip_value t buf pos ≡ ok (tt, p)
unfolding read_value skip_value
skip_value-read_value t buf pos p v ne h = by_kind (kind_of t) h
  where
    by_kind :
        (o : Option Kind)
        → or_unknown o read_kind buf pos ≡ ok (v, p)
        → skip_known o buf pos ≡ ok (tt, p)
    by_kind none k = cc
    by_kind (some x) k = kind_skipped x (scalar_size x) buf pos p v refl ne k
