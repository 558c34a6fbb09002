-- ===== src/Gguf/Prefix.antt =====
-- src/gguf_probe.rs: `read_header_metadata` against parsing the whole file.
use stt_server.Prelude.{
  ℕ, zero, suc, ◌+◌, ◌≤◌, ◌<◌, ◌≡◌, ◌∙◌, ◌⊎◌, inl, inr, refl, ap, sym, subst, Bool, true, false,
  List, [], ◌∷◌, ◌++◌, Option, some, length, length-take, take, drop, ltb, leb, if◌then◌else◌,
  arith, Bool-cases, leb→le,
}
use stt_server.Gguf.Cursor.{not_gguf, unsupported_version, truncated, malformed, Result, ok, err}
use stt_server.Gguf.Header.{
  Metadata, parse_header, initial_prefix, max_prefix, probe_keys, Round, done, again, grow, retry,
  round, prefix_loop, read_header_metadata,
}
use stt_server.Gguf.Local.{Settled}
use stt_server.Gguf.Readers.{parse_header-IsLocal}

-- What an answer about a file says of its whole header.
abbrev pub Faithful : List ℕ → Result Metadata → Type 0
Faithful bytes (ok meta) = (p : ℕ) × (parse_header probe_keys bytes 0 ≡ ok (meta, p))
Faithful bytes (err (truncated needed)) =
    (max_prefix ≤ length bytes)
    × (parse_header probe_keys (take max_prefix bytes) 0 ≡ err (truncated needed))
Faithful bytes (err (malformed why)) =
    (parse_header probe_keys bytes 0 ≡ err (malformed why))
    ⊎ ((needed : ℕ) × (parse_header probe_keys bytes 0 ≡ err (truncated needed)))
Faithful bytes (err e) = parse_header probe_keys bytes 0 ≡ err e

take-append-drop : (n : ℕ) (xs : List ℕ) → take n xs ++ drop n xs ≡ xs
take-append-drop zero xs = refl
take-append-drop (suc n) [] = refl
take-append-drop (suc n) (x ∷ xs) = ap (◌∷◌ x) (take-append-drop n xs)

take_all : (n : ℕ) (xs : List ℕ) → length xs ≤ n → take n xs ≡ xs
take_all zero [] h = refl
take_all zero (x ∷ xs) h = absurd (omega arith)
take_all (suc n) [] h = refl
take_all (suc n) (x ∷ xs) h = ap (◌∷◌ x) (take_all n xs (omega arith))

-- A settled answer on a prefix is the answer on the whole file.
whole :
    (size : ℕ) (bytes : List ℕ) (r : Result (Metadata × ℕ))
    → parse_header probe_keys (take size bytes) 0 ≡ r
    → Settled r
    → parse_header probe_keys bytes 0 ≡ r
whole size bytes r e s =
    ap (λ b. parse_header probe_keys b 0) (sym (take-append-drop size bytes))
    ∙ (parse_header-IsLocal probe_keys).stable (take size bytes) (drop size bytes) 0
        (subst Settled (sym e) s)
    ∙ e

-- A size doubled `f` times.
abbrev doubled : ℕ → ℕ → ℕ
doubled zero s = s
doubled (suc f) s = doubled f (s + s)

doubled_mono : (f s t : ℕ) → s ≤ t → doubled f s ≤ doubled f t
doubled_mono zero s t h = h
doubled_mono (suc f) s t h = doubled_mono f (s + s) (t + t) (omega arith)

le-doubled : (f s : ℕ) → s ≤ doubled f s
le-doubled zero s = omega arith
le-doubled (suc f) s = omega (arith, le-doubled f (s + s))

-- The next size still reaches the limit in the rounds that are left.
grow_reaches :
    (f size needed : ℕ)
    → size ≤ max_prefix
    → max_prefix ≤ doubled f (size + size)
    → max_prefix ≤ doubled f (grow size needed)
grow_reaches f size needed h k = elim (Bool-cases (leb (size + size) (grow size needed))) [
  | inl twice ↦ omega (arith, doubled_mono f (size + size) (grow size needed) (leb→le _ _ twice))
  | inr capped ↦ omega (arith, le-doubled f (grow size needed), not_twice capped)
]
  where
    not_twice : leb (size + size) (grow size needed) ≡ false → grow size needed < size + size
    not_twice e = ground arith

abbrev continue : (ℕ → Option (Result Metadata)) → Round → Option (Result Metadata)
continue k (done r) = some r
continue k (again next) = k next

abbrev Answered : List ℕ → Option (Result Metadata) → Type 0
Answered bytes o = (r : Result Metadata) × (o ≡ some r) × Faithful bytes r

-- One round, by what parsing the prefix gave; `k` is the rest of the loop.
round_Answered :
    (bytes : List ℕ) (size : ℕ) (k : ℕ → Option (Result Metadata))
    → 0 < size
    → size ≤ max_prefix
    → ((needed : ℕ) → size < grow size needed → Answered bytes (k (grow size needed)))
    → (res : Result (Metadata × ℕ)) → parse_header probe_keys (take size bytes) 0 ≡ res
    → Answered bytes (continue k (retry size (length (take size bytes)) res))
round_Answered bytes size k pos small rest (ok (meta, p)) e =
    (ok meta, refl, (p, whole size bytes (ok (meta, p)) e tt))
round_Answered bytes size k pos small rest (err not_gguf) e =
    (err not_gguf, refl, whole size bytes (err not_gguf) e tt)
round_Answered bytes size k pos small rest (err (unsupported_version v)) e =
    (err (unsupported_version v), refl, whole size bytes (err (unsupported_version v)) e tt)
round_Answered bytes size k pos small rest (err (malformed why)) e =
    (err (malformed why), refl, inl (whole size bytes (err (malformed why)) e tt))
round_Answered bytes size k pos small rest (err (truncated needed)) e =
    by_length (ltb (length (take size bytes)) size) refl
  where
    at_limit : leb (grow size needed) size ≡ true → size ≡ max_prefix
    at_limit h = omega (arith, leb→le (grow size needed) size h)

    shorter : ltb (length (take size bytes)) size ≡ true → length bytes ≤ size
    shorter h = ground (arith, length-take size bytes)

    by_growth :
        ltb (length (take size bytes)) size ≡ false
        → (b : Bool) → leb (grow size needed) size ≡ b
        → Answered bytes
            (continue k (if b then done (err (truncated needed)) else again (grow size needed)))
    by_growth full true capped = (
      err (truncated needed),
      refl,
      (
        ground (arith, length-take size bytes),
        subst (λ n. parse_header probe_keys (take n bytes) 0 ≡ err (truncated needed))
            (at_limit capped) e,
      ),
    )
    by_growth full false more = rest needed (ground arith)

    by_length :
        (b : Bool)
        → ltb (length (take size bytes)) size ≡ b
        → Answered bytes (
            continue k (
              if b
              then done (err (malformed "file shorter than its header"))
              else if leb (grow size needed) size
              then done (err (truncated needed))
              else again (grow size needed)))
    by_length true short = (
      err (malformed "file shorter than its header"),
      refl,
      inr (
        needed,
        subst (λ b. parse_header probe_keys b 0 ≡ err (truncated needed))
            (take_all size bytes (shorter short)) e,
      ),
    )
    by_length false full = by_growth full (leb (grow size needed) size) refl

-- The loop answers within its fuel, and truly.
loop_Answered :
    (f : ℕ) (bytes : List ℕ) (size : ℕ)
    → 0 < size
    → size ≤ max_prefix
    → max_prefix ≤ doubled f size
    → Answered bytes (prefix_loop (suc f) (some bytes) size)
unfolding prefix_loop round
loop_Answered zero bytes size pos small reach =
    round_Answered bytes size (prefix_loop zero (some bytes)) pos small
      (λ needed more. absurd (omega arith)) (parse_header probe_keys (take size bytes) 0) refl
loop_Answered (suc f) bytes size pos small reach =
    round_Answered bytes size (prefix_loop (suc f) (some bytes)) pos small
      (λ needed more.
        loop_Answered f bytes (grow size needed) (omega arith) (omega arith)
          (grow_reaches f size needed small reach))
      (parse_header probe_keys (take size bytes) 0) refl

-- Reading the header of any file of bytes ends within nine prefixes, and the answer is that of
-- parsing the whole file at once: the same metadata or error, but that a header cut off by the
-- end of the file is reported as malformed, and one that is not complete within the first 16 MiB
-- of a file that has as many as truncated.
pub read_header_metadata-Faithful :
    (bytes : List ℕ)
    → (r : Result Metadata) × (read_header_metadata (some bytes) ≡ some r) × Faithful bytes r
unfolding read_header_metadata
read_header_metadata-Faithful bytes =
    loop_Answered 8 bytes initial_prefix (omega arith) (omega arith) (omega arith)
