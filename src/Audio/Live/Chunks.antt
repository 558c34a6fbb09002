-- ===== src/Audio/Live/Chunks.antt =====
-- How PcmStream depends on the chunks that its bytes arrive in.
use stt_server.Prelude.{
  ℕ, zero, suc, ◌≤◌, ◌<◌, ◌≡◌, refl, sym, ap, ◌∙◌, false, List, [], ◌∷◌, ◌++◌, Option, none, some,
  arith, length, take, drop, ltb, Bool-cases, append_assoc, length-append, length-drop, inl, inr,
}
use stt_server.Errors.{ApiResult, ok, err}
use stt_server.Audio.{Resampler}
use stt_server.Audio.Live.{
  Drained, emit_or_err, go_on, LiveResampler, pairs, emit, convert, drain, prepend,
}

module _ {A : Type 0} where
  take-append : (n : ℕ) (xs ys : List A) → n ≤ length xs → take n (xs ++ ys) ≡ take n xs
  take-append zero xs ys h = refl
  take-append (suc n) [] ys h = absurd (omega arith)
  take-append (suc n) (x ∷ xs) ys h = ap (λ t. x ∷ t) (take-append n xs ys (omega arith))

  drop-append : (n : ℕ) (xs ys : List A) → n ≤ length xs → drop n (xs ++ ys) ≡ drop n xs ++ ys
  drop-append zero xs ys h = refl
  drop-append (suc n) [] ys h = absurd (omega arith)
  drop-append (suc n) (x ∷ xs) ys h = drop-append n xs ys (omega arith)

module _ {F : Type 0} (sample : ℕ → F) where
  abbrev pub then_pairs : List F × Option ℕ → List ℕ → List F × Option ℕ
  then_pairs (samples, odd) bytes =
      let (more, last) = pairs sample odd bytes in (samples ++ more, last)

  pub pairs-append :
      (odd : Option ℕ) (xs ys : List ℕ)
      → pairs sample odd (xs ++ ys) ≡ then_pairs (pairs sample odd xs) ys
  unfolding pairs
  pairs-append odd [] ys = refl
  pairs-append none (x ∷ xs) ys = pairs-append (some x) xs ys
  pairs-append (some low) (x ∷ xs) ys = cc (pairs-append none xs ys)

module _ {F C : Type 0} (lib : Resampler F C) where
  abbrev pub add_pending : List F → LiveResampler F C → LiveResampler F C
  add_pending xs live = record live { pending = live.pending ++ xs }

  abbrev add_converted :
      List F → LiveResampler F C × ApiResult (List F) → LiveResampler F C × ApiResult (List F)
  add_converted xs (live, r) = (add_pending xs live, r)

  emit_or_err-add_pending :
      (xs : List F) (live : LiveResampler F C) (r : ApiResult (List F))
      → emit_or_err lib (add_pending xs live) r ≡ add_converted xs (emit_or_err lib live r)
  unfolding emit
  emit_or_err-add_pending xs live (ok _) = refl
  emit_or_err-add_pending xs live (err _) = refl

  convert-add_pending :
      (xs : List F) (live : LiveResampler F C)
      → lib.input_frames_next live.resampler ≤ length live.pending
      → convert lib (add_pending xs live) ≡ add_converted xs (convert lib live)
  unfolding convert
  convert-add_pending xs live h =
      rw (take-append _ live.pending xs h, drop-append _ live.pending xs h)
        (emit_or_err-add_pending xs _ _)

  emit_or_err-pending :
      (live : LiveResampler F C) (r : ApiResult (List F))
      → (emit_or_err lib live r).0.pending ≡ live.pending
  unfolding emit
  emit_or_err-pending live (ok _) = refl
  emit_or_err-pending live (err _) = refl

  convert-pending :
      (live : LiveResampler F C)
      → (convert lib live).0.pending ≡ drop (lib.input_frames_next live.resampler) live.pending
  unfolding convert
  convert-pending live = emit_or_err-pending _ _

  -- Draining with more samples behind goes on from where draining without them stops.
  abbrev pub continue : ℕ → List F → Drained lib → Drained lib
  continue fuel xs none = none
  continue fuel xs (some (live, err e)) = some (add_pending xs live, err e)
  continue fuel xs (some (live, ok out)) = prepend lib out (drain lib fuel (add_pending xs live))

  prepend-prepend :
      (out more : List F) (d : Drained lib)
      → prepend lib out (prepend lib more d) ≡ prepend lib (out ++ more) d
  prepend-prepend out more none = refl
  prepend-prepend out more (some (live, err e)) = refl
  prepend-prepend out more (some (live, ok rest)) = rw (append_assoc out more rest) refl

  prepend_nil : (d : Drained lib) → prepend lib [] d ≡ d
  prepend_nil none = refl
  prepend_nil (some (live, err e)) = refl
  prepend_nil (some (live, ok rest)) = refl

  continue-prepend :
      (fuel : ℕ) (xs out : List F) (d : Drained lib)
      → prepend lib out (continue fuel xs d) ≡ continue fuel xs (prepend lib out d)
  continue-prepend fuel xs out none = refl
  continue-prepend fuel xs out (some (live, err e)) = refl
  continue-prepend fuel xs out (some (live, ok more)) = prepend-prepend out more _

  -- The resampler wants at least one frame for each chunk.
  module _ (hungry : (c : C) → 1 ≤ lib.input_frames_next c) where
    abbrev Shrinks : LiveResampler F C → LiveResampler F C → Type 0
    Shrinks live next = length next.pending < length live.pending

    convert-Shrinks :
        (live : LiveResampler F C)
        → lib.input_frames_next live.resampler ≤ length live.pending
        → Shrinks live (convert lib live).0
    convert-Shrinks live h = omega (
      arith,
      hungry live.resampler,
      ap length (convert-pending live),
      length-drop (lib.input_frames_next live.resampler) live.pending,
    )

    go_on-fuel :
        (n m : ℕ) (c : LiveResampler F C × ApiResult (List F))
        → drain lib n c.0 ≡ drain lib m c.0
        → go_on lib (drain lib n) c ≡ go_on lib (drain lib m) c
    go_on-fuel n m (next, err e) h = refl
    go_on-fuel n m (next, ok out) h = ap (prepend lib out) h

    -- Any fuel beyond the samples that wait is enough.
    pub drain_fuel :
        (n m : ℕ) (live : LiveResampler F C)
        → length live.pending < n
        → length live.pending < m
        → drain lib n live ≡ drain lib m live
    unfolding drain
    drain_fuel zero m live hn hm = absurd (omega arith)
    drain_fuel (suc n) zero live hn hm = absurd (omega arith)
    drain_fuel (suc n) (suc m) live hn hm =
        elim (Bool-cases (ltb (length live.pending) (lib.input_frames_next live.resampler))) [
          | inl e ↦ rw e refl
          | inr e ↦
              let less = convert-Shrinks live (ground arith) in
              rw e (
                go_on-fuel n m (convert lib live)
                  (drain_fuel n m (convert lib live).0 (omega arith) (omega arith)))
        ]

    go_on-continue :
        (n k m : ℕ) (xs : List F) (c : LiveResampler F C × ApiResult (List F))
        → drain lib n (add_pending xs c.0) ≡ continue m xs (drain lib k c.0)
        → go_on lib (drain lib n) (add_converted xs c) ≡ continue m xs (go_on lib (drain lib k) c)
    go_on-continue n k m xs (next, err e) h = refl
    go_on-continue n k m xs (next, ok out) h =
        ap (prepend lib out) h ∙ continue-prepend m xs out (drain lib k next)

    pub drain-continue :
        (n k m : ℕ) (xs : List F) (live : LiveResampler F C)
        → length (live.pending ++ xs) < n
        → length live.pending < k
        → length (live.pending ++ xs) < m
        → drain lib n (add_pending xs live) ≡ continue m xs (drain lib k live)
    unfolding drain
    drain-continue n zero m xs live hn hk hm = absurd (omega arith)
    drain-continue zero (suc k) m xs live hn hk hm = absurd (omega arith)
    drain-continue (suc n) (suc k) m xs live hn hk hm =
        let size = length-append {0} live.pending xs in
        elim (Bool-cases (ltb (length live.pending) (lib.input_frames_next live.resampler))) [
          | inl e ↦ rw e (drain_fuel (suc n) m (add_pending xs live) hn hm ∙ sym (prepend_nil _))
          | inr e ↦
              let big : lib.input_frames_next live.resampler ≤ length live.pending = ground arith in
              let wide : ltb (length (live.pending ++ xs)) (lib.input_frames_next live.resampler)
                  ≡ false =
                ground (arith, size) in
              let less = convert-Shrinks live big in
              let next = (convert lib live).0 in
              let sum = length-append {0} next.pending xs in
              rw (e, wide, convert-add_pending xs live big)
                (go_on-continue n k m xs (convert lib live)
                  (drain-continue n k m xs next (omega arith) (omega arith) (omega arith)))
        ]

    go_on_returns :
        (n : ℕ) (c : LiveResampler F C × ApiResult (List F))
        → ((r : LiveResampler F C × ApiResult (List F)) × (drain lib n c.0 ≡ some r))
        → (r : LiveResampler F C × ApiResult (List F)) × (go_on lib (drain lib n) c ≡ some r)
    go_on_returns n (next, err e) h = ((next, err e), refl)
    go_on_returns n (next, ok out) ((live, err e), h) = ((live, err e), ap (prepend lib out) h)
    go_on_returns n (next, ok out) ((live, ok rest), h) =
        ((live, ok (out ++ rest)), ap (prepend lib out) h)

    pub drain_returns :
        (n : ℕ) (live : LiveResampler F C)
        → length live.pending < n
        → (r : LiveResampler F C × ApiResult (List F)) × (drain lib n live ≡ some r)
    unfolding drain
    drain_returns zero live h = absurd (omega arith)
    drain_returns (suc n) live h =
        elim (Bool-cases (ltb (length live.pending) (lib.input_frames_next live.resampler))) [
          | inl e ↦ rw e ((live, ok []), refl)
          | inr e ↦
              let less = convert-Shrinks live (ground arith) in
              rw e (
                go_on_returns n (convert lib live)
                  (drain_returns n (convert lib live).0 (omega arith)))
        ]
