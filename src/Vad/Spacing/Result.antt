-- ===== src/Vad/Spacing/Result.antt =====
-- src/vad.rs: the whole detector, from samples to spans.
use stt_server.Prelude.{
  ℕ, zero, suc, ◌+◌, ◌-◌, ◌*◌, ◌≤◌, ◌<◌, ◌≡◌, refl, Bool, List, [], ◌∷◌, none, some, length, drop,
  length-drop, arith,
}
use stt_server.Vad.{
  Params, Span, ms, pad_spans, merge_spans, segments, chunks, scores, frame_probabilities, detect,
  start_at,
}
use stt_server.Vad.Spacing.{Chain, Chain-lower, pad_from-Chain, merge_from-Chain, >>=-Total}
use stt_server.Vad.Spacing.Scanning.{scan_frames-Known, close_last-Chain}

pad_spans-Chain :
    (m pad total : ℕ) (spans : List Span)
    → Chain 0 m 0 spans total
    → (out : List Span) × (pad_spans pad total spans ≡ some out) × Chain 0 m 0 out total
unfolding pad_spans
pad_spans-Chain m pad total [] k = ([], refl, tt)
pad_spans-Chain m pad total (s ∷ rest) k =
    pad_from-Chain m pad total 0 (start_at s (s.start - pad)) rest (omega arith) (omega arith) k.2
      (Chain-lower 0 m (s.end + 0) s.end total rest (omega arith) k.3)

merge_spans-Chain :
    (m total : ℕ) (spans : List Span)
    → Chain 0 m 0 spans total
    → Chain 2 m 0 (merge_spans spans) total
unfolding merge_spans
merge_spans-Chain m total [] k = tt
merge_spans-Chain m total (s ∷ rest) k =
    merge_from-Chain m total 0 s rest k.0 k.1 k.2
      (Chain-lower 0 m (s.end + 0) s.end total rest (omega arith) k.3)

segments-Chain :
    {Float : Type 0} (at_least below_negative : Float → Float → Bool) (probabilities : List Float)
    (total : ℕ) (params : Params Float)
    → length probabilities * 512 < total + 512
    → (out : List Span) × (segments at_least below_negative probabilities total params ≡ some out)
      × Chain 2 (ms params.min_speech_ms) 0 out total
unfolding segments
segments-Chain at_least below_negative probabilities total params h =
    let m = ms params.min_speech_ms in
    let P : List Span → Type 0 = (λ out. Chain 2 m 0 out total) in
    let scan =
      scan_frames-Known (at_least params.threshold) (below_negative params.threshold) m
        (ms params.min_silence_ms) 0 (length probabilities * 512) probabilities
        (record { spans = []; start = none; silence_from = none }) (omega arith) tt in
    let closed =
      close_last-Chain m (length probabilities * 512) total scan.0.spans scan.0.start
        scan.0.silence_from h scan.2 in
    let padded = pad_spans-Chain m (ms params.speech_pad_ms) total closed.0 closed.2 in
    >>=-Total _ _ P scan.0 scan.1 (
      >>=-Total _ _ P closed.0 closed.1 (
        >>=-Total _ _ P padded.0 padded.1
          (merge_spans padded.0, refl, merge_spans-Chain m total padded.0 padded.2)))

length-chunks :
    {A : Type 0} (fuel : ℕ) (xs : List A)
    → length xs ≤ fuel
    → length (chunks fuel xs) * 512 < length xs + 512
length-chunks zero [] h = omega arith
length-chunks zero (x ∷ xs) h = absurd (omega arith)
length-chunks (suc fuel) [] h = omega arith
length-chunks (suc fuel) (x ∷ xs) h = omega (
  arith,
  length-drop 512 (x ∷ xs),
  length-chunks fuel (drop 512 (x ∷ xs)) (omega (arith, length-drop 512 (x ∷ xs))),
)

module _ {Float State : Type 0} (score : State → List Float → State × Float) where
  length-scores :
      (state : State) (frames : List (List Float))
      → length (scores score state frames) ≡ length frames
  unfolding scores
  length-scores state [] = refl
  length-scores state (f ∷ fs) = omega (arith, length-scores (score state f).0 fs)

  -- For any audio, settings and network, detection gives a list of spans and no subtraction in it
  -- goes below zero; the spans lie within the samples, in order, at least two samples apart, and
  -- each is longer than the minimum speech time.
  pub detect-Chain :
      (at_least below_negative : Float → Float → Bool) (new : State) (samples : List Float)
      (params : Params Float)
      → (out : List Span) × (detect score at_least below_negative new samples params ≡ some out)
        × Chain 2 (ms params.min_speech_ms) 0 out (length samples)
  unfolding detect frame_probabilities
  detect-Chain at_least below_negative new samples params =
      segments-Chain at_least below_negative (frame_probabilities score new samples)
        (length samples) params
        (omega (
          arith,
          length-scores new (chunks (length samples) samples),
          length-chunks (length samples) samples (omega arith),
        ))
