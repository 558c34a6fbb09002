-- ===== src/Vad/Tests.antt =====
-- A concrete recording, and the detector's theorem at one. Probabilities are per cent here.
use stt_server.Prelude.{ℕ, zero, suc, ◌-◌, ◌≡◌, refl, List, [], ◌∷◌, ◌++◌, some, length, leb, ltb}
use stt_server.Vad.{
  Params, Span, ms, segments, scan_frames, scan_frame, loud_frame, quiet_frame, close_last,
  pad_spans, pad_from, merge_spans, merge_from, detect,
}
use stt_server.Vad.Spacing.{Chain}
use stt_server.Vad.Spacing.Result.{detect-Chain}

abbrev params : Params ℕ
params = record { threshold = 50; min_speech_ms = 50; min_silence_ms = 30; speech_pad_ms = 10 }

abbrev repeat : ℕ → ℕ → List ℕ
repeat zero x = []
repeat (suc n) x = x ∷ repeat n x

-- Two stretches of speech with a pause between them; the second lasts to the end.
abbrev probabilities : List ℕ
probabilities = repeat 2 10 ++ repeat 4 80 ++ (40 ∷ []) ++ repeat 3 20 ++ repeat 6 90

two_spans :
    segments
      (λ threshold p. leb threshold p)
      (λ threshold p. ltb p (threshold - 15))
      probabilities
      8000
      params
    ≡ some (record { start = 864; end = 3744 } ∷ record { start = 4960; end = 8000 } ∷ [])
unfolding segments scan_frames scan_frame loud_frame quiet_frame close_last pad_spans pad_from
    merge_spans merge_from
two_spans = refl

first_or_zero : List ℕ → ℕ
first_or_zero [] = 0
first_or_zero (x ∷ _) = x

abbrev recording : List ℕ
recording = repeat 3000 70 ++ repeat 2000 5

detect-Chain_example :
    (out : List Span) × (detect {State = ℕ}
        (λ state frame. (state, first_or_zero frame))
        (λ t p. leb t p)
        (λ t p. ltb p (t - 15))
        0
        recording
        params
      ≡ some out)
    × Chain 2 (ms 50) 0 out (length recording)
detect-Chain_example =
    detect-Chain {State = ℕ} (λ state frame. (state, first_or_zero frame)) (λ t p. leb t p)
      (λ t p. ltb p (t - 15)) 0 recording params
