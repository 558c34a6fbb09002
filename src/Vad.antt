-- ===== src/Vad.antt =====
-- src/vad.rs: from frame probabilities to speech spans. Probabilities are floats: `Float`, the
-- comparisons with the thresholds, and the network's step from frame to frame are parameters.
-- A subtraction on `usize` that would go below zero is `none`, the panic or wrap-around it is.
pub mod Spacing
mod Tests
use stt_server.Prelude.{
  ℕ, zero, suc, ◌+◌, ◌-◌, ◌*◌, ◌/◌, Bool, true, false, not, List, [], ◌∷◌, ◌++◌, Option, none, some,
  String, length, take, drop, min, max, ltb, leb, if◌then◌else◌,
}

abbrev pub frame_size : ℕ
frame_size = 512

pub record Params (Float : Type 0) : Type 0 where
  pub threshold : Float
  pub min_speech_ms : ℕ  -- u32, as the others
  pub min_silence_ms : ℕ
  pub speech_pad_ms : ℕ

abbrev pub max_ms : ℕ
max_ms = 60_000

-- What `validate` names in its message.
pub data Invalid : Type 0 where
  threshold_range : Invalid
  duration_range : String → Invalid

-- `in_range` is `(0.05..=0.95).contains`.
unfoldable pub validate : {Float : Type 0} → (Float → Bool) → Params Float → Option Invalid
validate in_range p =
    if not (in_range p.threshold)
    then some threshold_range
    else if ltb max_ms p.min_speech_ms
    then some (duration_range "min_speech_ms")
    else if ltb max_ms p.min_silence_ms
    then some (duration_range "min_silence_ms")
    else if ltb max_ms p.speech_pad_ms
    then some (duration_range "speech_pad_ms")
    else none

pub record Span : Type 0 where
  pub start : ℕ
  pub end : ℕ

infixl 5 ◌>>=◌
abbrev pub ◌>>=◌ {ℓ κ} : {A : Type ℓ} {B : Type κ} → Option A → (A → Option B) → Option B
none >>= f = none
some a >>= f = f a

abbrev pub checked_sub : ℕ → ℕ → Option ℕ
checked_sub a b = if ltb a b then none else some (a - b)

-- `value * (SAMPLE_RATE / 1000)`.
abbrev pub ms : ℕ → ℕ
ms value = value * (16_000 / 1000)

-- The variables of the first loop.
pub record Scan : Type 0 where
  pub spans : List Span
  pub start : Option ℕ
  pub silence_from : Option ℕ

abbrev pub or_at : Option ℕ → ℕ → ℕ
or_at none at = at
or_at (some s) at = s

-- `at` starts a span unless one is open; a loud frame ends any silence.
unfoldable pub loud_frame : ℕ → Scan → Scan
loud_frame at st = record st { start = some (or_at st.start at); silence_from = none }

abbrev pub keep_longer : ℕ → List Span → Span → ℕ → List Span
keep_longer min_speech spans span spoken =
    if ltb min_speech spoken then spans ++ (span ∷ []) else spans

abbrev pub close_span : ℕ → ℕ → ℕ → Scan → Option Scan
close_span min_speech speech_start silence_start st = do
  spoken ← checked_sub silence_start speech_start
  some (record {
    spans =
        keep_longer min_speech st.spans (record { start = speech_start; end = silence_start })
          spoken;
    start = none;
    silence_from = none;
  })

unfoldable pub quiet_frame : ℕ → ℕ → ℕ → Option ℕ → Scan → Option Scan
quiet_frame min_speech min_silence at none st = some st
quiet_frame min_speech min_silence at (some speech_start) st = do
  silence ← checked_sub at (or_at st.silence_from at)
  if leb min_silence silence
      then close_span min_speech speech_start (or_at st.silence_from at) st
      else some (record st { silence_from = some (or_at st.silence_from at) })

module _ {Float : Type 0} (loud quiet : Float → Bool) where
  -- One round: `loud` is `probability >= threshold`, `quiet` is `probability < negative_threshold`.
  unfoldable pub scan_frame : ℕ → ℕ → ℕ → Float → Scan → Option Scan
  scan_frame min_speech min_silence at p st =
      if loud p
      then some (loud_frame at st)
      else if quiet p
      then quiet_frame min_speech min_silence at st.start st
      else some st

  unfoldable pub scan_frames : ℕ → ℕ → ℕ → List Float → Scan → Option Scan
  scan_frames min_speech min_silence at [] st = some st
  scan_frames min_speech min_silence at (p ∷ ps) st = do
    st' ← scan_frame min_speech min_silence at p st
    scan_frames min_speech min_silence (at + frame_size) ps st'

-- Speech that lasts to the end of the audio.
unfoldable pub close_last : ℕ → ℕ → Option ℕ → List Span → Option (List Span)
close_last min_speech total none spans = some spans
close_last min_speech total (some speech_start) spans = do
  spoken ← checked_sub total speech_start
  some (keep_longer min_speech spans (record { start = speech_start; end = total }) spoken)

-- One round's two assignments: the span with its end, before the rest with the next one's start,
-- `by` less than it was.
abbrev pub parted : ℕ → ℕ → Span → Option (List Span) → Option (List Span)
parted next_start by span rest = do
  _ ← checked_sub next_start by
  padded ← rest
  some (span ∷ padded)

abbrev pub end_at : Span → ℕ → Span
end_at span e = record span { end = e }

abbrev pub start_at : Span → ℕ → Span
start_at span s = record span { start = s }

-- The padding loop from its second line on, `span` being `spans[i]` as the rounds before left it.
unfoldable pub pad_from : ℕ → ℕ → Span → List Span → Option (List Span)
pad_from pad total span [] = some (end_at span (min (span.end + pad) total) ∷ [])
pad_from pad total span (next ∷ rest) = do
  gap ← checked_sub next.start span.end
  let middle = pad_from pad total (start_at next (next.start - gap / 2)) rest
  let apart = pad_from pad total (start_at next (next.start - pad)) rest
  if ltb gap (2 * pad)
      then parted next.start (gap / 2) (end_at span (span.end + gap / 2)) middle
      else parted next.start pad (end_at span (min (span.end + pad) total)) apart

unfoldable pub pad_spans : ℕ → ℕ → List Span → Option (List Span)
pad_spans pad total [] = some []
pad_spans pad total (span ∷ rest) =
    pad_from pad total (record span { start = span.start - pad }) rest

-- The merging loop, `last` being the last of `merged`.
unfoldable pub merge_from : Span → List Span → List Span
merge_from last [] = last ∷ []
merge_from last (span ∷ rest) =
    let joined = merge_from (record last { end = max last.end span.end }) rest in
    let apart = merge_from span rest in
    if leb span.start (last.end + 1) then joined else last ∷ apart

unfoldable pub merge_spans : List Span → List Span
merge_spans [] = []
merge_spans (span ∷ rest) = merge_from span rest

module _ {Float : Type 0} (at_least below_negative : Float → Float → Bool) where
  unfoldable pub segments : List Float → ℕ → Params Float → Option (List Span)
  segments probabilities total params = do
    scanned ←
        scan_frames (at_least params.threshold) (below_negative params.threshold)
          (ms params.min_speech_ms) (ms params.min_silence_ms) 0 probabilities
          (record { spans = []; start = none; silence_from = none })
    spans ← close_last (ms params.min_speech_ms) total scanned.start scanned.spans
    padded ← pad_spans (ms params.speech_pad_ms) total spans
    some (merge_spans padded)

-- `samples.chunks(FRAME)`; a frame takes at least one sample, so the length is fuel enough.
abbrev pub chunks {ℓ} : {A : Type ℓ} → ℕ → List A → List (List A)
chunks zero samples = []
chunks (suc fuel) [] = []
chunks (suc fuel) (x ∷ xs) = take frame_size (x ∷ xs) ∷ chunks fuel (drop frame_size (x ∷ xs))

module _ {Float State : Type 0} (score : State → List Float → State × Float) where
  -- `score` pads a short chunk with zeros and runs the network on it.
  unfoldable pub scores : State → List (List Float) → List Float
  scores state [] = []
  scores state (frame ∷ frames) =
      let scored = score state frame in scored.1 ∷ scores scored.0 frames

  unfoldable pub frame_probabilities : State → List Float → List Float
  frame_probabilities new samples = scores new (chunks (length samples) samples)

  unfoldable pub detect :
      (Float → Float → Bool)
      → (Float → Float → Bool)
      → State
      → List Float
      → Params Float
      → Option (List Span)
  detect at_least below_negative new samples params =
      segments at_least below_negative (frame_probabilities new samples) (length samples) params
