-- ===== src/Audio/Wav.antt =====
-- src/audio.rs, decode_wav: the checks of an upload, its mix to mono and its resampling.
-- `WavReader` is what hound reads: `ints` and `floats` are the samples read as integers or floats,
-- missing when one cannot be read. A loop that does not end and a slice out of range are `none`.
pub mod Flushes
pub mod Sizes
use stt_server.Prelude.{
  ℕ, zero, suc, ◌+◌, ◌-◌, ◌*◌, ◌/◌, ◌%◌, Bool, true, false, not, ◌&&◌, ◌||◌, List, [], ◌∷◌, ◌++◌,
  map, Option, none, some, length, take, drop, all, ltb, leb, if◌then◌else◌, ◌==◌, codes, Text,
  String,
}
use stt_server.Errors.{ApiResult, ok, err, ◌>>=◌, api_error}
use stt_server.Audio.{Resampler}

pub data SampleFormat : Type 0 where
  int float : SampleFormat

pub record WavSpec : Type 0 where
  pub channels : ℕ
  pub sample_rate : ℕ
  pub sample_format : SampleFormat
  pub bits_per_sample : ℕ

pub record WavReader (I F : Type 0) : Type 0 where
  pub spec : WavSpec
  pub ints : Option (List I)
  pub floats : Option (List F)

-- The arithmetic on samples: an integer over 2 ^ 15 or 2 ^ 23, and the mean of a frame.
pub record Floats (I F : Type 0) : Type 0 where
  pub over_32768 : I → F
  pub over_8388608 : I → F
  pub is_finite : F → Bool
  pub mean : List F → F

module _ {A : Type 0} where
  -- `slice::chunks_exact`, with the rounds it takes.
  abbrev pub chunks_exact : ℕ → ℕ → List A → List (List A)
  chunks_exact zero n xs = []
  chunks_exact (suc fuel) n xs =
      let rest = chunks_exact fuel n (drop n xs) in
      if ltb (length xs) n then [] else take n xs ∷ rest

  -- `slice::chunks`: the last one may be shorter.
  abbrev pub chunks : ℕ → ℕ → List A → List (List A)
  chunks zero n xs = []
  chunks (suc fuel) n [] = []
  chunks (suc fuel) n (x ∷ xs) = take n (x ∷ xs) ∷ chunks fuel n (drop n (x ∷ xs))

abbrev pub invalid_audio : {A : Type 0} → String → ApiResult A
invalid_audio message = err (api_error 400 "invalid_audio" (codes message))

abbrev pub unsupported_audio : {A : Type 0} → String → ApiResult A
unsupported_audio message = err (api_error 400 "unsupported_audio" (codes message))

abbrev pub or_invalid : {A : Type 0} → String → Option A → ApiResult A
or_invalid message none = invalid_audio message
or_invalid message (some a) = ok a

module _ {I F : Type 0} (floats : Floats I F) where
  abbrev pub malformed : String
  malformed = "Malformed WAV samples"

  abbrev unsupported_samples : ApiResult (List F)
  unsupported_samples = unsupported_audio "Only 16/24-bit PCM and 32-bit float WAV are supported"

  abbrev read_as : SampleFormat → WavReader I F → ApiResult (List F)
  read_as int wav =
      if wav.spec.bits_per_sample == 16
      then (or_invalid malformed wav.ints >>= λ values. ok (map floats.over_32768 values))
      else if wav.spec.bits_per_sample == 24
      then (or_invalid malformed wav.ints >>= λ values. ok (map floats.over_8388608 values))
      else unsupported_samples
  read_as float wav =
      if wav.spec.bits_per_sample == 32
      then or_invalid malformed wav.floats
      else unsupported_samples

  -- The `match` on the format.
  unfoldable pub read_samples : WavReader I F → ApiResult (List F)
  read_samples wav = read_as wav.spec.sample_format wav

  abbrev check : Bool → ApiResult (Unit {0}) → ApiResult (Unit {0})
  check true refusal = ok tt
  check false refusal = refusal

  unfoldable pub check_spec : WavSpec → ApiResult (Unit {0})
  check_spec spec =
      check
        ((leb 1 spec.channels && leb spec.channels 2)
          && (leb 8000 spec.sample_rate && leb spec.sample_rate 192000))
        (unsupported_audio "WAV must have one or two channels and a sample rate from 8 to 192 kHz")

  unfoldable pub check_frames : WavSpec → List F → ApiResult (Unit {0})
  check_frames spec samples =
      check ((length samples % spec.channels == 0) && all floats.is_finite samples)
        (invalid_audio "WAV has incomplete frames or non-finite samples")

  unfoldable pub check_length : WavSpec → ℕ → ApiResult (Unit {0})
  check_length spec frame_count =
      if ltb frame_count (spec.sample_rate / 10)
      then err (api_error 400 "audio_too_short" (codes "At least 100 ms of audio is required"))
      else if ltb (spec.sample_rate * 10 * 60) frame_count
      then err (api_error 413 "audio_too_long" (codes "Audio exceeds the ten-minute limit"))
      else ok tt

  unfoldable pub mix : WavSpec → List F → List F
  mix spec samples = map floats.mean (chunks_exact (length samples) spec.channels samples)

  -- Everything before the resampling: the rate and the mono samples.
  unfoldable pub decode_mono : Option (WavReader I F) → ApiResult (ℕ × List F)
  unfolding read_samples check_spec check_frames check_length mix
  decode_mono opened = do
    wav ← or_invalid "A valid WAV file is required" opened
    _ ← check_spec wav.spec
    samples ← read_samples wav
    _ ← check_frames wav.spec samples
    _ ← check_length wav.spec (length samples / wav.spec.channels)
    ok (wav.spec.sample_rate, mix wav.spec samples)

module _ {F C : Type 0} (lib : Resampler F C) where
  abbrev pub Resampled : Type 0
  Resampled = C × ApiResult (List F)

  abbrev pub process_chunk : List F → C → Resampled
  process_chunk chunk resampler =
      if length chunk == 1024
      then lib.process chunk resampler
      else lib.process_partial (some chunk) resampler

  abbrev pub extend : List F → Resampled → Resampled
  extend output (resampler, err e) = (resampler, err e)
  extend output (resampler, ok converted) = (resampler, ok (output ++ converted))

  abbrev pub and_chunks : (C → List F → Resampled) → Resampled → Resampled
  and_chunks next (resampler, err e) = (resampler, err e)
  and_chunks next (resampler, ok output) = next resampler output

  -- The `for` loop over the chunks.
  unfoldable pub resample_chunks : List (List F) → C → List F → Resampled
  resample_chunks [] resampler output = (resampler, ok output)
  resample_chunks (chunk ∷ rest) resampler output =
      and_chunks (resample_chunks rest) (extend output (process_chunk chunk resampler))

  abbrev pub and_flush :
      (C → List F → Option (ApiResult (List F))) → Resampled → Option (ApiResult (List F))
  and_flush next (resampler, err e) = some (err e)
  and_flush next (resampler, ok output) = next resampler output

  -- The `while` loop.
  unfoldable pub flush_until : ℕ → ℕ → C → List F → Option (ApiResult (List F))
  flush_until zero wanted resampler output = none
  flush_until (suc fuel) wanted resampler output =
      if ltb (length output) wanted
      then and_flush (flush_until fuel wanted) (extend output (lib.process_partial none resampler))
      else some (ok output)

  -- `output[delay..delay + output_len]`.
  abbrev pub slice : ℕ → ℕ → List F → Option (List F)
  slice delay output_len output =
      if leb (delay + output_len) (length output)
      then some (take output_len (drop delay output))
      else none

  abbrev pub sliced : Option (List F) → Option (ApiResult (List F))
  sliced none = none
  sliced (some out) = some (ok out)

  abbrev pub and_slice : ℕ → ℕ → Option (ApiResult (List F)) → Option (ApiResult (List F))
  and_slice delay output_len none = none
  and_slice delay output_len (some (err e)) = some (err e)
  and_slice delay output_len (some (ok output)) = sliced (slice delay output_len output)

  -- `lag` is how many times in a row the resampler may give nothing when it is flushed: FftFixedIn
  -- gives its output in blocks, and a block may need several chunks.
  unfoldable pub resample : ℕ → ℕ → List F → C → Option (ApiResult (List F))
  resample lag output_len mono resampler =
      let delay = lib.output_delay resampler in
      let wanted = output_len + delay in
      and_slice delay output_len (
        and_flush (flush_until (suc wanted * suc lag) wanted)
          (resample_chunks (chunks (length mono) 1024 mono) resampler []))

  abbrev pub with_resampler : ℕ → ℕ → List F → ApiResult C → Option (ApiResult (List F))
  with_resampler lag output_len mono (err e) = some (err e)
  with_resampler lag output_len mono (ok resampler) = resample lag output_len mono resampler

  abbrev pub to_16_khz : ℕ → ApiResult (ℕ × List F) → Option (ApiResult (List F))
  to_16_khz lag (err e) = some (err e)
  to_16_khz lag (ok (sample_rate, mono)) =
      if sample_rate == 16000
      then some (ok mono)
      else with_resampler lag (length mono * 16000 / sample_rate) mono (lib.create sample_rate 1024)

  unfoldable pub decode_wav :
      {I : Type 0} → ℕ → Floats I F → Option (WavReader I F) → Option (ApiResult (List F))
  decode_wav lag floats opened = to_16_khz lag (decode_mono floats opened)
