-- ===== src/Audio.antt =====
-- src/audio.rs: uploads decoded to 16 kHz mono samples, and live PCM bytes decoded as they arrive.
-- Samples are floats, a parameter, and so are their arithmetic, the WAV reader (hound) and the
-- resampler (rubato). A buffer that the resampler returns has one channel, so it is a list.
pub mod Live
pub mod Wav
mod Tests
use stt_server.Prelude.{ℕ, List, Option}
use stt_server.Errors.{ApiResult}

-- `FftFixedIn`: each call leaves the resampler in a new state `C`, whatever it answers.
pub record Resampler (F C : Type 0) : Type 0 where
  pub create : ℕ → ℕ → ApiResult C  -- input rate, chunk size in frames
  pub output_delay : C → ℕ
  pub input_frames_next : C → ℕ
  pub process : List F → C → C × ApiResult (List F)
  pub process_partial : Option (List F) → C → C × ApiResult (List F)
