-- ===== src/Audio/Tests.antt =====
-- Runs of src/audio.rs with a resampler that passes its input on, and the witnesses.
use stt_server.Prelude.{
  ℕ, zero, suc, ◌≤◌, ◌≡◌, refl, true, List, [], ◌∷◌, Option, none, some, arith, length,
}
use stt_server.Errors.{ApiResult, ok}
use stt_server.Audio.{Resampler}
use stt_server.Audio.Live.{
  PcmStream, push, finish, new, pairs, drain, convert, emit, live_chunk_frames,
}
use stt_server.Audio.Live.Pushes.{pushes, pushes-push, push_returns}
use stt_server.Audio.Wav.{Floats, WavReader, SampleFormat, decode_wav, decode_mono}
use stt_server.Audio.Wav.Flushes.{Productive}
use stt_server.Audio.Wav.Sizes.{Sized, decode_wav-Sized}

abbrev answer : Option (List ℕ) → List ℕ
answer none = 0 ∷ []
answer (some xs) = xs

-- Chunks of two frames, a delay of one, and a zero when it is asked for more.
abbrev plain : Resampler ℕ (Unit {0})
plain = record {
  create = λ _ _. ok tt;
  output_delay = λ _. 1;
  input_frames_next = λ _. 2;
  process = λ xs c. (c, ok xs);
  process_partial = λ xs c. (c, ok (answer xs));
}

abbrev pattern_of : ℕ → ℕ
pattern_of n = n

abbrev fresh : PcmStream ℕ (Unit {0})
fresh = record { odd_byte = none; live = some (record { resampler = tt; pending = []; skip = 1 }) }

abbrev after : PcmStream ℕ (Unit {0})
after = record {
  odd_byte = none;
  live = some (record { resampler = tt; pending = 5 ∷ []; skip = 0 });
}

new_lem : new plain 24000 ≡ ok fresh
unfolding new live_chunk_frames
new_lem = refl

hungry : (c : Unit {0}) → 1 ≤ plain.input_frames_next c
hungry c = omega arith

-- A sample straddles the first two chunks, and the filter's delay of one sample is skipped.
two_chunks :
    pushes plain pattern_of (1 ∷ 0 ∷ 2 ∷ []) ((0 ∷ 5 ∷ []) ∷ (0 ∷ []) ∷ []) fresh
    ≡ some (after, ok (2 ∷ []))
unfolding push pairs drain convert emit
two_chunks = refl

pushes-push_example :
    push plain pattern_of (1 ∷ 0 ∷ 2 ∷ 0 ∷ 5 ∷ 0 ∷ []) fresh ≡ some (after, ok (2 ∷ []))
pushes-push_example =
    pushes-push plain hungry pattern_of (1 ∷ 0 ∷ 2 ∷ []) ((0 ∷ 5 ∷ []) ∷ (0 ∷ []) ∷ []) fresh after
      (2 ∷ []) two_chunks

push_returns_example :
    (r : PcmStream ℕ (Unit {0}) × ApiResult (List ℕ)) × (push plain pattern_of
        (1 ∷ 0 ∷ 2 ∷ [])
        fresh
      ≡ some r)
push_returns_example = push_returns plain hungry pattern_of (1 ∷ 0 ∷ 2 ∷ []) fresh

finish_lem : finish plain after ≡ (
  record after { live = some (record { resampler = tt; pending = []; skip = 0 }) },
  ok (5 ∷ 0 ∷ []),
)
unfolding finish emit
finish_lem = refl

abbrev repeat : ℕ → List ℕ
repeat zero = []
repeat (suc n) = 7 ∷ repeat n

abbrev whole : Floats ℕ ℕ
whole = record {
  over_32768 = pattern_of;
  over_8388608 = pattern_of;
  is_finite = λ _. true;
  mean = length;
}

abbrev upload : WavReader ℕ ℕ
upload = record {
  spec = record {
    channels = 2;
    sample_rate = 8000;
    sample_format = SampleFormat.int;
    bits_per_sample = 16;
  };
  ints = some (repeat 1600);
  floats = none;
}

-- A resampler that gives its output in blocks, on every other call.
abbrev every_other : ℕ → ℕ × ApiResult (List ℕ)
every_other zero = (1, ok [])
every_other (suc _) = (0, ok (repeat 1500))

abbrev blocks : Resampler ℕ ℕ
blocks = record {
  create = λ _ _. ok 0;
  output_delay = λ _. 20;
  input_frames_next = λ _. 1024;
  process = λ _ c. every_other c;
  process_partial = λ _ c. every_other c;
}

productive : Productive blocks 1
productive zero = tt
productive (suc _) = tt

decode_wav-Sized_example :
    Sized whole blocks (decode_mono whole (some upload)) (decode_wav blocks 1 whole (some upload))
decode_wav-Sized_example = decode_wav-Sized whole blocks 1 (some upload) productive
