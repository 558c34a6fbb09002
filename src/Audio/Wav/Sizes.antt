-- ===== src/Audio/Wav/Sizes.antt =====
-- The sizes in decode_wav.
use stt_server.Prelude.{
  ℕ, zero, suc, ◌*◌, ◌/◌, ◌≤◌, ◌≡◌, refl, sym, ap, ◌∙◌, List, [], ◌∷◌, map, Option, none, some,
  arith, length, drop, ◌==◌, length-drop, Bool-cases, inl, inr, ◌⊎◌,
}
use stt_server.Errors.{ApiResult, ok, err, ◌>>=◌}
use stt_server.Audio.{Resampler}
use stt_server.Audio.Wav.Flushes.{Productive, Counts, with_resampler-Counts}
use stt_server.Audio.Wav.{
  chunks_exact, WavSpec, WavReader, Floats, check_length, check_spec, check_frames, read_samples,
  mix, to_16_khz, decode_mono, decode_wav,
}

module _ {A : Type 0} where
  length-map : {B : Type 0} → (f : A → B) (xs : List A) → length (map f xs) ≡ length xs
  length-map f [] = refl
  length-map f (x ∷ xs) = ap suc (length-map f xs)

  length-chunks_exact :
      (fuel n : ℕ) (xs : List A)
      → length xs ≤ fuel
      → (n ≡ 1) ⊎ (n ≡ 2)
      → length (chunks_exact fuel n xs) ≡ length xs / n
  length-chunks_exact zero n xs h (inl e) = rw e (omega arith)
  length-chunks_exact zero n xs h (inr e) = rw e (omega arith)
  length-chunks_exact (suc fuel) n xs h (inl e) =
      let ih =
        length-chunks_exact fuel 1 (drop 1 xs) (omega (arith, length-drop 1 xs)) (inl refl) in
      rw e (ground (arith, ih, length-drop 1 xs))
  length-chunks_exact (suc fuel) n xs h (inr e) =
      let ih =
        length-chunks_exact fuel 2 (drop 2 xs) (omega (arith, length-drop 2 xs)) (inr refl) in
      rw e (ground (arith, ih, length-drop 2 xs))

-- What decode_mono lets through: two rates and a length between 100 ms and ten minutes.
abbrev pub InBounds : ℕ → ℕ → Type 0
InBounds rate frames =
    (8000 ≤ rate) × (rate ≤ 192000) × (rate / 10 ≤ frames) × (frames ≤ rate * 10 * 60)

module _ {I F : Type 0} (floats : Floats I F) where
  abbrev pub Bounded : ApiResult (ℕ × List F) → Type 0
  Bounded (err e) = Unit {0}
  Bounded (ok (rate, mono)) = InBounds rate (length mono)

  Bounded-check_length :
      (spec : WavSpec) (samples mono : List F)
      → length mono ≡ length samples / spec.channels
      → 8000 ≤ spec.sample_rate
      → spec.sample_rate ≤ 192000
      → Bounded (
          check_length floats spec (length samples / spec.channels) >>= λ _.
          ok (spec.sample_rate, mono))
  unfolding check_length
  Bounded-check_length spec samples mono e lo hi = rw (sym e) (ground arith)

  Bounded-bind :
      {A : Type 0}
      → (r : ApiResult A) (f : A → ApiResult (ℕ × List F)) → ((a : A) → r ≡ ok a → Bounded (f a))
      → Bounded (r >>= f)
  Bounded-bind (ok a) f h = h a refl
  Bounded-bind (err e) f h = tt

  abbrev SpecFits : WavSpec → Type 0
  SpecFits spec =
      (1 ≤ spec.channels)
      × (spec.channels ≤ 2)
      × (8000 ≤ spec.sample_rate)
      × (spec.sample_rate ≤ 192000)

  check_spec-SpecFits :
      (spec : WavSpec) (u : Unit {0}) → check_spec floats spec ≡ ok u → SpecFits spec
  unfolding check_spec
  check_spec-SpecFits spec u e = ground (arith, e)

  mono_length :
      (spec : WavSpec) (samples : List F)
      → SpecFits spec
      → length (mix floats spec samples) ≡ length samples / spec.channels
  unfolding mix
  mono_length spec samples (lo, hi, _, _) =
      length-map floats.mean (chunks_exact (length samples) spec.channels samples)
      ∙ length-chunks_exact (length samples) spec.channels samples (omega arith) (ground arith)

  decode_mono-Bounded : (opened : Option (WavReader I F)) → Bounded (decode_mono floats opened)
  unfolding decode_mono
  decode_mono-Bounded none = tt
  decode_mono-Bounded (some wav) = Bounded-bind (check_spec floats wav.spec) _ λ u e.
      let fits = check_spec-SpecFits wav.spec u e in
      let (_, _, lo, hi) = fits in
      Bounded-bind (read_samples floats wav) _ λ samples _.
        Bounded-bind (check_frames floats wav.spec samples) _ λ _ _.
          Bounded-check_length wav.spec samples (mix floats wav.spec samples)
            (mono_length wav.spec samples fits) lo hi

-- The bounds of the number of samples.
resampled_bounds :
    (rate frames : ℕ)
    → InBounds rate frames
    → (1598 ≤ frames * 16000 / rate) × (frames * 16000 / rate ≤ 9600000)
resampled_bounds rate frames (lo, hi, short, long) = (grind arith, grind arith)

module _ {I F C : Type 0} (floats : Floats I F) (lib : Resampler F C) where
  -- Resampled to 16 kHz, with between 1598 and 9,600,000 samples; an error stays as it is.
  abbrev pub Sized : ApiResult (ℕ × List F) → Option (ApiResult (List F)) → Type 0
  Sized mono none = ⊥
  Sized (err e) (some r) = r ≡ err e
  Sized (ok (rate, mono)) (some (err e)) = Unit {0}
  Sized (ok (rate, mono)) (some (ok out)) =
      (length out ≡ length mono * 16000 / rate) × (1598 ≤ length out) × (length out ≤ 9600000)

  Counts-Sized :
      (rate : ℕ) (mono : List F) (r : Option (ApiResult (List F)))
      → InBounds rate (length mono)
      → Counts lib (length mono * 16000 / rate) r
      → Sized (ok (rate, mono)) r
  Counts-Sized rate mono none b h = h
  Counts-Sized rate mono (some (err e)) b h = tt
  Counts-Sized rate mono (some (ok out)) b h =
      let (lo, hi) = resampled_bounds rate (length mono) b in (h, rw h lo, rw h hi)

  to_16_khz-Sized :
      (lag : ℕ)
      → Productive lib lag
      → (mono : ApiResult (ℕ × List F)) → Bounded floats mono
      → Sized mono (to_16_khz lib lag mono)
  to_16_khz-Sized lag gives (err e) b = refl
  to_16_khz-Sized lag gives (ok (rate, mono)) b = elim (Bool-cases (rate == 16000)) [
    | inl e ↦
        let rate_is : rate ≡ 16000 = ground arith in
        let same : length mono ≡ length mono * 16000 / rate = rw rate_is (omega arith) in
        rw e (Counts-Sized rate mono (some (ok mono)) b same)
    | inr e ↦ rw e (
        Counts-Sized rate mono _ b (
          with_resampler-Counts lib lag gives (length mono * 16000 / rate) mono
            (lib.create rate 1024)))
  ]

  -- With a resampler that gives nothing at most `lag` times in a row when it is flushed, whatever
  -- `lag` is, decoding an upload ends without a slice out of range: it refuses as the checks refuse,
  -- or gives frames * 16000 / rate samples, between 1598 and 9,600,000 of them, unless the resampler
  -- itself fails.
  pub decode_wav-Sized :
      (lag : ℕ) (opened : Option (WavReader I F))
      → Productive lib lag
      → Sized (decode_mono floats opened) (decode_wav lib lag floats opened)
  unfolding decode_wav
  decode_wav-Sized lag opened gives =
      to_16_khz-Sized lag gives (decode_mono floats opened) (decode_mono-Bounded floats opened)
