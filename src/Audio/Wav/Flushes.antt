-- ===== src/Audio/Wav/Flushes.antt =====
-- The loop of decode_wav that flushes the resampler ends, with enough output for its slice.
use stt_server.Prelude.{
  ℕ, zero, suc, ◌+◌, ◌-◌, ◌*◌, ◌≤◌, ◌<◌, ◌≡◌, sym, subst, append-nil, true, List, [], ◌∷◌, ◌++◌,
  Option, none, some, arith, length, drop, ltb, leb, length-append, length-take, length-drop,
  Bool-cases, inl, inr,
}
use stt_server.Errors.{ApiResult, ok, err}
use stt_server.Audio.{Resampler}
use stt_server.Audio.Wav.{
  Resampled, and_flush, extend, flush_until, and_slice, resample, with_resampler,
}

mul_fewer : (a b n : ℕ) → a < b → a * n + n ≤ b * n
mul_fewer a b n h = grind arith

enough : (wanted have n : ℕ) → (wanted - have) * n + n ≤ suc wanted * n
enough wanted have n = grind arith

module _ {F C : Type 0} (lib : Resampler F C) where
  -- A sample or an error, else what holds of the state behind it.
  abbrev GivesOr : (C → Type 0) → Resampled lib → Type 0
  GivesOr again (c, err e) = Unit {0}
  GivesOr again (c, ok []) = again c
  GivesOr again (c, ok (_ ∷ _)) = Unit {0}

  abbrev GivesWithin : ℕ → C → Type 0
  GivesWithin zero c = ⊥
  GivesWithin (suc calls) c = GivesOr (GivesWithin calls) (lib.process_partial none c)

  -- Fed with zeros, the resampler gives nothing at most `lag` times in a row.
  abbrev pub Productive : ℕ → Type 0
  Productive lag = (c : C) → GivesWithin (suc lag) c

  -- The loop ended, and the buffer it left is this long.
  abbrev AtLeast : ℕ → Option (ApiResult (List F)) → Type 0
  AtLeast wanted none = ⊥
  AtLeast wanted (some (err e)) = Unit {0}
  AtLeast wanted (some (ok output)) = wanted ≤ length output

  module _ (lag wanted : ℕ) (gives : Productive lag) where
    -- The calls that are enough with this much output, when the next sample is within `calls`.
    abbrev Enough : ℕ → ℕ → List F → Type 0
    Enough fuel calls output = (wanted - length output) * suc lag + calls ≤ fuel

    abbrev Loop : ℕ → Type 0
    Loop fuel =
        (calls : ℕ) (c : C) (output : List F)
        → GivesWithin calls c
        → Enough fuel calls output
        → AtLeast wanted (flush_until lib fuel wanted c output)

    after_call :
        (fuel calls : ℕ) (output : List F) (r : Resampled lib)
        → Loop fuel
        → GivesOr (GivesWithin calls) r
        → length output < wanted
        → Enough (suc fuel) (suc calls) output
        → AtLeast wanted (and_flush lib (flush_until lib fuel wanted) (extend lib output r))
    after_call fuel calls output (c, err e) loop g l h = tt
    after_call fuel calls output (c, ok []) loop g l h =
        loop calls c (output ++ []) g
          (subst (Enough fuel calls) (sym (append-nil output)) (omega (arith, h)))
    after_call fuel calls output (c, ok (x ∷ more)) loop g l h =
        let fewer : wanted - length (output ++ x ∷ more) < wanted - length output =
          omega (arith, length-append {0} output (x ∷ more)) in
        let drops =
          mul_fewer (wanted - length (output ++ x ∷ more)) (wanted - length output) (suc lag)
            fewer in
        loop (suc lag) c (output ++ x ∷ more) (gives c) (omega (arith, h, drops))

    flush_until-AtLeast : (fuel : ℕ) → Loop fuel
    unfolding flush_until
    flush_until-AtLeast fuel zero c output g h = absurd g
    flush_until-AtLeast zero (suc calls) c output g h = absurd (omega (arith, h))
    flush_until-AtLeast (suc fuel) (suc calls) c output g h =
        elim (Bool-cases (ltb (length output) wanted)) [
          | inl e ↦ rw e (
              after_call fuel calls output (lib.process_partial none c) (flush_until-AtLeast fuel) g
                (ground arith) h)
          | inr e ↦ rw e (ground arith)
        ]

    flushed-AtLeast :
        (r : Resampled lib)
        → AtLeast wanted (and_flush lib (flush_until lib (suc wanted * suc lag) wanted) r)
    flushed-AtLeast (c, err e) = tt
    flushed-AtLeast (c, ok output) =
        flush_until-AtLeast (suc wanted * suc lag) (suc lag) c output (gives c)
          (enough wanted (length output) (suc lag))

  -- A result, and when it is samples, how many.
  abbrev pub Counts : ℕ → Option (ApiResult (List F)) → Type 0
  Counts n none = ⊥
  Counts n (some (err e)) = Unit {0}
  Counts n (some (ok out)) = length out ≡ n

  and_slice-Counts :
      (delay n : ℕ) (r : Option (ApiResult (List F)))
      → AtLeast (n + delay) r
      → Counts n (and_slice lib delay n r)
  and_slice-Counts delay n none h = h
  and_slice-Counts delay n (some (err e)) h = tt
  and_slice-Counts delay n (some (ok output)) h =
      let fits : leb (delay + n) (length output) ≡ true = ground arith in
      rw fits (omega (arith, length-take {0} n (drop delay output), length-drop {0} delay output))

  resample-Counts :
      (lag : ℕ)
      → Productive lag
      → (n : ℕ) (mono : List F) (c : C) → Counts n (resample lib lag n mono c)
  unfolding resample
  resample-Counts lag gives n mono c =
      and_slice-Counts (lib.output_delay c) n _
        (flushed-AtLeast lag (n + lib.output_delay c) gives _)

  pub with_resampler-Counts :
      (lag : ℕ)
      → Productive lag
      → (n : ℕ) (mono : List F) (created : ApiResult C)
      → Counts n (with_resampler lib lag n mono created)
  with_resampler-Counts lag gives n mono (err e) = tt
  with_resampler-Counts lag gives n mono (ok c) = resample-Counts lag gives n mono c
