-- ===== src/Audio/Live.antt =====
-- src/audio.rs, PcmStream: little-endian 16-bit samples in chunks of any size.
-- `sample` is the float of a 16-bit pattern. A loop that does not end is `none`.
pub mod Chunks
pub mod Pushes
use stt_server.Prelude.{
  ℕ, zero, suc, ◌+◌, ◌-◌, ◌*◌, ◌/◌, List, [], ◌∷◌, ◌++◌, Option, none, some, length, take, drop,
  ltb, min, if◌then◌else◌, ◌==◌,
}
use stt_server.Errors.{ApiResult, ok, err, ◌>>=◌}
use stt_server.Audio.{Resampler}

pub record LiveResampler (F C : Type 0) : Type 0 where
  pub resampler : C
  pub pending : List F
  pub skip : ℕ  -- leading output samples still to discard

pub record PcmStream (F C : Type 0) : Type 0 where
  pub odd_byte : Option ℕ
  pub live : Option (LiveResampler F C)

-- The samples of the bytes, the first of which may complete the byte held back; and the byte left.
unfoldable pub pairs : {F : Type 0} → (ℕ → F) → Option ℕ → List ℕ → List F × Option ℕ
pairs sample odd [] = ([], odd)
pairs sample none (byte ∷ rest) = pairs sample (some byte) rest
pairs sample (some low) (high ∷ rest) =
    let (samples, odd) = pairs sample none rest in (sample (low + 256 * high) ∷ samples, odd)

module _ {F C : Type 0} (lib : Resampler F C) where
  -- What is left to skip, and the output that goes on.
  unfoldable pub emit : List F → LiveResampler F C → LiveResampler F C × List F
  emit converted live =
      let dropped = min live.skip (length converted) in
      (record live { skip = live.skip - dropped }, drop dropped converted)

  -- 20 ms of input per resampler chunk.
  unfoldable pub live_chunk_frames : ℕ → ℕ
  live_chunk_frames sample_rate = sample_rate / 50

  unfoldable pub new : ℕ → ApiResult (PcmStream F C)
  unfolding live_chunk_frames
  new sample_rate =
      if sample_rate == 16000
      then ok (record { odd_byte = none; live = none })
      else lib.create sample_rate (live_chunk_frames sample_rate) >>= λ resampler. ok (record {
        odd_byte = none;
        live =
            some
              (record { resampler = resampler; pending = []; skip = lib.output_delay resampler });
      })

  abbrev pub emit_or_err :
      LiveResampler F C → ApiResult (List F) → LiveResampler F C × ApiResult (List F)
  emit_or_err live (err e) = (live, err e)
  emit_or_err live (ok converted) =
      let (after, emitted) = emit converted live in (after, ok emitted)

  -- One round: take a chunk, resample it, emit it.
  unfoldable pub convert : LiveResampler F C → LiveResampler F C × ApiResult (List F)
  convert live =
      let needed = lib.input_frames_next live.resampler in
      let (resampler, converted) = lib.process (take needed live.pending) live.resampler in
      emit_or_err (record live { resampler = resampler; pending = drop needed live.pending })
        converted

  abbrev pub Drained : Type 0
  Drained = Option (LiveResampler F C × ApiResult (List F))

  abbrev pub prepend : List F → Drained → Drained
  prepend out none = none
  prepend out (some (live, err e)) = some (live, err e)
  prepend out (some (live, ok rest)) = some (live, ok (out ++ rest))

  abbrev pub go_on :
      (LiveResampler F C → Drained) → LiveResampler F C × ApiResult (List F) → Drained
  go_on again (next, err e) = some (next, err e)
  go_on again (next, ok out) = prepend out (again next)

  -- The `loop` of `push`.
  unfoldable pub drain : ℕ → LiveResampler F C → Drained
  drain zero live = none
  drain (suc fuel) live =
      if ltb (length live.pending) (lib.input_frames_next live.resampler)
      then some (live, ok [])
      else go_on (drain fuel) (convert live)

  abbrev pub Pushed : Type 0
  Pushed = Option (PcmStream F C × ApiResult (List F))

  abbrev pub with_odd : Option ℕ → Drained → Pushed
  with_odd odd none = none
  with_odd odd (some (live, r)) = some (record { odd_byte = odd; live = some live }, r)

  abbrev pub push_samples : Option (LiveResampler F C) → List F × Option ℕ → Pushed
  push_samples none (samples, odd) = some (record { odd_byte = odd; live = none }, ok samples)
  push_samples (some live) (samples, odd) =
      let pending = live.pending ++ samples in
      with_odd odd (drain (suc (length pending)) (record live { pending = pending }))

  unfoldable pub push : (ℕ → F) → List ℕ → PcmStream F C → Pushed
  push sample bytes s = push_samples s.live (pairs sample s.odd_byte bytes)

  abbrev pub and_emit :
      List F → LiveResampler F C × ApiResult (List F) → LiveResampler F C × ApiResult (List F)
  and_emit out (live, err e) = (live, err e)
  and_emit out (live, ok more) = (live, ok (out ++ more))

  -- `process_partial` and `emit`.
  abbrev pub partial : Option (List F) → LiveResampler F C → LiveResampler F C × ApiResult (List F)
  partial input live =
      let (resampler, converted) = lib.process_partial input live.resampler in
      emit_or_err (record live { resampler = resampler }) converted

  abbrev pub flush_after :
      LiveResampler F C × ApiResult (List F) → LiveResampler F C × ApiResult (List F)
  flush_after (live, err e) = (live, err e)
  flush_after (live, ok out) = and_emit out (partial none live)

  abbrev pub flush_tail : List F → LiveResampler F C → LiveResampler F C × ApiResult (List F)
  flush_tail [] live = partial none live
  flush_tail (x ∷ tail) live = flush_after (partial (some (x ∷ tail)) live)

  abbrev pub finish_live :
      Option (LiveResampler F C) → Option (LiveResampler F C) × ApiResult (List F)
  finish_live none = (none, ok [])
  finish_live (some live) =
      let (after, r) = flush_tail live.pending (record live { pending = [] }) in (some after, r)

  unfoldable pub finish : PcmStream F C → PcmStream F C × ApiResult (List F)
  finish s = let (live, r) = finish_live s.live in (record s { live = live }, r)
