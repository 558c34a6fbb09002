-- ===== src/Audio/Live/Pushes.antt =====
-- Pushes of PcmStream, one after the other.
use stt_server.Prelude.{
  ℕ, suc, ◌+◌, ◌≤◌, ◌≡◌, refl, sym, ap, ◌∙◌, subst, List, [], ◌∷◌, ◌++◌, Option, none, some, arith,
  length, append_assoc, append-nil,
}
use stt_server.Errors.{ApiResult, ok, err}
use stt_server.Audio.{Resampler}
use stt_server.Audio.Live.{
  LiveResampler, PcmStream, pairs, drain, Drained, prepend, push, Pushed, with_odd, push_samples,
}
use stt_server.Audio.Live.Chunks.{
  pairs-append, continue, drain-continue, drain_fuel, drain_returns, add_pending,
}

module _ {F C : Type 0} (lib : Resampler F C) where
  -- What a push gives, behind the samples that were given before.
  abbrev pub behind : List F → Pushed lib → Pushed lib
  behind out none = none
  behind out (some (s, err e)) = some (s, err e)
  behind out (some (s, ok more)) = some (s, ok (out ++ more))

  -- Push, and when that gave samples, go on.
  abbrev pub and_then : (PcmStream F C → Pushed lib) → Pushed lib → Pushed lib
  and_then next none = none
  and_then next (some (s, err e)) = some (s, err e)
  and_then next (some (s, ok out)) = behind out (next s)

  -- One push after the other, up to the first error.
  abbrev pub pushes : (ℕ → F) → List ℕ → List (List ℕ) → PcmStream F C → Pushed lib
  pushes sample bytes [] s = push lib sample bytes s
  pushes sample bytes (next ∷ chunks) s =
      and_then (pushes sample next chunks) (push lib sample bytes s)

  abbrev pub concat : List (List ℕ) → List ℕ
  concat [] = []
  concat (c ∷ cs) = c ++ concat cs

  module _ (hungry : (c : C) → 1 ≤ lib.input_frames_next c) (sample : ℕ → F) where
    with_odd-prepend :
        (odd : Option ℕ) (out : List F) (d : Drained lib)
        → with_odd lib odd (prepend lib out d) ≡ behind out (with_odd lib odd d)
    with_odd-prepend odd out none = refl
    with_odd-prepend odd out (some (live, err e)) = refl
    with_odd-prepend odd out (some (live, ok more)) = refl

    -- The two drains of two pushes, as one.
    drain-drain :
        (last : Option ℕ) (p xs ys : List F) (live l : LiveResampler F C) (out : List F)
        → drain lib (suc (length (p ++ xs))) (record live { pending = p ++ xs }) ≡ some (l, ok out)
        → with_odd lib last
            (drain lib (suc (length (p ++ (xs ++ ys)))) (record live { pending = p ++ (xs ++ ys) }))
          ≡ behind out (push_samples lib (some l) (ys, last))
    drain-drain last p xs ys live l out e =
        let n = suc (length ((p ++ xs) ++ ys)) in
        let k = suc (length (l.pending ++ ys)) in
        let now : LiveResampler F C = record live { pending = p ++ xs } in
        let whole =
          drain-continue lib hungry n (suc (length (p ++ xs))) (n + k) ys now (omega arith)
            (omega arith) (omega arith) in
        let same =
          drain_fuel lib hungry (n + k) k (add_pending lib ys l) (omega arith) (omega arith) in
        rw (sym (append_assoc p xs ys)) (
          ap (with_odd lib last)
            (whole ∙ (ap (continue lib (n + k) ys) e ∙ ap (prepend lib out) same))
          ∙ with_odd-prepend last out (drain lib k (add_pending lib ys l)))

    drained-append :
        (odd last : Option ℕ) (xs ys : List F) (live : LiveResampler F C) (d : Drained lib)
        (s : PcmStream F C) (out : List F)
        → drain lib
            (suc (length (live.pending ++ xs)))
            (record live { pending = live.pending ++ xs })
          ≡ d
        → with_odd lib odd d ≡ some (s, ok out)
        → push_samples lib (some live) (xs ++ ys, last)
          ≡ and_then (λ s. push_samples lib s.live (ys, last)) (with_odd lib odd d)
    drained-append odd last xs ys live none s out e h = cc h
    drained-append odd last xs ys live (some (l, err x)) s out e h = cc h
    drained-append odd last xs ys live (some (l, ok o)) s out e h =
        drain-drain last live.pending xs ys live l o e

    push_samples-append :
        (live : Option (LiveResampler F C)) (xs ys : List F) (odd last : Option ℕ)
        (s : PcmStream F C) (out : List F)
        → push_samples lib live (xs, odd) ≡ some (s, ok out)
        → push_samples lib live (xs ++ ys, last) ≡ behind out (push_samples lib s.live (ys, last))
    push_samples-append live xs ys odd last s out e =
        subst
          (λ r.
            push_samples lib live (xs ++ ys, last)
            ≡ and_then (λ s. push_samples lib s.live (ys, last)) r)
          e (before live e)
      where
        before :
            (live : Option (LiveResampler F C))
            → push_samples lib live (xs, odd) ≡ some (s, ok out)
            → push_samples lib live (xs ++ ys, last)
              ≡ and_then (λ s. push_samples lib s.live (ys, last)) (push_samples lib live (xs, odd))
        before none e = refl
        before (some live) e = drained-append odd last xs ys live _ s out refl e

    abbrev odd_or : Option ℕ → Pushed lib → Option ℕ
    odd_or odd none = odd
    odd_or odd (some (s, r)) = s.odd_byte

    odd_or-with_odd : (odd : Option ℕ) (d : Drained lib) → odd_or odd (with_odd lib odd d) ≡ odd
    odd_or-with_odd odd none = refl
    odd_or-with_odd odd (some (live, r)) = refl

    odd_or-push_samples :
        (live : Option (LiveResampler F C)) (xs : List F) (odd : Option ℕ)
        → odd_or odd (push_samples lib live (xs, odd)) ≡ odd
    odd_or-push_samples none xs odd = refl
    odd_or-push_samples (some live) xs odd = odd_or-with_odd odd _

    -- When pushing `xs` gave samples, pushing `ys` next is pushing both at once.
    pub push-append :
        (xs ys : List ℕ) (s s' : PcmStream F C) (out : List F)
        → push lib sample xs s ≡ some (s', ok out)
        → push lib sample (xs ++ ys) s ≡ behind out (push lib sample ys s')
    unfolding push
    push-append xs ys s s' out e =
        let (samples, odd) = pairs sample s.odd_byte xs in
        let odd_is : s'.odd_byte ≡ odd =
          sym (ap (odd_or odd) e) ∙ odd_or-push_samples s.live samples odd in
        let (more, last) = pairs sample odd ys in
        rw (pairs-append sample s.odd_byte xs ys, odd_is)
          (push_samples-append s.live samples more odd last s' out e)

    -- What both pushes give, when the first gives samples and the second does.
    abbrev Joins : List ℕ → PcmStream F C → Pushed lib → Type 0
    Joins bytes s none = Unit {0}
    Joins bytes s (some (s', err e)) = Unit {0}
    Joins bytes s (some (s', ok out)) = push lib sample bytes s ≡ some (s', ok out)

    Joins-behind :
        (xs ys : List ℕ) (s s1 : PcmStream F C) (out : List F) (r : Pushed lib)
        → push lib sample xs s ≡ some (s1, ok out)
        → Joins ys s1 r
        → Joins (xs ++ ys) s (behind out r)
    Joins-behind xs ys s s1 out none e h = tt
    Joins-behind xs ys s s1 out (some (s', err _)) e h = tt
    Joins-behind xs ys s s1 out (some (s', ok more)) e h =
        push-append xs ys s s1 out e ∙ ap (behind out) h

    Joins-and_then :
        (xs ys : List ℕ) (s : PcmStream F C) (next : PcmStream F C → Pushed lib) (r : Pushed lib)
        → push lib sample xs s ≡ r
        → ((s1 : PcmStream F C) → Joins ys s1 (next s1))
        → Joins (xs ++ ys) s (and_then next r)
    Joins-and_then xs ys s next none e h = tt
    Joins-and_then xs ys s next (some (s1, err _)) e h = tt
    Joins-and_then xs ys s next (some (s1, ok out)) e h =
        Joins-behind xs ys s s1 out (next s1) e (h s1)

    pushed-Joins :
        (bytes : List ℕ) (s : PcmStream F C) (r : Pushed lib)
        → push lib sample bytes s ≡ r
        → Joins bytes s r
    pushed-Joins bytes s none e = tt
    pushed-Joins bytes s (some (s', err _)) e = tt
    pushed-Joins bytes s (some (s', ok _)) e = e

    pushes-Joins :
        (bytes : List ℕ) (chunks : List (List ℕ)) (s : PcmStream F C)
        → Joins (bytes ++ concat chunks) s (pushes sample bytes chunks s)
    pushes-Joins bytes [] s = rw (append-nil bytes) (pushed-Joins bytes s _ refl)
    pushes-Joins bytes (next ∷ chunks) s =
        Joins-and_then bytes (next ++ concat chunks) s (pushes sample next chunks) _ refl
          (λ s1. pushes-Joins next chunks s1)

    -- A resampler that wants at least one frame for each chunk cannot tell how the bytes were cut:
    -- when pushing them chunk by chunk meets no error, pushing them all at once gives the same
    -- samples and leaves the same stream.
    pub pushes-push :
        (bytes : List ℕ) (chunks : List (List ℕ)) (s s' : PcmStream F C) (out : List F)
        → pushes sample bytes chunks s ≡ some (s', ok out)
        → push lib sample (bytes ++ concat chunks) s ≡ some (s', ok out)
    pushes-push bytes chunks s s' out e =
        subst (Joins (bytes ++ concat chunks) s) e (pushes-Joins bytes chunks s)

    push_samples_returns :
        (live : Option (LiveResampler F C)) (read : List F × Option ℕ)
        → (r : PcmStream F C × ApiResult (List F)) × (push_samples lib live read ≡ some r)
    push_samples_returns none (samples, odd) =
        ((record { odd_byte = odd; live = none }, ok samples), refl)
    push_samples_returns (some live) (samples, odd) =
        let now : LiveResampler F C = record live { pending = live.pending ++ samples } in
        let ((after, r), e) =
          drain_returns lib hungry (suc (length now.pending)) now (omega arith) in
        ((record { odd_byte = odd; live = some after }, r), ap (with_odd lib odd) e)

    -- When the resampler wants at least one frame for each chunk, `push` ends on every input.
    pub push_returns :
        (bytes : List ℕ) (s : PcmStream F C)
        → (r : PcmStream F C × ApiResult (List F)) × (push lib sample bytes s ≡ some r)
    unfolding push
    push_returns bytes s = push_samples_returns s.live (pairs sample s.odd_byte bytes)
