-- ===== src/Vad/Spacing/Scanning.antt =====
-- src/vad.rs: what the first loop knows of its spans at each frame.
use stt_server.Prelude.{
  ℕ, ◌+◌, ◌-◌, ◌*◌, ◌≤◌, ◌<◌, ◌≡◌, refl, Bool, true, false, List, [], ◌∷◌, Option, none, some,
  length, subst, sym, ltb, leb, arith, Bool-cases, inl, inr,
}
use stt_server.Vad.{
  Span, checked_sub, Scan, or_at, loud_frame, keep_longer, close_span, quiet_frame, scan_frame,
  scan_frames, close_last,
}
use stt_server.Vad.Spacing.{Chain, Chain-widen, Chain-snoc, checked_sub_ok, >>=-Total}

-- Before the frame at `at`: closed spans end before it, an open one begins before it and after
-- them, and a silence lies between.
abbrev pub Known : ℕ → ℕ → List Span → Option ℕ → Option ℕ → Type 0
Known m at spans none q = Chain 0 m 0 spans (at - 512)
Known m at spans (some s) none = Chain 0 m 0 spans s × (s + 512 ≤ at)
Known m at spans (some s) (some f) = Chain 0 m 0 spans s × (s ≤ f) × (f + 512 ≤ at)

abbrev pub KnownScan : ℕ → ℕ → Scan → Type 0
KnownScan m at st = Known m at st.spans st.start st.silence_from

Known-later :
    (m at : ℕ) (spans : List Span) (s q : Option ℕ)
    → Known m at spans s q
    → Known m (at + 512) spans s q
Known-later m at spans none q k =
    Chain-widen 0 m 0 (at - 512) (at + 512 - 512) spans (omega arith) k
Known-later m at spans (some s) none k = (k.0, omega arith)
Known-later m at spans (some s) (some f) k = (k.0, k.1, omega arith)

keep_longer-Chain :
    (m s f : ℕ) (spans : List Span)
    → Chain 0 m 0 spans s
    → s ≤ f
    → Chain 0 m 0 (keep_longer m spans (record { start = s; end = f }) (f - s)) f
keep_longer-Chain m s f spans c h = elim (Bool-cases (ltb m (f - s))) [
  | inl e ↦ rw e (
      Chain-snoc m 0 s spans (record { start = s; end = f }) c (omega arith) (omega arith)
        (ground arith))
  | inr e ↦ rw e (Chain-widen 0 m 0 s f spans h c)
]

loud_frame-Known :
    (m at : ℕ) (st : Scan) → KnownScan m at st → KnownScan m (at + 512) (loud_frame at st)
unfolding loud_frame
loud_frame-Known m at st k = by_start st.start st.silence_from k
  where
    by_start :
        (s q : Option ℕ)
        → Known m at st.spans s q
        → Known m (at + 512) st.spans (some (or_at s at)) none
    by_start none q k = (Chain-widen 0 m 0 (at - 512) at st.spans (omega arith) k, omega arith)
    by_start (some s) none k = (k.0, omega arith)
    by_start (some s) (some f) k = (k.0, omega arith)

Known-open :
    (m at s : ℕ) (spans : List Span) (q : Option ℕ)
    → Known m at spans (some s) q
    → Chain 0 m 0 spans s × (s ≤ or_at q at) × (or_at q at ≤ at)
Known-open m at s spans none k = (k.0, omega arith, omega arith)
Known-open m at s spans (some f) k = (k.0, k.1, omega arith)

close_span-Known :
    (m at s f : ℕ) (st : Scan)
    → Chain 0 m 0 st.spans s
    → s ≤ f
    → f ≤ at
    → (out : Scan) × (close_span m s f st ≡ some out) × KnownScan m (at + 512) out
close_span-Known m at s f st c h h' =
    >>=-Total (checked_sub f s) _ (KnownScan m (at + 512)) (f - s) (checked_sub_ok f s h) (
      _,
      refl,
      Chain-widen 0 m 0 f (at + 512 - 512)
          (keep_longer m st.spans (record { start = s; end = f }) (f - s)) (omega arith)
          (keep_longer-Chain m s f st.spans c h),
    )

quiet_frame-Known :
    (m silence at : ℕ) (start : Option ℕ) (st : Scan)
    → st.start ≡ start
    → KnownScan m at st
    → (out : Scan) × (quiet_frame m silence at start st ≡ some out) × KnownScan m (at + 512) out
unfolding quiet_frame
quiet_frame-Known m silence at none st e k =
    (st, refl, Known-later m at st.spans st.start st.silence_from k)
quiet_frame-Known m silence at (some s) st e k =
    let f = or_at st.silence_from at in
    let known =
      Known-open m at s st.spans st.silence_from
        (subst (λ x. Known m at st.spans x st.silence_from) e k) in
    >>=-Total (checked_sub at f) _ (KnownScan m (at + 512)) (at - f) (checked_sub_ok at f known.2)
      (elim (Bool-cases (leb silence (at - f))) [
        | inl h ↦ rw h (close_span-Known m at s f st known.0 known.1 known.2)
        | inr h ↦ rw h (
          record st { silence_from = some f },
          refl,
          subst (λ x. Known m (at + 512) st.spans x (some f)) (sym e)
              (known.0, known.1, omega (arith, known.2)),
        )
      ])

scan_frame-Known :
    {Float : Type 0} (loud quiet : Float → Bool) (m silence at : ℕ) (p : Float) (st : Scan)
    → KnownScan m at st
    → (out : Scan) × (scan_frame loud quiet m silence at p st ≡ some out)
      × KnownScan m (at + 512) out
unfolding scan_frame
scan_frame-Known loud quiet m silence at p st k = by_tests (loud p) (quiet p) refl refl
  where
    by_tests :
        (l q : Bool)
        → loud p ≡ l
        → quiet p ≡ q
        → (out : Scan) × (scan_frame loud quiet m silence at p st ≡ some out)
          × KnownScan m (at + 512) out
    by_tests true q hl hq = (loud_frame at st, rw hl refl, loud_frame-Known m at st k)
    by_tests false true hl hq = rw hl (rw hq (quiet_frame-Known m silence at st.start st refl k))
    by_tests false false hl hq =
        (st, rw hl (rw hq refl), Known-later m at st.spans st.start st.silence_from k)

pub scan_frames-Known :
    {Float : Type 0} (loud quiet : Float → Bool) (m silence at last : ℕ) (ps : List Float)
    (st : Scan)
    → at + length ps * 512 ≡ last
    → KnownScan m at st
    → (out : Scan) × (scan_frames loud quiet m silence at ps st ≡ some out) × KnownScan m last out
unfolding scan_frames
scan_frames-Known loud quiet m silence at last [] st h k =
    (st, refl, subst (λ n. KnownScan m n st) (omega arith) k)
scan_frames-Known loud quiet m silence at last (p ∷ ps) st h k =
    let one = scan_frame-Known loud quiet m silence at p st k in
    >>=-Total (scan_frame loud quiet m silence at p st) _ (KnownScan m last) one.0 one.1
      (scan_frames-Known loud quiet m silence (at + 512) last ps one.0 (omega arith) one.2)

pub close_last-Chain :
    (m at total : ℕ) (spans : List Span) (start q : Option ℕ)
    → at < total + 512
    → Known m at spans start q
    → (out : List Span) × (close_last m total start spans ≡ some out) × Chain 0 m 0 out total
unfolding close_last
close_last-Chain m at total spans none q h k =
    (spans, refl, Chain-widen 0 m 0 (at - 512) total spans (omega arith) k)
close_last-Chain m at total spans (some s) none h k =
    >>=-Total (checked_sub total s) _ (λ out. Chain 0 m 0 out total) (total - s)
      (checked_sub_ok total s (omega arith))
      (_, refl, keep_longer-Chain m s total spans k.0 (omega arith))
close_last-Chain m at total spans (some s) (some f) h k =
    >>=-Total (checked_sub total s) _ (λ out. Chain 0 m 0 out total) (total - s)
      (checked_sub_ok total s (omega arith))
      (_, refl, keep_longer-Chain m s total spans k.0 (omega arith))
