-- ===== src/Realtime/Session/Updates.antt =====
-- What the settings of a session may be, and how changing them and printing them fit together.
use stt_server.Prelude.{
  ℕ, ◌≤◌, ◌≡◌, refl, true, ◌||◌, [], ◌∷◌, Option, none, some, arith, Text, leb, Bool-cases, inl,
  inr, ◌&&◌,
}
use stt_server.Errors.{Json, ApiResult, ok, err, ◌>>=◌}
use stt_server.Realtime.Session.{
  SessionConfig, update, read_session, to_json, non_empty, model_or_default, set_model,
  set_language, set_prompt, set_transcription, set_target, get, as_str, as_u64, or_null, or_else,
  is_some, assigned, check_session, rate_value, transcription_value, target_value, set_all,
  read_rate, rate_in_range,
}

-- A rate within bounds, a named model, and no empty text among the options.
abbrev pub IsValid : SessionConfig → Type 0
IsValid c =
    (8000 ≤ c.sample_rate)
    × (c.sample_rate ≤ 48000)
    × (model_or_default c.model ≡ c.model)
    × (non_empty c.language ≡ c.language)
    × (non_empty c.target_language ≡ c.target_language)
    × (non_empty c.prompt ≡ c.prompt)

non_empty_idem : (t : Option Text) → non_empty (non_empty t) ≡ non_empty t
non_empty_idem none = refl
non_empty_idem (some []) = refl
non_empty_idem (some (c ∷ cs)) = refl

model_or_default_idem : (t : Text) → model_or_default (model_or_default t) ≡ model_or_default t
model_or_default_idem [] = refl
model_or_default_idem (c ∷ cs) = refl

set_model-IsValid : (m : Option Text) (c : SessionConfig) → IsValid c → IsValid (set_model m c)
set_model-IsValid none c v = v
set_model-IsValid (some m) c (lo, hi, _, l, t, p) = (lo, hi, model_or_default_idem m, l, t, p)

set_language-IsValid : (t : Json) (c : SessionConfig) → IsValid c → IsValid (set_language t c)
set_language-IsValid t c (lo, hi, m, l, g, p) =
    elim (Bool-cases (is_some (get "language" t) || is_some (get "languages" t))) [
      | inl e ↦ rw e (lo, hi, m, non_empty_idem _, g, p)
      | inr e ↦ rw e (lo, hi, m, l, g, p)
    ]

set_prompt-IsValid : (q : Option Json) (c : SessionConfig) → IsValid c → IsValid (set_prompt q c)
set_prompt-IsValid none c v = v
set_prompt-IsValid (some q) c (lo, hi, m, l, t, p) = (lo, hi, m, l, t, non_empty_idem _)

set_transcription-IsValid :
    (t : Option Json) (c : SessionConfig) → IsValid c → IsValid (set_transcription t c)
set_transcription-IsValid none c v = v
set_transcription-IsValid (some t) c v =
    set_prompt-IsValid (get "prompt" t) _ (set_language-IsValid t _ (set_model-IsValid _ c v))

set_target-IsValid : (t : Option Json) (c : SessionConfig) → IsValid c → IsValid (set_target t c)
set_target-IsValid none c v = v
set_target-IsValid (some t) c (lo, hi, m, l, g, p) = (lo, hi, m, l, non_empty_idem _, p)

-- Whatever is answered, when it is settings they are valid.
abbrev ValidOk : ApiResult SessionConfig → Type 0
ValidOk (ok c) = IsValid c
ValidOk (err e) = Unit {0}

ValidOk-bind :
    {A : Type 0}
    → (r : ApiResult A) (f : A → ApiResult SessionConfig) → ((a : A) → r ≡ ok a → ValidOk (f a))
    → ValidOk (r >>= f)
ValidOk-bind (ok a) f h = h a refl
ValidOk-bind (err e) f h = tt

rate_in_range_lem :
    (o : Option ℕ) (rate : ℕ) → rate_in_range o ≡ ok rate → (8000 ≤ rate) × (rate ≤ 48000)
rate_in_range_lem none rate e = cc e
rate_in_range_lem (some r) rate e = ground (arith, e)

read_rate_lem :
    (c : SessionConfig) (r : Option Json) (rate : ℕ)
    → IsValid c
    → read_rate c.sample_rate r ≡ ok rate
    → (8000 ≤ rate) × (rate ≤ 48000)
read_rate_lem c none rate v e = ground (arith, e, v.0, v.1)
read_rate_lem c (some r) rate v e = rate_in_range_lem (as_u64 r) rate e

set_all-IsValid :
    (c : SessionConfig) (session : Json) (rate : ℕ)
    → IsValid c
    → ((8000 ≤ rate) × (rate ≤ 48000))
    → IsValid (set_all c session rate)
unfolding set_all
set_all-IsValid c session rate (_, _, m, l, t, p) (lo, hi) =
    set_target-IsValid (target_value session)
      (set_transcription (transcription_value session) (record c { sample_rate = rate }))
      (set_transcription-IsValid (transcription_value session) (record c { sample_rate = rate })
        (lo, hi, m, l, t, p))

read_session-ValidOk :
    (c : SessionConfig) (session : Json) → IsValid c → ValidOk (read_session c session)
unfolding read_session
read_session-ValidOk c session v =
    ValidOk-bind (check_session session)
      (λ _. read_rate c.sample_rate (rate_value session) >>= λ rate. ok (set_all c session rate))
      (λ _ _.
        ValidOk-bind (read_rate c.sample_rate (rate_value session))
          (λ rate. ok (set_all c session rate))
          (λ rate e.
            set_all-IsValid c session rate v (read_rate_lem c (rate_value session) rate v e)))

assigned-IsValid :
    (c : SessionConfig) (r : ApiResult SessionConfig)
    → IsValid c
    → ValidOk r
    → IsValid (assigned c r).0
assigned-IsValid c (ok next) v h = h
assigned-IsValid c (err e) v h = v

-- Whatever object a client sends, valid settings stay valid: the sample rate within 8000 and
-- 48000, the model named, and no empty text among the options.
pub update-IsValid : (session : Json) (c : SessionConfig) → IsValid c → IsValid (update session c).0
unfolding update
update-IsValid session c v =
    assigned-IsValid c (read_session c session) v (read_session-ValidOk c session v)

as_str-or_null : (o : Option Text) → as_str (or_null o) ≡ o
as_str-or_null none = refl
as_str-or_null (some t) = refl

or_else-none : (o : Option Text) → or_else o none ≡ o
or_else-none none = refl
or_else-none (some t) = refl

-- The object that the server shows for valid settings, sent back on any session, gives it these
-- settings under its own id.
pub update-to_json :
    (c d : SessionConfig) → IsValid c → update (to_json c) d ≡ (record c { id = d.id }, ok tt)
unfolding update read_session to_json check_session set_all
update-to_json c d (lo, hi, m, l, t, p) =
    let in_range : (leb 8000 c.sample_rate && leb c.sample_rate 48000) ≡ true = ground arith in
    rw
      (
        in_range,
        as_str-or_null c.language,
        as_str-or_null c.target_language,
        as_str-or_null c.prompt,
        or_else-none c.language,
        m,
        l,
        t,
        p,
      )
      refl
