-- ===== src/RunPlan/Sound.antt =====
-- src/run_plan.rs and src/capabilities.rs: what the checks of `plan` leave of a request.
use stt_server.Prelude.{
  ℕ, ◌≤◌, ◌≡◌, ◌⊎◌, inl, inr, refl, Bool, true, false, List, [], ◌∷◌, Option, none, some, Text,
  subst, arith, any, ltb, text_eq, codes, if◌then◌else◌,
}
use stt_server.Errors.{ApiResult, ok, err, ◌>>=◌}
use stt_server.Capabilities.{
  TimestampGranularity, no_timestamps, segment, word, token, EffectiveCaps, is_whisper,
  supports_translation, offers_translation_target, max_timestamp_granularity,
}
use stt_server.RunPlan.Language.{resolve_language}
use stt_server.RunPlan.Hints.{Among, resolve_language-Fits}
use stt_server.RunPlan.{
  Endpoint, transcriptions, translations, PlannedTask, transcribe, translate, ResponseFormat, json,
  plain, verbose_json, ParsedRequest, Plan, counted, too_long, plan_prompt, plan_temperature,
  plan_format, plan_timestamps, target_of, source_language, source_is_target, plan_task, plan,
}

abbrev pub rank : TimestampGranularity → ℕ
rank no_timestamps = 0
rank segment = 1
rank word = 2
rank token = 3

-- The prompt goes out verbatim, to a whisper model, within the limit as far as it can be counted.
abbrev pub PromptFits :
    EffectiveCaps → Option (Text → Option ℕ) → Option Text → Option Text → Type 0
PromptFits caps tokenize asked none = (asked ≡ none) ⊎ (asked ≡ some [])
PromptFits caps tokenize asked (some p) =
    (asked ≡ some p)
    × (is_whisper caps ≡ true)
    × (too_long caps.loaded.prompt_max_tokens (counted tokenize p) ≡ none)

abbrev pub TemperatureFits :
    {Float : Type 0} → (Float → Bool) → EffectiveCaps → Option Float → Type 0
TemperatureFits in_unit caps none = Unit {0}
TemperatureFits in_unit caps (some t) = (in_unit t ≡ true) × (is_whisper caps ≡ true)

-- The finest granularity named, or segments where none is named and the model claims them.
abbrev pub timestamps_for : EffectiveCaps → List Text → ResponseFormat → TimestampGranularity
timestamps_for caps granularities verbose_json =
    if any (λ g. text_eq g (codes "word")) granularities
    then word
    else if any (λ g. text_eq g (codes "segment")) granularities
    then segment
    else if ltb 0 (rank (max_timestamp_granularity caps))
    then segment
    else no_timestamps
timestamps_for caps granularities _ = no_timestamps

-- Translating goes from another language into one that the model offers.
abbrev pub TaskFits : EffectiveCaps → Option Text → Option Text → PlannedTask → Option Text → Type 0
TaskFits caps applied asked transcribe none = Unit {0}
TaskFits caps applied asked transcribe (some t) = ⊥
TaskFits caps applied asked translate none = ⊥
TaskFits caps applied asked translate (some t) =
    (t ≡ target_of asked)
    × (supports_translation caps ≡ true)
    × (offers_translation_target caps t ≡ true)
    × (source_is_target (source_language applied caps.loaded.languages) t ≡ false)

pub record Fits {Float : Type 0} (in_unit : Float → Bool) (request : ParsedRequest Float)
    (caps : EffectiveCaps) (tokenize : Option (Text → Option ℕ)) (p : Plan Float) : Type 0 where
  pub prompt_fits : PromptFits caps tokenize request.prompt p.initial_prompt
  pub temperature_kept : p.temperature ≡ request.temperature
  pub temperature_fits : TemperatureFits in_unit caps p.temperature
  pub timestamps_asked :
      p.timestamps ≡ timestamps_for caps request.timestamp_granularities p.response_format
  pub timestamps_fit : rank p.timestamps ≤ rank (max_timestamp_granularity caps)
  pub task_fits : TaskFits caps p.applied_language request.target_language p.task p.target_language
  pub language_applied : p.language ≡ p.applied_language
  pub language_fits : Among caps.loaded.languages p.language

-- A fact about the value of a step that succeeds.
abbrev pub OnOk : {A : Type 0} → (A → Type 0) → ApiResult A → Type 0
OnOk P (ok a) = P a
OnOk P (err _) = Unit {0}

pub OnOk-bind :
    {A B : Type 0} (P : A → Type 0) (Q : B → Type 0) (m : ApiResult A) (f : A → ApiResult B)
    → OnOk P m
    → ((a : A) → P a → OnOk Q (f a))
    → OnOk Q (m >>= f)
OnOk-bind P Q (ok a) f h k = k a h
OnOk-bind P Q (err e) f h k = tt

pub OnOk-skip :
    {A B : Type 0} (Q : B → Type 0) (m : ApiResult A) (f : A → ApiResult B)
    → ((a : A) → OnOk Q (f a))
    → OnOk Q (m >>= f)
OnOk-skip Q (ok a) f k = k a
OnOk-skip Q (err e) f k = tt

pub OnOk-at : {A : Type 0} (P : A → Type 0) (m : ApiResult A) (a : A) → OnOk P m → m ≡ ok a → P a
OnOk-at P m a h e = subst (OnOk P) e h

prompt_lem :
    (caps : EffectiveCaps) (tokenize : Option (Text → Option ℕ)) (asked : Option Text)
    → OnOk (PromptFits caps tokenize asked) (plan_prompt caps tokenize asked)
unfolding plan_prompt
prompt_lem caps tokenize none = inl refl
prompt_lem caps tokenize (some []) = inr refl
prompt_lem caps tokenize (some (c ∷ cs)) =
    by_limit (is_whisper caps) (too_long caps.loaded.prompt_max_tokens (counted tokenize (c ∷ cs)))
      refl refl
  where
    by_limit :
        (w : Bool) (o : Option (ℕ × ℕ))
        → is_whisper caps ≡ w
        → too_long caps.loaded.prompt_max_tokens (counted tokenize (c ∷ cs)) ≡ o
        → OnOk
            (PromptFits caps tokenize (some (c ∷ cs)))
            (plan_prompt caps tokenize (some (c ∷ cs)))
    by_limit true none hw ho = rw hw (rw ho (refl, hw, ho))
    by_limit true (some o) hw ho = rw hw (rw ho tt)
    by_limit false o hw ho = rw hw tt

temperature_lem :
    {Float : Type 0} (in_unit : Float → Bool) (caps : EffectiveCaps) (asked : Option Float)
    → OnOk (λ v. (v ≡ asked) × TemperatureFits in_unit caps v) (plan_temperature in_unit caps asked)
unfolding plan_temperature
temperature_lem in_unit caps none = (refl, tt)
temperature_lem in_unit caps (some t) = by_tests (in_unit t) (is_whisper caps) refl refl
  where
    by_tests :
        (u w : Bool)
        → in_unit t ≡ u
        → is_whisper caps ≡ w
        → OnOk
            (λ v. (v ≡ some t) × TemperatureFits in_unit caps v)
            (plan_temperature in_unit caps (some t))
    by_tests true true hu hw = rw hu (rw hw (refl, (hu, hw)))
    by_tests true false hu hw = rw hu (rw hw tt)
    by_tests false w hu hw = rw hu tt

abbrev TimestampsFit : EffectiveCaps → List Text → ResponseFormat → TimestampGranularity → Type 0
TimestampsFit caps gs f t =
    (t ≡ timestamps_for caps gs f) × (rank t ≤ rank (max_timestamp_granularity caps))

timestamps_lem :
    (caps : EffectiveCaps) (gs : List Text) (f : ResponseFormat)
    → OnOk (λ v. TimestampsFit caps gs f v.0) (plan_timestamps caps gs f)
unfolding plan_timestamps
timestamps_lem caps gs json = (refl, omega arith)
timestamps_lem caps gs plain = (refl, omega arith)
timestamps_lem caps gs verbose_json = ground arith

task_lem :
    (caps : EffectiveCaps) (applied asked : Option Text) (e : Endpoint)
    → OnOk (λ v. TaskFits caps applied asked v.0 v.1) (plan_task caps applied asked e)
unfolding plan_task
task_lem caps applied asked transcriptions = tt
task_lem caps applied asked translations =
    by_tests (supports_translation caps)
      (source_is_target (source_language applied caps.loaded.languages) (target_of asked))
      (offers_translation_target caps (target_of asked)) refl refl refl
  where
    by_tests :
        (s i o : Bool)
        → supports_translation caps ≡ s
        → source_is_target (source_language applied caps.loaded.languages) (target_of asked) ≡ i
        → offers_translation_target caps (target_of asked) ≡ o
        → OnOk
            (λ v. TaskFits caps applied asked v.0 v.1)
            (plan_task caps applied asked translations)
    by_tests false i o hs hi ho = rw hs tt
    by_tests true true o hs hi ho = rw hs (rw hi tt)
    by_tests true false true hs hi ho = rw hs (rw hi (rw ho (refl, hs, ho, hi)))
    by_tests true false false hs hi ho = rw hs (rw hi (rw ho tt))

module _ {Float : Type 0} (in_unit : Float → Bool) (to_lowercase : Text → Text) where
  plan-OnOk :
      (request : ParsedRequest Float) (caps : EffectiveCaps) (endpoint : Endpoint)
      (tokenize : Option (Text → Option ℕ))
      → OnOk
          (Fits in_unit request caps tokenize)
          (plan in_unit to_lowercase request caps endpoint tokenize)
  unfolding plan
  plan-OnOk request caps endpoint tokenize =
      let r = resolve_language to_lowercase request.language caps in
      let lang = resolve_language-Fits to_lowercase request.language caps in
      OnOk-bind (PromptFits caps tokenize request.prompt) (Fits in_unit request caps tokenize)
        (plan_prompt caps tokenize request.prompt) _ (prompt_lem caps tokenize request.prompt)
        (λ prompt hp.
          OnOk-bind (λ v. (v ≡ request.temperature) × TemperatureFits in_unit caps v)
            (Fits in_unit request caps tokenize) (plan_temperature in_unit caps request.temperature)
            _ (temperature_lem in_unit caps request.temperature)
            (λ temperature ht.
              OnOk-skip (Fits in_unit request caps tokenize) (plan_format request.response_format) _
                (λ f.
                  OnOk-bind (λ v. TimestampsFit caps request.timestamp_granularities f v.0)
                    (Fits in_unit request caps tokenize)
                    (plan_timestamps caps request.timestamp_granularities f) _
                    (timestamps_lem caps request.timestamp_granularities f)
                    (λ ts hts.
                      OnOk-bind
                        (λ v. TaskFits caps r.applied_language request.target_language v.0 v.1)
                        (Fits in_unit request caps tokenize)
                        (plan_task caps r.applied_language request.target_language endpoint) _
                        (task_lem caps r.applied_language request.target_language endpoint)
                        (λ task hk. record {
                          prompt_fits = hp;
                          temperature_kept = ht.0;
                          temperature_fits = ht.1;
                          timestamps_asked = hts.0;
                          timestamps_fit = hts.1;
                          task_fits = hk;
                          language_applied = lang.0;
                          language_fits = lang.1;
                        })))))

  -- Whatever is asked, a plan that comes out has this of the request and of what the loaded model
  -- reports: the prompt is the one asked for, goes to a whisper model and exceeds no limit that can
  -- be counted; the temperature is the one asked for, lies within 0.0..=1.0 and goes to a whisper
  -- model; the timestamps are the finest asked for, or the default, and within the ceiling reported
  -- when the model was loaded, also where a run has rejected them since; a translation is into the
  -- trimmed target, one that the model offers and that is not the source's language; and the
  -- language is one of those that the model lists, also on an architecture that ignores it, or left
  -- to the engine.
  pub plan-Fits :
      (request : ParsedRequest Float) (caps : EffectiveCaps) (endpoint : Endpoint)
      (tokenize : Option (Text → Option ℕ)) (p : Plan Float)
      → plan in_unit to_lowercase request caps endpoint tokenize ≡ ok p
      → Fits in_unit request caps tokenize p
  plan-Fits request caps endpoint tokenize p h =
      OnOk-at (Fits in_unit request caps tokenize)
        (plan in_unit to_lowercase request caps endpoint tokenize) p
        (plan-OnOk request caps endpoint tokenize) h
