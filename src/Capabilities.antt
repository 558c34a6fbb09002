-- ===== src/Capabilities.antt =====
-- src/capabilities.rs: what a loaded model can do, and the questions the planner asks of it.
use stt_server.Prelude.{
  ℕ, Bool, true, false, not, ◌&&◌, List, [], ◌∷◌, Option, none, some, Text, codes, text_eq, any,
}

pub data TimestampGranularity : Type 0 where
  no_timestamps segment word token : TimestampGranularity

pub record LoadedCaps : Type 0 where
  pub arch : Text
  pub languages : List Text
  pub translate_target_languages : List Text
  pub supports_translate : Bool
  pub supports_language_detect : Bool
  pub max_timestamp_kind : TimestampGranularity
  pub feature_initial_prompt_flag : Bool
  pub whisper_ext_accepted : Option Bool
  pub prompt_max_tokens : Option ℕ
  pub timestamp_granularity_rejected : Bool
  pub supports_streaming : Bool
  pub supports_spec_decode : Bool
  pub supports_pnc : Bool
  pub supports_itn : Bool
  pub supports_cancellation : Bool
  pub supports_long_form : Bool
  pub native_sample_rate : ℕ  -- i32, passed on unread

abbrev or_true : Option Bool → Bool
or_true none = true
or_true (some b) = b

unfoldable pub whisper_gate : LoadedCaps → Bool
whisper_gate caps = text_eq caps.arch (codes "whisper") && or_true caps.whisper_ext_accepted

pub record EffectiveCaps : Type 0 where
  pub loaded : LoadedCaps

abbrev pub is_whisper : EffectiveCaps → Bool
is_whisper caps = whisper_gate caps.loaded

abbrev is_empty : List Text → Bool
is_empty [] = true
is_empty (_ ∷ _) = false

abbrev pub supports_language_hint : EffectiveCaps → Bool
supports_language_hint caps =
    not (text_eq caps.loaded.arch (codes "granite")) && not (is_empty caps.loaded.languages)

unfoldable pub supports_translation : EffectiveCaps → Bool
supports_translation caps = caps.loaded.supports_translate

-- Whether one of the advertised targets is this one, or this is English and none is advertised.
abbrev pub offered : List Text → Text → Bool
offered [] target = text_eq target (codes "en")
offered (t ∷ ts) target = any (λ o. text_eq o target) (t ∷ ts)

unfoldable pub offers_translation_target : EffectiveCaps → Text → Bool
offers_translation_target caps target = offered caps.loaded.translate_target_languages target

abbrev pub max_timestamp_granularity : EffectiveCaps → TimestampGranularity
max_timestamp_granularity caps = caps.loaded.max_timestamp_kind

abbrev pub beyond_none : TimestampGranularity → Bool
beyond_none no_timestamps = false
beyond_none _ = true

abbrev pub word_or_token : TimestampGranularity → Bool
word_or_token word = true
word_or_token token = true
word_or_token _ = false

abbrev pub supports_segment_timestamps : EffectiveCaps → Bool
supports_segment_timestamps caps = beyond_none (max_timestamp_granularity caps)

abbrev pub supports_word_timestamps : EffectiveCaps → Bool
supports_word_timestamps caps = word_or_token (max_timestamp_granularity caps)

unfoldable pub mark_timestamp_granularity_rejected : EffectiveCaps → EffectiveCaps
mark_timestamp_granularity_rejected caps = record caps {
  loaded = record caps.loaded { timestamp_granularity_rejected = true };
}
