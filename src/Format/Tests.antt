-- ===== src/Format/Tests.antt =====
-- Answers on concrete transcripts; a time is a number of milliseconds, written as it is.
use stt_server.Prelude.{ℕ, true, false, ◌≡◌, refl, [], ◌∷◌, map, none, some, codes}
use stt_server.Errors.{number}
use stt_server.Capabilities.{word, no_timestamps}
use stt_server.RunPlan.{transcribe, json, verbose_json, Plan, ResponseFormat}
use stt_server.Capabilities.{TimestampGranularity}
use stt_server.Format.{
  unknown, resolve, user_selected, DiagnosticsExtra, Transcript, format_response,
}
use stt_server.Format.Keys.{diagnostic, Reported, format_response-Reported}
use stt_server.Format.Rows.{heard, rows_in, stretches, spoken_words, format_response-rows}
use stt_server.Format.Keys.{answer_get}

abbrev extra : DiagnosticsExtra
extra = record {
  queue_wait_ms = 1;
  inference_ms = 2;
  audio_ms = 3;
  model = codes "m";
  backend = codes "cpu";
  fallback_reason = none;
  mel_ms = number 1;
  encode_ms = number 2;
  decode_ms = number 3;
  truncated = true;
  prompt_applied = false;
  language_hint_applied = some false;
  applied_language = none;
  language_evidence = unknown;
  timestamps_unavailable = false;
  target_language = some (codes "de");
}

-- gigaam fills the tokens only.
abbrev transcript : Transcript ℕ
transcript = record {
  text = codes "hi there";
  language = some (codes "es");
  segments = [];
  words = [];
  tokens =
      (record { t0_ms = 100; t1_ms = 400; text = codes "hi" })
      ∷ (record { t0_ms = 500; t1_ms = 900; text = codes "there" })
      ∷ [];
}

abbrev plan : TimestampGranularity → ResponseFormat → Plan ℕ
plan timestamps format = record {
  language = none;
  task = transcribe;
  target_language = none;
  initial_prompt = none;
  temperature = none;
  timestamps = timestamps;
  response_format = format;
  language_hint_applied = false;
  language_hint_provided = false;
  applied_language = none;
  language_evidence_hint = none;
  timestamps_explicit = false;
}

language_evidence_waterfall : resolve (some (codes "user_selected")) false ≡ user_selected
unfolding resolve
language_evidence_waterfall = refl

token_stretch :
    map (heard number) (stretches word transcript)
    ≡ map (heard number) ((record { t0_ms = 100; t1_ms = 900; text = codes "hi there" }) ∷ [])
token_stretch = refl

format_response-rows_example :
    (rows_in "text" (
        answer_get "segments"
          (format_response number number transcript (plan word verbose_json) 16000 extra))
      ≡ some (map (heard number) (stretches word transcript)))
    × (rows_in "word" (
          answer_get "words"
            (format_response number number transcript (plan word verbose_json) 16000 extra))
        ≡ some (map (heard number) (spoken_words transcript)))
format_response-rows_example =
    format_response-rows number number transcript (plan word verbose_json) 16000 extra refl

format_response-Reported_example : Reported extra (λ key.
    diagnostic key (format_response number number transcript (plan no_timestamps json) 16000 extra))
format_response-Reported_example =
    format_response-Reported number number transcript (plan no_timestamps json) 16000 extra refl
