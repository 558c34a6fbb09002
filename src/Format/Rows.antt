-- ===== src/Format/Rows.antt =====
-- What a client reads back from the rows of a verbose answer.
use stt_server.Prelude.{
  ℕ, suc, Bool, true, false, ◌≡◌, refl, ap, sym, ◌∙◌, subst, List, [], ◌∷◌, map, Option, none, some,
  String, Text, if◌then◌else◌,
}
use stt_server.Errors.{Json, text, array, Items, no_items, item}
use stt_server.Capabilities.{TimestampGranularity, no_timestamps, segment, word, token}
use stt_server.RunPlan.{verbose_json, Plan}
use stt_server.Realtime.Session.{get}
use stt_server.Format.{
  DiagnosticsExtra, Timed, Transcript, segment_rows, segments_of, word_rows, words_of, words_when,
  is_word, last, formatted, format_response, or_else, json_text, always_there, with_language,
}
use stt_server.Format.Keys.{answer_get, lookup-put_some, lookup-put_some_other}

-- The start, the end and the text of a row.
abbrev pub Reading : Type 0
Reading = Option Json × Option Json × Option Json

abbrev pub readings : String → Items → List Reading
readings name no_items = []
readings name (item row rest) = (get "start" row, get "end" row, get name row) ∷ readings name rest

-- The rows at a key of the answer, where it has an array there.
abbrev pub rows_in : String → Option Json → Option (List Reading)
rows_in name (some (array items)) = some (readings name items)
rows_in name _ = none

-- All tokens as one stretch of speech, unless no timestamps were planned.
abbrev covering :
    {Time : Type 0} → TimestampGranularity → Text → List (Timed Time) → List (Timed Time)
covering no_timestamps said tokens = []
covering _ said [] = []
covering _ said (t ∷ rest) =
    (record { t0_ms = t.t0_ms; t1_ms = (last t rest).t1_ms; text = said }) ∷ []

abbrev or_those : {A : Type 0} → List A → List A → List A
or_those [] those = those
or_those (a ∷ rest) _ = a ∷ rest

-- What was said, as stretches, and as words.
abbrev pub stretches : {Time : Type 0} → TimestampGranularity → Transcript Time → List (Timed Time)
stretches planned transcript =
    or_those transcript.segments (covering planned transcript.text transcript.tokens)

abbrev pub spoken_words : {Time : Type 0} → Transcript Time → List (Timed Time)
spoken_words transcript = or_those transcript.words transcript.tokens

module _ {Time : Type 0} (seconds : Time → Json) where
  abbrev pub heard : Timed Time → Reading
  heard t = (some (seconds t.t0_ms), some (seconds t.t1_ms), some (text t.text))

  readings-segment_rows :
      (id : ℕ) (segments : List (Timed Time))
      → readings "text" (segment_rows seconds id segments) ≡ map heard segments
  readings-segment_rows id [] = refl
  readings-segment_rows id (s ∷ rest) =
      ap (λ more. heard s ∷ more) (readings-segment_rows (suc id) rest)

  readings-word_rows :
      (words : List (Timed Time)) → readings "word" (word_rows seconds words) ≡ map heard words
  readings-word_rows [] = refl
  readings-word_rows (w ∷ rest) = ap (λ more. heard w ∷ more) (readings-word_rows rest)

  readings-segments_of :
      (planned : TimestampGranularity) (transcript : Transcript Time)
      (segments tokens : List (Timed Time))
      → transcript.tokens ≡ tokens
      → readings "text" (segments_of seconds planned transcript segments)
        ≡ map heard (or_those segments (covering planned transcript.text tokens))
  readings-segments_of planned transcript (s ∷ rest) tokens _ = readings-segment_rows 0 (s ∷ rest)
  readings-segments_of no_timestamps transcript [] tokens _ = refl
  readings-segments_of segment transcript [] [] e = rw e refl
  readings-segments_of word transcript [] [] e = rw e refl
  readings-segments_of token transcript [] [] e = rw e refl
  readings-segments_of segment transcript [] (t ∷ rest) e = rw e refl
  readings-segments_of word transcript [] (t ∷ rest) e = rw e refl
  readings-segments_of token transcript [] (t ∷ rest) e = rw e refl

  readings-words_of :
      (transcript : Transcript Time) (words : List (Timed Time))
      → readings "word" (words_of seconds transcript words)
        ≡ map heard (or_those words transcript.tokens)
  readings-words_of transcript [] = readings-word_rows transcript.tokens
  readings-words_of transcript (w ∷ rest) = readings-word_rows (w ∷ rest)

  rows_in-words_when :
      (planned : Bool) (transcript : Transcript Time)
      → rows_in "word" (words_when seconds planned transcript)
        ≡ (if planned then some (map heard (spoken_words transcript)) else none)
  rows_in-words_when true transcript = ap some (readings-words_of transcript transcript.words)
  rows_in-words_when false transcript = refl

  module _ {Float : Type 0} (duration : ℕ → Json) (transcript : Transcript Time) (plan : Plan Float)
      (samples : ℕ) (extra : DiagnosticsExtra) where
    answer_get-segments :
        answer_get "segments"
          (formatted seconds duration transcript plan samples extra verbose_json)
        ≡ some (array (segments_of seconds plan.timestamps transcript transcript.segments))
    answer_get-segments =
        lookup-put_some_other "segments" "words"
          (words_when seconds (is_word plan.timestamps) transcript)
          (with_language seconds duration transcript plan samples extra) refl
        ∙ lookup-put_some_other "segments" "language"
            (json_text (or_else extra.applied_language transcript.language))
            (always_there seconds duration transcript plan samples extra) refl

    answer_get-words :
        answer_get "words" (formatted seconds duration transcript plan samples extra verbose_json)
        ≡ words_when seconds (is_word plan.timestamps) transcript
    answer_get-words =
        lookup-put_some "words" (words_when seconds (is_word plan.timestamps) transcript)
          (with_language seconds duration transcript plan samples extra)
          (lookup-put_some_other "words" "language"
            (json_text (or_else extra.applied_language transcript.language))
            (always_there seconds duration transcript plan samples extra) refl)

    -- From a verbose answer a client reads back the times and texts of the engine's segments in
    -- their order, or without segments one stretch from the first token's start to the last token's
    -- end where timestamps were planned. Under words it reads the engine's words, or its tokens
    -- where there are no words, and the key is there exactly when word timestamps were planned.
    pub format_response-rows :
        plan.response_format ≡ verbose_json
        → (rows_in "text" (
              answer_get "segments"
                (format_response seconds duration transcript plan samples extra))
            ≡ some (map heard (stretches plan.timestamps transcript)))
          × (rows_in "word" (
                answer_get "words" (format_response seconds duration transcript plan samples extra))
              ≡ (if is_word plan.timestamps
                  then some (map heard (spoken_words transcript))
                  else none))
    unfolding format_response
    format_response-rows verbose =
        subst
          (λ format.
            (rows_in "text" (
                answer_get "segments"
                  (formatted seconds duration transcript plan samples extra format))
              ≡ some (map heard (stretches plan.timestamps transcript)))
            × (rows_in "word" (
                  answer_get "words"
                    (formatted seconds duration transcript plan samples extra format))
                ≡ (if is_word plan.timestamps
                    then some (map heard (spoken_words transcript))
                    else none)))
          (sym verbose)
          (
            ap (rows_in "text") answer_get-segments
                ∙ ap some (
                    readings-segments_of plan.timestamps transcript transcript.segments
                      transcript.tokens refl),
            ap (rows_in "word") answer_get-words
                ∙ rows_in-words_when (is_word plan.timestamps) transcript,
          )
