-- ===== src/Format/Keys.antt =====
-- The optional keys of `x_diagnostics` are there exactly when they have a value.
use stt_server.Prelude.{
  ℕ, Bool, true, false, ◌≡◌, refl, ap, sym, ◌∙◌, subst, Option, none, some, String, Bool-cases, inl,
  inr, if◌then◌else◌,
}
use package.text.Mathlib.Text.{◌==◌ as str_eq}
use package.text.Mathlib.TextEquality.{eq_iff}
use stt_server.Errors.{Json, text, Fields, no_fields, field}
use stt_server.RunPlan.{ResponseFormat, json, plain, verbose_json, Plan}
use stt_server.Realtime.Session.{lookup, get}
use stt_server.Format.{
  DiagnosticsExtra, put, put_some, flag, json_text, json_bool, always_reported, diagnostics_json,
  Transcript, Formatted, json_body, plain_text, formatted, format_response, words_when, is_word,
  with_language, or_else, always_there,
}

-- `Value::get` on the body of an answer.
abbrev pub answer_get : String → Formatted → Option Json
answer_get key (json_body body) = get key body
answer_get key (plain_text _) = none

abbrev inside : String → Option Json → Option Json
inside key none = none
inside key (some value) = get key value

-- What the answer's `x_diagnostics` has at a key.
abbrev pub diagnostic : String → Formatted → Option Json
diagnostic key answer = inside key (answer_get "x_diagnostics" answer)

str_eq_refl : (s : String) → str_eq s s ≡ true
str_eq_refl s = (eq_iff s s).1 refl

lookup-put :
    (key : String) (value : Json) (fields : Fields) → lookup key (put key value fields) ≡ some value
unfolding put
lookup-put key value no_fields = rw (str_eq_refl key) refl
lookup-put key value (field name old rest) = elim (Bool-cases (str_eq key name)) [
  | inl e ↦ rw e (rw e refl)
  | inr e ↦ rw e (rw e (lookup-put key value rest))
]

lookup-put_other :
    (key other : String) (value : Json) (fields : Fields)
    → str_eq key other ≡ false
    → lookup key (put other value fields) ≡ lookup key fields
unfolding put
lookup-put_other key other value no_fields e = rw e refl
lookup-put_other key other value (field name old rest) e = elim (Bool-cases (str_eq other name)) [
  | inl same ↦
      let apart = subst (λ s. str_eq key s ≡ false) ((eq_iff other name).0 same) e in
      rw same (rw apart refl)
  | inr distinct ↦
      rw distinct (
        ap (λ r. if str_eq key name then some old else r) (lookup-put_other key other value rest e))
]

pub lookup-put_some :
    (key : String) (o : Option Json) (fields : Fields)
    → lookup key fields ≡ none
    → lookup key (put_some key o fields) ≡ o
lookup-put_some key none _ absent = absent
lookup-put_some key (some value) others absent = lookup-put key value others

pub lookup-put_some_other :
    (key other : String) (o : Option Json) (fields : Fields)
    → str_eq key other ≡ false
    → lookup key (put_some other o fields) ≡ lookup key fields
lookup-put_some_other key other none _ e = refl
lookup-put_some_other key other (some value) others e = lookup-put_other key other value others e

-- What the optional keys have to be: there with the value, or not there.
abbrev pub Reported : DiagnosticsExtra → (String → Option Json) → Type 0
Reported extra at =
    (at "language_hint_applied" ≡ json_bool extra.language_hint_applied)
    × (at "applied_language" ≡ json_text extra.applied_language)
    × (at "target_language" ≡ json_text extra.target_language)
    × (at "truncated" ≡ flag extra.truncated)
    × (at "timestamps_unavailable" ≡ flag extra.timestamps_unavailable)

-- The keys of one option after another, put on fields that have none of them.
abbrev marked1 : DiagnosticsExtra → Fields
marked1 extra =
    put_some "language_hint_applied" (json_bool extra.language_hint_applied) (always_reported extra)

abbrev marked2 : DiagnosticsExtra → Fields
marked2 extra = put_some "applied_language" (json_text extra.applied_language) (marked1 extra)

abbrev marked3 : DiagnosticsExtra → Fields
marked3 extra = put_some "target_language" (json_text extra.target_language) (marked2 extra)

abbrev marked4 : DiagnosticsExtra → Fields
marked4 extra = put_some "truncated" (flag extra.truncated) (marked3 extra)

abbrev mark5 : DiagnosticsExtra → Option Json
mark5 extra = flag extra.timestamps_unavailable

skip1 :
    (key : String) (extra : DiagnosticsExtra)
    → str_eq key "language_hint_applied" ≡ false
    → lookup key (marked1 extra) ≡ lookup key (always_reported extra)
skip1 key extra e =
    lookup-put_some_other key "language_hint_applied" (json_bool extra.language_hint_applied)
      (always_reported extra) e

skip2 :
    (key : String) (extra : DiagnosticsExtra)
    → str_eq key "applied_language" ≡ false
    → lookup key (marked2 extra) ≡ lookup key (marked1 extra)
skip2 key extra e =
    lookup-put_some_other key "applied_language" (json_text extra.applied_language) (marked1 extra)
      e

skip3 :
    (key : String) (extra : DiagnosticsExtra)
    → str_eq key "target_language" ≡ false
    → lookup key (marked3 extra) ≡ lookup key (marked2 extra)
skip3 key extra e =
    lookup-put_some_other key "target_language" (json_text extra.target_language) (marked2 extra) e

skip4 :
    (key : String) (extra : DiagnosticsExtra)
    → str_eq key "truncated" ≡ false
    → str_eq key "timestamps_unavailable" ≡ false
    → lookup key (put_some "timestamps_unavailable" (mark5 extra) (marked4 extra))
      ≡ lookup key (marked3 extra)
skip4 key extra e5 e4 =
    lookup-put_some_other key "timestamps_unavailable" (mark5 extra) (marked4 extra) e4
    ∙ lookup-put_some_other key "truncated" (flag extra.truncated) (marked3 extra) e5

diagnostics_json-Reported :
    (extra : DiagnosticsExtra) → Reported extra (λ key. get key (diagnostics_json extra))
unfolding diagnostics_json
diagnostics_json-Reported extra = (
  skip4 "language_hint_applied" extra refl refl
      ∙ skip3 "language_hint_applied" extra refl
      ∙ skip2 "language_hint_applied" extra refl
      ∙ lookup-put_some "language_hint_applied" (json_bool extra.language_hint_applied)
          (always_reported extra) refl,
  skip4 "applied_language" extra refl refl
      ∙ skip3 "applied_language" extra refl
      ∙ lookup-put_some "applied_language" (json_text extra.applied_language) (marked1 extra)
          (skip1 "applied_language" extra refl),
  skip4 "target_language" extra refl refl
      ∙ lookup-put_some "target_language" (json_text extra.target_language) (marked2 extra)
          (skip2 "target_language" extra refl ∙ skip1 "target_language" extra refl),
  lookup-put_some_other "truncated" "timestamps_unavailable" (mark5 extra) (marked4 extra) refl
      ∙ lookup-put_some "truncated" (flag extra.truncated) (marked3 extra) (
          skip3 "truncated" extra refl
          ∙ skip2 "truncated" extra refl
          ∙ skip1 "truncated" extra refl),
  lookup-put_some "timestamps_unavailable" (mark5 extra) (marked4 extra) (
      lookup-put_some_other "timestamps_unavailable" "truncated" (flag extra.truncated)
        (marked3 extra) refl
      ∙ skip3 "timestamps_unavailable" extra refl
      ∙ skip2 "timestamps_unavailable" extra refl
      ∙ skip1 "timestamps_unavailable" extra refl),
)

abbrev pub wants_json : ResponseFormat → Bool
wants_json plain = false
wants_json _ = true

module _ {Time Float : Type 0} (seconds : Time → Json) (duration : ℕ → Json)
    (transcript : Transcript Time) (plan : Plan Float) (samples : ℕ)
    (extra : DiagnosticsExtra) where
  answer_get-formatted :
      (format : ResponseFormat)
      → wants_json format ≡ true
      → answer_get "x_diagnostics" (formatted seconds duration transcript plan samples extra format)
        ≡ some (diagnostics_json extra)
  answer_get-formatted json _ = refl
  answer_get-formatted plain e = cc
  answer_get-formatted verbose_json _ =
      lookup-put_some_other "x_diagnostics" "words"
        (words_when seconds (is_word plan.timestamps) transcript)
        (with_language seconds duration transcript plan samples extra) refl
      ∙ lookup-put_some_other "x_diagnostics" "language"
          (json_text (or_else extra.applied_language transcript.language))
          (always_there seconds duration transcript plan samples extra) refl

  -- In an answer that is JSON, the diagnostics have each of the optional keys exactly when the run
  -- has a value for it, with that value, and the two flags only as true.
  pub format_response-Reported :
      wants_json plan.response_format ≡ true
      → Reported extra
          (λ key. diagnostic key (format_response seconds duration transcript plan samples extra))
  unfolding format_response
  format_response-Reported e =
      subst (λ d. Reported extra (λ key. inside key d))
        (sym (answer_get-formatted plan.response_format e)) (diagnostics_json-Reported extra)
