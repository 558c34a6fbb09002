-- ===== src/Gguf/Probe.antt =====
-- src/gguf_probe.rs: the typed getters and `probe_gguf_file`.
use stt_server.Prelude.{
  Bool, false, not, List, [], ◌∷◌, Option, none, some, Text, codes, text_eq, any, ◌==◌,
}
use stt_server.Gguf.Cursor.{GgufError, Result, ok, err}
use stt_server.Gguf.Values.{Value, Values, u8, i8, u32_value, i32, bool, text, array, nil, cons}
use stt_server.Gguf.Header.{Metadata, lookup, File, read_header_metadata}

abbrev pub as_str : Value → Option Text
as_str (text s) = some s
as_str _ = none

abbrev pub as_bool : Value → Option Bool
as_bool (bool b) = some b
as_bool (u8 v) = some (not (v == 0))
as_bool (i8 v) = some (not (v == 0))
as_bool (u32_value v) = some (not (v == 0))
as_bool (i32 v) = some (not (v == 0))
as_bool _ = none

abbrev add_text : Option Text → Option (List Text) → Option (List Text)
add_text (some s) (some rest) = some (s ∷ rest)
add_text _ _ = none

-- `collect` into an `Option`: `none` if any item is not a string.
abbrev pub as_strings : Values → Option (List Text)
as_strings nil = some []
as_strings (cons v vs) = add_text (as_str v) (as_strings vs)

abbrev pub as_string_array : Value → Option (List Text)
as_string_array (array items) = as_strings items
as_string_array _ = none

abbrev and_then {ℓ κ} : {A : Type ℓ} {B : Type κ} → Option A → (A → Option B) → Option B
and_then none f = none
and_then (some a) f = f a

abbrev or_else {ℓ} : {A : Type ℓ} → Option A → A → A
or_else none d = d
or_else (some a) d = a

abbrev pub get_str : Metadata → Text → Option Text
get_str kv key = and_then (lookup key kv) as_str

abbrev pub get_bool : Metadata → Text → Option Bool
get_bool kv key = and_then (lookup key kv) as_bool

abbrev pub get_string_array : Metadata → Text → Option (List Text)
get_string_array kv key = and_then (lookup key kv) as_string_array

pub record GgufProbe : Type 0 where
  pub architecture : Text
  pub display_name : Option Text
  pub languages : List Text
  pub supports_streaming : Bool
  pub supports_translation : Bool
  pub supports_language_detect : Bool

abbrev pub known_arches : List Text
known_arches =
    codes "whisper"
    ∷ codes "parakeet"
    ∷ codes "qwen3_asr"
    ∷ codes "voxtral"
    ∷ codes "voxtral_realtime"
    ∷ codes "cohere"
    ∷ codes "cohere_asr"
    ∷ codes "canary"
    ∷ codes "canary_qwen"
    ∷ codes "moonshine"
    ∷ codes "moonshine_streaming"
    ∷ codes "sensevoice"
    ∷ codes "gigaam"
    ∷ codes "granite"
    ∷ codes "granite_speech"
    ∷ codes "granite_nar"
    ∷ codes "granite_speech_nar"
    ∷ codes "funasr_nano"
    ∷ codes "medasr"
    ∷ codes "moss"
    ∷ codes "sortformer"
    ∷ []

unfoldable pub is_supported : GgufProbe → Bool
is_supported p = any (λ a. text_eq a p.architecture) known_arches

-- Why a file was not probed: the reader's error, or the one key that must be there.
pub data Refusal : Type 0 where
  unreadable : GgufError → Refusal
  no_architecture : Refusal
  out_of_fuel : Refusal

pub data Probed : Type 0 where
  probed : GgufProbe → Probed
  refused : Refusal → Probed

probe_of : Metadata → Text → GgufProbe
probe_of meta architecture = record {
  architecture = architecture;
  display_name = get_str meta (codes "general.name");
  languages = or_else (get_string_array meta (codes "general.languages")) [];
  supports_streaming = or_else (get_bool meta (codes "stt.capability.streaming")) false;
  supports_translation = or_else (get_bool meta (codes "stt.capability.translate")) false;
  supports_language_detect = or_else (get_bool meta (codes "stt.capability.lang_detect")) false;
}

abbrev with_architecture : Metadata → Option Text → Probed
with_architecture meta none = refused no_architecture
with_architecture meta (some a) = probed (probe_of meta a)

abbrev probe_result : Option (Result Metadata) → Probed
probe_result none = refused out_of_fuel
probe_result (some (err e)) = refused (unreadable e)
probe_result (some (ok meta)) = with_architecture meta (get_str meta (codes "general.architecture"))

unfoldable pub probe_gguf_file : File → Probed
unfolding probe_of
probe_gguf_file file = probe_result (read_header_metadata file)
