-- ===== src/Gguf/Tests.antt =====
-- Concrete headers and values, and the theorems of the parser at them.
use stt_server.Prelude.{◌≡◌, refl, true, List, [], ◌∷◌, ◌++◌, ℕ, some, codes}
use stt_server.Gguf.Cursor.{Result, ok, err, malformed, take_bytes, u32, u64, string, string_len}
use stt_server.Gguf.Utf8.{from_utf8_lossy}
use stt_server.Gguf.Values.{
  array, nil, text, read_value, skip_value, kind_of, read_flat, read_array, read_items,
  read_elements, scalar_size, skip_array, skip_elements,
}
use stt_server.Gguf.Header.{
  Metadata, probe_keys, parse_header, read_pairs, read_pair, read_wanted, read_header_metadata,
}
use stt_server.Gguf.Local.{IsLocal}
use stt_server.Gguf.Readers.{parse_header-IsLocal}
use stt_server.Gguf.SkipValue.{skip_value-read_value}
use stt_server.Gguf.Prefix.{Faithful, read_header_metadata-Faithful}
use stt_server.Gguf.Slug.{add, add_all, trim_dashes, slug}
use stt_server.Gguf.SlugShape.{joined, slug-joined}

abbrev zeros4 : List ℕ
zeros4 = 0 ∷ 0 ∷ 0 ∷ 0 ∷ []

abbrev le8 : ℕ → List ℕ
le8 n = n ∷ 0 ∷ 0 ∷ 0 ∷ zeros4

-- Version 3, no tensors, and `general.name` = "wb".
abbrev small_file : List ℕ
small_file =
    codes "GGUF"
    ++ (3 ∷ 0 ∷ 0 ∷ 0 ∷ [])
    ++ le8 0
    ++ le8 1
    ++ le8 12
    ++ codes "general.name"
    ++ (8 ∷ 0 ∷ 0 ∷ 0 ∷ [])
    ++ le8 2
    ++ codes "wb"

small_file_header :
    parse_header probe_keys small_file 0 ≡ ok ((codes "general.name", text (codes "wb")) ∷ [], 58)
unfolding parse_header read_pairs read_pair read_wanted read_value kind_of read_flat u32 u64 string
    string_len take_bytes from_utf8_lossy
small_file_header = refl

parse_header-IsLocal_example : IsLocal (parse_header probe_keys)
parse_header-IsLocal_example = parse_header-IsLocal probe_keys

read_header_metadata-Faithful_example :
    (r : Result Metadata) × (read_header_metadata (some small_file) ≡ some r)
    × Faithful small_file r
read_header_metadata-Faithful_example = read_header_metadata-Faithful small_file

skip_value-read_value_example : skip_value 8 (le8 2 ++ codes "wb") 0 ≡ ok (tt, 10)
unfolding read_value kind_of read_flat u64 string string_len take_bytes from_utf8_lossy
skip_value-read_value_example =
    skip_value-read_value 8 (le8 2 ++ codes "wb") 0 10 (text (codes "wb")) (λ e. cc) refl

-- An empty array whose element type has no number: reading accepts it, skipping does not.
abbrev empty_unknown : List ℕ
empty_unknown = (99 ∷ 0 ∷ 0 ∷ 0 ∷ []) ++ le8 0

empty_unknown_read : read_value 9 empty_unknown 0 ≡ ok (array nil, 12)
unfolding read_value kind_of read_array read_items read_elements u32 u64 take_bytes
empty_unknown_read = refl

empty_unknown_skipped : skip_value 9 empty_unknown 0 ≡ err (malformed "unknown array element type")
unfolding skip_value kind_of skip_array skip_elements scalar_size u32 u64 take_bytes
empty_unknown_skipped = refl

slug-joined_example : joined true (slug (codes "My Model (v2)")) ≡ true
slug-joined_example = slug-joined (codes "My Model (v2)")

slug_of_name : slug (codes "My Model (v2)") ≡ codes "my-model-v2"
unfolding slug add add_all trim_dashes
slug_of_name = refl
