-- ===== src/Gguf/Header.antt =====
-- src/gguf_probe.rs: `parse_header`, reading a growing prefix of the file, and the probe.
use stt_server.Prelude.{
  ℕ, zero, suc, ◌*◌, ◌^◌, Bool, true, false, not, ◌&&◌, List, [], ◌∷◌, Option, none, some, Text,
  codes, text_eq, any, length, take, min, max, ltb, leb, ◌==◌, if◌then◌else◌,
}
use stt_server.Gguf.Cursor.{
  not_gguf, unsupported_version, truncated, malformed, Result, ok, err, Reader, pure, fail, ◌>>=◌,
  ◌>>◌, usize_max, u32, u64, string,
}
use stt_server.Gguf.Values.{Value, read_value, skip_value}

-- The map of a `GgufMetadata`, newest key first.
abbrev pub Metadata : Type 0
Metadata = List (Text × Value)

abbrev pub lookup : Text → Metadata → Option Value
lookup key [] = none
lookup key ((k, v) ∷ kv) = if text_eq k key then some v else lookup key kv

-- `HashMap::insert`: a key that is there keeps one entry, with the new value.
abbrev pub insert : Text → Value → Metadata → Metadata
insert key v [] = (key, v) ∷ []
insert key v ((k, w) ∷ kv) = if text_eq k key then (k, v) ∷ kv else (k, w) ∷ insert key v kv

abbrev pub gguf_magic : ℕ
gguf_magic = 0x46554747

abbrev pub max_kv_count : ℕ
max_kv_count = 1_000_000

-- One round of the loop over the key/value pairs, by whether the key is wanted; the loop breaks
-- when `true` comes back.
unfoldable pub read_wanted : List Text → Metadata → Text → ℕ → Bool → Reader (Metadata × Bool)
read_wanted wanted kv key value_type true = do
  value ← read_value value_type
  pure (insert key value kv, length (insert key value kv) == length wanted)
read_wanted wanted kv key value_type false = do skip_value value_type; pure (kv, false)

unfoldable pub read_pair : List Text → Metadata → Reader (Metadata × Bool)
read_pair wanted kv = do
  key ← string
  value_type ← u32
  read_wanted wanted kv key value_type (any (λ w. text_eq w key) wanted)

unfoldable pub read_pairs : List Text → ℕ → Metadata → Reader Metadata
read_pairs wanted zero kv = pure kv
read_pairs wanted (suc n) kv =
    read_pair wanted kv >>= λ r. elim r.1 [ true ↦ pure r.0 | false ↦ read_pairs wanted n r.0 ]

unfoldable pub parse_header : List Text → Reader Metadata
parse_header wanted = do
  magic ← u32
  if not (magic == gguf_magic) then fail not_gguf else do
    version ← u32
    if not (version == 2) && not (version == 3) then fail (unsupported_version version) else do
      tensor_count ← u64
      kv_count ← u64
      if ltb max_kv_count kv_count
          then fail (malformed "absurd metadata kv count")
          else read_pairs wanted kv_count []

abbrev pub initial_prefix : ℕ
initial_prefix = 64 * 2 ^ 10

abbrev pub max_prefix : ℕ
max_prefix = 16 * 2 ^ 20

abbrev pub probe_keys : List Text
probe_keys =
    codes "general.architecture"
    ∷ codes "general.name"
    ∷ codes "general.languages"
    ∷ codes "stt.capability.streaming"
    ∷ codes "stt.capability.translate"
    ∷ codes "stt.capability.lang_detect"
    ∷ []

-- The file as `read_prefix` sees it: opening or reading it fails, or its bytes.
abbrev pub File : Type 0
File = Option (List ℕ)

-- `read_prefix`: up to `size` bytes from the start.
abbrev pub read_prefix : File → ℕ → Option (List ℕ)
read_prefix none size = none
read_prefix (some bytes) size = some (take size bytes)

-- What one round of `read_header_metadata` decides.
pub data Round : Type 0 where
  done : Result Metadata → Round
  again : ℕ → Round

abbrev pub grow : ℕ → ℕ → ℕ
grow size needed = min (max needed (min (size * 2) usize_max)) max_prefix

abbrev pub retry : ℕ → ℕ → Result (Metadata × ℕ) → Round
retry size read_len (ok (meta, _)) = done (ok meta)
retry size read_len (err (truncated needed)) =
    if ltb read_len size
    then done (err (malformed "file shorter than its header"))
    else if leb (grow size needed) size
    then done (err (truncated needed))
    else again (grow size needed)
retry size read_len (err e) = done (err e)

abbrev pub on_prefix : ℕ → Option (List ℕ) → Round
on_prefix size none = done (err (malformed "cannot read file"))
on_prefix size (some buf) = retry size (length buf) (parse_header probe_keys buf 0)

unfoldable pub round : File → ℕ → Round
round file size = on_prefix size (read_prefix file size)

-- The loop of `read_header_metadata`; `none` means that the fuel ran out.
unfoldable pub prefix_loop : ℕ → File → ℕ → Option (Result Metadata)
prefix_loop zero file size = none
prefix_loop (suc fuel) file size = elim (round file size) [
  | done r ↦ some r
  | again next ↦ prefix_loop fuel file next
]

-- The size at least doubles from 64 KiB and stops at 16 MiB, so nine rounds are enough.
unfoldable pub read_header_metadata : File → Option (Result Metadata)
read_header_metadata file = prefix_loop 9 file initial_prefix
