-- ===== src/Gguf/Cursor.antt =====
-- src/gguf_probe.rs: errors and `ByteCursor`. A reader takes the buffer and the position, and
-- returns its value and the new position; the buffer is borrowed and never changes.
use stt_server.Prelude.{
  ℕ, ◌+◌, ◌*◌, ◌-◌, ◌^◌, List, [], ◌∷◌, String, Text, length, take, drop, min, ltb, if◌then◌else◌,
}
use stt_server.Gguf.Utf8.{from_utf8_lossy}

pub data GgufError : Type 0 where
  not_gguf : GgufError
  unsupported_version : ℕ → GgufError
  truncated : ℕ → GgufError  -- needed
  malformed : String → GgufError

pub data Result {ℓ} (A : Type ℓ) : Type ℓ where
  ok : A → Result A
  err : GgufError → Result A

abbrev pub Reader : Type 0 → Type 0
Reader A = List ℕ → ℕ → Result (A × ℕ)

abbrev pub pure : {A : Type 0} → A → Reader A
pure a buf pos = ok (a, pos)

abbrev pub fail : {A : Type 0} → GgufError → Reader A
fail e buf pos = err e

abbrev pub then_read : {A B : Type 0} → (A → Reader B) → List ℕ → Result (A × ℕ) → Result (B × ℕ)
then_read f buf (ok (a, pos)) = f a buf pos
then_read f buf (err e) = err e

infixl 5 ◌>>=◌ ◌>>◌
abbrev pub ◌>>=◌ : {A B : Type 0} → Reader A → (A → Reader B) → Reader B
◌>>=◌ m f buf pos = then_read f buf (m buf pos)

abbrev pub ◌>>◌ : {A B : Type 0} → Reader A → Reader B → Reader B
m >> k = m >>= λ _. k

abbrev pub usize_max : ℕ
usize_max = 2 ^ 64 - 1

-- `truncated`, with its saturating addition.
abbrev pub truncated_at : ℕ → ℕ → GgufError
truncated_at pos more = truncated (min (pos + more) usize_max)

-- `ByteCursor::take`.
unfoldable pub take_bytes : ℕ → Reader (List ℕ)
take_bytes n buf pos =
    if ltb usize_max (pos + n)
    then err (malformed "length overflow")
    else if ltb (length buf) (pos + n)
    then err (truncated_at pos n)
    else ok (take n (drop pos buf), pos + n)

-- `from_le_bytes`.
abbrev pub from_le : List ℕ → ℕ
from_le [] = 0
from_le (b ∷ bs) = b + 256 * from_le bs

unfoldable pub u32 : Reader ℕ
u32 = do b ← take_bytes 4; pure (from_le b)

unfoldable pub u64 : Reader ℕ
u64 = do b ← take_bytes 8; pure (from_le b)

abbrev pub max_string_len : ℕ
max_string_len = 64 * 1024 * 1024

-- `usize` has 64 bits here, so `usize::try_from` of a u64 does not fail.
unfoldable pub string_len : Reader ℕ
string_len = do
  len ← u64
  if ltb max_string_len len then fail (malformed "string length too large") else pure len

unfoldable pub string : Reader Text
string = do len ← string_len; bytes ← take_bytes len; pure (from_utf8_lossy bytes)

unfoldable pub skip_string : Reader (Unit {0})
skip_string = do len ← string_len; take_bytes len; pure tt
