-- ===== src/Gguf/Values.antt =====
-- src/gguf_probe.rs: metadata values, and reading or skipping one. A signed integer or a float is
-- kept as its bit pattern: the probe asks of an integer only whether it is zero, of a float nothing.
use stt_server.Prelude.{
  ℕ, zero, suc, ◌*◌, Bool, not, Option, none, some, Text, ltb, ◌==◌, if◌then◌else◌,
}
use stt_server.Gguf.Cursor.{
  malformed, Reader, pure, fail, ◌>>=◌, ◌>>◌, usize_max, take_bytes, from_le, u32, u64, string,
  skip_string,
}

mutual
  pub data Value : Type 0 where
    u8 i8 u16 i16 u32_value i32 u64_value i64 f32 f64 : ℕ → Value
    bool : Bool → Value
    text : Text → Value
    array : Values → Value

  pub data Values : Type 0 where
    nil : Values
    cons : Value → Values → Values

-- `T_UINT8` and its siblings.
pub data Kind : Type 0 where
  uint8 int8 uint16 int16 uint32 int32 float32 boolean string_kind array_kind uint64 int64 float64 :
      Kind

unfoldable pub kind_of : ℕ → Option Kind
kind_of t =
    if t == 0
    then some uint8
    else if t == 1
    then some int8
    else if t == 2
    then some uint16
    else if t == 3
    then some int16
    else if t == 4
    then some uint32
    else if t == 5
    then some int32
    else if t == 6
    then some float32
    else if t == 7
    then some boolean
    else if t == 8
    then some string_kind
    else if t == 9
    then some array_kind
    else if t == 10
    then some uint64
    else if t == 11
    then some int64
    else if t == 12
    then some float64
    else none

abbrev pub max_array_len : ℕ
max_array_len = 16 * 1024 * 1024

abbrev pub max_stored_array_len : ℕ
max_stored_array_len = 4096

abbrev pub word : ℕ → (ℕ → Value) → Reader Value
word n f = do b ← take_bytes n; pure (f (from_le b))

-- The arms of `read_value` but that of arrays.
unfoldable pub read_flat : Kind → Reader Value
read_flat uint8 = word 1 u8
read_flat int8 = word 1 i8
read_flat uint16 = word 2 u16
read_flat int16 = word 2 i16
read_flat uint32 = do v ← u32; pure (u32_value v)
read_flat int32 = do v ← u32; pure (i32 v)
read_flat float32 = do v ← u32; pure (f32 v)
read_flat boolean = do b ← take_bytes 1; pure (bool (not (from_le b == 0)))
read_flat string_kind = do s ← string; pure (text s)
read_flat uint64 = do v ← u64; pure (u64_value v)
read_flat int64 = do v ← u64; pure (i64 v)
read_flat float64 = do v ← u64; pure (f64 v)
read_flat array_kind = fail (malformed "nested arrays are not allowed")

abbrev pub or_unknown : Option Kind → (Kind → Reader Value) → Reader Value
or_unknown none f = fail (malformed "unknown value type")
or_unknown (some k) f = f k

-- An element of an array: `read_value` at a type that is not `T_ARRAY`.
unfoldable pub read_element : ℕ → Reader Value
read_element t = or_unknown (kind_of t) read_flat

unfoldable pub read_elements : ℕ → ℕ → Reader Values
read_elements zero t = pure nil
read_elements (suc n) t = do v ← read_element t; vs ← read_elements n t; pure (cons v vs)

unfoldable pub read_items : ℕ → ℕ → Reader Value
read_items t len =
    if ltb max_array_len len
    then fail (malformed "array length too large")
    else if ltb max_stored_array_len len
    then fail (malformed "stored array length too large")
    else do vs ← read_elements len t; pure (array vs)

unfoldable pub read_array : Reader Value
read_array = do
  t ← u32
  if t == 9
      then fail (malformed "nested arrays are not allowed")
      else do len ← u64; read_items t len

abbrev pub read_kind : Kind → Reader Value
read_kind array_kind = read_array
read_kind k = read_flat k

unfoldable pub read_value : ℕ → Reader Value
read_value t = or_unknown (kind_of t) read_kind

unfoldable pub scalar_size : Kind → Option ℕ
scalar_size uint8 = some 1
scalar_size int8 = some 1
scalar_size boolean = some 1
scalar_size uint16 = some 2
scalar_size int16 = some 2
scalar_size uint32 = some 4
scalar_size int32 = some 4
scalar_size float32 = some 4
scalar_size uint64 = some 8
scalar_size int64 = some 8
scalar_size float64 = some 8
scalar_size string_kind = none
scalar_size array_kind = none

unfoldable pub skip_strings : ℕ → Reader (Unit {0})
skip_strings zero = pure tt
skip_strings (suc n) = do skip_string; skip_strings n

abbrev pub skip_element_kind : Kind → ℕ → Reader (Unit {0})
skip_element_kind string_kind len = skip_strings len
skip_element_kind _ len = fail (malformed "unknown array element type")

abbrev pub sized : Option ℕ → ℕ → Reader (Unit {0}) → Reader (Unit {0})
sized none len other = other
sized (some size) len other =
    if ltb usize_max (len * size)
    then fail (malformed "length overflow")
    else do take_bytes (len * size); pure tt

-- The elements of an array, all at once or string by string.
unfoldable pub skip_elements : Option Kind → ℕ → Reader (Unit {0})
skip_elements none len = fail (malformed "unknown array element type")
skip_elements (some k) len = sized (scalar_size k) len (skip_element_kind k len)

unfoldable pub skip_array : Reader (Unit {0})
skip_array = do
  t ← u32
  if t == 9 then fail (malformed "nested arrays are not allowed") else do
    len ← u64
    if ltb max_array_len len
        then fail (malformed "array length too large")
        else skip_elements (kind_of t) len

abbrev pub skip_other : Kind → Reader (Unit {0})
skip_other string_kind = skip_string
skip_other array_kind = skip_array
skip_other _ = fail (malformed "unknown value type")

abbrev pub skip_sized : Option ℕ → Kind → Reader (Unit {0})
skip_sized none k = skip_other k
skip_sized (some size) k = do take_bytes size; pure tt

abbrev pub skip_known : Option Kind → Reader (Unit {0})
skip_known none = fail (malformed "unknown value type")
skip_known (some k) = skip_sized (scalar_size k) k

unfoldable pub skip_value : ℕ → Reader (Unit {0})
skip_value t = skip_known (kind_of t)
