-- ===== src/Gguf/Readers.antt =====
-- Each reader of src/gguf_probe.rs is local to its buffer.
use stt_server.Prelude.{ℕ, zero, suc, Bool, true, false, List, Text, Option, none, some}
use stt_server.Gguf.Cursor.{Reader, pure, ◌>>=◌, u32, u64, string_len, string, skip_string}
use stt_server.Gguf.Values.{
  cons, Kind, uint8, string_kind, array_kind, kind_of, or_unknown, read_kind, skip_known,
  skip_sized, read_flat, read_element, read_elements, read_items, read_array, read_value,
  scalar_size, skip_strings, skip_elements, skip_array, skip_value,
}
use stt_server.Gguf.Header.{Metadata, read_wanted, read_pair, read_pairs, parse_header}
use stt_server.Gguf.Local.{IsLocal, local, >>=-IsLocal, pure-IsLocal}

u32-IsLocal : IsLocal u32
unfolding u32
u32-IsLocal = search local

u64-IsLocal : IsLocal u64
unfolding u64
u64-IsLocal = search local

string_len-IsLocal : IsLocal string_len
unfolding string_len
string_len-IsLocal = search (local, u64-IsLocal)

string-IsLocal : IsLocal string
unfolding string
string-IsLocal = search (local, string_len-IsLocal)

skip_string-IsLocal : IsLocal skip_string
unfolding skip_string
skip_string-IsLocal = search (local, string_len-IsLocal)

ruleset parts = (local, u32-IsLocal, u64-IsLocal, string-IsLocal, skip_string-IsLocal)

read_flat-IsLocal : (k : Kind) → IsLocal (read_flat k)
unfolding read_flat
read_flat-IsLocal uint8 = search parts
read_flat-IsLocal _ = search parts

read_element-IsLocal : (t : ℕ) → IsLocal (read_element t)
unfolding read_element
read_element-IsLocal t = by_kind (kind_of t)
  where
    by_kind : (o : Option Kind) → IsLocal (or_unknown o read_flat)
    by_kind none = search parts
    by_kind (some k) = read_flat-IsLocal k

read_elements-IsLocal : (n t : ℕ) → IsLocal (read_elements n t)
unfolding read_elements
read_elements-IsLocal zero t = search parts
read_elements-IsLocal (suc n) t =
    >>=-IsLocal (λ v. read_elements n t >>= λ vs. pure (cons v vs))
      (λ v.
        >>=-IsLocal (λ vs. pure (cons v vs)) (λ vs. pure-IsLocal (cons v vs)) (read_elements n t)
          (read_elements-IsLocal n t))
      (read_element t) (read_element-IsLocal t)

read_array-IsLocal : IsLocal read_array
unfolding read_array read_items
read_array-IsLocal = search (parts, read_elements-IsLocal) depth 8

read_kind-IsLocal : (k : Kind) → IsLocal (read_kind k)
read_kind-IsLocal array_kind = read_array-IsLocal
read_kind-IsLocal _ = read_flat-IsLocal _

pub read_value-IsLocal : (t : ℕ) → IsLocal (read_value t)
unfolding read_value
read_value-IsLocal t = by_kind (kind_of t)
  where
    by_kind : (o : Option Kind) → IsLocal (or_unknown o read_kind)
    by_kind none = search parts
    by_kind (some k) = read_kind-IsLocal k

skip_strings-IsLocal : (n : ℕ) → IsLocal (skip_strings n)
unfolding skip_strings
skip_strings-IsLocal zero = search parts
skip_strings-IsLocal (suc n) =
    >>=-IsLocal (λ _. skip_strings n) (λ _. skip_strings-IsLocal n) skip_string skip_string-IsLocal

skip_elements-IsLocal : (o : Option Kind) (len : ℕ) → IsLocal (skip_elements o len)
unfolding skip_elements scalar_size
skip_elements-IsLocal none len = search parts
skip_elements-IsLocal (some string_kind) len = skip_strings-IsLocal len
skip_elements-IsLocal (some _) len = search parts

skip_array-IsLocal : IsLocal skip_array
unfolding skip_array
skip_array-IsLocal = search (parts, skip_elements-IsLocal) depth 8

skip_value-IsLocal : (t : ℕ) → IsLocal (skip_value t)
unfolding skip_value
skip_value-IsLocal t = by_kind (kind_of t)
  where
    by_kind : (o : Option Kind) → IsLocal (skip_known o)
    by_kind none = search parts
    by_kind (some k) = by_size k (scalar_size k)
      where
        by_size : (x : Kind) (o : Option ℕ) → IsLocal (skip_sized o x)
        by_size x (some n) = search parts
        by_size string_kind none = skip_string-IsLocal
        by_size array_kind none = skip_array-IsLocal
        by_size _ none = search parts

read_wanted-IsLocal :
    (wanted : List Text) (kv : Metadata) (key : Text) (t : ℕ) (b : Bool)
    → IsLocal (read_wanted wanted kv key t b)
unfolding read_wanted
read_wanted-IsLocal wanted kv key t true = search (parts, read_value-IsLocal t)
read_wanted-IsLocal wanted kv key t false = search (parts, skip_value-IsLocal t)

read_pair-IsLocal : (wanted : List Text) (kv : Metadata) → IsLocal (read_pair wanted kv)
unfolding read_pair
read_pair-IsLocal wanted kv = search (parts, read_wanted-IsLocal)

-- The round's end: it leaves the loop, or goes on.
after_pair-IsLocal :
    (m : Reader Metadata) (kv : Metadata) (b : Bool)
    → IsLocal m
    → IsLocal (elim b [ true ↦ pure kv | false ↦ m ])
after_pair-IsLocal m kv true h = pure-IsLocal kv
after_pair-IsLocal m kv false h = h

read_pairs-IsLocal : (wanted : List Text) (n : ℕ) (kv : Metadata) → IsLocal (read_pairs wanted n kv)
unfolding read_pairs
read_pairs-IsLocal wanted zero kv = pure-IsLocal kv
read_pairs-IsLocal wanted (suc n) kv =
    >>=-IsLocal (λ r. elim r.1 [ true ↦ pure r.0 | false ↦ read_pairs wanted n r.0 ])
      (λ r. after_pair-IsLocal (read_pairs wanted n r.0) r.0 r.1 (read_pairs-IsLocal wanted n r.0))
      (read_pair wanted kv) (read_pair-IsLocal wanted kv)

-- Parsing a header stays within the bytes at hand and never moves back; when it asks for more it
-- names more bytes than there are; and bytes added behind change no answer but such a request.
pub parse_header-IsLocal : (wanted : List Text) → IsLocal (parse_header wanted)
unfolding parse_header
parse_header-IsLocal wanted = search (parts, read_pairs-IsLocal) depth 12
