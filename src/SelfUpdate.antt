-- ===== src/SelfUpdate.antt =====
-- src/selfupdate.rs: comparing versions, verifying a downloaded executable and swapping it in.
-- An executable is the number of its content. Each file operation works or not, as `Ops` says.
pub mod Versions
pub mod Swap
pub mod Verify
mod Tests
use stt_server.Prelude.{
  ℕ, zero, suc, ◌+◌, ◌-◌, ◌*◌, ◌^◌, Bool, true, false, not, List, [], ◌∷◌, Option, none, some, Text,
  text_eq, ltb, leb, ◌==◌, ◌&&◌, if◌then◌else◌,
}
use stt_server.Network.Addresses.{split}

abbrev pub is_digit : ℕ → Bool
is_digit c = leb 48 c && leb c 57

-- The digits so far, with the overflow of a `u64`.
abbrev pub digit_onto : ℕ → Option ℕ → Option ℕ
digit_onto c none = none
digit_onto c (some n) =
    let next = 10 * n + (c - 48) in if is_digit c && ltb next (2 ^ 64) then some next else none

abbrev pub digits : Text → Option ℕ → Option ℕ
digits [] n = n
digits (c ∷ rest) n = digits rest (digit_onto c n)

-- `str::parse::<u64>`: a plus sign may stand first, and there is a digit.
abbrev pub parse_u64 : Text → Option ℕ
parse_u64 [] = none
parse_u64 (c ∷ []) = digits (c ∷ []) (some 0)
parse_u64 (c ∷ d ∷ rest) =
    if c == b'+' then digits (d ∷ rest) (some 0) else digits (c ∷ d ∷ rest) (some 0)

abbrev pub with_part : Option ℕ → Option (List ℕ) → Option (List ℕ)
with_part none rest = none
with_part (some n) none = none
with_part (some n) (some ns) = some (n ∷ ns)

abbrev pub all_parts : List Text → Option (List ℕ)
all_parts [] = some []
all_parts (part ∷ parts) = with_part (parse_u64 part) (all_parts parts)

unfoldable pub parse_numeric_version : Text → Option (List ℕ)
parse_numeric_version version = all_parts (split b'.' version)

-- `a < b` of `Vec`: lexicographic.
abbrev pub less : List ℕ → List ℕ → Bool
less _ [] = false
less [] (b ∷ bs) = true
less (a ∷ as') (b ∷ bs) =
    let rest = less as' bs in if ltb a b then true else if a == b then rest else false

abbrev pub newer : Text → Text → Option (List ℕ) → Option (List ℕ) → Bool
newer current candidate (some a) (some b) = less a b
newer current candidate none b = not (text_eq current candidate)
newer current candidate (some a) none = not (text_eq current candidate)

unfoldable pub is_newer : Text → Text → Bool
is_newer current candidate =
    newer current candidate (parse_numeric_version current) (parse_numeric_version candidate)

-- The files beside the executable, where they exist.
pub record Files : Type 0 where
  pub current : Option ℕ
  pub staged : Option ℕ
  pub backup : Option ℕ

-- What `fs::copy` does to the executable: all of it, or something else and an error.
pub data Copied : Type 0 where
  whole : Copied
  torn : Option ℕ → Copied

-- Which operations work.
pub record Ops : Type 0 where
  pub removes_backup : Bool
  pub moves_aside : Bool
  pub renames : Bool
  pub copies : Copied
  pub restores : Bool
  pub removes_staged : Bool
  pub removes_current : Bool
  pub moves_back : Bool

abbrev pub moved_back : Bool → Files → Files
moved_back false s = s
moved_back true s = by_backup s.backup s
  where
    by_backup : Option ℕ → Files → Files
    by_backup none s = s
    by_backup (some old) s = record s { current = some old; backup = none }

abbrev pub drop_staged : Bool → Files → Files
drop_staged false s = s
drop_staged true s = record s { staged = none }

module _ (ops : Ops) where
  -- The copy, when the rename fails: a failed one tries to put the backup back.
  abbrev pub copy_staged : Copied → ℕ → Files → Files × Bool
  copy_staged whole new s = (drop_staged ops.removes_staged (record s { current = some new }), true)
  copy_staged (torn rubbish) new s =
      (moved_back ops.restores (record s { current = rubbish }), false)

  abbrev pub install : Option ℕ → Files → Files × Bool
  install none s = (moved_back ops.restores s, false)
  install (some new) s =
      if ops.renames
      then (record s { current = some new; staged = none }, true)
      else copy_staged ops.copies new s

  abbrev pub move_aside : Option ℕ → Files → Files × Bool
  move_aside none s = install s.staged s
  move_aside (some old) s =
      if ops.moves_aside
      then install s.staged (record s { current = none; backup = some old })
      else (s, false)

  abbrev pub remove_backup : Option ℕ → Files → Files × Bool
  remove_backup none s = move_aside s.current s
  remove_backup (some stale) s =
      if ops.removes_backup then move_aside s.current (record s { backup = none }) else (s, false)

  -- The files afterwards, and whether it succeeded.
  unfoldable pub replace_exe : Files → Files × Bool
  replace_exe s = remove_backup s.backup s

  abbrev pub restore : ℕ → Files → Files × Bool
  restore old s =
      if ops.moves_back then (record s { current = some old; backup = none }, true) else (s, false)

  abbrev pub remove_current : Option ℕ → ℕ → Files → Files × Bool
  remove_current none old s = restore old s
  remove_current (some new) old s =
      if ops.removes_current then restore old (record s { current = none }) else (s, false)

  abbrev pub from_backup : Option ℕ → Files → Files × Bool
  from_backup none s = (s, false)
  from_backup (some old) s = remove_current s.current old s

  unfoldable pub rollback_exe : Files → Files × Bool
  rollback_exe s = from_backup s.backup s
