-- ===== src/SelfUpdate/Swap.antt =====
-- Replacing the executable and undoing it.
use stt_server.Prelude.{
  ℕ, ◌≡◌, refl, sym, subst, Bool, true, false, Option, none, some, Bool-cases, inl, inr, ◌⊎◌,
  if◌then◌else◌,
}
use stt_server.SelfUpdate.{
  Files, Copied, whole, torn, Ops, moved_back, drop_staged, copy_staged, install, move_aside,
  remove_backup, replace_exe, restore, remove_current, from_backup, rollback_exe,
}

-- The old executable is in its place or kept as the backup.
abbrev pub Kept : ℕ → Files → Type 0
Kept old s = (s.current ≡ some old) ⊎ (s.backup ≡ some old)

-- The outcome of a swap: the old one is kept, and after a success it is the backup and the staged
-- one is in place.
abbrev pub Swapped : ℕ → Option ℕ → Files × Bool → Type 0
Swapped old staged (t, false) = Kept old t
Swapped old staged (t, true) = (t.backup ≡ some old) × (t.current ≡ staged)

-- The outcome of going back.
abbrev pub Restored : ℕ → Files × Bool → Type 0
Restored old (t, false) = Kept old t
Restored old (t, true) = t.current ≡ some old

module _ (ops : Ops) where
  moved_back-Kept :
      (b : Bool) (old : ℕ) (s : Files) → s.backup ≡ some old → Kept old (moved_back b s)
  moved_back-Kept false old s e = inr e
  moved_back-Kept true old s e = rw e (inl refl)

  drop_staged-same :
      (b : Bool) (s : Files)
      → ((drop_staged b s).backup ≡ s.backup) × ((drop_staged b s).current ≡ s.current)
  drop_staged-same true s = (refl, refl)
  drop_staged-same false s = (refl, refl)

  copy_staged-Swapped :
      (c : Copied) (old new : ℕ) (s : Files)
      → s.backup ≡ some old
      → Swapped old (some new) (copy_staged ops c new s)
  copy_staged-Swapped whole old new s e =
      let now : Files = record s { current = some new } in
      let (b, c) = drop_staged-same ops.removes_staged now in (cc (b, e), c)
  copy_staged-Swapped (torn rubbish) old new s e =
      moved_back-Kept ops.restores old (record s { current = rubbish }) e

  install-Swapped :
      (staged : Option ℕ) (old : ℕ) (s : Files)
      → s.backup ≡ some old
      → Swapped old staged (install ops staged s)
  install-Swapped none old s e = moved_back-Kept ops.restores old s e
  install-Swapped (some new) old s e = elim (Bool-cases ops.renames) [
    | inl b ↦
        subst
          (λ b. Swapped old (some new) (
            if b
            then (record s { current = some new; staged = none }, true)
            else copy_staged ops ops.copies new s))
          (sym b) (e, refl)
    | inr b ↦
        subst
          (λ b. Swapped old (some new) (
            if b
            then (record s { current = some new; staged = none }, true)
            else copy_staged ops ops.copies new s))
          (sym b) (copy_staged-Swapped ops.copies old new s e)
  ]

  move_aside-Swapped :
      (o : Option ℕ) (old : ℕ) (s : Files)
      → s.current ≡ o
      → o ≡ some old
      → Swapped old s.staged (move_aside ops o s)
  move_aside-Swapped none old s e f = cc f
  move_aside-Swapped (some x) old s e f = by_move ops.moves_aside
    where
      by_move :
          (b : Bool)
          → Swapped old s.staged (
              if b
              then install ops s.staged (record s { current = none; backup = some x })
              else (s, false))
      by_move true = install-Swapped s.staged old (record s { current = none; backup = some x }) f
      by_move false = inl (cc (e, f))

  remove_backup-Swapped :
      (o : Option ℕ) (old : ℕ) (s : Files)
      → s.current ≡ some old
      → Swapped old s.staged (remove_backup ops o s)
  remove_backup-Swapped none old s e = move_aside-Swapped s.current old s refl e
  remove_backup-Swapped (some stale) old s e = by_remove ops.removes_backup
    where
      by_remove :
          (b : Bool)
          → Swapped old s.staged
              (if b then move_aside ops s.current (record s { backup = none }) else (s, false))
      by_remove true = move_aside-Swapped s.current old (record s { backup = none }) refl e
      by_remove false = inl e

  -- Whichever operations fail, replacing an executable that is there keeps it in its place or as
  -- the backup; after a success it is the backup and the staged executable is in place.
  pub replace_exe-Swapped :
      (s : Files) (old : ℕ) → s.current ≡ some old → Swapped old s.staged (replace_exe ops s)
  unfolding replace_exe
  replace_exe-Swapped s old e = remove_backup-Swapped s.backup old s e

  restore-Restored :
      (old x : ℕ) (s : Files)
      → some x ≡ some old
      → s.backup ≡ some old
      → Restored old (restore ops x s)
  restore-Restored old x s f e = by_move ops.moves_back
    where
      by_move :
          (b : Bool)
          → Restored old
              (if b then (record s { current = some x; backup = none }, true) else (s, false))
      by_move true = f
      by_move false = inr e

  remove_current-Restored :
      (o : Option ℕ) (old x : ℕ) (s : Files)
      → some x ≡ some old
      → s.backup ≡ some old
      → Restored old (remove_current ops o x s)
  remove_current-Restored none old x s f e = restore-Restored old x s f e
  remove_current-Restored (some new) old x s f e = by_remove ops.removes_current
    where
      by_remove :
          (b : Bool)
          → Restored old (if b then restore ops x (record s { current = none }) else (s, false))
      by_remove true = restore-Restored old x (record s { current = none }) f e
      by_remove false = inr e

  from_backup-Restored :
      (o : Option ℕ) (old : ℕ) (s : Files)
      → s.backup ≡ o
      → o ≡ some old
      → Restored old (from_backup ops o s)
  from_backup-Restored none old s e f = cc f
  from_backup-Restored (some x) old s e f = remove_current-Restored s.current old x s f (cc (e, f))

  rollback_exe-Restored :
      (s : Files) (old : ℕ) → s.backup ≡ some old → Restored old (rollback_exe ops s)
  unfolding rollback_exe
  rollback_exe-Restored s old e = from_backup-Restored s.backup old s refl e

-- The rollback that follows a replacement that succeeded.
abbrev pub undone : Ops → Files × Bool → Files × Bool
undone ops (t, false) = (t, false)
undone ops (t, true) = rollback_exe ops t

undone-Restored :
    (back : Ops) (staged : Option ℕ) (old : ℕ) (r : Files × Bool)
    → Swapped old staged r
    → Restored old (undone back r)
undone-Restored back staged old (t, false) h = h
undone-Restored back staged old (t, true) (b, c) = rollback_exe-Restored back t old b

-- Rolling back a replacement restores the executable that was there: when both succeed it is in
-- its place, and whichever operations of the two fail it is in its place or the backup.
pub rollback_exe-replace_exe :
    (ops back : Ops) (s : Files) (old : ℕ)
    → s.current ≡ some old
    → Restored old (undone back (replace_exe ops s))
rollback_exe-replace_exe ops back s old e =
    undone-Restored back s.staged old (replace_exe ops s) (replace_exe-Swapped ops s old e)
