-- ===== src/Update.antt =====
-- src/update_transaction.rs: the worker that applies an update and the recovery that undoes one, on
-- a disk whose operations may fail or be the last before the computer stops.
pub mod Worker
pub mod Recovery
pub mod Interrupted
mod Tests
use stt_server.Prelude.{
  ℕ, Bool, true, false, List, [], ◌∷◌, Option, none, some, ◌==◌, if◌then◌else◌, Text, codes, ◌++◌,
}

pub data Phase : Type 0 where
  prepared stopping snapshot_taken replacing validating rolling_back committed restored : Phase

abbrev pub terminal : Phase → Bool
terminal committed = true
terminal restored = true
terminal _ = false

-- The fields that change or that the worker compares; paths, versions and names are left out.
pub record Journal : Type 0 where
  pub phase : Phase
  pub was_running : Bool
  pub old_sha256 : ℕ
  pub new_sha256 : ℕ
  pub database_existed : Bool
  pub database_sha256 : Option ℕ
  pub task_removed : Bool
  pub armed : Bool
  pub error : Option Text

-- The files of a transaction by the number of their content; `none` is no file, or a torn copy.
pub record Disk : Type 0 where
  pub journal : Option Journal
  pub executable : Option ℕ
  pub previous : Option ℕ  -- previous.exe, `Journal::backup`
  pub candidate : Option ℕ
  pub retired : Option ℕ
  pub restore : Option ℕ  -- restore.exe
  pub database : Option ℕ
  pub sidecars : Bool  -- state.db-wal and state.db-shm
  pub snapshot : Option ℕ
  pub database_restore : Option ℕ  -- state.db.restore
  pub failed_database : Option ℕ
  pub task : Bool
  pub running : Bool

-- The disk, and the journal that the worker holds.
pub record World : Type 0 where
  pub disk : Disk
  pub journal : Journal

-- What becomes of an operation; when none is left in the list, all succeed.
pub data Fate : Type 0 where
  works : Fate
  fails : Text → Fate
  stops : Fate

pub data Outcome (A : Type 0) : Type 0 where
  done : A → List Fate → World → Outcome A
  failed : Text → List Fate → World → Outcome A
  stopped : World → Outcome A

abbrev pub Exec : Type 0 → Type 0
Exec A = List Fate → World → Outcome A

abbrev pub pure : {A : Type 0} → A → Exec A
pure a fates w = done a fates w

abbrev pub fail : {A : Type 0} → Text → Exec A
fail why fates w = failed why fates w

abbrev pub then_run : {A B : Type 0} → (A → Exec B) → Outcome A → Outcome B
then_run f (done a fates w) = f a fates w
then_run f (failed why fates w) = failed why fates w
then_run f (stopped w) = stopped w

infixl 5 ◌>>=◌ ◌>>◌
abbrev pub ◌>>=◌ : {A B : Type 0} → Exec A → (A → Exec B) → Exec B
◌>>=◌ m f fates w = then_run f (m fates w)

abbrev pub ◌>>◌ : {A B : Type 0} → Exec A → Exec B → Exec B
m >> k = m >>= λ _. k

abbrev pub caught : {A : Type 0} → (Text → Exec A) → Outcome A → Outcome A
caught h (done a fates w) = done a fates w
caught h (failed why fates w) = h why fates w
caught h (stopped w) = stopped w

-- `if let Err(why) = m`.
abbrev pub catch : {A : Type 0} → Exec A → (Text → Exec A) → Exec A
catch m h fates w = caught h (m fates w)

-- One operation: its effect, and what it leaves behind when it fails or the computer stops.
abbrev pub effect : (World → World) → (World → World) → Exec (Unit {0})
effect f g [] w = done tt [] (f w)
effect f g (works ∷ fates) w = done tt fates (f w)
effect f g (fails why ∷ fates) w = failed why fates (g w)
effect f g (stops ∷ fates) w = stopped (g w)

abbrev pub on_disk : (Disk → Disk) → World → World
on_disk f w = record w { disk = f w.disk }

-- An operation that happens entirely or not at all, as a rename does.
abbrev pub atomic : (Disk → Disk) → Exec (Unit {0})
atomic f = effect (on_disk f) (λ w. w)

-- A copy, which may be torn.
abbrev pub copying : (Option ℕ → Disk → Disk) → (Disk → Option ℕ) → Exec (Unit {0})
copying put from = effect (λ w. on_disk (put (from w.disk)) w) (on_disk (put none))

abbrev pub gets : {A : Type 0} → (World → A) → Exec A
gets f fates w = done (f w) fates w

abbrev pub remember : (Journal → Journal) → Exec (Unit {0})
remember f fates w = done tt fates (record w { journal = f w.journal })

-- `Journal::save`: written to a file beside the journal, then renamed over it.
unfoldable pub save : Exec (Unit {0})
save = effect (λ w. record w { disk = record w.disk { journal = some w.journal } }) (λ w. w)

abbrev pub at_phase : Phase → Journal → Journal
at_phase phase j = record j { phase = phase; armed = if terminal phase then false else j.armed }

unfoldable pub advance : Phase → Exec (Unit {0})
advance phase = do remember (at_phase phase); save

module _ (hash : ℕ → ℕ) where
  abbrev pub hash_is : Option ℕ → ℕ → Bool
  hash_is none expected = false
  hash_is (some content) expected = hash content == expected

  -- `checked_hash`: reading may fail, and so does a file that is not there.
  unfoldable pub checked_hash : (Disk → Option ℕ) → ℕ → Exec (Unit {0})
  checked_hash file expected = do
    atomic (λ d. d)
    content ← gets (λ w. file w.disk)
    if hash_is content expected then pure tt else fail (codes "Backup/staged file hash mismatch")
