-- ===== src/Update/Worker.antt =====
-- src/update_transaction.rs: `apply`, `rollback`, `cleanup` and `run_worker`. Starting, stopping and
-- probing the server, the locks and the recovery task are single operations.
use stt_server.Prelude.{
  ℕ, Bool, true, false, not, ◌&&◌, Option, none, some, if◌then◌else◌, Text, codes, ◌++◌,
}
use stt_server.Update.{
  Phase, prepared, stopping, snapshot_taken, replacing, validating, rolling_back, committed,
  restored, terminal, Journal, Disk, Outcome, done, failed, stopped, Exec, pure, fail, ◌>>=◌, ◌>>◌,
  catch, atomic, copying, gets, remember, save, advance, checked_hash,
}

-- A rename of a file that is not there fails.
abbrev pub moved : Option ℕ → (Disk → Disk) → Exec (Unit {0})
moved none f = fail (codes "No such file")
moved (some _) f = atomic f

abbrev pub when : Bool → Exec (Unit {0}) → Exec (Unit {0})
when true m = m
when false m = pure tt

-- Waits for the server to end; `stop` fails when that is not confirmed.
unfoldable pub stop : Exec (Unit {0})
stop = atomic (λ d. record d { running = false })

unfoldable pub start : Exec (Unit {0})
start = atomic (λ d. record d { running = true })

unfoldable pub wait_ready : Exec (Unit {0})
wait_ready = atomic (λ d. d)

-- `discovery::acquire_lock`, and `lock` of the update.
abbrev pub take_lock : Exec (Unit {0})
take_lock = atomic (λ d. d)

abbrev pub is_some : Option ℕ → Bool
is_some none = false
is_some (some _) = true

abbrev pub recovery_failed : Text → Text → Text
recovery_failed cause recovery = cause ++ codes "; recovery failed: " ++ recovery

module _ (hash : ℕ → ℕ) where
  abbrev pub hashed : Option ℕ → Option ℕ
  hashed none = none
  hashed (some content) = some (hash content)

  -- The checkpoint folds the sidecars into the database.
  unfoldable pub snapshot_database : Exec (Unit {0})
  snapshot_database = do
    existed ← gets (λ w. is_some w.disk.database)
    remember (λ j. record j { database_existed = existed })
    when existed (do
      atomic (λ d. record d { sidecars = false })
      copying (λ c d. record d { snapshot = c }) (λ d. d.database)
      atomic (λ d. d)
      sha ← gets (λ w. hashed w.disk.snapshot)
      remember (λ j. record j { database_sha256 = sha }))
    advance snapshot_taken

  abbrev pub restore_snapshot : Option ℕ → Bool → Exec (Unit {0})
  restore_snapshot (some sha) existed = do
    checked_hash hash (λ d. d.snapshot) sha
    atomic (λ d. record d { sidecars = false })
    copying (λ c d. record d { database_restore = c }) (λ d. d.snapshot)
    staged ← gets (λ w. w.disk.database_restore)
    moved staged (λ d. record d { database = d.database_restore; database_restore = none })
  restore_snapshot none true = pure tt
  restore_snapshot none false = do
    there ← gets (λ w. is_some w.disk.database)
    when there (atomic (λ d. record d { failed_database = d.database; database = none }))
    atomic (λ d. record d { sidecars = false })

  unfoldable pub restore_database : Exec (Unit {0})
  restore_database = do
    j ← gets (λ w. w.journal)
    restore_snapshot j.database_sha256 j.database_existed

  unfoldable pub replace_binary : Exec (Unit {0})
  replace_binary = do
    j ← gets (λ w. w.journal)
    checked_hash hash (λ d. d.candidate) j.new_sha256
    checked_hash hash (λ d. d.previous) j.old_sha256
    there ← gets (λ w. is_some w.disk.executable)
    when there (atomic (λ d. record d { retired = d.executable; executable = none }))
    candidate ← gets (λ w. w.disk.candidate)
    moved candidate (λ d. record d { executable = d.candidate; candidate = none })

  unfoldable pub restore_binary : Exec (Unit {0})
  restore_binary = do
    j ← gets (λ w. w.journal)
    checked_hash hash (λ d. d.previous) j.old_sha256
    copying (λ c d. record d { restore = c }) (λ d. d.previous)
    staged ← gets (λ w. w.disk.restore)
    moved staged (λ d. record d { executable = d.restore; restore = none })

  unfoldable pub apply : Exec (Unit {0})
  apply = do
    advance stopping
    stop
    take_lock
    snapshot_database
    advance replacing
    replace_binary
    advance validating
    start
    wait_ready
    j ← gets (λ w. w.journal)
    when (not j.was_running) stop
    advance committed

  unfoldable pub rollback : Exec (Unit {0})
  rollback = do
    advance rolling_back
    stop
    take_lock
    restore_binary
    restore_database
    j ← gets (λ w. w.journal)
    when j.was_running (do start; wait_ready)
    advance restored

  unfoldable pub remove_task : Exec (Unit {0})
  remove_task = do
    atomic (λ d. record d { task = false })
    remember (λ j. record j { task_removed = true })
    save

  unfoldable pub cleanup : Exec (Unit {0})
  cleanup = do j ← gets (λ w. w.journal); when (not j.task_removed) remove_task

  abbrev pub with_error : Text → Journal → Journal
  with_error why j = record j { error = some why }

  -- What follows an apply that failed or was interrupted.
  unfoldable pub recover_from : Text → Exec (Unit {0})
  recover_from cause = do
    remember (with_error cause)
    save
    catch rollback (λ recovery. do
      remember (with_error (recovery_failed cause recovery))
      save
      fail (recovery_failed cause recovery))
    cleanup
    fail (cause ++ codes "; previous version restored")

  abbrev pub is_prepared : Phase → Bool
  is_prepared prepared = true
  is_prepared _ = false

  abbrev pub attempt : Bool → Journal → Exec (Unit {0})
  attempt recover j =
      if not recover && is_prepared j.phase
      then apply
      else fail (codes "Interrupted update; restoring previous version")

  unfoldable pub run_journal : Bool → Exec (Unit {0})
  run_journal recover = do
    j ← gets (λ w. w.journal)
    if terminal j.phase
        then cleanup
        else if not j.armed
        then advance restored >> cleanup
        else catch (attempt recover j) recover_from >> cleanup

  -- A freshly prepared transaction that fails its checks is given up: nothing was changed yet.
  abbrev pub abandon : Journal → Text → Exec (Unit {0})
  abandon j cause =
      if j.armed && is_prepared j.phase
      then remember (λ j. record j {
        error = some (cause ++ codes "; update abandoned, nothing changed");
        armed = false;
      })
        >> advance restored
        >> cleanup
        >> fail cause
      else fail cause

  -- `validate_journal` compares paths and the digest of the worker's own executable, which are left
  -- out here, so it is one operation that may fail.
  abbrev pub begin : Bool → Option Journal → Exec (Unit {0})
  begin recover none = fail (codes "No update journal")
  begin recover (some j) = do
    remember (λ _. j)
    catch (atomic (λ d. d)) (abandon j)
    run_journal recover

  unfoldable pub run_worker : Bool → Exec (Unit {0})
  run_worker recover = do take_lock; found ← gets (λ w. w.disk.journal); begin recover found

abbrev pub disk_of : {A : Type 0} → Outcome A → Disk
disk_of (done _ _ w) = w.disk
disk_of (failed _ _ w) = w.disk
disk_of (stopped w) = w.disk
