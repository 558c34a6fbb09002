-- ===== src/Update/Tests.antt =====
-- Concrete updates: one that succeeds, one that fails and is undone, a recovery after the computer
-- stopped, and the recovery's theorem there.
use stt_server.Prelude.{
  ℕ, zero, suc, ◌+◌, ◌≡◌, refl, Bool, true, false, List, [], ◌∷◌, Option, none, some, codes,
}
use stt_server.Update.{
  Phase, prepared, replacing, restored, committed, Journal, Disk, Fate, works, fails, stops, save,
  advance, checked_hash,
}
use stt_server.Update.Worker.{
  stop, start, wait_ready, snapshot_database, restore_database, replace_binary, restore_binary,
  apply, rollback, remove_task, cleanup, recover_from, run_journal, run_worker, disk_of,
}
use stt_server.Update.Interrupted.Outcomes.{Safe}
use stt_server.Update.Interrupted.Runs.{interrupted-Safe}
use stt_server.Update.Recovery.{Restored, clean-Restored}

-- The digest of a content, in these tests.
abbrev hash : ℕ → ℕ
hash content = content + 100

abbrev journal : Journal
journal = record {
  phase = prepared;
  was_running = true;
  old_sha256 = 101;
  new_sha256 = 102;
  database_existed = true;
  database_sha256 = none;
  task_removed = false;
  armed = true;
  error = none;
}

abbrev disk : Disk
disk = record {
  journal = some journal;
  executable = some 1;
  previous = some 1;
  candidate = some 2;
  retired = none;
  restore = none;
  database = some 7;
  sidecars = true;
  snapshot = none;
  database_restore = none;
  failed_database = none;
  task = true;
  running = true;
}

after : Bool → List Fate → Disk → Disk
unfolding run_worker run_journal apply rollback recover_from cleanup remove_task advance save stop
    start wait_ready snapshot_database restore_database replace_binary restore_binary checked_hash
after recover fates d =
    disk_of (run_worker hash recover fates (record { disk = d; journal = journal }))

all_work : ℕ → List Fate → List Fate
all_work zero rest = rest
all_work (suc n) rest = works ∷ all_work n rest

phase_of : Option Journal → Option Phase
phase_of none = none
phase_of (some j) = some j.phase

outcome : Disk → Option Phase × Option ℕ × Option ℕ
outcome d = (phase_of d.journal, d.executable, d.database)

update_succeeds : outcome (after false [] disk) ≡ (some committed, some 2, some 7)
unfolding after outcome phase_of
update_succeeds = refl

-- The new server never becomes ready.
update_undone :
    outcome (after false (all_work 16 (fails (codes "Timed out") ∷ [])) disk)
    ≡ (some restored, some 1, some 7)
unfolding after outcome phase_of all_work
update_undone = refl

-- The computer stops between the two renames: no executable is in place until the recovery.
stopped_between : (after false (all_work 13 (stops ∷ [])) disk).executable ≡ none
unfolding after all_work
stopped_between = refl

recovered :
    outcome (after true [] (after false (all_work 13 (stops ∷ [])) disk))
    ≡ (some restored, some 1, some 7)
unfolding after outcome phase_of all_work
recovered = refl

-- Saving the phase committed fails, which has disarmed the journal in memory; the rollback then
-- publishes a disarmed journal and the computer stops. The recovery believes that nothing was done:
-- the phase is restored and the new executable stays.
disarmed_rollback : List Fate
disarmed_rollback = all_work 17 (fails (codes "disk full") ∷ works ∷ works ∷ stops ∷ [])

not_restored :
    outcome (after true [] (after false disarmed_rollback disk)) ≡ (some restored, some 2, some 7)
unfolding after outcome phase_of disarmed_rollback all_work
not_restored = refl

-- The journal as the stop between the renames leaves it.
abbrev half_done : Journal
half_done = record journal { phase = replacing; database_sha256 = some 107 }

abbrev half_disk : Disk
half_disk = record disk {
  journal = some half_done;
  executable = none;
  retired = some 1;
  snapshot = some 7;
  sidecars = false;
  running = false;
}

clean-Restored_example :
    Restored hash
      (disk_of (run_worker hash true [] (record { disk = half_disk; journal = journal })))
      half_done
clean-Restored_example = clean-Restored hash half_disk half_done journal (record {
  published = refl;
  armed = refl;
  unfinished = refl;
  previous_kept = refl;
  snapshot_kept = refl;
})

interrupted-Safe_example : Safe hash 101 (some 107) (
    disk_of (
      run_worker hash true
        (works ∷ works ∷ works ∷ fails (codes "access denied") ∷ stops ∷ [])
        (record { disk = half_disk; journal = journal })))
interrupted-Safe_example =
    interrupted-Safe hash half_disk half_done journal
      (works ∷ works ∷ works ∷ fails (codes "access denied") ∷ stops ∷ [])
      (record {
        published = refl;
        armed = refl;
        unfinished = refl;
        previous_kept = refl;
        snapshot_kept = refl;
      })
      refl
