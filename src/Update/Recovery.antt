-- ===== src/Update/Recovery.antt =====
-- src/update_transaction.rs: a recovery that nothing interrupts puts the previous version back.
use stt_server.Prelude.{
  ℕ, ◌≡◌, refl, sym, ap, subst, ◌∙◌, Bool, true, false, not, [], Option, none, some, if◌then◌else◌,
  Bool-cases, inl, inr, arith, Text, codes, ◌++◌,
}
use stt_server.Update.{
  rolling_back, restored, terminal, Journal, Disk, World, hash_is, ◌>>◌, fail, caught, Exec,
  then_run, at_phase, Outcome, done, failed, stopped, save, advance, checked_hash,
}
use stt_server.Update.Worker.{
  begin, with_error, remove_task, when, is_some, moved, restore_snapshot, stop, start, wait_ready,
  restore_database, restore_binary, rollback, cleanup, recover_from, run_journal, run_worker,
  disk_of,
}

module _ (hash : ℕ → ℕ) where
  -- A database with the digest that the journal has, if it has one.
  abbrev pub Matches : Option ℕ → Option ℕ → Type 0
  Matches none content = Unit {0}
  Matches (some sha) content = hash_is hash content sha ≡ true

  -- An armed transaction that is not over, with the copies that undoing it needs.
  pub record Pending (d : Disk) (j : Journal) : Type 0 where
    pub published : d.journal ≡ some j
    pub armed : j.armed ≡ true
    pub unfinished : terminal j.phase ≡ false
    pub previous_kept : hash_is hash d.previous j.old_sha256 ≡ true
    pub snapshot_kept : Matches j.database_sha256 d.snapshot

  -- The previous executable is in place, and the database of the snapshot.
  pub record Restored (d : Disk) (j : Journal) : Type 0 where
    pub finished : (j' : Journal) × (d.journal ≡ some j') × (j'.phase ≡ restored)
    pub executable_back : hash_is hash d.executable j.old_sha256 ≡ true
    pub database_back : Matches j.database_sha256 d.database
    pub running_again : d.running ≡ j.was_running
    pub task_gone : j.task_removed ≡ false → d.task ≡ false

  checked_hash-clean :
      (file : Disk → Option ℕ) (expected : ℕ) (w : World)
      → hash_is hash (file w.disk) expected ≡ true
      → checked_hash hash file expected [] w ≡ done tt [] w
  unfolding checked_hash
  checked_hash-clean file expected w h = rw h refl

  moved-clean :
      (o : Option ℕ) (sha : ℕ) (f : Disk → Disk) (w : World)
      → hash_is hash o sha ≡ true
      → moved o f [] w ≡ done tt [] (record w { disk = f w.disk })
  moved-clean none sha f w h = absurd cc
  moved-clean (some c) sha f w h = refl

  restore_binary-clean :
      (w : World)
      → hash_is hash w.disk.previous w.journal.old_sha256 ≡ true
      → restore_binary hash [] w
        ≡ done tt []
            (record w { disk = record w.disk { executable = w.disk.previous; restore = none } })
  unfolding restore_binary
  restore_binary-clean w h = rw (checked_hash-clean (λ d. d.previous) w.journal.old_sha256 w h) (
      moved-clean w.disk.previous w.journal.old_sha256
        (λ d. record d { executable = d.restore; restore = none })
        (record w { disk = record w.disk { restore = w.disk.previous } }) h)

  -- The operation succeeds, and what it leaves behind.
  abbrev Succeeds : (World → Type 0) → Outcome (Unit {0}) → Type 0
  Succeeds Q (done _ fates w) = (fates ≡ []) × Q w
  Succeeds Q (failed _ _ _) = ⊥
  Succeeds Q (stopped _) = ⊥

  Succeeds-bind :
      (P Q : World → Type 0) (o : Outcome (Unit {0})) (f : Unit {0} → Exec (Unit {0}))
      → Succeeds P o
      → ((w : World) → P w → Succeeds Q (f tt [] w))
      → Succeeds Q (then_run f o)
  Succeeds-bind P Q (done _ fates w) f h k = rw h.0 (k w h.1)
  Succeeds-bind P Q (failed _ _ _) f h k = absurd h
  Succeeds-bind P Q (stopped _) f h k = absurd h

  -- The database is back, and nothing else of interest has changed.
  abbrev DatabaseBack : Option ℕ → World → World → Type 0
  DatabaseBack sha w w' =
      Matches sha w'.disk.database
      × (w'.disk.executable ≡ w.disk.executable)
      × (w'.disk.task ≡ w.disk.task)
      × (w'.disk.running ≡ w.disk.running)
      × (w'.journal ≡ w.journal)

  restore_snapshot-clean :
      (w : World) (sha : Option ℕ) (existed : Bool)
      → Matches sha w.disk.snapshot
      → Succeeds (DatabaseBack sha w) (restore_snapshot hash sha existed [] w)
  restore_snapshot-clean w (some sha) existed h =
      rw (checked_hash-clean (λ d. d.snapshot) sha w h) (
        rw
          (moved-clean w.disk.snapshot sha
            (λ d. record d { database = d.database_restore; database_restore = none })
            (record w {
              disk = record w.disk { sidecars = false; database_restore = w.disk.snapshot };
            })
            h)
          (refl, (h, refl, refl, refl, refl)))
  restore_snapshot-clean w none true h = (refl, (tt, refl, refl, refl, refl))
  restore_snapshot-clean w none false h = elim (Bool-cases (is_some w.disk.database)) [
    | inl e ↦ rw e (refl, (tt, refl, refl, refl, refl))
    | inr e ↦ rw e (refl, (tt, refl, refl, refl, refl))
  ]

  -- What a rollback leaves.
  abbrev RolledBack : World → World → Type 0
  RolledBack w w' =
      (hash_is hash w'.disk.executable w.journal.old_sha256 ≡ true)
      × Matches w.journal.database_sha256 w'.disk.database
      × (w'.disk.running ≡ w.journal.was_running)
      × (w'.disk.task ≡ w.disk.task)
      × (w'.journal ≡ at_phase restored (at_phase rolling_back w.journal))
      × (w'.disk.journal ≡ some w'.journal)

  finish-clean :
      (w w' : World) (b : Bool)
      → hash_is hash w'.disk.executable w.journal.old_sha256 ≡ true
      → Matches w.journal.database_sha256 w'.disk.database
      → w'.disk.running ≡ false
      → w'.disk.task ≡ w.disk.task
      → w'.journal ≡ at_phase rolling_back w.journal
      → w.journal.was_running ≡ b
      → Succeeds (RolledBack w) ((when b (start >> wait_ready) >> advance restored) [] w')
  unfolding advance save start wait_ready
  finish-clean w w' true he hd hr ht hj e =
      (refl, (he, hd, sym e, ht, ap (at_phase restored) hj, refl))
  finish-clean w w' false he hd hr ht hj e =
      (refl, (he, hd, hr ∙ sym e, ht, ap (at_phase restored) hj, refl))

  rollback-clean :
      (w : World)
      → hash_is hash w.disk.previous w.journal.old_sha256 ≡ true
      → Matches w.journal.database_sha256 w.disk.snapshot
      → Succeeds (RolledBack w) (rollback hash [] w)
  unfolding rollback advance save stop restore_database start wait_ready
  rollback-clean w hp hs =
      let w1 : World = record {
        disk = record w.disk { journal = some (at_phase rolling_back w.journal); running = false };
        journal = at_phase rolling_back w.journal;
      } in
      rw (restore_binary-clean w1 hp) (
        Succeeds-bind
          (DatabaseBack w.journal.database_sha256
            (record w1 { disk = record w1.disk { executable = w.disk.previous; restore = none } }))
          (RolledBack w) _ _
          (restore_snapshot-clean _ w.journal.database_sha256 w.journal.database_existed hs)
          (λ w' k.
            finish-clean w w' w'.journal.was_running
              (subst (λ x. hash_is hash x w.journal.old_sha256 ≡ true) (sym k.1) hp) k.0 k.3 k.2 k.4
              (sym (ap (λ x. x.was_running) k.4))))

  cleaned :
      (w w' : World) (cause : Text) (b : Bool)
      → w'.journal.task_removed ≡ b
      → RolledBack w w'
      → Restored
          (disk_of {A = Unit {0}}
            ((when (not b) (remove_task hash) >> fail {A = Unit {0}} cause >> cleanup hash) [] w'))
          w.journal
  unfolding remove_task save
  cleaned w w' cause true e k = record {
    finished = (w'.journal, k.5, ap (λ x. x.phase) k.4);
    executable_back = k.0;
    database_back = k.1;
    running_again = k.2;
    task_gone = λ h. absurd (ground (arith, e, ap (λ x. x.task_removed) k.4, h));
  }
  cleaned w w' cause false e k = record {
    finished = (record w'.journal { task_removed = true }, refl, ap (λ x. x.phase) k.4);
    executable_back = k.0;
    database_back = k.1;
    running_again = k.2;
    task_gone = λ h. refl;
  }

  after_rollback :
      (w : World) (cause : Text) (h : Text → Exec (Unit {0})) (o : Outcome (Unit {0}))
      → Succeeds (RolledBack w) o
      → Restored
          (disk_of (
            then_run
              (λ _. cleanup hash)
              (then_run (λ _. cleanup hash >> fail {A = Unit {0}} cause) (caught h o))))
          w.journal
  unfolding cleanup
  after_rollback w cause h (done _ fates w') k =
      rw k.0 (cleaned w w' cause w'.journal.task_removed refl k.1)
  after_rollback w cause h (failed _ _ _) k = absurd k
  after_rollback w cause h (stopped _) k = absurd k

  Restored-with_error :
      {d : Disk} {j : Journal} (cause : Text) → Restored d (with_error hash cause j) → Restored d j
  Restored-with_error cause r = record {
    finished = r.finished;
    executable_back = r.executable_back;
    database_back = r.database_back;
    running_again = r.running_again;
    task_gone = r.task_gone;
  }

  -- The error is written down, the rollback succeeds and the task is removed.
  recover_from-clean :
      (w : World) (cause : Text)
      → hash_is hash w.disk.previous w.journal.old_sha256 ≡ true
      → Matches w.journal.database_sha256 w.disk.snapshot
      → Restored (disk_of ((recover_from hash cause >> cleanup hash) [] w)) w.journal
  unfolding recover_from save
  recover_from-clean w cause hp hs =
      let j = with_error hash cause w.journal in
      let w' : World = record { disk = record w.disk { journal = some j }; journal = j } in
      Restored-with_error cause (
        after_rollback w' (cause ++ codes "; previous version restored") _ (rollback hash [] w')
          (rollback-clean w' hp hs))

  pub taken :
      (t a : Bool) (x y z : Exec (Unit {0}))
      → t ≡ false
      → a ≡ true
      → (if t then x else if not a then y else z) ≡ z
  taken true a x y z h k = absurd cc
  taken false true x y z h k = refl
  taken false false x y z h k = absurd cc

  -- A recovery run that nothing disturbs, from any armed transaction that is not over and has its
  -- copies, ends in the phase restored: the executable has the old digest, the database the digest
  -- of its snapshot if one was taken, the server runs again exactly if it did before, and the
  -- recovery task is gone.
  pub clean-Restored :
      (d : Disk) (j held : Journal)
      → Pending d j
      → Restored (disk_of (run_worker hash true [] (record { disk = d; journal = held }))) j
  unfolding run_worker run_journal
  clean-Restored d j held p =
      subst (λ o. Restored (disk_of (begin hash true o [] (record { disk = d; journal = held }))) j)
        (sym p.published)
        (subst (λ m. Restored (disk_of (m [] (record { disk = d; journal = j }))) j)
          (sym (taken (terminal j.phase) j.armed _ _ _ p.unfinished p.armed))
          (recover_from-clean (record { disk = d; journal = j })
            (codes "Interrupted update; restoring previous version") p.previous_kept
            p.snapshot_kept))
