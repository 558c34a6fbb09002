-- ===== src/Update/Interrupted/Rollback.antt =====
-- src/update_transaction.rs: a rollback, failing or interrupted anywhere.
use stt_server.Prelude.{
  ℕ, ◌≡◌, refl, sym, subst, Bool, true, false, List, Option, none, some, inl, inr,
}
use stt_server.Update.{
  restored, rolling_back, Journal, Disk, World, hash_is, ◌>>◌, effect, atomic, Fate, Exec, at_phase,
  save, advance,
}
use stt_server.Update.Worker.{
  when, is_some, restore_snapshot, stop, start, wait_ready, restore_database, rollback,
}
use stt_server.Update.Interrupted.Outcomes.{
  StillPending, IsBack, IsOver, Live, Fine, Post, Post-bind, Post-effect, LiveWith,
}
use stt_server.Update.Interrupted.Steps.{
  Keeps, step_Post, Keeps-none, save_Post, checked_hash_Post, moved_Post, Anything,
  restore_binary_Post,
}

module _ (hash : ℕ → ℕ) (old : ℕ) (sha : Option ℕ) where
  abbrev pub id_step :
      (fates : List Fate) (w : World)
      → (LiveWith hash old sha) (IsBack hash old sha) w
      → (Post hash old sha)
          ((LiveWith hash old sha) (IsBack hash old sha))
          (Fine hash old sha)
          (atomic (λ d. d) fates w)
  id_step =
      (step_Post hash old sha) (IsBack hash old sha) (IsBack hash old sha) (λ d. d) (λ d. d)
        (Keeps-none hash old sha) (Keeps-none hash old sha) (λ w v r. r)

  -- A step that touches neither the executable nor what recovery needs.
  pub beside_Post :
      (f g : Disk → Disk)
      → (Keeps hash old sha) f
      → (Keeps hash old sha) g
      → ((d : Disk) → (f d).executable ≡ d.executable)
      → (fates : List Fate) (w : World) → (LiveWith hash old sha) (IsBack hash old sha) w
      → (Post hash old sha)
          ((LiveWith hash old sha) (IsBack hash old sha))
          (Fine hash old sha)
          (effect (λ w. record w { disk = f w.disk }) (λ w. record w { disk = g w.disk }) fates w)
  beside_Post f g kf kg e =
      (step_Post hash old sha) (IsBack hash old sha) (IsBack hash old sha) f g kf kg
        (λ w v r. subst (λ x. hash_is hash x old ≡ true) (sym (e w.disk)) r)

  pub when_Post :
      (b : Bool) (m : Exec (Unit {0}))
      → ((fates : List Fate) (w : World)
          → (LiveWith hash old sha) (IsBack hash old sha) w
          → (Post hash old sha)
              ((LiveWith hash old sha) (IsBack hash old sha))
              (Fine hash old sha)
              (m fates w))
      → (fates : List Fate) (w : World) → (LiveWith hash old sha) (IsBack hash old sha) w
      → (Post hash old sha)
          ((LiveWith hash old sha) (IsBack hash old sha))
          (Fine hash old sha)
          (when b m fates w)
  when_Post true m h fates w v = h fates w v
  when_Post false m h fates w v = v

  pub drop_sidecars :
      (fates : List Fate) (w : World)
      → (LiveWith hash old sha) (IsBack hash old sha) w
      → (Post hash old sha)
          ((LiveWith hash old sha) (IsBack hash old sha))
          (Fine hash old sha)
          (atomic (λ d. record d { sidecars = false }) fates w)
  drop_sidecars =
      beside_Post (λ d. record d { sidecars = false }) (λ d. d) (λ d. (refl, refl, refl))
        (Keeps-none hash old sha) (λ d. refl)

  pub restore_snapshot_Post :
      (s : Option ℕ) (existed : Bool) (fates : List Fate) (w : World)
      → (LiveWith hash old sha) (IsBack hash old sha) w
      → (Post hash old sha)
          ((LiveWith hash old sha) (IsBack hash old sha))
          (Fine hash old sha)
          (restore_snapshot hash s existed fates w)
  restore_snapshot_Post (some s) existed fates w v =
      (Post-bind hash old sha) ((LiveWith hash old sha) (IsBack hash old sha))
        ((LiveWith hash old sha) (IsBack hash old sha)) (Fine hash old sha) _ _
        ((checked_hash_Post hash old sha) (IsBack hash old sha) (λ d. d.snapshot) s fates w v)
        (λ fates w v.
          (Post-bind hash old sha) ((LiveWith hash old sha) (IsBack hash old sha))
            ((LiveWith hash old sha) (IsBack hash old sha)) (Fine hash old sha) _ _
            (drop_sidecars fates w v)
            (λ fates w v.
              (Post-bind hash old sha) ((LiveWith hash old sha) (IsBack hash old sha))
                ((LiveWith hash old sha) (IsBack hash old sha)) (Fine hash old sha) _ _
                (beside_Post (λ d. record d { database_restore = d.snapshot })
                  (λ d. record d { database_restore = none }) (λ d. (refl, refl, refl))
                  (λ d. (refl, refl, refl)) (λ d. refl) fates w v)
                (λ fates w v.
                  (moved_Post hash old sha) (IsBack hash old sha) (IsBack hash old sha)
                    w.disk.database_restore
                    (λ d. record d { database = d.database_restore; database_restore = none })
                    (λ d. (refl, refl, refl)) (λ w v r. r) fates w v)))
  restore_snapshot_Post none true fates w v = v
  restore_snapshot_Post none false fates w v =
      (Post-bind hash old sha) ((LiveWith hash old sha) (IsBack hash old sha))
        ((LiveWith hash old sha) (IsBack hash old sha)) (Fine hash old sha) _ _
        (when_Post (is_some w.disk.database) _
          (beside_Post (λ d. record d { failed_database = d.database; database = none }) (λ d. d)
            (λ d. (refl, refl, refl)) (Keeps-none hash old sha) (λ d. refl))
          fates w v)
        (λ fates w v. drop_sidecars fates w v)

  -- Over on the disk and in the journal held.
  abbrev pub IsDone : World → Type 0
  IsDone w = (IsOver hash old sha) w.disk × (w.journal.phase ≡ restored)

  pub advance_restored_Post :
      (fates : List Fate) (w : World)
      → (LiveWith hash old sha) (IsBack hash old sha) w
      → (Post hash old sha) IsDone (Fine hash old sha) (advance restored fates w)
  unfolding advance save
  advance_restored_Post fates w v =
      (Post-effect hash old sha)
        (λ x.
          (StillPending hash old sha) x.disk
          × (IsBack hash old sha) x.disk
          × (x.journal.phase ≡ restored))
        IsDone (Fine hash old sha) _ _ (λ x p. ((x.journal, refl, p.2, p.1), p.2))
        (λ x p. inr (inl p.0, p.1, p.2)) (λ x p. inl p.0) fates
        (record w { journal = at_phase restored w.journal }) (v.0.on_disk, v.1, refl)

  abbrev pub with_journal : World → Journal → World
  with_journal w j = record w { journal = j }

  pub Live-at :
      (w : World)
      → (Live hash old sha) w
      → (Live hash old sha) (with_journal w (at_phase rolling_back w.journal))
  Live-at w v = record {
    on_disk = v.on_disk;
    held_armed = v.held_armed;
    held_unfinished = refl;
    held_old = v.held_old;
    held_sha = v.held_sha;
    held_begun = refl;
  }

  pub rollback_Post :
      (fates : List Fate) (w : World)
      → (Live hash old sha) w
      → (Post hash old sha) IsDone (Fine hash old sha) (rollback hash fates w)
  unfolding rollback advance stop start wait_ready restore_database
  rollback_Post fates w v =
      (Post-bind hash old sha) ((LiveWith hash old sha) (Anything hash old sha)) IsDone
        (Fine hash old sha) _ _
        ((save_Post hash old sha) (Anything hash old sha) (λ d j r. tt) fates
          (with_journal w (at_phase rolling_back w.journal)) (Live-at w v, tt))
        (λ fates w v.
          (Post-bind hash old sha) ((LiveWith hash old sha) (Anything hash old sha)) IsDone
            (Fine hash old sha) _ _
            ((step_Post hash old sha) (Anything hash old sha) (Anything hash old sha)
              (λ d. record d { running = false }) (λ d. d) (λ d. (refl, refl, refl))
              (Keeps-none hash old sha) (λ w v r. tt) fates w v)
            (λ fates w v.
              (Post-bind hash old sha) ((LiveWith hash old sha) (Anything hash old sha)) IsDone
                (Fine hash old sha) _ _
                ((step_Post hash old sha) (Anything hash old sha) (Anything hash old sha) (λ d. d)
                  (λ d. d) (Keeps-none hash old sha) (Keeps-none hash old sha) (λ w v r. tt) fates w
                  v)
                (λ fates w v.
                  (Post-bind hash old sha) ((LiveWith hash old sha) (IsBack hash old sha)) IsDone
                    (Fine hash old sha) _ _ ((restore_binary_Post hash old sha) fates w v)
                    (λ fates w v.
                      (Post-bind hash old sha) ((LiveWith hash old sha) (IsBack hash old sha))
                        IsDone (Fine hash old sha) _ _
                        (restore_snapshot_Post w.journal.database_sha256 w.journal.database_existed
                          fates w v)
                        (λ fates w v.
                          (Post-bind hash old sha) ((LiveWith hash old sha) (IsBack hash old sha))
                            IsDone (Fine hash old sha) _ _
                            (when_Post w.journal.was_running (start >> wait_ready)
                              (λ fates w v.
                                (Post-bind hash old sha)
                                  ((LiveWith hash old sha) (IsBack hash old sha))
                                  ((LiveWith hash old sha) (IsBack hash old sha))
                                  (Fine hash old sha) _ _
                                  (beside_Post (λ d. record d { running = true }) (λ d. d)
                                    (λ d. (refl, refl, refl)) (Keeps-none hash old sha) (λ d. refl)
                                    fates w v)
                                  (λ fates w v. id_step fates w v))
                              fates w v)
                            (λ fates w v. advance_restored_Post fates w v))))))
