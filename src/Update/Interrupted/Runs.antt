-- ===== src/Update/Interrupted/Runs.antt =====
-- src/update_transaction.rs: whole runs of the recovery worker, failing or interrupted.
use stt_server.Prelude.{
  ℕ, ◌≡◌, refl, sym, subst, Bool, true, false, not, ◌&&◌, List, Option, some, if◌then◌else◌, inl,
  inr, Text,
}
use stt_server.Update.{
  terminal, Journal, Disk, World, ◌>>◌, fail, Fate, Exec, remember, Outcome, done, failed, stopped,
  save,
}
use stt_server.Update.Worker.{
  recovery_failed, is_prepared, begin, with_error, remove_task, when, cleanup, recover_from,
  run_journal, run_worker, disk_of,
}
use stt_server.Update.Recovery.{Pending, taken}
use stt_server.Update.Interrupted.Outcomes.{
  StillPending, Safe, Live, Fine, Post, Post-bind, Post-caught, Post-effect, Live-save, LiveWith,
}
use stt_server.Update.Interrupted.Steps.{save_Post, Anything}
use stt_server.Update.Interrupted.Rollback.{IsDone, with_journal, rollback_Post}

module _ (hash : ℕ → ℕ) (old : ℕ) (sha : Option ℕ) where
  abbrev SafeWorld : World → Type 0
  SafeWorld w = (Safe hash old sha) w.disk

  Fine-Safe : (w : World) → (Fine hash old sha) w → SafeWorld w
  Fine-Safe w (inl v) = inl v.on_disk
  Fine-Safe w (inr p) = p.0

  Post-Fine :
      (Q : World → Type 0) (o : Outcome (Unit {0}))
      → (Post hash old sha) Q (Fine hash old sha) o
      → (Post hash old sha) Q SafeWorld o
  Post-Fine Q (done _ _ w) h = h
  Post-Fine Q (failed _ _ w) h = Fine-Safe w h
  Post-Fine Q (stopped w) h = h

  Live-with_error :
      (w : World) (why : Text)
      → (Live hash old sha) w
      → (Live hash old sha) ((with_journal hash old sha) w (with_error hash why w.journal))
  Live-with_error w why v = record {
    on_disk = v.on_disk;
    held_armed = v.held_armed;
    held_unfinished = v.held_unfinished;
    held_old = v.held_old;
    held_sha = v.held_sha;
    held_begun = v.held_begun;
  }

  Fine-with_error :
      (w : World) (why : Text)
      → (Fine hash old sha) w
      → (Fine hash old sha) ((with_journal hash old sha) w (with_error hash why w.journal))
  Fine-with_error w why (inl v) = inl (Live-with_error w why v)
  Fine-with_error w why (inr p) = inr p

  Fine-save :
      (w : World)
      → (Fine hash old sha) w
      → (Safe hash old sha) (record w.disk { journal = some w.journal })
  Fine-save w (inl v) = inl ((Live-save hash old sha) w v).on_disk
  Fine-save w (inr p) = inr (w.journal, refl, p.2, p.1)

  -- What is done when the rollback fails.
  noted_Post :
      (why : Text) (fates : List Fate) (w : World)
      → (Fine hash old sha) w
      → (Post hash old sha)
          (IsDone hash old sha)
          SafeWorld
          ((remember (with_error hash why) >> (save >> fail {A = Unit {0}} why)) fates w)
  unfolding save
  noted_Post why fates w v =
      (Post-bind hash old sha) SafeWorld (IsDone hash old sha) SafeWorld _ _
        ((Post-effect hash old sha) (Fine hash old sha) SafeWorld SafeWorld _ _
          (λ x p. Fine-save x p) (λ x p. Fine-Safe x p) (λ x p. Fine-Safe x p) fates
          ((with_journal hash old sha) w (with_error hash why w.journal)) (Fine-with_error w why v))
        (λ fates w v. v)

  remove_task_Post :
      (b : Bool) (fates : List Fate) (w : World)
      → (IsDone hash old sha) w
      → (Post hash old sha) (IsDone hash old sha) SafeWorld (when b (remove_task hash) fates w)
  unfolding remove_task save
  remove_task_Post false fates w v = v
  remove_task_Post true fates w v =
      (Post-bind hash old sha) (IsDone hash old sha) (IsDone hash old sha) SafeWorld _ _
        ((Post-effect hash old sha) (IsDone hash old sha) (IsDone hash old sha) SafeWorld
          (λ w. record w { disk = record w.disk { task = false } }) (λ w. w) (λ x p. p)
          (λ x p. inr p.0) (λ x p. inr p.0) fates w v)
        (λ fates w v.
          (Post-effect hash old sha) (IsDone hash old sha) (IsDone hash old sha) SafeWorld _ _
            (λ x p. ((x.journal, refl, p.1, p.0.3), p.1)) (λ x p. inr p.0) (λ x p. inr p.0) fates
            ((with_journal hash old sha) w (record w.journal { task_removed = true })) v)

  cleanup_Post :
      (fates : List Fate) (w : World)
      → (IsDone hash old sha) w
      → (Post hash old sha) (IsDone hash old sha) SafeWorld (cleanup hash fates w)
  unfolding cleanup
  cleanup_Post fates w v = remove_task_Post (not w.journal.task_removed) fates w v

  recover_from_Post :
      (cause : Text) (fates : List Fate) (w : World)
      → (Live hash old sha) w
      → (Post hash old sha) (IsDone hash old sha) SafeWorld (recover_from hash cause fates w)
  unfolding recover_from
  recover_from_Post cause fates w v =
      (Post-bind hash old sha) ((LiveWith hash old sha) (Anything hash old sha))
        (IsDone hash old sha) SafeWorld _ _
        (Post-Fine ((LiveWith hash old sha) (Anything hash old sha)) _ (
          (save_Post hash old sha) (Anything hash old sha) (λ d j r. tt) fates
            ((with_journal hash old sha) w (with_error hash cause w.journal))
            (Live-with_error w cause v, tt)))
        (λ fates w v.
          (Post-bind hash old sha) (IsDone hash old sha) (IsDone hash old sha) SafeWorld _ _
            ((Post-caught hash old sha) (IsDone hash old sha) (Fine hash old sha) SafeWorld _ _
              ((rollback_Post hash old sha) fates w v.0)
              (λ recovery fates w v. noted_Post (recovery_failed cause recovery) fates w v))
            (λ fates w v.
              (Post-bind hash old sha) (IsDone hash old sha) (IsDone hash old sha) SafeWorld _ _
                (cleanup_Post fates w v) (λ fates w v. inr v.0)))

  unprepared_Post :
      (b : Bool) (x : Exec (Unit {0})) (why : Text) (fates : List Fate) (w : World)
      → b ≡ false
      → SafeWorld w
      → (Post hash old sha) (Live hash old sha) SafeWorld ((if b then x else fail why) fates w)
  unprepared_Post true x why fates w h v = absurd cc
  unprepared_Post false x why fates w h v = v

  run_journal_Post :
      (fates : List Fate) (w : World)
      → (Live hash old sha) w
      → (Post hash old sha) (IsDone hash old sha) SafeWorld (run_journal hash true fates w)
  unfolding run_journal
  run_journal_Post fates w v =
      subst (λ m. (Post hash old sha) (IsDone hash old sha) SafeWorld (m fates w))
        (sym (
          taken hash (terminal w.journal.phase) w.journal.armed _ _ _ v.held_unfinished
            v.held_armed))
        ((Post-bind hash old sha) (IsDone hash old sha) (IsDone hash old sha) SafeWorld _ _
          (recover_from_Post _ fates w v) cleanup_Post)

  and_false : (a b : Bool) → b ≡ false → (a && b) ≡ false
  and_false true b h = h
  and_false false b h = refl

  begin_Post :
      (j : Journal) (fates : List Fate) (w : World)
      → Pending hash w.disk j
      → j.old_sha256 ≡ old
      → j.database_sha256 ≡ sha
      → is_prepared hash j.phase ≡ false
      → (Post hash old sha) (IsDone hash old sha) SafeWorld (begin hash true (some j) fates w)
  begin_Post j fates w p eo es en =
      let v : (Live hash old sha) ((with_journal hash old sha) w j) = record {
        on_disk = (j, p, eo, es, en);
        held_armed = p.armed;
        held_unfinished = p.unfinished;
        held_old = eo;
        held_sha = es;
        held_begun = en;
      } in
      (Post-bind hash old sha) (Live hash old sha) (IsDone hash old sha) SafeWorld _ _
        ((Post-caught hash old sha) (Live hash old sha) (Live hash old sha) SafeWorld _ _
          ((Post-effect hash old sha) (Live hash old sha) (Live hash old sha) (Live hash old sha)
            (λ w. w) (λ w. w) (λ x p. p) (λ x p. p) (λ x p. inl p.on_disk) fates
            ((with_journal hash old sha) w j) v)
          (λ why fates w v.
            unprepared_Post (j.armed && is_prepared hash j.phase) _ why fates w
              (and_false j.armed (is_prepared hash j.phase) en) (inl v.on_disk)))
        run_journal_Post

  run_worker_Post :
      (fates : List Fate) (w : World)
      → (StillPending hash old sha) w.disk
      → (Post hash old sha) (IsDone hash old sha) SafeWorld (run_worker hash true fates w)
  unfolding run_worker
  run_worker_Post fates w v =
      let Q : World → Type 0 = (λ x. (StillPending hash old sha) x.disk) in
      (Post-bind hash old sha) Q (IsDone hash old sha) SafeWorld _ _
        ((Post-effect hash old sha) Q Q SafeWorld (λ w. w) (λ w. w) (λ x p. p) (λ x p. inl p)
          (λ x p. inl p) fates w v)
        (λ fates x k.
          let (j, p, eo, es, en) = k in
          subst
            (λ o. (Post hash old sha) (IsDone hash old sha) SafeWorld (begin hash true o fates x))
            (sym p.published) (begin_Post j fates x p eo es en))

  Safe-disk_of :
      (o : Outcome (Unit {0}))
      → (Post hash old sha) (IsDone hash old sha) SafeWorld o
      → (Safe hash old sha) (disk_of o)
  Safe-disk_of (done _ _ w) h = inr h.0
  Safe-disk_of (failed _ _ w) h = h
  Safe-disk_of (stopped w) h = h

module _ (hash : ℕ → ℕ) where
  -- Whatever operation of a recovery run fails, and wherever the computer stops, an armed and
  -- unfinished transaction past the phase prepared is afterwards either still one, with its copies
  -- and the same digests, or over with the phase restored and the old executable in place.
  pub interrupted-Safe :
      (d : Disk) (j held : Journal) (fates : List Fate)
      → Pending hash d j
      → is_prepared hash j.phase ≡ false
      → Safe hash j.old_sha256 j.database_sha256
          (disk_of (run_worker hash true fates (record { disk = d; journal = held })))
  interrupted-Safe d j held fates p h = Safe-disk_of hash j.old_sha256 j.database_sha256 _ (
      run_worker_Post hash j.old_sha256 j.database_sha256 fates
        (record { disk = d; journal = held }) (j, p, refl, refl, h))
