-- ===== src/Update/Interrupted/Outcomes.antt =====
-- src/update_transaction.rs: what holds of a recovery wherever it fails or the computer stops.
use stt_server.Prelude.{
  ℕ, ◌≡◌, refl, sym, subst, ◌∙◌, true, false, List, [], ◌∷◌, Option, some, ◌⊎◌, Text,
}
use stt_server.Update.{
  restored, terminal, Journal, Disk, World, hash_is, caught, effect, Fate, works, fails, stops,
  Exec, then_run, Outcome, done, failed, stopped,
}
use stt_server.Update.Worker.{is_prepared}
use stt_server.Update.Recovery.{Matches, Pending}

module _ (hash : ℕ → ℕ) (old : ℕ) (sha : Option ℕ) where
  -- Still to be recovered, with the digests of the start.
  abbrev pub StillPending : Disk → Type 0
  StillPending d =
      (j : Journal) × Pending hash d j
      × (j.old_sha256 ≡ old)
      × (j.database_sha256 ≡ sha)
      × (is_prepared hash j.phase ≡ false)

  abbrev pub IsBack : Disk → Type 0
  IsBack d = hash_is hash d.executable old ≡ true

  abbrev pub IsOver : Disk → Type 0
  IsOver d = (j : Journal) × (d.journal ≡ some j) × (j.phase ≡ restored) × IsBack d

  abbrev pub Safe : Disk → Type 0
  Safe d = StillPending d ⊎ IsOver d

  -- The worker at work: the disk is pending, and so is the journal it holds.
  pub record Live (w : World) : Type 0 where
    pub on_disk : StillPending w.disk
    pub held_armed : w.journal.armed ≡ true
    pub held_unfinished : terminal w.journal.phase ≡ false
    pub held_old : w.journal.old_sha256 ≡ old
    pub held_sha : w.journal.database_sha256 ≡ sha
    pub held_begun : is_prepared hash w.journal.phase ≡ false

  -- Where an operation may fail: at work, or over but for the journal on the disk.
  abbrev pub Fine : World → Type 0
  Fine w = Live w ⊎ (Safe w.disk × IsBack w.disk × (w.journal.phase ≡ restored))

  abbrev pub Post : (World → Type 0) → (World → Type 0) → Outcome (Unit {0}) → Type 0
  Post Q F (done _ _ w) = Q w
  Post Q F (failed _ _ w) = F w
  Post Q F (stopped w) = Safe w.disk

  pub Post-bind :
      (P Q F : World → Type 0) (o : Outcome (Unit {0})) (f : Unit {0} → Exec (Unit {0}))
      → Post P F o
      → ((fates : List Fate) (w : World) → P w → Post Q F (f tt fates w))
      → Post Q F (then_run f o)
  Post-bind P Q F (done _ fates w) f h k = k fates w h
  Post-bind P Q F (failed _ _ _) f h k = h
  Post-bind P Q F (stopped _) f h k = h

  pub Post-caught :
      (Q F F' : World → Type 0) (o : Outcome (Unit {0})) (h : Text → Exec (Unit {0}))
      → Post Q F o
      → ((why : Text) (fates : List Fate) (w : World) → F w → Post Q F' (h why fates w))
      → Post Q F' (caught h o)
  Post-caught Q F F' (done _ fates w) h p k = p
  Post-caught Q F F' (failed why fates w) h p k = k why fates w p
  Post-caught Q F F' (stopped _) h p k = p

  pub Post-effect :
      (P Q F : World → Type 0) (f g : World → World)
      → ((w : World) → P w → Q (f w))
      → ((w : World) → P w → F (g w))
      → ((w : World) → P w → Safe (g w).disk)
      → (fates : List Fate) (w : World) → P w
      → Post Q F (effect f g fates w)
  Post-effect P Q F f g a b c [] w p = a w p
  Post-effect P Q F f g a b c (works ∷ fates) w p = a w p
  Post-effect P Q F f g a b c (fails why ∷ fates) w p = b w p
  Post-effect P Q F f g a b c (stops ∷ fates) w p = c w p

  -- What the operations of a rollback do not touch.
  pub Live-kept :
      (w : World) (d : Disk)
      → d.journal ≡ w.disk.journal
      → d.previous ≡ w.disk.previous
      → d.snapshot ≡ w.disk.snapshot
      → Live w
      → Live (record w { disk = d })
  Live-kept w d e1 e2 e3 v =
      let (j, p, eo, es, en) = v.on_disk in
      record {
        on_disk = (
          j,
          record {
            published = e1 ∙ p.published;
            armed = p.armed;
            unfinished = p.unfinished;
            previous_kept =
                subst (λ x. hash_is hash x j.old_sha256 ≡ true) (sym e2) p.previous_kept;
            snapshot_kept = subst (λ x. Matches hash j.database_sha256 x) (sym e3) p.snapshot_kept;
          },
          eo,
          es,
          en,
        );
        held_armed = v.held_armed;
        held_unfinished = v.held_unfinished;
        held_old = v.held_old;
        held_sha = v.held_sha;
        held_begun = v.held_begun;
      }

  pub Live-save :
      (w : World) → Live w → Live (record w { disk = record w.disk { journal = some w.journal } })
  Live-save w v =
      let (j, p, eo, es, en) = v.on_disk in
      record {
        on_disk = (
          w.journal,
          record {
            published = refl;
            armed = v.held_armed;
            unfinished = v.held_unfinished;
            previous_kept =
                subst (λ o. hash_is hash w.disk.previous o ≡ true) (eo ∙ sym v.held_old)
                  p.previous_kept;
            snapshot_kept =
                subst (λ o. Matches hash o w.disk.snapshot) (es ∙ sym v.held_sha) p.snapshot_kept;
          },
          v.held_old,
          v.held_sha,
          v.held_begun,
        );
        held_armed = v.held_armed;
        held_unfinished = v.held_unfinished;
        held_old = v.held_old;
        held_sha = v.held_sha;
        held_begun = v.held_begun;
      }

  pub Live-previous : (w : World) → Live w → hash_is hash w.disk.previous old ≡ true
  Live-previous w v =
      let (j, p, eo, es, en) = v.on_disk in
      subst (λ o. hash_is hash w.disk.previous o ≡ true) eo p.previous_kept

  abbrev pub LiveWith : (Disk → Type 0) → World → Type 0
  LiveWith R w = Live w × R w.disk
