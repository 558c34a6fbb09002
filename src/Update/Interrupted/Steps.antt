-- ===== src/Update/Interrupted/Steps.antt =====
-- src/update_transaction.rs: single operations of a rollback, each failing or interrupted.
use stt_server.Prelude.{
  ℕ, ◌≡◌, refl, Bool, true, false, List, Option, none, some, if◌then◌else◌, inl, Text,
}
use stt_server.Update.{Journal, Disk, World, hash_is, pure, fail, effect, Fate, save, checked_hash}
use stt_server.Update.Worker.{moved, restore_binary}
use stt_server.Update.Interrupted.Outcomes.{
  IsBack, Live, Fine, Post, Post-bind, Post-effect, Live-kept, Live-save, Live-previous, LiveWith,
}

module _ (hash : ℕ → ℕ) (old : ℕ) (sha : Option ℕ) where
  abbrev pub Keeps : (Disk → Disk) → Type 0
  Keeps f =
      (d : Disk)
      → ((f d).journal ≡ d.journal) × ((f d).previous ≡ d.previous) × ((f d).snapshot ≡ d.snapshot)

  -- An operation on other files than the journal and the two copies.
  pub step_Post :
      (R R' : Disk → Type 0) (f g : Disk → Disk)
      → Keeps f
      → Keeps g
      → ((w : World) → (Live hash old sha) w → R w.disk → R' (f w.disk))
      → (fates : List Fate) (w : World) → (LiveWith hash old sha) R w
      → (Post hash old sha)
          ((LiveWith hash old sha) R')
          (Fine hash old sha)
          (effect (λ w. record w { disk = f w.disk }) (λ w. record w { disk = g w.disk }) fates w)
  step_Post R R' f g kf kg h =
      (Post-effect hash old sha) ((LiveWith hash old sha) R) ((LiveWith hash old sha) R')
        (Fine hash old sha) _ _
        (λ w v. (
          (Live-kept hash old sha) w (f w.disk) (kf w.disk).0 (kf w.disk).1 (kf w.disk).2 v.0,
          h w v.0 v.1,
        ))
        (λ w v.
          inl ((Live-kept hash old sha) w (g w.disk) (kg w.disk).0 (kg w.disk).1 (kg w.disk).2 v.0))
        (λ w v.
          inl
            ((Live-kept hash old sha) w (g w.disk) (kg w.disk).0 (kg w.disk).1 (kg w.disk).2
              v.0).on_disk)

  pub Keeps-none : Keeps (λ d. d)
  Keeps-none d = (refl, refl, refl)

  pub save_Post :
      (R : Disk → Type 0)
      → ((d : Disk) (j : Option Journal) → R d → R (record d { journal = j }))
      → (fates : List Fate) (w : World) → (LiveWith hash old sha) R w
      → (Post hash old sha) ((LiveWith hash old sha) R) (Fine hash old sha) (save fates w)
  unfolding save
  save_Post R h =
      (Post-effect hash old sha) ((LiveWith hash old sha) R) ((LiveWith hash old sha) R)
        (Fine hash old sha) _ _
        (λ w v. ((Live-save hash old sha) w v.0, h w.disk (some w.journal) v.1)) (λ w v. inl v.0)
        (λ w v. inl v.0.on_disk)

  pub if_Post :
      (R : Disk → Type 0) (b : Bool) (why : Text) (fates : List Fate) (w : World)
      → (LiveWith hash old sha) R w
      → (Post hash old sha)
          ((LiveWith hash old sha) R)
          (Fine hash old sha)
          ((if b then pure tt else fail why) fates w)
  if_Post R true why fates w v = v
  if_Post R false why fates w v = inl v.0

  pub checked_hash_Post :
      (R : Disk → Type 0) (file : Disk → Option ℕ) (expected : ℕ) (fates : List Fate) (w : World)
      → (LiveWith hash old sha) R w
      → (Post hash old sha)
          ((LiveWith hash old sha) R)
          (Fine hash old sha)
          (checked_hash hash file expected fates w)
  unfolding checked_hash
  checked_hash_Post R file expected fates w v =
      (Post-bind hash old sha) ((LiveWith hash old sha) R) ((LiveWith hash old sha) R)
        (Fine hash old sha) _ _
        (step_Post R R (λ d. d) (λ d. d) Keeps-none Keeps-none (λ w v r. r) fates w v)
        (λ fates w v. if_Post R (hash_is hash (file w.disk) expected) _ fates w v)

  pub moved_Post :
      (R R' : Disk → Type 0) (o : Option ℕ) (f : Disk → Disk)
      → Keeps f
      → ((w : World) → (Live hash old sha) w → R w.disk → R' (f w.disk))
      → (fates : List Fate) (w : World) → (LiveWith hash old sha) R w
      → (Post hash old sha) ((LiveWith hash old sha) R') (Fine hash old sha) (moved o f fates w)
  moved_Post R R' none f kf h fates w v = inl v.0
  moved_Post R R' (some _) f kf h fates w v = step_Post R R' f (λ d. d) kf Keeps-none h fates w v

  abbrev pub Anything : Disk → Type 0
  Anything d = Unit {0}

  abbrev pub RestoreReady : Disk → Type 0
  RestoreReady d = hash_is hash d.restore old ≡ true

  pub restore_binary_Post :
      (fates : List Fate) (w : World)
      → (LiveWith hash old sha) Anything w
      → (Post hash old sha)
          ((LiveWith hash old sha) (IsBack hash old sha))
          (Fine hash old sha)
          (restore_binary hash fates w)
  unfolding restore_binary
  restore_binary_Post fates w v =
      (Post-bind hash old sha) ((LiveWith hash old sha) Anything)
        ((LiveWith hash old sha) (IsBack hash old sha)) (Fine hash old sha) _ _
        (checked_hash_Post Anything (λ d. d.previous) w.journal.old_sha256 fates w v)
        (λ fates w v.
          (Post-bind hash old sha) ((LiveWith hash old sha) RestoreReady)
            ((LiveWith hash old sha) (IsBack hash old sha)) (Fine hash old sha) _ _
            (step_Post Anything RestoreReady (λ d. record d { restore = d.previous })
              (λ d. record d { restore = none }) (λ d. (refl, refl, refl)) (λ d. (refl, refl, refl))
              (λ w v r. (Live-previous hash old sha) w v) fates w v)
            (λ fates w v.
              moved_Post RestoreReady (IsBack hash old sha) w.disk.restore
                (λ d. record d { executable = d.restore; restore = none }) (λ d. (refl, refl, refl))
                (λ w v r. r) fates w v))
