-- ===== src/ServiceNames/Migrated.antt =====
-- After a migration the current service is the one that is started.
use stt_server.Prelude.{Bool, true, false, ◌≡◌, refl, ap, sym, ◌∙◌, subst, String, if◌then◌else◌}
use stt_server.ServiceNames.{
  Result, ok, err, service_name, legacy_service_name, ServiceControl, Laws, then_answer, remove_if,
  or_false, migrate_legacy, active_name,
}
use stt_server.ServiceNames.Removed.{remove_if-keeps, service_differs}

either_current : (b : Bool) → (if b then service_name else service_name) ≡ service_name
either_current true = refl
either_current false = refl

module _ {S : Type 0} (control : ServiceControl S) (registered : String → S → Bool) where
  abbrev Settled : S → S × Result Bool → Type 0
  Settled s (after, ok migrated) =
      (active_name control after ≡ service_name) × (migrated ≡ registered legacy_service_name s)
  Settled s (after, err _) = Unit

  -- The current service is as it was, whatever the outcome. After success the name to start is the
  -- current one, and the answer is whether the legacy service was there.
  abbrev pub Migrated : S → S × Result Bool → Type 0
  Migrated s p = (registered service_name (p.0) ≡ registered service_name s) × Settled s p

  module _ (laws : Laws control registered) where
    or_false-absent :
        (name : String) (s : S) (r : Result Bool)
        → control.exists name s ≡ r
        → registered name s ≡ false
        → or_false r ≡ false
    or_false-absent name s (err _) _ _ = refl
    or_false-absent name s (ok b) e absent = sym (laws.answers name s b e) ∙ absent

    active_name-current :
        (s : S) → registered legacy_service_name s ≡ false → active_name control s ≡ service_name
    unfolding active_name
    active_name-current s absent =
        let gone =
          or_false-absent legacy_service_name s (control.exists legacy_service_name s) refl
            absent in
        ap
          (λ b.
            if or_false (control.exists service_name s)
            then service_name
            else if b
            then legacy_service_name
            else service_name)
          gone
        ∙ either_current (or_false (control.exists service_name s))

    then_answer-Settled :
        (s : S) (p : S × Result Unit)
        → control.stop_and_delete legacy_service_name s ≡ p
        → registered legacy_service_name s ≡ true
        → Settled s (then_answer control true p)
    then_answer-Settled s (after, err _) _ _ = tt
    then_answer-Settled s (after, ok tt) e there = (
      active_name-current after (
          subst (λ q. registered legacy_service_name q.0 ≡ false) e
            (laws.deletes legacy_service_name s (ap (λ q. q.1) e))),
      sym there,
    )

    remove_if-Settled :
        (s : S) (r : Result Bool)
        → control.exists legacy_service_name s ≡ r
        → Settled s (remove_if control legacy_service_name true false r s)
    remove_if-Settled s (err _) _ = tt
    remove_if-Settled s (ok true) e =
        then_answer-Settled s (control.stop_and_delete legacy_service_name s) refl
          (laws.answers legacy_service_name s true e)
    remove_if-Settled s (ok false) e =
        let absent = laws.answers legacy_service_name s false e in
        (active_name-current s absent, sym absent)

    -- With a service manager that keeps the laws of the trait, a migration leaves the current service
    -- as it was; after one that is answered with success the name to start is the current one, also
    -- where the service manager fails to answer, and the answer is whether the legacy service was
    -- registered.
    pub migrate_legacy-Migrated : (s : S) → Migrated s (migrate_legacy control s)
    unfolding migrate_legacy
    migrate_legacy-Migrated s = (
      remove_if-keeps control registered laws legacy_service_name service_name true false
          (control.exists legacy_service_name s) s service_differs,
      remove_if-Settled s (control.exists legacy_service_name s) refl,
    )
