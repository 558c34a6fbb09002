-- ===== src/ServiceNames/Tests.antt =====
-- A service manager that always works: the state says of each name whether it is registered.
use stt_server.Prelude.{
  Bool, true, false, ◌≡◌, ◌≢◌, refl, ap, [], ◌∷◌, String, Bool-cases, inl, inr, if◌then◌else◌,
}
use text.Mathlib.Text.{◌==◌ as str_eq}
use text.Mathlib.TextEquality.{eq_iff}
use stt_server.ServiceNames.{
  ok, service_name, legacy_service_name, ServiceControl, Laws, or_false, migrate_legacy, remove_all,
}
use stt_server.ServiceNames.Removed.{Removed, remove_all-Removed}
use stt_server.ServiceNames.Migrated.{Migrated, migrate_legacy-Migrated}

abbrev Manager : Type 0
Manager = String → Bool

abbrev without : String → Manager → Manager
without name s other = if str_eq other name then false else s other

abbrev control : ServiceControl Manager
control = record {
  exists = λ name s. ok (s name);
  stop_and_delete = λ name s. (without name s, ok tt);
}

abbrev registered : String → Manager → Bool
registered name s = s name

deletes : (name : String) (s : Manager) → without name s name ≡ false
deletes name s = rw ((eq_iff name name).1 refl) refl

keeps : (name other : String) (s : Manager) → other ≢ name → without name s other ≡ s other
keeps name other s differs = elim (Bool-cases (str_eq other name)) [
  | inl same ↦ elim (differs ((eq_iff other name).0 same)) [ ]
  | inr e ↦ rw e refl
]

laws : Laws control registered
laws = record {
  answers = λ name s b e. ap or_false e;
  deletes = λ name s _. deletes name s;
  keeps = keeps;
}

-- Both names are registered.
abbrev both : Manager
both name = true

removes_either_or_both_names :
    (remove_all control both).1 ≡ ok (service_name ∷ legacy_service_name ∷ [])
unfolding remove_all
removes_either_or_both_names = refl

remove_all-Removed_example : Removed control registered both (remove_all control both)
remove_all-Removed_example = remove_all-Removed control registered laws both

migrate_legacy-Migrated_example : Migrated control registered both (migrate_legacy control both)
migrate_legacy-Migrated_example = migrate_legacy-Migrated control registered laws both
