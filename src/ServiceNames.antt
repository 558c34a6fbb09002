-- ===== src/ServiceNames.antt =====
-- src/service_names.rs: which Windows services an installation keeps, removes and starts.
-- `ServiceControl` is the trait, over the state `S` of the service manager; its implementation asks
-- Windows. `Laws` is what the documentation of the trait says of the services registered.
pub mod Removed
pub mod Migrated
mod Tests
use stt_server.Prelude.{
  Bool, true, false, ◌≡◌, ◌≢◌, List, [], ◌∷◌, ◌++◌, String, Text, if◌then◌else◌,
}

pub data Result (A : Type 0) : Type 0 where
  ok : A → Result A
  err : Text → Result A

abbrev pub service_name : String
service_name = "OpenVibeSttServer"

abbrev pub legacy_service_name : String
legacy_service_name = "OpenVibeSttNext"

pub record ServiceControl (S : Type 0) : Type 0 where
  pub exists : String → S → Result Bool
  pub stop_and_delete : String → S → S × Result (Unit {0})

pub record Laws {S : Type 0} (control : ServiceControl S) (registered : String → S → Bool)
    : Type 0 where
  pub answers :
      (name : String) (s : S) (b : Bool) → control.exists name s ≡ ok b → registered name s ≡ b
  pub deletes :
      (name : String) (s : S)
      → (control.stop_and_delete name s).1 ≡ ok tt
      → registered name ((control.stop_and_delete name s).0) ≡ false
  pub keeps :
      (name other : String) (s : S)
      → other ≢ name
      → registered other ((control.stop_and_delete name s).0) ≡ registered other s

-- `unwrap_or(false)`.
abbrev pub or_false : Result Bool → Bool
or_false (ok b) = b
or_false (err _) = false

module _ {S : Type 0} (control : ServiceControl S) where
  abbrev pub then_answer : {A : Type 0} → A → S × Result (Unit {0}) → S × Result A
  then_answer answer (s, ok _) = (s, ok answer)
  then_answer answer (s, err e) = (s, err e)

  -- `if control.exists(name)? { control.stop_and_delete(name)?; .. }`, with what to answer then.
  abbrev pub remove_if : {A : Type 0} → String → A → A → Result Bool → S → S × Result A
  remove_if name removed kept (err e) s = (s, err e)
  remove_if name removed kept (ok true) s = then_answer removed (control.stop_and_delete name s)
  remove_if name removed kept (ok false) s = (s, ok kept)

  unfoldable pub migrate_legacy : S → S × Result Bool
  migrate_legacy s =
      remove_if legacy_service_name true false (control.exists legacy_service_name s) s

  abbrev pub remove_one : String → List String → S → S × Result (List String)
  remove_one name removed s =
      remove_if name (removed ++ name ∷ []) removed (control.exists name s) s

  abbrev pub and_legacy : S × Result (List String) → S × Result (List String)
  and_legacy (s, ok removed) = remove_one legacy_service_name removed s
  and_legacy (s, err e) = (s, err e)

  unfoldable pub remove_all : S → S × Result (List String)
  remove_all s = and_legacy (remove_one service_name [] s)

  unfoldable pub active_name : S → String
  active_name s =
      if or_false (control.exists service_name s)
      then service_name
      else if or_false (control.exists legacy_service_name s)
      then legacy_service_name
      else service_name
