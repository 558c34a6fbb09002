-- ===== src/ServiceNames/Removed.antt =====
-- After an uninstallation that is answered with success, neither service is registered.
use stt_server.Prelude.{
  Bool, true, false, ◌≡◌, ◌≢◌, refl, sym, ap, ◌∙◌, subst, List, [], ◌∷◌, ◌++◌, String,
  if◌then◌else◌,
}
use stt_server.ServiceNames.{
  Result, ok, err, service_name, legacy_service_name, ServiceControl, Laws, then_answer, remove_if,
  remove_one, and_legacy, remove_all,
}
use text.Mathlib.TextEquality.{eq_iff}

abbrev if_there : Bool → String → List String
if_there true name = name ∷ []
if_there false name = []

append-if_there :
    (first second : Bool)
    → (if second
        then if_there first service_name ++ legacy_service_name ∷ []
        else if_there first service_name)
      ≡ if_there first service_name ++ if_there second legacy_service_name
append-if_there true true = refl
append-if_there true false = refl
append-if_there false true = refl
append-if_there false false = refl

if-if_there : (b : Bool) → (if b then service_name ∷ [] else []) ≡ if_there b service_name
if-if_there true = refl
if-if_there false = refl

legacy_differs : legacy_service_name ≢ service_name
legacy_differs e = let same = (eq_iff legacy_service_name service_name).1 e in cc

pub service_differs : service_name ≢ legacy_service_name
service_differs e = legacy_differs (sym e)

module _ {S : Type 0} (control : ServiceControl S) (registered : String → S → Bool) where
  -- One name after another: gone, and named in the answer where it was there.
  abbrev One : String → List String → S → S × Result (List String) → Type 0
  One name removed s (after, ok names) =
      (registered name after ≡ false)
      × (names ≡ (if registered name s then removed ++ name ∷ [] else removed))
  One name removed s (after, err _) = Unit

  -- What an uninstallation promises: after success neither of the two is there, and the answer
  -- has those that were, the current one first.
  abbrev Gone : S → S × Result (List String) → Type 0
  Gone s (after, ok names) =
      (registered service_name after ≡ false)
      × (registered legacy_service_name after ≡ false)
      × (names
          ≡ if_there (registered service_name s) service_name
            ++ if_there (registered legacy_service_name s) legacy_service_name)
  Gone s (after, err _) = Unit

  -- Other services are as they were, whatever the outcome.
  abbrev pub Removed : S → S × Result (List String) → Type 0
  Removed s p =
      ((other : String)
        → other ≢ service_name
        → other ≢ legacy_service_name
        → registered other (p.0) ≡ registered other s)
      × Gone s p

  module _ (laws : Laws control registered) where
    then_answer-state :
        {A : Type 0} (answer : A) (p : S × Result Unit) → (then_answer control answer p).0 ≡ p.0
    then_answer-state answer (after, ok _) = refl
    then_answer-state answer (after, err _) = refl

    pub remove_if-keeps :
        {A : Type 0} (name other : String) (removed kept : A) (r : Result Bool) (s : S)
        → other ≢ name
        → registered other ((remove_if control name removed kept r s).0) ≡ registered other s
    remove_if-keeps name other removed kept (err _) s _ = refl
    remove_if-keeps name other removed kept (ok false) s _ = refl
    remove_if-keeps name other removed kept (ok true) s differs =
        ap (registered other) (then_answer-state removed (control.stop_and_delete name s))
        ∙ laws.keeps name other s differs

    then_answer-One :
        (name : String) (removed : List String) (s : S) (p : S × Result Unit)
        → control.stop_and_delete name s ≡ p
        → registered name s ≡ true
        → One name removed s (then_answer control (removed ++ name ∷ []) p)
    then_answer-One name removed s (after, err _) _ _ = tt
    then_answer-One name removed s (after, ok tt) e there = (
      subst (λ q. registered name q.0 ≡ false) e (laws.deletes name s (ap (λ q. q.1) e)),
      rw there refl,
    )

    remove_if-One :
        (name : String) (removed : List String) (s : S) (r : Result Bool)
        → control.exists name s ≡ r
        → One name removed s (remove_if control name (removed ++ name ∷ []) removed r s)
    remove_if-One name removed s (err _) _ = tt
    remove_if-One name removed s (ok true) e =
        then_answer-One name removed s (control.stop_and_delete name s) refl
          (laws.answers name s true e)
    remove_if-One name removed s (ok false) e =
        let absent = laws.answers name s false e in (absent, rw absent refl)

    both-Gone :
        (s after : S) (names : List String) (p : S × Result (List String))
        → One service_name [] s (after, ok names)
        → registered legacy_service_name after ≡ registered legacy_service_name s
        → One legacy_service_name names after p
        → registered service_name (p.0) ≡ registered service_name after
        → Gone s p
    both-Gone s after names (last, err _) _ _ _ _ = tt
    both-Gone s after names (last, ok all) (gone, first) same (legacy_gone, second) kept = (
      kept ∙ gone,
      legacy_gone,
      second
          ∙ ap (λ b. if b then names ++ legacy_service_name ∷ [] else names) same
          ∙ ap
              (λ before.
                if registered legacy_service_name s
                then before ++ legacy_service_name ∷ []
                else before)
              (first ∙ if-if_there (registered service_name s))
          ∙ append-if_there (registered service_name s) (registered legacy_service_name s),
    )

    and_legacy-Gone :
        (s : S) (p : S × Result (List String))
        → One service_name [] s p
        → registered legacy_service_name (p.0) ≡ registered legacy_service_name s
        → Gone s (and_legacy control p)
    and_legacy-Gone s (after, err _) _ _ = tt
    and_legacy-Gone s (after, ok names) one same =
        both-Gone s after names (remove_one control legacy_service_name names after) one same
          (remove_if-One legacy_service_name names after (control.exists legacy_service_name after)
            refl)
          (remove_if-keeps legacy_service_name service_name (names ++ legacy_service_name ∷ [])
            names (control.exists legacy_service_name after) after service_differs)

    and_legacy-keeps :
        (other : String) (p : S × Result (List String))
        → other ≢ legacy_service_name
        → registered other ((and_legacy control p).0) ≡ registered other (p.0)
    and_legacy-keeps other (after, err _) _ = refl
    and_legacy-keeps other (after, ok names) differs =
        remove_if-keeps legacy_service_name other (names ++ legacy_service_name ∷ []) names
          (control.exists legacy_service_name after) after differs

    -- With a service manager that keeps the laws of the trait, an uninstallation leaves every other
    -- service as it was; after one that is answered with success, neither the current nor the legacy
    -- service is registered, and the answer names exactly those that were, the current one first.
    pub remove_all-Removed : (s : S) → Removed s (remove_all control s)
    unfolding remove_all
    remove_all-Removed s = (
      λ other not_current not_legacy.
          and_legacy-keeps other (remove_one control service_name [] s) not_legacy
          ∙ remove_if-keeps service_name other (service_name ∷ []) []
              (control.exists service_name s) s not_current,
      and_legacy-Gone s (remove_one control service_name [] s)
          (remove_if-One service_name [] s (control.exists service_name s) refl)
          (remove_if-keeps service_name legacy_service_name (service_name ∷ []) []
            (control.exists service_name s) s legacy_differs),
    )
