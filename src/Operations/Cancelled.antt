-- ===== src/Operations/Cancelled.antt =====
-- A cancelled operation stays cancelled.
use stt_server.Prelude.{
  ℕ, ◌≡◌, refl, ap, ◌∙◌, subst, Bool, true, false, not, ◌&&◌, ◌||◌, List, [], ◌∷◌, map, Option,
  none, some, String, Text, text_eq, text_eq_sound, any, Bool-cases, inl, inr, if◌then◌else◌,
}
use text.Mathlib.Text.{◌==◌ as str_eq}
use text.Mathlib.TextEquality.{eq_iff}
use stt_server.Errors.{ApiResult, ok, err}
use stt_server.Operations.{
  Tokens, authorize, authorized, Row, Change, is_active, changed_row, update_row,
  update_operation_with_code, operation_state, cancels, cancel_row, execute_cancel, cancel_in,
  after_check, cancel_operation, finished,
}

-- A row is the same when it was cancelled.
abbrev pub SameIf : Bool → Row → Row → Type 0
SameIf true r q = q ≡ r
SameIf false r q = Unit {0}

-- The same rows, the cancelled ones unchanged.
abbrev pub Stays : List Row → List Row → Type 0
Stays [] [] = Unit {0}
Stays [] (_ ∷ _) = ⊥
Stays (_ ∷ _) [] = ⊥
Stays (r ∷ rs) (q ∷ qs) = (q.id ≡ r.id) × SameIf (str_eq r.state "cancelled") r q × Stays rs qs

SameIf-refl : (b : Bool) (r : Row) → SameIf b r r
SameIf-refl true r = refl
SameIf-refl false r = tt

Stays-refl : (rows : List Row) → Stays rows rows
Stays-refl [] = tt
Stays-refl (r ∷ rows) = (refl, SameIf-refl (str_eq r.state "cancelled") r, Stays-refl rows)

SameIf-trans :
    (b : Bool) (r q p : Row)
    → str_eq r.state "cancelled" ≡ b
    → SameIf b r q
    → SameIf (str_eq q.state "cancelled") q p
    → SameIf b r p
SameIf-trans false r q p e h k = tt
SameIf-trans true r q p e h k =
    let same = subst (λ x. SameIf (str_eq x.state "cancelled") x p) h k in
    subst (λ b. SameIf b r p) e same

Stays-trans : (rs qs ps : List Row) → Stays rs qs → Stays qs ps → Stays rs ps
Stays-trans [] [] ps h k = k
Stays-trans [] (q ∷ qs) ps h k = absurd h
Stays-trans (r ∷ rs) [] ps h k = absurd h
Stays-trans (r ∷ rs) (q ∷ qs) [] h k = absurd k
Stays-trans (r ∷ rs) (q ∷ qs) (p ∷ ps) (e, h, hs) (f, k, ks) =
    (f ∙ e, SameIf-trans (str_eq r.state "cancelled") r q p refl h k, Stays-trans rs qs ps hs ks)

-- A row that is changed under a test, unless it is cancelled.
abbrev Spares : Bool → Row → Row → Type 0
Spares b r q = (q.id ≡ r.id) × SameIf b r q

Spares-if : (i b : Bool) (r q : Row) → q.id ≡ r.id → Spares b r (if i && not b then q else r)
Spares-if true true r q e = (refl, refl)
Spares-if true false r q e = (e, tt)
Spares-if false b r q e = (refl, SameIf-refl b r)

update_row-Spares : (c : Change) (r : Row) → Spares (str_eq r.state "cancelled") r (update_row c r)
update_row-Spares c r =
    Spares-if (text_eq r.id c.id) (str_eq r.state "cancelled") r (changed_row c r) refl

-- What is cancelled is not active.
cancelled-is_active : (state : String) → str_eq state "cancelled" ≡ true → is_active state ≡ false
cancelled-is_active state e = rw ((eq_iff state "cancelled").0 e) refl

-- A row that is changed under a test that fails where it is cancelled.
Spares-unless :
    (i b : Bool) (r q : Row)
    → (b ≡ true → i ≡ false)
    → q.id ≡ r.id
    → Spares b r (if i then q else r)
Spares-unless true true r q h e = cc (h refl)
Spares-unless true false r q h e = (e, tt)
Spares-unless false b r q h e = (refl, SameIf-refl b r)

and_false : (a b : Bool) → b ≡ false → (a && b) ≡ false
and_false true b e = e
and_false false b e = refl

cancel_row-Spares :
    (id : Text) (now : ℕ) (r : Row) → Spares (str_eq r.state "cancelled") r (cancel_row id now r)
cancel_row-Spares id now r =
    Spares-unless (cancels id r) (str_eq r.state "cancelled") r
      (record r {
        state = "cancelled";
        error_code = some "cancelled";
        updated_at = now;
        finished_at = some now;
      })
      (λ e. and_false (text_eq r.id id) (is_active r.state) (cancelled-is_active r.state e)) refl

Stays-map :
    (f : Row → Row) (rows : List Row)
    → ((r : Row) → Spares (str_eq r.state "cancelled") r (f r))
    → Stays rows (map f rows)
Stays-map f [] h = tt
Stays-map f (r ∷ rows) h = let (e, k) = h r in (e, k, Stays-map f rows h)

update-Stays : (c : Change) (rows : List Row) → Stays rows (update_operation_with_code c rows)
unfolding update_operation_with_code
update-Stays c rows = Stays-map (update_row c) rows (update_row-Spares c)

-- The updates of the workers, one after the other.
abbrev pub updates : List Change → List Row → List Row
updates [] rows = rows
updates (c ∷ cs) rows = updates cs (update_operation_with_code c rows)

updates-Stays : (cs : List Change) (rows : List Row) → Stays rows (updates cs rows)
updates-Stays [] rows = Stays-refl rows
updates-Stays (c ∷ cs) rows =
    Stays-trans rows _ _ (update-Stays c rows)
      (updates-Stays cs (update_operation_with_code c rows))

-- An update, or a client's request to cancel with the updates that come in between.
pub data Act : Type 0 where
  act_update : Change → Act
  act_cancel : Option Text → Text → ℕ → List Change → Act

module _ (app : Tokens) where
  abbrev pub perform : Act → List Row → List Row
  perform (act_update c) rows = update_operation_with_code c rows
  perform (act_cancel bearer id now between) rows =
      (cancel_operation app bearer id now (updates between) rows).0

  abbrev pub run : List Act → List Row → List Row
  run [] rows = rows
  run (a ∷ acts) rows = run acts (perform a rows)

  execute_cancel-Stays :
      (id : Text) (now : ℕ) (rows : List Row) → Stays rows (execute_cancel id now rows).0
  execute_cancel-Stays id now rows = by_any (any (cancels id) rows)
    where
      by_any :
          (b : Bool)
          → let r : List Row × ApiResult (Unit {0}) =
              if b then (map (cancel_row id now) rows, ok tt) else (rows, finished) in
            Stays rows r.0
      by_any true = Stays-map (cancel_row id now) rows (cancel_row-Spares id now)
      by_any false = Stays-refl rows

  cancel_in-Stays :
      (id : Text) (now : ℕ) (between : List Change) (rows : List Row) (state : Option String)
      → Stays rows (cancel_in id now (updates between) rows state).0
  cancel_in-Stays id now between rows none = Stays-refl rows
  cancel_in-Stays id now between rows (some state) = by_active (is_active state)
    where
      by_active :
          (b : Bool)
          → let r : List Row × ApiResult (Unit {0}) =
              if b then execute_cancel id now (updates between rows) else (rows, finished) in
            Stays rows r.0
      by_active true =
          Stays-trans rows _ _ (updates-Stays between rows)
            (execute_cancel-Stays id now (updates between rows))
      by_active false = Stays-refl rows

  perform-Stays : (a : Act) (rows : List Row) → Stays rows (perform a rows)
  unfolding cancel_operation
  perform-Stays (act_update c) rows = update-Stays c rows
  perform-Stays (act_cancel bearer id now between) rows = by_check (authorized app bearer)
    where
      by_check :
          (checked : ApiResult (Unit {0}))
          → Stays rows
              (after_check checked
                (cancel_in id now (updates between) rows (operation_state id rows))
                rows).0
      by_check (ok _) = cancel_in-Stays id now between rows (operation_state id rows)
      by_check (err e) = Stays-refl rows

  -- In any sequence of updates and requests to cancel, an operation that is cancelled stays
  -- exactly as it is, and no operation appears, goes or changes its id.
  pub run-Stays : (acts : List Act) (rows : List Row) → Stays rows (run acts rows)
  run-Stays [] rows = Stays-refl rows
  run-Stays (a ∷ acts) rows =
      Stays-trans rows _ _ (perform-Stays a rows) (run-Stays acts (perform a rows))

-- Some row of this id is cancelled.
abbrev pub cancelled_in : Text → List Row → Bool
cancelled_in id rows = any (λ r. text_eq r.id id && str_eq r.state "cancelled") rows

and_left : (a b : Bool) → (a && b) ≡ true → a ≡ true
and_left true b e = refl
and_left false b e = cc e

or_right : (a b : Bool) → b ≡ true → (a || b) ≡ true
or_right true b e = refl
or_right false b e = e

cancelled_in-map :
    (id : Text) (now : ℕ) (rows : List Row)
    → any (cancels id) rows ≡ true
    → cancelled_in id (map (cancel_row id now) rows) ≡ true
cancelled_in-map id now [] h = h
cancelled_in-map id now (r ∷ rows) h = elim (Bool-cases (cancels id r)) [
  | inl e ↦ rw (e, and_left (text_eq r.id id) (is_active r.state) e) refl
  | inr e ↦ or_right _ _ (cancelled_in-map id now rows (rw e at h))
]

-- A success says that the operation is cancelled.
abbrev Answered : Text → List Row × ApiResult (Unit {0}) → Type 0
Answered id (rows, ok _) = cancelled_in id rows ≡ true
Answered id (rows, err e) = Unit {0}

Answered-ok :
    (id : Text) (r : List Row × ApiResult (Unit {0}))
    → Answered id r
    → r.1 ≡ ok tt
    → cancelled_in id r.0 ≡ true
Answered-ok id (rows, ok _) h e = h
Answered-ok id (rows, err x) h e = cc e

execute_cancel-Answered :
    (id : Text) (now : ℕ) (rows : List Row) → Answered id (execute_cancel id now rows)
execute_cancel-Answered id now rows = elim (Bool-cases (any (cancels id) rows)) [
  | inl e ↦ rw e (cancelled_in-map id now rows e)
  | inr e ↦ rw e tt
]

cancel_in-Answered :
    (id : Text) (now : ℕ) (meanwhile : List Row → List Row) (rows : List Row)
    (state : Option String)
    → Answered id (cancel_in id now meanwhile rows state)
cancel_in-Answered id now meanwhile rows none = tt
cancel_in-Answered id now meanwhile rows (some state) = elim (Bool-cases (is_active state)) [
  | inl e ↦ rw e (execute_cancel-Answered id now (meanwhile rows))
  | inr e ↦ rw e tt
]

authorize-admin :
    (app : Tokens) (bearer : Option Text) → authorized app bearer ≡ ok tt → bearer ≡ some app.token
unfolding authorize
authorize-admin app none e = cc e
authorize-admin app (some token) e = elim (Bool-cases (text_eq token app.token)) [
  | inl t ↦ ap (λ q. some q) (text_eq_sound token app.token t)
  | inr t ↦ elim (Bool-cases (text_eq token app.user_token)) [
    | inl u ↦ cc (rw (t, u) at e)
    | inr u ↦ cc (rw (t, u) at e)
  ]
]

-- A cancellation that is answered with success came with the admin's token, and the operation is
-- cancelled, whatever the workers updated between its two statements.
pub cancel_operation-cancelled_in :
    (app : Tokens) (bearer : Option Text) (id : Text) (now : ℕ) (between : List Change)
    (rows : List Row)
    → (cancel_operation app bearer id now (updates between) rows).1 ≡ ok tt
    → (bearer ≡ some app.token)
      × (cancelled_in id (cancel_operation app bearer id now (updates between) rows).0 ≡ true)
unfolding cancel_operation
cancel_operation-cancelled_in app bearer id now between rows h =
    by_check (authorized app bearer) refl h
  where
    by_check :
        (checked : ApiResult (Unit {0}))
        → authorized app bearer ≡ checked
        → (after_check checked
            (cancel_in id now (updates between) rows (operation_state id rows))
            rows).1
          ≡ ok tt
        → (bearer ≡ some app.token)
          × (cancelled_in id
                (after_check checked
                  (cancel_in id now (updates between) rows (operation_state id rows))
                  rows).0
              ≡ true)
    by_check (err e) c h = cc h
    by_check (ok _) c h = (
      authorize-admin app bearer c,
      Answered-ok id _ (cancel_in-Answered id now (updates between) rows (operation_state id rows))
          h,
    )
