-- ===== src/Download/Attempts.antt =====
-- What an attempt leaves in the partial file, for a property that the bytes of its answer keep.
use stt_server.Prelude.{
  ℕ, zero, suc, ◌≡◌, ◌≢◌, refl, sym, subst, Bool, true, false, List, [], ◌++◌, Option, none, some,
  arith, length, ltb, leb, ◌==◌, ◌&&◌, ◌||◌, Bool-cases, inl, inr, length-append, append-nil,
  if◌then◌else◌,
}
use stt_server.Download.{
  ResumeDecision, verify_only, restart_from_zero, range, resume_decision, RangeResponseOutcome,
  resume_accepted, restart, restart_416, invalid, classify_range_response, Store, Chunk, Reply,
  no_answer, unreachable, answered, Attempt, Run, ◌>>=◌, ◌>>◌, pure, fail, perform, length_of,
  set_running,
}
use stt_server.Download.Transfer.{
  update_running, receive, complete, opened, transfer, resumed, accept, request_from, attempt_from,
  attempt_download,
}
use stt_server.Download.Received.{
  Post, Post-bind, Post-map, pieces, Same, Wrote, Ended, Is, Is-set_running, receive-Post,
}

perform-Post :
    (P Q : Store → Type 0) (b : Bool) (f : Store → Store) (s : Store)
    → P s
    → Q (f s)
    → Post P (λ _ t. Q t) (perform b f s)
perform-Post P Q true f s p q = q
perform-Post P Q false f s p q = p

abbrev pub SizedIf : ℕ → Bool → Option (List ℕ) → Type 0
SizedIf size false file = Unit {0}
SizedIf size true none = ⊥
SizedIf size true (some file) = length file ≡ size

module _ (K : List ℕ → Type 0) where
  -- The partial file, where there is one, has the property.
  abbrev pub Kept : Option (List ℕ) → Type 0
  Kept none = Unit {0}
  Kept (some file) = K file

  -- Every beginning of the body keeps it.
  abbrev pub Grows : List Chunk → List ℕ → Type 0
  Grows body file = (w v : List ℕ) → pieces body ≡ w ++ v → K (file ++ w)

  abbrev pub Good : Store → Store → Type 0
  Good s t = Kept t.part × Same s t

  abbrev pub Finished : ℕ → Store → Bool → Store → Type 0
  Finished size s b t = Good s t × SizedIf size b t.part

  -- What is asked of an answer, by how it is classified.
  abbrev pub Allowed : RangeResponseOutcome → List Chunk → List ℕ → Type 0
  Allowed resume_accepted body file = Grows body file
  Allowed restart body file = Grows body []
  Allowed restart_416 body file = Unit {0}
  Allowed invalid body file = Unit {0}

  -- What is asked of the answer to a request from this offset, with this partial file.
  abbrev pub Permits : ℕ → Option (List ℕ) → Reply → Type 0
  Permits offset part no_answer = Unit {0}
  Permits offset part unreachable = Unit {0}
  Permits zero part (answered r) = Grows r.body []
  Permits (suc offset) none (answered r) = Unit {0}
  Permits (suc offset) (some file) (answered r) =
      Allowed (classify_range_response (suc offset) r.status r.content_range_start) r.body file

  -- What is asked of the answer, by what the attempt decides to do.
  abbrev pub PermitsAt : ResumeDecision → Option (List ℕ) → Reply → Type 0
  PermitsAt verify_only part reply = Unit {0}
  PermitsAt restart_from_zero part reply = Permits 0 part reply
  PermitsAt (range offset) part reply = Permits offset part reply

module _ (K : List ℕ → Type 0) (size : ℕ) (attempt : Attempt) where
  Wrote-Good :
      (file : List ℕ) (body : List Chunk) (s t : Store)
      → Grows K body file
      → Wrote file (pieces body) s t
      → Good K s t
  Wrote-Good file body s t g (w, v, e, p, same) = (subst (Kept K) (sym p) (g w v e), same)

  Ended-Good :
      (file : List ℕ) (body : List Chunk) (s t : Store)
      → Grows K body file
      → Is (file ++ pieces body) s t
      → Good K s t
  Ended-Good file body s t g (p, same) =
      (subst (Kept K) (sym p) (g (pieces body) [] (sym (append-nil (pieces body)))), same)

  complete-Finished :
      (o : Option ℕ) (file : List ℕ) (body : List Chunk) (s t : Store)
      → Grows K body file
      → Ended file (pieces body) (length file) s o t
      → Post (Good K s) (Finished K size s) (complete size attempt o t)
  complete-Finished none file body s t g h = (Wrote-Good file body s t g h, tt)
  complete-Finished (some n) file body s t g (p, e, same) =
      let whole = file ++ pieces body in
      let last = if n == size then pure true else fail "source_unavailable" in
      Post-bind (Good K s) (λ _ u. Is whole s u) (Finished K size s) (λ _. last)
        ((perform attempt.sync_works (λ u. u) >> update_running attempt.update_works n) t)
        (Post-bind (Good K s) (λ _ u. Is whole s u) (λ _ u. Is whole s u)
          (λ _. update_running attempt.update_works n) (perform attempt.sync_works (λ u. u) t)
          (perform-Post (Good K s) (Is whole s) attempt.sync_works (λ u. u) t
            (Ended-Good file body s t g (p, same)) (p, same))
          (λ _ u k.
            perform-Post (Good K s) (Is whole s) attempt.update_works
              (λ v. set_running v.operation n v) u (Ended-Good file body s u g k)
              (Is-set_running whole s u u.operation n k)))
        (λ _ u k. elim (Bool-cases (n == size)) [
          | inl x ↦
              let total : length whole ≡ size =
                ground (arith, e, x, length-append {0} file (pieces body)) in
              rw x (Ended-Good file body s u g k, subst (SizedIf size true) (sym k.0) total)
          | inr x ↦ rw x (Ended-Good file body s u g k)
        ])

  -- A body that is received into this file.
  receive-Finished :
      (body : List Chunk) (offset : ℕ) (file : List ℕ) (s : Store)
      → s.part ≡ some file
      → length file ≡ offset
      → Grows K body file
      → Post
          (Good K s)
          (Finished K size s)
          ((receive size attempt body offset 0 >>= complete size attempt) s)
  receive-Finished body offset file s p e g =
      Post-bind (Good K s) (Ended file (pieces body) offset s) (Finished K size s)
        (complete size attempt) (receive size attempt body offset 0 s)
        (Post-map (Wrote file (pieces body) s) (Good K s) (Ended file (pieces body) offset s)
          (Ended file (pieces body) offset s) (receive size attempt body offset 0 s)
          (λ u. Wrote-Good file body s u g) (λ o u k. k)
          (receive-Post size attempt body offset 0 file s p))
        (λ o u k.
          complete-Finished o file body s u g
            (subst (λ n. Ended file (pieces body) n s o u) (sym e) k))

  perform-Finished :
      {A : Type 0}
      → (b : Bool) (f : Store → Store) (m : Run A) (k : A → Run Bool) (s : Store) → Kept K s.part
      → Post (Good K s) (Finished K size s) ((m >>= k) (f s))
      → Post (Good K s) (Finished K size s) ((perform b f >> m >>= k) s)
  perform-Finished true f m k s h p = p
  perform-Finished false f m k s h p = (h, (refl, refl))

  -- A body from the beginning empties the file, one from an offset adds to it.
  restarted-Finished :
      (body : List Chunk) (s : Store)
      → Kept K s.part
      → Grows K body []
      → Post (Good K s) (Finished K size s) (transfer size attempt body 0 s)
  restarted-Finished body s h g =
      let empty : Store = record s { part = some [] } in
      perform-Finished attempt.open_works (opened size attempt 0) (receive size attempt body 0 0)
        (complete size attempt) s h (receive-Finished body 0 [] empty refl refl g)

  continued-Finished :
      (body : List Chunk) (offset : ℕ) (file : List ℕ) (s : Store)
      → s.part ≡ some file
      → length file ≡ suc offset
      → K file
      → Grows K body file
      → Post (Good K s) (Finished K size s) (transfer size attempt body (suc offset) s)
  continued-Finished body offset file s p e h g =
      perform-Finished attempt.open_works (opened size attempt (suc offset))
        (receive size attempt body (suc offset) 0) (complete size attempt) s
        (subst (Kept K) (sym p) h) (receive-Finished body (suc offset) file s p e g)

  resumed-Finished :
      (o : RangeResponseOutcome) (body : List Chunk) (offset : ℕ) (file : List ℕ) (s : Store)
      → s.part ≡ some file
      → length file ≡ suc offset
      → K file
      → Allowed K o body file
      → Post
          (Good K s)
          (Finished K size s)
          ((resumed size attempt (suc offset) o >>= transfer size attempt body) s)
  resumed-Finished resume_accepted body offset file s p e h g =
      continued-Finished body offset file s p e h g
  resumed-Finished restart body offset file s p e h g =
      let gone : Store = record s { part = none } in
      removed attempt.remove_works (restarted-Finished body gone tt g)
    where
      removed :
          (b : Bool)
          → Post
              (Good K s)
              (Finished K size s)
              (transfer size attempt body 0 (record s { part = none }))
          → Post (Good K s) (Finished K size s) (
              (perform b (λ s. record s { part = none }) >> pure 0 >>= transfer size attempt body)
                s)
      removed true q = q
      removed false q = (subst (Kept K) (sym p) h, (refl, refl))
  resumed-Finished restart_416 body offset file s p e h g = removed attempt.remove_works
    where
      removed :
          (b : Bool)
          → Post (Good K s) (Finished K size s) (
              (perform b (λ s. record s { part = none })
                  >> fail "source_unavailable"
                  >>= transfer size attempt body)
                s)
      removed true = (tt, (refl, refl))
      removed false = (subst (Kept K) (sym p) h, (refl, refl))
  resumed-Finished invalid body offset file s p e h g = (subst (Kept K) (sym p) h, (refl, refl))

  request_zero :
      (reply : Reply) (part : Option (List ℕ)) (s : Store)
      → Kept K s.part
      → Permits K 0 part reply
      → Post (Good K s) (Finished K size s) (request_from size attempt reply 0 s)
  unfolding accept
  request_zero no_answer part s h g = (h, (refl, refl))
  request_zero unreachable part s h g = (h, (refl, refl))
  request_zero (answered r) part s h g = elim (Bool-cases (leb 200 r.status && leb r.status 299)) [
    | inl e ↦ rw e (restarted-Finished r.body s h g)
    | inr e ↦ rw e (h, (refl, refl))
  ]

  request_suc :
      (reply : Reply) (offset : ℕ) (file : List ℕ) (s : Store)
      → s.part ≡ some file
      → length file ≡ suc offset
      → K file
      → Permits K (suc offset) (some file) reply
      → Post (Good K s) (Finished K size s) (request_from size attempt reply (suc offset) s)
  unfolding accept
  request_suc no_answer offset file s p e h g = (subst (Kept K) (sym p) h, (refl, refl))
  request_suc unreachable offset file s p e h g = (subst (Kept K) (sym p) h, (refl, refl))
  request_suc (answered r) offset file s p e h g =
      resumed-Finished (classify_range_response (suc offset) r.status r.content_range_start) r.body
        offset file s p e h g

  -- What a decision says of the partial file's length.
  abbrev pub Decides : ℕ → ResumeDecision → Type 0
  Decides n verify_only = (n ≡ size) × (n ≢ 0)
  Decides n restart_from_zero = Unit {0}
  Decides n (range offset) = (offset ≡ n) × (n ≢ 0)

  pub resume_decision-Decides : (n : ℕ) → Decides n (resume_decision n size)
  unfolding resume_decision
  resume_decision-Decides n = elim (Bool-cases (ltb 0 size && (n == size))) [
    | inl e ↦ rw e (ground (arith, e), ground (arith, e))
    | inr e ↦ rw e (elim (Bool-cases ((n == 0) || ltb size n)) [
      | inl f ↦ rw f tt
      | inr f ↦ rw f (refl, ground (arith, f))
    ])
  ]

  attempt_from-Finished :
      (d : ResumeDecision) (part : Option (List ℕ)) (s : Store)
      → s.part ≡ part
      → Decides (length_of part) d
      → Kept K part
      → PermitsAt K d part attempt.reply
      → Post (Good K s) (Finished K size s) (attempt_from size attempt d s)
  attempt_from-Finished verify_only none s p (e, f) h g = absurd (f refl)
  attempt_from-Finished verify_only (some file) s p (e, f) h g =
      ((subst (Kept K) (sym p) h, (refl, refl)), subst (SizedIf size true) (sym p) e)
  attempt_from-Finished restart_from_zero part s p d h g =
      elim (Bool-cases (ltb 0 (length_of s.part))) [
        | inl e ↦ rw e (
            emptied attempt.remove_works
              (request_zero attempt.reply part (record s { part = none }) tt g))
        | inr e ↦ rw e (request_zero attempt.reply part s (subst (Kept K) (sym p) h) g)
      ]
    where
      emptied :
          (b : Bool)
          → Post
              (Good K s)
              (Finished K size s)
              (request_from size attempt attempt.reply 0 (record s { part = none }))
          → Post (Good K s) (Finished K size s) (
              (perform b (λ s. record s { part = none })
                  >> request_from size attempt attempt.reply 0)
                s)
      emptied true q = q
      emptied false q = (subst (Kept K) (sym p) h, (refl, refl))
  attempt_from-Finished (range zero) part s p (e, f) h g = absurd (f (sym e))
  attempt_from-Finished (range (suc offset)) none s p (e, f) h g = absurd (f refl)
  attempt_from-Finished (range (suc offset)) (some file) s p (e, f) h g =
      request_suc attempt.reply offset file s p (sym e) h g

  -- An attempt keeps the property of the partial file when its answer permits it; it touches no
  -- other file; and when it says that it is complete, the partial file has the full size.
  pub attempt_download-Finished :
      (s : Store)
      → Kept K s.part
      → PermitsAt K (resume_decision (length_of s.part) size) s.part attempt.reply
      → Post (Good K s) (Finished K size s) (attempt_download size attempt s)
  unfolding attempt_download
  attempt_download-Finished s h g =
      attempt_from-Finished (resume_decision (length_of s.part) size) s.part s refl
        (resume_decision-Decides (length_of s.part)) h g
