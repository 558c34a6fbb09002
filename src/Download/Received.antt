-- ===== src/Download/Received.antt =====
-- What the loop of attempt_download leaves in the partial file.
use stt_server.Prelude.{
  ℕ, zero, suc, ◌+◌, ◌≡◌, refl, sym, ap, ◌∙◌, Bool, true, false, List, [], ◌∷◌, ◌++◌, Option, none,
  some, arith, length, take, drop, ltb, Bool-cases, inl, inr, append_assoc, append-nil,
  length-append,
}
use stt_server.Download.{
  should_flush_progress, Store, OperationState, cancelled, Chunk, stall, broken, bytes, Attempt,
  Tried, done, failure, Run, and_tried, ◌>>◌, set_running, cancel_if, is_cancelled,
}
use stt_server.Download.Transfer.{write, write_chunk, flush, take_chunk, receive}

-- What holds of the store after a failure, and after a result.
abbrev pub Post : {A : Type 0} → (Store → Type 0) → (A → Store → Type 0) → Store × Tried A → Type 0
Post P Q (s, done a) = Q a s
Post P Q (s, failure code) = P s

pub Post-bind :
    {A B : Type 0}
    → (P : Store → Type 0) (Q : A → Store → Type 0) (R : B → Store → Type 0) (f : A → Run B)
      (r : Store × Tried A)
    → Post P Q r
    → ((a : A) (s : Store) → Q a s → Post P R (f a s))
    → Post P R (and_tried f r)
Post-bind P Q R f (s, done a) h k = k a s h
Post-bind P Q R f (s, failure code) h k = h

-- The bytes of a body.
abbrev pub pieces : List Chunk → List ℕ
pieces [] = []
pieces (stall ∷ rest) = []
pieces (broken ∷ rest) = []
pieces (bytes more _ _ _ ∷ rest) = more ++ pieces rest

-- The files that a transfer has nothing to do with.
abbrev pub Same : Store → Store → Type 0
Same s t = (t.installed ≡ s.installed) × (t.quarantined ≡ s.quarantined)

-- The partial file is this one with the beginning of these bytes behind it.
abbrev pub Wrote : List ℕ → List ℕ → Store → Store → Type 0
Wrote file more s t = (w v : List ℕ) × (more ≡ w ++ v) × (t.part ≡ some (file ++ w)) × Same s t

-- All of the bytes were written and counted, or the operation was cancelled.
abbrev pub Ended : List ℕ → List ℕ → ℕ → Store → Option ℕ → Store → Type 0
Ended file more received s none t = Wrote file more s t
Ended file more received s (some n) t =
    (t.part ≡ some (file ++ more)) × (n ≡ received + length more) × Same s t

abbrev pub Is : List ℕ → Store → Store → Type 0
Is file s t = (t.part ≡ some file) × Same s t

pub Is-set_running :
    (file : List ℕ) (s t : Store) (o : OperationState) (n : ℕ)
    → Is file s t
    → Is file s (set_running o n t)
Is-set_running file s t cancelled n h = h
Is-set_running file s t OperationState.queued n h = h
Is-set_running file s t OperationState.running n h = h
Is-set_running file s t OperationState.completed n h = h
Is-set_running file s t OperationState.failed n h = h

flush-Is :
    (due works : Bool) (n since : ℕ) (file : List ℕ) (s t : Store)
    → Is file s t
    → Post (Is file s) (λ _ u. Is file s u) (flush due works n since t)
flush-Is true true n since file s t h = Is-set_running file s t t.operation n h
flush-Is true false n since file s t h = h
flush-Is false works n since file s t h = h

write-Is : (file more : List ℕ) (s t : Store) → Is file s t → Is (file ++ more) s (write more t)
write-Is file more s t (e, same) = rw e (refl, same)

take_all : (n : ℕ) (xs : List ℕ) → xs ≡ take n xs ++ drop n xs
take_all zero xs = refl
take_all (suc n) [] = refl
take_all (suc n) (x ∷ xs) = ap (λ q. x ∷ q) (take_all n xs)

write_chunk-Post :
    (more : List ℕ) (written : Option ℕ) (file : List ℕ) (s t : Store)
    → Is file s t
    → Post (Wrote file more s) (λ _ u. Is (file ++ more) s u) (write_chunk more written t)
write_chunk-Post more none file s t h = write-Is file more s t h
write_chunk-Post more (some n) file s t h =
    let (e, same) = write-Is file (take n more) s t h in
    (take n more, drop n more, take_all n more, e, same)

-- A beginning of what comes first is a beginning of it all.
Wrote-later :
    (file more rest : List ℕ) (s t : Store) → Wrote file more s t → Wrote file (more ++ rest) s t
Wrote-later file more rest s t (w, v, e, p, same) =
    (w, v ++ rest, ap (λ q. q ++ rest) e ∙ append_assoc w v rest, p, same)

Wrote-after :
    (file more rest : List ℕ) (s t : Store)
    → Wrote (file ++ more) rest s t
    → Wrote file (more ++ rest) s t
Wrote-after file more rest s t (w, v, e, p, same) = (
  more ++ w,
  v,
  ap (λ q. more ++ q) e ∙ sym (append_assoc more w v),
  p ∙ ap (λ q. some q) (append_assoc file more w),
  same,
)

Is-Wrote : (file more : List ℕ) (s t : Store) → Is file s t → Wrote file more s t
Is-Wrote file more s t (e, same) =
    ([], more, refl, e ∙ ap (λ q. some q) (sym (append-nil file)), same)

Ended-after :
    (file more rest : List ℕ) (received : ℕ) (s : Store) (o : Option ℕ) (t : Store)
    → Ended (file ++ more) rest (received + length more) s o t
    → Ended file (more ++ rest) received s o t
Ended-after file more rest received s none t h = Wrote-after file more rest s t h
Ended-after file more rest received s (some n) t (p, e, same) = (
  p ∙ ap (λ q. some q) (append_assoc file more rest),
  omega (arith, e, length-append {0} more rest),
  same,
)

pub Post-map :
    {A : Type 0}
    → (P P' : Store → Type 0) (Q Q' : A → Store → Type 0) (r : Store × Tried A)
    → ((s : Store) → P s → P' s)
    → ((a : A) (s : Store) → Q a s → Q' a s)
    → Post P Q r
    → Post P' Q' r
Post-map P P' Q Q' (s, done a) f g h = g a s h
Post-map P P' Q Q' (s, failure code) f g h = f s h

Is-cancel_if : (b : Bool) (file : List ℕ) (s t : Store) → Is file s t → Is file s (cancel_if b t)
Is-cancel_if true file s t h = h
Is-cancel_if false file s t h = h

module _ (size : ℕ) (attempt : Attempt) where
  Goes : List Chunk → (ℕ → ℕ → Run (Option ℕ)) → Type 0
  Goes rest go_on =
      (received since : ℕ) (file : List ℕ) (s t : Store)
      → Is file s t
      → Post (Wrote file (pieces rest) s) (Ended file (pieces rest) received s)
          (go_on received since t)

  take_chunk-Post :
      (rest : List Chunk) (go_on : ℕ → ℕ → Run (Option ℕ))
      → Goes rest go_on
      → (more : List ℕ) (written : Option ℕ) (elapsed received since : ℕ) (file : List ℕ)
        (s t : Store)
      → Is file s t
      → Post
          (Wrote file (more ++ pieces rest) s)
          (Ended file (more ++ pieces rest) received s)
          (take_chunk size attempt go_on more written elapsed received since t)
  unfolding Goes
  take_chunk-Post rest go_on goes more written elapsed received since file s t h =
      let all = more ++ pieces rest in
      let due = should_flush_progress elapsed (since + length more) false in
      let count = received + length more in
      elim (Bool-cases (ltb size count)) [
        | inl e ↦ rw e (Is-Wrote file all s t h)
        | inr e ↦ rw e (
            Post-bind (Wrote file all s) (λ _ u. Is (file ++ more) s u) (Ended file all received s)
              (go_on count)
              ((write_chunk more written
                  >> flush due attempt.update_works count (since + length more))
                t)
              (Post-bind (Wrote file all s) (λ _ u. Is (file ++ more) s u)
                (λ _ u. Is (file ++ more) s u)
                (λ _. flush due attempt.update_works count (since + length more))
                (write_chunk more written t)
                (Post-map (Wrote file more s) (Wrote file all s) (λ _ u. Is (file ++ more) s u)
                  (λ _ u. Is (file ++ more) s u) (write_chunk more written t)
                  (λ u. Wrote-later file more (pieces rest) s u) (λ _ u k. k)
                  (write_chunk-Post more written file s t h))
                (λ _ u k.
                  Post-map (Is (file ++ more) s) (Wrote file all s) (λ _ v. Is (file ++ more) s v)
                    (λ _ v. Is (file ++ more) s v)
                    (flush due attempt.update_works count (since + length more) u)
                    (λ v l.
                      Wrote-after file more (pieces rest) s v
                        (Is-Wrote (file ++ more) (pieces rest) s v l))
                    (λ _ v l. l)
                    (flush-Is due attempt.update_works count (since + length more) (file ++ more) s
                      u k)))
              (λ n u k.
                Post-map (Wrote (file ++ more) (pieces rest) s) (Wrote file all s)
                  (Ended (file ++ more) (pieces rest) count s) (Ended file all received s)
                  (go_on count n u) (λ v. Wrote-after file more (pieces rest) s v)
                  (λ o v. Ended-after file more (pieces rest) received s o v)
                  (goes count n (file ++ more) s u k)))
      ]

  receive-Goes : (body : List Chunk) → Goes body (receive size attempt body)
  unfolding Goes receive
  receive-Goes [] received since file s t (e, same) =
      (e ∙ ap (λ q. some q) (sym (append-nil file)), omega arith, same)
  receive-Goes (stall ∷ rest) received since file s t h = Is-Wrote file [] s t h
  receive-Goes (broken ∷ rest) received since file s t h = Is-Wrote file [] s t h
  receive-Goes (bytes more cancels written elapsed ∷ rest) received since file s t h =
      let now = cancel_if cancels t in
      let is_now = Is-cancel_if cancels file s t h in
      elim (Bool-cases (is_cancelled now.operation)) [
        | inl e ↦ rw e (Is-Wrote file (more ++ pieces rest) s now is_now)
        | inr e ↦ rw e (
            take_chunk-Post rest (receive size attempt rest) (receive-Goes rest) more written
              elapsed received since file s now is_now)
      ]

  -- After any body, the partial file is the file that was there with a beginning of the body's
  -- bytes behind it; with all of them, and their number counted, when the loop ended.
  pub receive-Post :
      (body : List Chunk) (received since : ℕ) (file : List ℕ) (s : Store)
      → s.part ≡ some file
      → Post
          (Wrote file (pieces body) s)
          (Ended file (pieces body) received s)
          (receive size attempt body received since s)
  unfolding Goes
  receive-Post body received since file s e =
      receive-Goes body received since file s s (e, (refl, refl))
