-- ===== src/Download/Content.antt =====
-- The content that a download installs, from any network and from a faithful one.
use stt_server.Prelude.{
  ℕ, zero, suc, ◌≡◌, ◌≢◌, refl, sym, ap, ◌∙◌, subst, Bool, true, List, [], ◌∷◌, ◌++◌, Option, none,
  some, Text, arith, length, drop, ◌==◌, Bool-cases, inl, inr, if◌then◌else◌, append_assoc,
  append-nil, length-append,
}
use stt_server.Download.{
  ResumeDecision, verify_only, restart_from_zero, range, resume_decision, RangeResponseOutcome,
  resume_accepted, restart, restart_416, invalid, classify_range_response, starts_at, Store,
  OperationState, Chunk, Response, Reply, no_answer, unreachable, answered, length_of,
}
use stt_server.Download.Received.{Post, Post-map, pieces}
use stt_server.Download.Attempts.{Kept, Grows, Allowed, PermitsAt}
use stt_server.Download.Sources.{CatalogFile, Round, Steps, download_with_sources}
use stt_server.Download.Verified.{Installs, download-Installs}

-- A file that says nothing of its content.
abbrev pub Anything : List ℕ → Type 0
Anything file = Unit {0}

permits-Anything :
    (d : ResumeDecision) (part : Option (List ℕ)) (reply : Reply) → PermitsAt Anything d part reply
permits-Anything verify_only part reply = tt
permits-Anything restart_from_zero part no_answer = tt
permits-Anything restart_from_zero part unreachable = tt
permits-Anything restart_from_zero part (answered r) = λ w v e. tt
permits-Anything (range offset) part no_answer = tt
permits-Anything (range offset) part unreachable = tt
permits-Anything (range zero) part (answered r) = λ w v e. tt
permits-Anything (range (suc offset)) none (answered r) = tt
permits-Anything (range (suc offset)) (some file) (answered r) =
    by_outcome (classify_range_response (suc offset) r.status r.content_range_start)
  where
    by_outcome : (o : RangeResponseOutcome) → Allowed Anything o r.body file
    by_outcome resume_accepted = λ w v e. tt
    by_outcome restart = λ w v e. tt
    by_outcome restart_416 = tt
    by_outcome invalid = tt

Kept-Anything : (part : Option (List ℕ)) → Kept Anything part
Kept-Anything none = tt
Kept-Anything (some file) = tt

module _ (net : Text → ℕ → Store → Round) (sha256 : List ℕ → Option Text)
    (eq_ignore_ascii_case : Text → Text → Bool) (steps : Steps) (file : CatalogFile) where
  -- Whatever the network answers: a download that succeeds has installed a file of the catalog's
  -- size and digest and completed its operation, and one that fails leaves what is installed.
  pub download-Verified :
      (urls : List Text) (s : Store)
      → Post
          (λ t. t.installed ≡ s.installed)
          (λ _ t.
            Installs Anything net sha256 eq_ignore_ascii_case steps file t.installed t.operation)
          (download_with_sources net sha256 eq_ignore_ascii_case steps file urls s)
  download-Verified urls s =
      download-Installs Anything net sha256 eq_ignore_ascii_case steps file
        (λ url n t _.
          permits-Anything (resume_decision (length_of t.part) file.size_bytes) t.part
            (net url n t).attempt.reply)
        urls s (Kept-Anything s.part)

-- The body is a beginning of the content from this offset on.
abbrev pub Serves : List ℕ → ℕ → List Chunk → Type 0
Serves content offset body = (rest : List ℕ) × (drop offset content ≡ pieces body ++ rest)

abbrev or_zero : Option ℕ → ℕ
or_zero none = 0
or_zero (some n) = n

-- Where the body of an answer begins: a 206 answer says it, any other one is the whole object.
abbrev pub serves_from : Response → ℕ
serves_from r = if r.status == 206 then or_zero r.content_range_start else 0

-- A faithful server: what it sends is the content from where it says; without a range it sends
-- the content from its beginning.
abbrev pub Faithful : List ℕ → ResumeDecision → Reply → Type 0
Faithful content d no_answer = Unit {0}
Faithful content d unreachable = Unit {0}
Faithful content verify_only (answered r) = Unit {0}
Faithful content restart_from_zero (answered r) = Serves content 0 r.body
Faithful content (range offset) (answered r) = Serves content (serves_from r) r.body

-- A beginning of the content.
abbrev pub Prefix : List ℕ → List ℕ → Type 0
Prefix content file = (rest : List ℕ) × (content ≡ file ++ rest)

drop-length : (file rest : List ℕ) → drop (length file) (file ++ rest) ≡ rest
drop-length [] rest = refl
drop-length (x ∷ file) rest = drop-length file rest

Grows-resumed :
    (content file : List ℕ) (body : List Chunk)
    → Prefix content file
    → Serves content (length file) body
    → Grows (Prefix content) body file
Grows-resumed content file body (rest, e) (more, f) w v g =
    let tail : rest ≡ pieces body ++ more =
      sym (ap (drop (length file)) e ∙ drop-length file rest) ∙ f in
    (
      v ++ more,
      e
          ∙ (ap (λ q. file ++ q) (tail ∙ (ap (λ q. q ++ more) g ∙ append_assoc w v more))
              ∙ sym (append_assoc file w (v ++ more))),
    )

Grows-restarted :
    (content : List ℕ) (body : List Chunk) → Serves content 0 body → Grows (Prefix content) body []
Grows-restarted content body s = Grows-resumed content [] body (content, refl) s

serves_from_restart : (r : Response) → (r.status == 200) ≡ true → serves_from r ≡ 0
serves_from_restart r e = ground (arith, e)

serves_from_resumed :
    (r : Response) (offset : ℕ)
    → (r.status == 206) ≡ true
    → starts_at r.content_range_start offset ≡ true
    → serves_from r ≡ offset
serves_from_resumed r offset e f = rw e (start r.content_range_start f)
  where
    start : (o : Option ℕ) → starts_at o offset ≡ true → or_zero o ≡ offset
    start none f = cc f
    start (some n) f = ground (arith, f)

Faithful-Allowed :
    (content file : List ℕ) (r : Response)
    → Prefix content file
    → Serves content (serves_from r) r.body
    → Allowed
        (Prefix content)
        (classify_range_response (length file) r.status r.content_range_start)
        r.body
        file
unfolding classify_range_response
Faithful-Allowed content file r p s = elim (Bool-cases (r.status == 200)) [
  | inl e ↦ rw e (
      Grows-restarted content r.body
        (subst (λ n. Serves content n r.body) (serves_from_restart r e) s))
  | inr e ↦ rw e (elim (Bool-cases (r.status == 206)) [
    | inl f ↦ rw f (elim (Bool-cases (starts_at r.content_range_start (length file))) [
      | inl g ↦ rw g (
          Grows-resumed content file r.body p
            (subst (λ n. Serves content n r.body) (serves_from_resumed r (length file) f g) s))
      | inr g ↦ rw g tt
    ])
    | inr f ↦ rw f (elim (Bool-cases (r.status == 416)) [ inl g ↦ rw g tt | inr g ↦ rw g tt ])
  ])
]

decided : (size n offset : ℕ) → resume_decision n size ≡ range offset → (offset ≡ n) × (n ≢ 0)
unfolding resume_decision
decided size n offset e = (ground (arith, e), ground (arith, e))

whole_prefix :
    (content file rest : List ℕ)
    → content ≡ file ++ rest
    → length file ≡ length content
    → file ≡ content
whole_prefix content file [] e l = sym (e ∙ append-nil file)
whole_prefix content file (x ∷ rest) e l =
    absurd (omega (arith, l, ap length e, length-append {0} file (x ∷ rest)))

module _ (content : List ℕ) where
  Faithful-PermitsAt :
      (d : ResumeDecision) (part : Option (List ℕ)) (reply : Reply)
      → ((offset : ℕ) → d ≡ range offset → (offset ≡ length_of part) × (length_of part ≢ 0))
      → Kept (Prefix content) part
      → Faithful content d reply
      → PermitsAt (Prefix content) d part reply
  Faithful-PermitsAt verify_only part reply h k f = tt
  Faithful-PermitsAt restart_from_zero part no_answer h k f = tt
  Faithful-PermitsAt restart_from_zero part unreachable h k f = tt
  Faithful-PermitsAt restart_from_zero part (answered r) h k f = Grows-restarted content r.body f
  Faithful-PermitsAt (range offset) part no_answer h k f = tt
  Faithful-PermitsAt (range offset) part unreachable h k f = tt
  Faithful-PermitsAt (range zero) part (answered r) h k f =
      let (e, n) = h 0 refl in absurd (n (sym e))
  Faithful-PermitsAt (range (suc offset)) none (answered r) h k f = tt
  Faithful-PermitsAt (range (suc offset)) (some file) (answered r) h k f =
      let (e, n) = h (suc offset) refl in
      subst
        (λ n.
          Allowed (Prefix content) (classify_range_response n r.status r.content_range_start) r.body
            file)
        (sym e) (Faithful-Allowed content file r k f)

module _ (net : Text → ℕ → Store → Round) (sha256 : List ℕ → Option Text)
    (eq_ignore_ascii_case : Text → Text → Bool) (steps : Steps) (file : CatalogFile) where
  Installs-content :
      (content : List ℕ) (o : Option (List ℕ)) (state : OperationState)
      → file.size_bytes ≡ length content
      → Installs (Prefix content) net sha256 eq_ignore_ascii_case steps file o state
      → o ≡ some content
  Installs-content content none state l h = absurd h
  Installs-content content (some bytes) state l ((rest, e), size, _, _) =
      ap (λ q. some q) (whole_prefix content bytes rest e (size ∙ l))

  -- From a server that sends beginnings of the content at the places it says, however its answers
  -- break off and whatever of the content was there before, a download that succeeds has installed
  -- exactly the content, when the catalog's size is the content's.
  pub download-Faithful :
      (content : List ℕ) (urls : List Text) (s : Store)
      → file.size_bytes ≡ length content
      → Kept (Prefix content) s.part
      → ((url : Text) (n : ℕ) (t : Store)
          → Faithful content
              (resume_decision (length_of t.part) file.size_bytes)
              (net url n t).attempt.reply)
      → Post
          (λ t. t.installed ≡ s.installed)
          (λ _ t. t.installed ≡ some content)
          (download_with_sources net sha256 eq_ignore_ascii_case steps file urls s)
  download-Faithful content urls s l k f =
      Post-map (λ t. t.installed ≡ s.installed) (λ t. t.installed ≡ s.installed)
        (λ _ t.
          Installs (Prefix content) net sha256 eq_ignore_ascii_case steps file t.installed
            t.operation)
        (λ _ t. t.installed ≡ some content)
        (download_with_sources net sha256 eq_ignore_ascii_case steps file urls s) (λ t h. h)
        (λ _ t h. Installs-content content t.installed t.operation l h)
        (download-Installs (Prefix content) net sha256 eq_ignore_ascii_case steps file
          (λ url n t q.
            Faithful-PermitsAt content (resume_decision (length_of t.part) file.size_bytes) t.part
              (net url n t).attempt.reply
              (λ offset e. decided file.size_bytes (length_of t.part) offset e) q (f url n t))
          urls s k)
