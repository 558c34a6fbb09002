-- ===== src/Download/Verified.antt =====
-- What a download installs.
use stt_server.Prelude.{
  ℕ, zero, suc, ◌-◌, ◌≡◌, refl, sym, ◌∙◌, subst, Bool, true, false, List, [], ◌∷◌, Option, none,
  some, Text, length, ◌==◌, Bool-cases, inl, inr, if◌then◌else◌,
}
use stt_server.Download.{
  resume_decision, Store, OperationState, completed, Tried, done, failure, Run, ◌>>◌, pure, fail,
  perform, length_of, cancel_if, is_cancelled,
}
use stt_server.Download.Transfer.{attempt_download}
use stt_server.Download.Received.{Post, Post-bind, Post-map, Same}
use stt_server.Download.Attempts.{
  Kept, Good, Finished, SizedIf, PermitsAt, attempt_download-Finished,
}
use stt_server.Download.Sources.{
  CatalogFile, Round, Errors, note_error, check_cancelled, Steps, is_running, install,
  promote_verified_model, quarantine, after_attempt, try_source, or_next, try_sources, checked,
  hashed, conclude, download_with_sources,
}

module _ (K : List ℕ → Type 0) (net : Text → ℕ → Store → Round) (sha256 : List ℕ → Option Text)
    (eq_ignore_ascii_case : Text → Text → Bool) (steps : Steps) (file : CatalogFile) where
  -- Every answer that the network gives permits the property of the partial file.
  abbrev pub NetPermits : Type 0
  NetPermits =
      (url : Text) (n : ℕ) (s : Store)
      → Kept K s.part
      → PermitsAt K (resume_decision (length_of s.part) file.size_bytes) s.part
          (net url n s).attempt.reply

  -- When there is a file of the full size, it is the partial file.
  abbrev Found : Store → Bool × Errors → Store → Type 0
  Found s (b, errors) t = Finished K file.size_bytes s b t

  abbrev Matches : Option Text → Type 0
  Matches none = ⊥
  Matches (some actual) = eq_ignore_ascii_case actual file.sha256 ≡ true

  -- A file with the property, the catalog's size and the catalog's digest is installed, and the
  -- operation is completed.
  abbrev pub Installs : Option (List ℕ) → OperationState → Type 0
  Installs none operation = ⊥
  Installs (some bytes) operation =
      K bytes × (length bytes ≡ file.size_bytes) × (operation ≡ completed) × Matches (sha256 bytes)

  check_cancelled-Good :
      (b : Bool) (s t : Store)
      → Good K s t
      → Post (Good K s) (λ _ u. Good K s u × (u.part ≡ t.part)) (check_cancelled b t)
  check_cancelled-Good false s t h = elim (Bool-cases (is_cancelled t.operation)) [
    | inl e ↦ rw e h
    | inr e ↦ rw e (h, refl)
  ]
  check_cancelled-Good true s t h = elim (Bool-cases (is_cancelled (cancel_if true t).operation)) [
    | inl e ↦ rw e h
    | inr e ↦ rw e (h, refl)
  ]

  Same-trans : (s t u : Store) → Same s t → Same t u → Same s u
  Same-trans s t u (a, b) (c, d) = (c ∙ a, d ∙ b)

  abbrev Goes : (Errors → Run (Bool × Errors)) → Type 0
  Goes m = (errors : Errors) (s t : Store) → Good K s t → Post (Good K s) (Found s) (m errors t)

  after_attempt-Found :
      (again : Errors → Run (Bool × Errors)) (last : Bool) (url : Text) (cancels : Bool)
      (errors : Errors) (s t : Store) (r : Store × Tried Bool)
      → Goes again
      → Same s t
      → Post (Good K t) (Finished K file.size_bytes t) r
      → Post (Good K s) (Found s) (after_attempt again last url cancels errors r)
  after_attempt-Found again last url cancels errors s t (u, done true) goes same ((k, m), sized) =
      ((k, Same-trans s t u same m), sized)
  after_attempt-Found again last url cancels errors s t (u, done false) goes same ((k, m), sized) =
      (k, Same-trans s t u same m)
  after_attempt-Found again true url cancels errors s t (u, failure code) goes same (k, m) =
      goes (note_error url code errors) s u (k, Same-trans s t u same m)
  after_attempt-Found again false url cancels errors s t (u, failure code) goes same (k, m) =
      Post-bind (Good K s) (λ _ v. Good K s v × (v.part ≡ u.part)) (Found s)
        (λ _. again (note_error url code errors)) (check_cancelled cancels u)
        (check_cancelled-Good cancels s u (k, Same-trans s t u same m))
        (λ _ v g. goes (note_error url code errors) s v g.0)

  module _ (permits : NetPermits) where
    try_source-Goes :
        (n : ℕ) (url : Text) → Goes (try_source net sha256 eq_ignore_ascii_case steps file n url)
    unfolding try_source
    try_source-Goes zero url errors s t h = (h, tt)
    try_source-Goes (suc n) url errors s t h =
        let round = net url (3 - suc n) t in
        let again = try_source net sha256 eq_ignore_ascii_case steps file n url in
        Post-bind (Good K s) (λ _ u. Good K s u × (u.part ≡ t.part)) (Found s)
          (λ _ u.
            after_attempt again (n == 0) url round.cancels_waiting errors
              (attempt_download file.size_bytes round.attempt u))
          (check_cancelled round.cancels_before t) (check_cancelled-Good round.cancels_before s t h)
          (λ _ u g.
            after_attempt-Found again (n == 0) url round.cancels_waiting errors s u
              (attempt_download file.size_bytes round.attempt u) (try_source-Goes n url) g.0.1
              (attempt_download-Finished K file.size_bytes round.attempt u g.0.0 (
                subst
                  (λ p.
                    PermitsAt K (resume_decision (length_of p) file.size_bytes) p
                      round.attempt.reply)
                  (sym g.1) (permits url (3 - suc n) t (subst (Kept K) g.1 g.0.0)))))

    or_next-Found :
        (next : Errors → Run (Bool × Errors)) (r : Bool × Errors) (s u : Store)
        → Goes next
        → Found s r u
        → Post (Good K s) (Found s) (or_next next r u)
    or_next-Found next (true, errors) s u goes f = f
    or_next-Found next (false, errors) s u goes f = goes errors s u f.0

    try_sources-Goes :
        (urls : List Text) → Goes (try_sources net sha256 eq_ignore_ascii_case steps file urls)
    unfolding try_sources
    try_sources-Goes [] errors s t h = (h, tt)
    try_sources-Goes (url ∷ urls) errors s t h =
        let next = try_sources net sha256 eq_ignore_ascii_case steps file urls in
        Post-bind (Good K s) (Found s) (Found s) (or_next next)
          (try_source net sha256 eq_ignore_ascii_case steps file 3 url errors t)
          (try_source-Goes 3 url errors s t h)
          (λ r u f. or_next-Found next r s u (try_sources-Goes urls) f)

    -- What a run leaves installed: what was there after a failure, and else the file.
    abbrev Untouched : Store → Store → Type 0
    Untouched s t = t.installed ≡ s.installed

    promote-Installs :
        (bytes : List ℕ) (s t : Store)
        → Untouched s t
        → K bytes
        → length bytes ≡ file.size_bytes
        → Matches (sha256 bytes)
        → Post
            (Untouched s)
            (λ _ u. Installs u.installed u.operation)
            (promote_verified_model steps bytes t)
    unfolding promote_verified_model
    promote-Installs bytes s t h k l m =
        by_steps (is_running t.operation) steps.inserts steps.renames steps.updates steps.commits
      where
        by_steps :
            (runs inserts renames updates commits : Bool)
            → Post
                (Untouched s)
                (λ _ u. Installs u.installed u.operation)
                (if runs
                  then (perform inserts (λ t. t)
                        >> perform renames (λ t. t)
                        >> (λ t.
                            if updates
                            then pure tt t
                            else fail "internal_error" (record t { part = none }))
                        >> perform commits (install bytes))
                      t
                  else fail "internal_error" t)
        by_steps false inserts renames updates commits = h
        by_steps true false renames updates commits = h
        by_steps true true false updates commits = h
        by_steps true true true false commits = h
        by_steps true true true true false = h
        by_steps true true true true true = (k, l, refl, m)

    checked-Installs :
        (bytes : List ℕ) (o : Option Text) (s t : Store)
        → sha256 bytes ≡ o
        → Untouched s t
        → K bytes
        → length bytes ≡ file.size_bytes
        → Post
            (Untouched s)
            (λ _ u. Installs u.installed u.operation)
            (checked net sha256 eq_ignore_ascii_case steps file bytes o t)
    checked-Installs bytes none s t w h k l = h
    checked-Installs bytes (some actual) s t w h k l =
        elim (Bool-cases (eq_ignore_ascii_case actual file.sha256)) [
          | inl e ↦ rw e (promote-Installs bytes s t h k l (subst Matches (sym w) e))
          | inr e ↦ rw e (refused steps.quarantines)
        ]
      where
        refused :
            (b : Bool)
            → Post {A = Unit {0}}
                (Untouched s)
                (λ _ u. Installs u.installed u.operation)
                ((perform b (quarantine bytes) >> fail "hash_mismatch") t)
        refused true = h
        refused false = h

    hashed-Installs :
        (part : Option (List ℕ)) (s t : Store)
        → Untouched s t
        → Kept K part
        → SizedIf file.size_bytes true part
        → Post
            (Untouched s)
            (λ _ u. Installs u.installed u.operation)
            (hashed net sha256 eq_ignore_ascii_case steps file part t)
    hashed-Installs none s t h k l = h
    hashed-Installs (some bytes) s t h k l = checked-Installs bytes (sha256 bytes) s t refl h k l

    conclude-Installs :
        (r : Bool × Errors) (s t : Store)
        → Found s r t
        → Post
            (Untouched s)
            (λ _ u. Installs u.installed u.operation)
            (conclude net sha256 eq_ignore_ascii_case steps file r t)
    conclude-Installs (false, errors) s t ((k, same), l) = same.0
    conclude-Installs (true, errors) s t ((k, same), l) = hashed-Installs t.part s t same.0 k l

    pub download-Installs :
        (urls : List Text) (s : Store)
        → Kept K s.part
        → Post
            (Untouched s)
            (λ _ u. Installs u.installed u.operation)
            (download_with_sources net sha256 eq_ignore_ascii_case steps file urls s)
    unfolding download_with_sources
    download-Installs urls s k =
        Post-bind (Untouched s) (Found s) (λ _ u. Installs u.installed u.operation)
          (conclude net sha256 eq_ignore_ascii_case steps file)
          (try_sources net sha256 eq_ignore_ascii_case steps file urls [] s)
          (Post-map (Good K s) (Untouched s) (Found s) (Found s)
            (try_sources net sha256 eq_ignore_ascii_case steps file urls [] s) (λ u g. g.1.0)
            (λ r u f. f) (try_sources-Goes urls [] s s (k, (refl, refl))))
          (λ r u f. conclude-Installs r s u f)
