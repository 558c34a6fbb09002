-- ===== src/Download/Sources.antt =====
-- src/download.rs, download_with_sources, and promote_verified_model of src/store.rs: up to three
-- attempts for each source, the check of the digest, and the installation. `net` is what a source
-- answers at each attempt, and when the client cancels; `sha256` is none when hashing fails.
use stt_server.Prelude.{
  ℕ, zero, suc, ◌-◌, Bool, true, false, not, List, [], ◌∷◌, ◌++◌, Option, none, some, String, Text,
  text_eq, all, retain, ltb, ◌==◌, if◌then◌else◌,
}
use text.Mathlib.Text.{◌==◌ as str_eq}
use stt_server.Download.{
  OperationState, running, completed, Store, Attempt, Tried, done, failure, Run, ◌>>=◌, ◌>>◌, pure,
  fail, perform, length_of, set_running, cancel_if, is_cancelled, disk_required_bytes,
}
use stt_server.Download.Transfer.{attempt_download}

pub record CatalogFile : Type 0 where
  pub sha256 : Text
  pub size_bytes : ℕ

-- An attempt, and whether the client has cancelled before it, or by the end of the wait after it.
pub record Round : Type 0 where
  pub cancels_before : Bool
  pub attempt : Attempt
  pub cancels_waiting : Bool

abbrev pub Errors : Type 0
Errors = List (Text × String)

-- `retain` and `push`: the last failure of each source.
abbrev pub note_error : Text → String → Errors → Errors
note_error url code errors = retain (λ e. not (text_eq e.0 url)) errors ++ ((url, code) ∷ [])

abbrev pub check_cancelled : Bool → Run (Unit {0})
check_cancelled cancels s =
    let now = cancel_if cancels s in
    if is_cancelled now.operation then fail "cancelled" now else pure tt now

-- The code of all the failures, when it is the same.
unfoldable pub failure_code : Errors → String
failure_code [] = "source_unavailable"
failure_code ((url, code) ∷ rest) =
    if all (λ e. str_eq e.1 code) rest then code else "source_unavailable"

-- Which of the steps of the installation work.
pub record Steps : Type 0 where
  pub quarantines : Bool
  pub inserts : Bool
  pub renames : Bool
  pub updates : Bool
  pub commits : Bool

-- The state that the transaction reads must be `running`.
abbrev pub is_running : OperationState → Bool
is_running running = true
is_running _ = false

abbrev pub install : List ℕ → Store → Store
install bytes s = record s { part = none; installed = some bytes; operation = completed }

-- Behind the rename nothing but a failed commit brings the file back.
unfoldable pub promote_verified_model : Steps → List ℕ → Run (Unit {0})
promote_verified_model steps bytes s =
    if is_running s.operation
    then (perform steps.inserts (λ t. t)
          >> perform steps.renames (λ t. t)
          >> (λ t.
              if steps.updates then pure tt t else fail "internal_error" (record t { part = none }))
          >> perform steps.commits (install bytes))
        s
    else fail "internal_error" s

abbrev pub quarantine : List ℕ → Store → Store
quarantine bytes s = record s { part = none; quarantined = some bytes }

abbrev pub after_attempt :
    (Errors → Run (Bool × Errors))
    → Bool
    → Text
    → Bool
    → Errors
    → Store × Tried Bool
    → Store × Tried (Bool × Errors)
after_attempt again last url cancels errors (s, done true) = pure (true, errors) s
after_attempt again last url cancels errors (s, done false) = fail "cancelled" s
after_attempt again true url cancels errors (s, failure code) = again (note_error url code errors) s
after_attempt again false url cancels errors (s, failure code) =
    (check_cancelled cancels >> again (note_error url code errors)) s

abbrev pub or_next : (Errors → Run (Bool × Errors)) → Bool × Errors → Run (Bool × Errors)
or_next next (true, errors) = pure (true, errors)
or_next next (false, errors) = next errors

module _ (net : Text → ℕ → Store → Round) (sha256 : List ℕ → Option Text)
    (eq_ignore_ascii_case : Text → Text → Bool) (steps : Steps) (file : CatalogFile) where
  abbrev pub run_round :
      (Errors → Run (Bool × Errors)) → Bool → Text → Round → Errors → Run (Bool × Errors)
  run_round again last url round errors = check_cancelled round.cancels_before >> (λ s.
      after_attempt again last url round.cancels_waiting errors
        (attempt_download file.size_bytes round.attempt s))

  -- The attempts of a source that are left.
  unfoldable pub try_source : ℕ → Text → Errors → Run (Bool × Errors)
  try_source zero url errors s = pure (false, errors) s
  try_source (suc n) url errors s =
      run_round (try_source n url) (n == 0) url (net url (3 - suc n) s) errors s

  unfoldable pub try_sources : List Text → Errors → Run (Bool × Errors)
  try_sources [] errors s = pure (false, errors) s
  try_sources (url ∷ urls) errors s = (try_source 3 url errors >>= or_next (try_sources urls)) s

  abbrev pub checked : List ℕ → Option Text → Run (Unit {0})
  checked bytes none = fail "internal_error"
  checked bytes (some actual) =
      if eq_ignore_ascii_case actual file.sha256
      then promote_verified_model steps bytes
      else perform steps.quarantines (quarantine bytes) >> fail "hash_mismatch"

  abbrev pub hashed : Option (List ℕ) → Run (Unit {0})
  hashed none = fail "internal_error"
  hashed (some bytes) = checked bytes (sha256 bytes)

  abbrev pub conclude : Bool × Errors → Run (Unit {0})
  conclude (true, errors) s = hashed s.part s
  conclude (false, errors) s = fail (failure_code errors) s

  unfoldable pub download_with_sources : List Text → Run (Unit {0})
  download_with_sources urls = try_sources urls [] >>= conclude

  -- `cancels` is whether the client has cancelled before, `available` the free space.
  unfoldable pub download_model : (ℕ → ℕ) → Bool → Bool → ℕ → List Text → Run (Unit {0})
  download_model headroom cancels updates available urls =
      check_cancelled cancels
      >> perform updates (λ s. set_running s.operation 0 s)
      >> (λ s.
          if ltb available (disk_required_bytes headroom file.size_bytes (length_of s.part))
          then fail "insufficient_disk_space" s
          else pure tt s)
      >> download_with_sources urls
