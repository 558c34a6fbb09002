-- ===== src/Download/Tests.antt =====
-- A download over two attempts, and the witnesses.
use stt_server.Prelude.{
  ℕ, ◌≡◌, refl, sym, subst, ◌==◌, if◌then◌else◌, Bool-cases, inl, inr, arith, true, false, List, [],
  ◌∷◌, Option, none, some, Text, codes, text_eq, length,
}
use stt_server.Download.{
  resume_decision, classify_range_response, should_flush_progress, Store, running, completed,
  broken, bytes, Reply, answered, Attempt, done, length_of,
}
use stt_server.Download.Transfer.{receive, accept, attempt_download}
use stt_server.Download.Received.{Post}
use stt_server.Download.Sources.{
  CatalogFile, Round, Steps, promote_verified_model, try_source, try_sources, download_with_sources,
}
use stt_server.Download.Verified.{Installs}
use stt_server.Download.Content.{Anything, Faithful, download-Verified, download-Faithful}

abbrev content : List ℕ
content = 10 ∷ 20 ∷ 30 ∷ 40 ∷ []

abbrev file : CatalogFile
file = record { sha256 = 10 ∷ 20 ∷ 30 ∷ 40 ∷ []; size_bytes = 4 }

abbrev with_reply : Reply → Attempt
with_reply reply = record {
  reply = reply;
  remove_works = true;
  open_works = true;
  sync_works = true;
  update_works = true;
}

abbrev two : ℕ → Reply
two n =
    if n == 2
    then answered (record {
      status = 206;
      content_range_start = some 2;
      body = bytes (30 ∷ []) false none 300 ∷ bytes (40 ∷ []) false none 0 ∷ [];
    })
    else Reply.unreachable

-- From the beginning the connection breaks after two bytes; from the third byte on it does not.
abbrev reply_to : Option (List ℕ) → Reply
reply_to none = answered (record {
  status = 200;
  content_range_start = none;
  body = bytes (10 ∷ 20 ∷ []) false none 0 ∷ broken ∷ [];
})
reply_to (some p) = two (length p)

abbrev net : Text → ℕ → Store → Round
net url n s = record {
  cancels_before = false;
  attempt = with_reply (reply_to s.part);
  cancels_waiting = false;
}

abbrev steps : Steps
steps = record {
  quarantines = true;
  inserts = true;
  renames = true;
  updates = true;
  commits = true;
}

abbrev start : Store
start = record {
  part = none;
  quarantined = none;
  installed = none;
  operation = running;
  progress_bytes = 0;
}

abbrev digest : List ℕ → Option Text
digest xs = some xs

abbrev sources : List Text
sources = codes "https://huggingface.co" ∷ []

-- The second attempt resumes, and the file is installed.
resumed_lem : download_with_sources net digest text_eq steps file sources start ≡ (
  record {
    part = none;
    quarantined = none;
    installed = some content;
    operation = completed;
    progress_bytes = 4;
  },
  done tt,
)
unfolding download_with_sources try_sources try_source attempt_download resume_decision accept
    classify_range_response receive should_flush_progress promote_verified_model
resumed_lem = refl

download-Verified_example :
    Post
      (λ t. t.installed ≡ start.installed)
      (λ _ t. Installs Anything net digest text_eq steps file t.installed t.operation)
      (download_with_sources net digest text_eq steps file sources start)
download-Verified_example = download-Verified net digest text_eq steps file sources start

is_two : (n : ℕ) → (n == 2) ≡ true → n ≡ 2
is_two n e = ground (arith, e)

reply_to-Faithful :
    (part : Option (List ℕ)) → Faithful content (resume_decision (length_of part) 4) (reply_to part)
unfolding resume_decision
reply_to-Faithful none = (30 ∷ 40 ∷ [], refl)
reply_to-Faithful (some p) = elim (Bool-cases (length p == 2)) [
  | inl e ↦
      subst (λ n. Faithful content (resume_decision n 4) (two n)) (sym (is_two (length p) e))
        ([], refl)
  | inr e ↦ rw e tt
]

download-Faithful_example :
    Post
      (λ t. t.installed ≡ start.installed)
      (λ _ t. t.installed ≡ some content)
      (download_with_sources net digest text_eq steps file sources start)
download-Faithful_example =
    download-Faithful net digest text_eq steps file content sources start refl tt
      (λ url n t. reply_to-Faithful t.part)
