-- ===== src/SelfUpdate/Verify.antt =====
-- src/selfupdate.rs, download_and_verify: the executable and its checksum, fetched and compared.
-- A fetch does not reach its file, leaves something in it and fails, or works. Reading a body as
-- UTF-8, lower-casing and the digest are parameters, `none` where they fail.
use stt_server.Prelude.{
  ℕ, ◌≡◌, refl, sym, ◌∙◌, subst, Bool, true, List, [], ◌∷◌, Option, none, some, Text, Bool-cases,
  inl, inr, is_whitespace, if◌then◌else◌,
}

pub data UpdateError : Type 0 where
  http parse verify io : UpdateError

pub data Fetched : Type 0 where
  unreached : Fetched
  torn : List ℕ → Fetched
  fetched : List ℕ → Fetched

pub record Stage : Type 0 where
  pub exe : Option (List ℕ)
  pub checksum : Option (List ℕ)

pub data Verified : Type 0 where
  verified : Verified
  failed : UpdateError → Verified

abbrev pub until_space : Text → Text
until_space [] = []
until_space (c ∷ cs) = let rest = until_space cs in if is_whitespace c then [] else c ∷ rest

-- `split_whitespace().next()`.
abbrev pub first_token : Text → Option Text
first_token [] = none
first_token (c ∷ cs) =
    let rest = first_token cs in if is_whitespace c then rest else some (c ∷ until_space cs)

module _ (read_to_string : List ℕ → Option Text) (to_lowercase : Text → Text)
    (sha256_file : List ℕ → Option Text) (eq_ignore_ascii_case : Text → Text → Bool)
    (removes_exe removes_checksum : Bool) where
  abbrev lowered : Option Text → Option Text
  lowered none = none
  lowered (some t) = some (to_lowercase t)

  unfoldable pub parse_checksum_body : Text → Option Text
  parse_checksum_body body = lowered (first_token body)

  abbrev pub without_exe : Stage → Stage
  without_exe s = if removes_exe then record s { exe = none } else s

  abbrev pub without_checksum : Stage → Stage
  without_checksum s = if removes_checksum then record s { checksum = none } else s

  abbrev pub compare_digest : Text → Option Text → Stage → Stage × Verified
  compare_digest expected none s = (s, failed io)
  compare_digest expected (some actual) s =
      if eq_ignore_ascii_case actual expected then (s, verified) else (without_exe s, failed verify)

  abbrev pub with_expected : List ℕ → Option Text → Stage → Stage × Verified
  with_expected exe none s = (without_exe s, failed parse)
  with_expected exe (some expected) s = compare_digest expected (sha256_file exe) s

  abbrev pub with_body : List ℕ → Option Text → Stage → Stage × Verified
  with_body exe none s = (s, failed io)
  with_body exe (some body) s = with_expected exe (parse_checksum_body body) (without_checksum s)

  abbrev pub with_exe : List ℕ → Fetched → Stage → Stage × Verified
  with_exe exe unreached s = (without_exe s, failed http)
  with_exe exe (torn some_bytes) s =
      (without_exe (record s { checksum = some some_bytes }), failed io)
  with_exe exe (fetched body) s =
      with_body exe (read_to_string body) (record s { checksum = some body })

  unfoldable pub download_and_verify : Fetched → Fetched → Stage → Stage × Verified
  download_and_verify unreached checksum s = (s, failed http)
  download_and_verify (torn some_bytes) checksum s = (record s { exe = some some_bytes }, failed io)
  download_and_verify (fetched exe) checksum s = with_exe exe checksum (record s { exe = some exe })

  -- The digest of the executable is the first word of the checksum's body, but for case.
  abbrev pub Agrees : Option (List ℕ) → Fetched → Type 0
  Agrees none body = ⊥
  Agrees (some exe) unreached = ⊥
  Agrees (some exe) (torn _) = ⊥
  Agrees (some exe) (fetched bytes) =
      (body expected actual : Text) × (read_to_string bytes ≡ some body)
      × (parse_checksum_body body ≡ some expected)
      × (sha256_file exe ≡ some actual)
      × (eq_ignore_ascii_case actual expected ≡ true)

  -- What is staged, by the answer.
  abbrev pub Answers : Fetched → Stage × Verified → Type 0
  Answers checksum (t, verified) = Agrees t.exe checksum
  Answers checksum (t, failed verify) = t.exe ≡ none
  Answers checksum (t, failed parse) = t.exe ≡ none
  Answers checksum (t, failed http) = Unit {0}
  Answers checksum (t, failed io) = Unit {0}

  module _ (removes : removes_exe ≡ true) where
    without_exe-none : (s : Stage) → (without_exe s).exe ≡ none
    without_exe-none s =
        subst (λ b. (if b then record s { exe = none } else s).exe ≡ none) (sym removes) refl

    without_checksum-exe : (s : Stage) → (without_checksum s).exe ≡ s.exe
    without_checksum-exe s = elim (Bool-cases removes_checksum) [
      | inl e ↦
          subst (λ b. (if b then record s { checksum = none } else s).exe ≡ s.exe) (sym e) refl
      | inr e ↦
          subst (λ b. (if b then record s { checksum = none } else s).exe ≡ s.exe) (sym e) refl
    ]

    compare_digest-Answers :
        (exe bytes : List ℕ) (body expected : Text) (o : Option Text) (s : Stage)
        → s.exe ≡ some exe
        → read_to_string bytes ≡ some body
        → parse_checksum_body body ≡ some expected
        → sha256_file exe ≡ o
        → Answers (fetched bytes) (compare_digest expected o s)
    compare_digest-Answers exe bytes body expected none s e r p h = tt
    compare_digest-Answers exe bytes body expected (some actual) s e r p h =
        elim (Bool-cases (eq_ignore_ascii_case actual expected)) [
          | inl m ↦
              rw m
                (subst (λ x. Agrees x (fetched bytes)) (sym e) (body, expected, actual, r, p, h, m))
          | inr m ↦ rw m (without_exe-none s)
        ]

    with_expected-Answers :
        (exe bytes : List ℕ) (body : Text) (o : Option Text) (s : Stage)
        → s.exe ≡ some exe
        → read_to_string bytes ≡ some body
        → parse_checksum_body body ≡ o
        → Answers (fetched bytes) (with_expected exe o s)
    with_expected-Answers exe bytes body none s e r p = without_exe-none s
    with_expected-Answers exe bytes body (some expected) s e r p =
        compare_digest-Answers exe bytes body expected (sha256_file exe) s e r p refl

    with_body-Answers :
        (exe bytes : List ℕ) (o : Option Text) (s : Stage)
        → s.exe ≡ some exe
        → read_to_string bytes ≡ o
        → Answers (fetched bytes) (with_body exe o s)
    with_body-Answers exe bytes none s e r = tt
    with_body-Answers exe bytes (some body) s e r =
        with_expected-Answers exe bytes body (parse_checksum_body body) (without_checksum s)
          (without_checksum-exe s ∙ e) r refl

  -- Where the staged executable can be removed: when a download is verified, the digest of what is
  -- staged is the first word of the fetched checksum, but for case; and after a checksum that
  -- differs or has no word, nothing is staged.
  pub download_and_verify-Answers :
      (exe checksum : Fetched) (s : Stage)
      → removes_exe ≡ true
      → Answers checksum (download_and_verify exe checksum s)
  unfolding download_and_verify
  download_and_verify-Answers unreached checksum s removes = tt
  download_and_verify-Answers (torn b) checksum s removes = tt
  download_and_verify-Answers (fetched exe) unreached s removes = tt
  download_and_verify-Answers (fetched exe) (torn b) s removes = tt
  download_and_verify-Answers (fetched exe) (fetched bytes) s removes =
      with_body-Answers removes exe bytes (read_to_string bytes)
        (record s { exe = some exe; checksum = some bytes }) refl refl
