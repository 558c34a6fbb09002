-- ===== src/SelfUpdate/Tests.antt =====
-- Versions and swaps at concrete files, and the witnesses.
use stt_server.Prelude.{
  ◌≡◌, refl, ℕ, List, Text, text_eq, true, false, [], ◌∷◌, Option, none, some, codes,
}
use stt_server.SelfUpdate.{
  Files, whole, Ops, parse_numeric_version, is_newer, replace_exe, rollback_exe,
}
use stt_server.SelfUpdate.Verify.{
  fetched, verified, Answers, parse_checksum_body, download_and_verify, download_and_verify-Answers,
}
use stt_server.SelfUpdate.Swap.{Restored, undone, rollback_exe-replace_exe}

abbrev working : Ops
working = record {
  removes_backup = true;
  moves_aside = true;
  renames = false;
  copies = whole;
  restores = true;
  removes_staged = true;
  removes_current = true;
  moves_back = true;
}

abbrev files : Files
files = record { current = some 1; staged = some 2; backup = some 0 }

rollback_exe-replace_exe_example : Restored 1 (undone working (replace_exe working files))
rollback_exe-replace_exe_example = rollback_exe-replace_exe working working files 1 refl

undone_lem :
    undone working (replace_exe working files)
    ≡ (record { current = some 1; staged = none; backup = none }, true)
unfolding replace_exe rollback_exe
undone_lem = refl

parsed : parse_numeric_version (codes "0.10.3") ≡ some (0 ∷ 10 ∷ 3 ∷ [])
unfolding parse_numeric_version
parsed = refl

parsed_9 : parse_numeric_version (codes "0.9") ≡ some (0 ∷ 9 ∷ [])
unfolding parse_numeric_version
parsed_9 = refl

parsed_1 : parse_numeric_version (codes "1.0") ≡ some (1 ∷ 0 ∷ [])
unfolding parse_numeric_version
parsed_1 = refl

newer_10 : is_newer (codes "0.9") (codes "0.10.3") ≡ true
unfolding is_newer parse_numeric_version
newer_10 = refl

newer_1 : is_newer (codes "0.10.3") (codes "1.0") ≡ true
unfolding is_newer parse_numeric_version
newer_1 = refl

-- A component more makes a version newer, also when it is zero.
longer : is_newer (codes "1.2") (codes "1.2.0") ≡ true
unfolding is_newer parse_numeric_version
longer = refl

abbrev read_any : List ℕ → Option Text
read_any bytes = some bytes

abbrev same_text : Text → Text
same_text t = t

download_and_verify-Answers_example :
    Answers read_any same_text read_any text_eq true true (fetched (codes "ab  stt-server.exe")) (
      download_and_verify read_any same_text read_any text_eq true true
        (fetched (codes "ab"))
        (fetched (codes "ab  stt-server.exe"))
        (record { exe = none; checksum = none }))
download_and_verify-Answers_example =
    download_and_verify-Answers read_any same_text read_any text_eq true true (fetched (codes "ab"))
      (fetched (codes "ab  stt-server.exe")) (record { exe = none; checksum = none }) refl

verified_lem :
    download_and_verify read_any same_text read_any text_eq true true
      (fetched (codes "ab"))
      (fetched (codes "ab  stt-server.exe"))
      (record { exe = none; checksum = none })
    ≡ (record { exe = some (codes "ab"); checksum = none }, verified)
unfolding download_and_verify parse_checksum_body
verified_lem = refl
