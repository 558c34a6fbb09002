-- ===== src/Download/Transfer.antt =====
-- src/download.rs, attempt_download: one request, from the partial file to its full size.
-- `size` is the catalog's size of the file.
use stt_server.Prelude.{
  ℕ, zero, suc, ◌+◌, Bool, true, false, ◌&&◌, List, [], ◌∷◌, Option, none, some, length, take, ltb,
  leb, ◌==◌, if◌then◌else◌,
}
use stt_server.Download.{
  ResumeDecision, verify_only, restart_from_zero, range, resume_decision, RangeResponseOutcome,
  resume_accepted, restart, restart_416, invalid, classify_range_response, should_flush_progress,
  Store, Chunk, stall, broken, bytes, Response, Reply, no_answer, unreachable, answered, Attempt,
  Run, ◌>>=◌, ◌>>◌, pure, fail, perform, length_of, appended, set_running, cancel_if, is_cancelled,
}

abbrev pub write : List ℕ → Store → Store
write more s = record s { part = appended s.part more }

-- `write_all`.
abbrev pub write_chunk : List ℕ → Option ℕ → Run (Unit {0})
write_chunk more none s = perform true (write more) s
write_chunk more (some n) s = (perform true (write (take n more)) >> fail "internal_error") s

abbrev pub update_running : Bool → ℕ → Run (Unit {0})
update_running works received = perform works (λ s. set_running s.operation received s)

-- The bytes since the last time, after this chunk.
abbrev pub flush : Bool → Bool → ℕ → ℕ → Run ℕ
flush true works received since = update_running works received >> pure 0
flush false works received since = pure since

module _ (size : ℕ) (attempt : Attempt) where
  -- A chunk that came in time, when the operation goes on; `go_on` is the rest of the loop.
  abbrev pub take_chunk : (ℕ → ℕ → Run (Option ℕ)) → List ℕ → Option ℕ → ℕ → ℕ → ℕ → Run (Option ℕ)
  take_chunk go_on more written elapsed received since =
      let received' = received + length more in
      let since' = since + length more in
      if ltb size received'
      then fail "source_unavailable"
      else write_chunk more written
        >> flush (should_flush_progress elapsed since' false) attempt.update_works received' since'
        >>= go_on received'

  -- The loop: `none` when it was cancelled, or the bytes received.
  unfoldable pub receive : List Chunk → ℕ → ℕ → Run (Option ℕ)
  receive [] received since s = pure (some received) s
  receive (stall ∷ rest) received since s = fail "stalled" s
  receive (broken ∷ rest) received since s = fail "source_unavailable" s
  receive (bytes more cancels written elapsed ∷ rest) received since s =
      let now = cancel_if cancels s in
      if is_cancelled now.operation
      then pure none now
      else take_chunk (receive rest) more written elapsed received since now

  abbrev pub complete : Option ℕ → Run Bool
  complete none = pure false
  complete (some received) =
      perform attempt.sync_works (λ s. s)
      >> update_running attempt.update_works received
      >> (if received == size then pure true else fail "source_unavailable")

  -- `append` keeps the file, `truncate` empties it.
  abbrev pub opened : ℕ → Store → Store
  opened zero s = record s { part = some [] }
  opened (suc offset) s = s

  abbrev pub transfer : List Chunk → ℕ → Run Bool
  transfer body offset =
      perform attempt.open_works (opened offset) >> receive body offset 0 >>= complete

  abbrev pub remove_stage : Run (Unit {0})
  remove_stage = perform attempt.remove_works (λ s. record s { part = none })

  abbrev pub resumed : ℕ → RangeResponseOutcome → Run ℕ
  resumed offset resume_accepted = pure offset
  resumed offset restart = remove_stage >> pure 0
  resumed offset restart_416 = remove_stage >> fail "source_unavailable"
  resumed offset invalid = fail "source_unavailable"

  -- Where the body begins, from the offset asked for and the answer.
  unfoldable pub accept : ℕ → Response → Run ℕ
  accept zero r = if leb 200 r.status && leb r.status 299 then pure 0 else fail "source_unavailable"
  accept (suc offset) r =
      resumed (suc offset) (classify_range_response (suc offset) r.status r.content_range_start)

  abbrev pub request_from : Reply → ℕ → Run Bool
  request_from no_answer offset = fail "stalled"
  request_from unreachable offset = fail "source_unavailable"
  request_from (answered r) offset = accept offset r >>= transfer r.body

  abbrev pub attempt_from : ResumeDecision → Run Bool
  attempt_from verify_only s = pure true s
  attempt_from restart_from_zero s =
      ((if ltb 0 (length_of s.part) then remove_stage else pure tt) >> request_from attempt.reply 0)
        s
  attempt_from (range offset) s = request_from attempt.reply offset s

  -- Whether the full size is on disk; `false` when the operation was cancelled.
  unfoldable pub attempt_download : Run Bool
  attempt_download s = attempt_from (resume_decision (length_of s.part) size) s
