-- ===== src/Realtime/Worker/Endings.antt =====
-- How the workers of an item end.
use stt_server.Prelude.{
  ◌≡◌, refl, subst, any, ◌||◌, Bool, true, false, List, [], ◌∷◌, ◌++◌, Option, none, some, Text,
  Bool-cases, inl, inr,
}
use stt_server.Errors.{ApiResult, ok, err}
use stt_server.Realtime.{Cmd, feed, finalize, partial, completed, failed, ended}
use stt_server.Realtime.Worker.{
  Engine, StreamUpdate, Action, drop_batch_permit, drop_stream_slot, send, Progress, waiting,
  returned, report, before, fed, finalized, run_commands, run_stream, outcome_updates, concluded,
  stream_worker,
}

-- Reports of text, and nothing else.
abbrev pub Reports : List Action → Type 0
Reports [] = Unit {0}
Reports (send (partial _ _ _) ∷ rest) = Reports rest
Reports (_ ∷ rest) = ⊥

-- The end of a worker: at most one verdict, then `ended`.
abbrev pub Closing : List Action → Type 0
Closing (send ended ∷ []) = Unit {0}
Closing (send (completed _) ∷ send ended ∷ []) = Unit {0}
Closing (send (failed _) ∷ send ended ∷ []) = Unit {0}
Closing _ = ⊥

-- The whole life of a stream's worker: the batch permit goes first, then reports, then the
-- stream slot, then at most one verdict, and `ended` last.
abbrev pub Ordered : List Action → Type 0
Ordered actions =
    (reports closing : List Action) × Reports reports
    × Closing closing
    × (actions ≡ drop_batch_permit ∷ (reports ++ (drop_stream_slot ∷ closing)))

abbrev pub is_finalize : {F : Type 0} → Cmd F → Bool
is_finalize (feed _) = false
is_finalize finalize = true

-- The commands end the worker: finalize is among them, or the channel is closed behind them.
abbrev pub ends : {F : Type 0} → Bool → List (Cmd F) → Bool
ends closed commands = any is_finalize commands || closed

module _ {F S : Type 0} (engine : Engine F S) where
  Reports-append : (xs ys : List Action) → Reports xs → Reports ys → Reports (xs ++ ys)
  Reports-append [] ys hx hy = hy
  Reports-append (send (partial _ _ _) ∷ xs) ys hx hy = Reports-append xs ys hx hy
  Reports-append (send (completed _) ∷ xs) ys hx hy = absurd hx
  Reports-append (send (failed _) ∷ xs) ys hx hy = absurd hx
  Reports-append (send ended ∷ xs) ys hx hy = absurd hx
  Reports-append (drop_batch_permit ∷ xs) ys hx hy = absurd hx
  Reports-append (drop_stream_slot ∷ xs) ys hx hy = absurd hx

  report-Reports : (s : S) (u : StreamUpdate) → Reports (report engine s u)
  report-Reports s u = elim (Bool-cases (u.committed_changed || u.tentative_changed)) [
    | inl e ↦ rw e tt
    | inr e ↦ rw e tt
  ]

  abbrev RunsWell : Bool → List Action × Progress → Type 0
  RunsWell must (actions, waiting) = (must ≡ false) × Reports actions
  RunsWell must (actions, returned outcome) = Reports actions

  RunsWell-before :
      (must : Bool) (actions : List Action) (r : List Action × Progress)
      → Reports actions
      → RunsWell must r
      → RunsWell must (before actions r)
  RunsWell-before must actions (rest, waiting) h (m, k) = (m, Reports-append actions rest h k)
  RunsWell-before must actions (rest, returned outcome) h k = Reports-append actions rest h k

  fed-RunsWell :
      (must : Bool) (go_on : S → List Action × Progress) (r : S × ApiResult StreamUpdate)
      → ((s : S) → RunsWell must (go_on s))
      → RunsWell must (fed engine go_on r)
  fed-RunsWell must go_on (s, err e) h = tt
  fed-RunsWell must go_on (s, ok u) h =
      RunsWell-before must (report engine s u) (go_on s) (report-Reports s u) (h s)

  finalized-RunsWell : (r : S × ApiResult StreamUpdate) → RunsWell true (finalized engine r)
  finalized-RunsWell (s, err e) = tt
  finalized-RunsWell (s, ok u) = tt

  run_commands-RunsWell :
      (closed : Bool) (commands : List (Cmd F)) (s : S)
      → RunsWell (ends closed commands) (run_commands engine closed commands s)
  unfolding run_commands
  run_commands-RunsWell true [] s = tt
  run_commands-RunsWell false [] s = (refl, tt)
  run_commands-RunsWell closed (feed pcm ∷ rest) s =
      fed-RunsWell (ends closed rest) (run_commands engine closed rest) (engine.push pcm s)
        (λ t. run_commands-RunsWell closed rest t)
  run_commands-RunsWell closed (finalize ∷ rest) s = finalized-RunsWell (engine.finish s)

  Closing-outcome_updates : (o : ApiResult (Option Text)) → Closing (outcome_updates o)
  Closing-outcome_updates (ok (some t)) = tt
  Closing-outcome_updates (ok none) = tt
  Closing-outcome_updates (err e) = tt

  concluded-Ordered :
      (r : List Action × Progress)
      → RunsWell true r
      → Ordered (concluded (before (drop_batch_permit ∷ []) r))
  concluded-Ordered (actions, waiting) (m, h) = cc m
  concluded-Ordered (actions, returned o) h =
      (actions, outcome_updates o, h, Closing-outcome_updates o, refl)

  -- When finalize is among the commands, or the channel is closed behind them, a stream's worker
  -- ends, whatever the engine answers: it drops the batch permit, then only reports text, then
  -- drops the stream slot, and after that sends at most one verdict and `ended`, which is last.
  pub stream_worker-Ordered :
      (begun : ApiResult S) (closed : Bool) (commands : List (Cmd F))
      → ends closed commands ≡ true
      → Ordered (stream_worker engine begun closed commands)
  unfolding stream_worker run_stream
  stream_worker-Ordered (err e) closed commands h = ([], outcome_updates (err e), tt, tt, refl)
  stream_worker-Ordered (ok s) closed commands h =
      concluded-Ordered (run_commands engine closed commands s) (
        subst (λ m. RunsWell m (run_commands engine closed commands s)) h
          (run_commands-RunsWell closed commands s))
