-- ===== src/Engine/Cleanup.antt =====
-- What `_execute` and `run` undo, however the pipeline ends.
use stock_tracker_data_colle.Base.{
  ℕ, String, ◌≡◌, refl, true, false, Option, none, some, List, arith, contains, ◌+◌, ◌⊎◌, inl, inr,
  Option-cases, contains-discard_self,
}
use stock_tracker_data_colle.Errors.{Exn, cancelled_error}
use stock_tracker_data_colle.Exec.{Outcome, Exec, ok, raised, Returns, continue, after_cleanup}
use stock_tracker_data_colle.Control.Context.{PipelineRunContext}
use stock_tracker_data_colle.Control.Schema.{Database}
use stock_tracker_data_colle.Engine.{
  cancel_heartbeat, reset_context, World, Frame, set_context, run_context, execute, attempt,
  prepare, load_completed, settle, cleanup, call_pipeline, initial_frame,
}

abbrev TokenOk :
    Option (Option PipelineRunContext) → (before now : Option PipelineRunContext) → Type 0
TokenOk none before now = now ≡ before
TokenOk (some saved) before now = saved ≡ before

abbrev BeatOk : String → Option String → List String → Type 0
BeatOk run_id none alive = contains run_id alive ≡ false
BeatOk run_id (some r) alive = r ≡ run_id

-- The `finally` block, from such a frame, restores the context and leaves no heartbeat.
record IsHeld {S : Type 0} (before : Option PipelineRunContext) (run_id : String) (f : Frame S)
    : Type 0 where
  token_ok : TokenOk f.token before f.world.context
  beat_ok : BeatOk run_id f.heartbeat_task f.world.heartbeats

-- The outcome is a cancellation, and the environment decided so at the last wait or query.
abbrev pub IsCancelled : (ℕ → Option Exn) → Outcome (Unit {0}) → Database → Type 0
IsCancelled fault outcome d =
    (n : ℕ) × (e : Exn) × (d.queries ≡ n + 1)
    × (fault n ≡ some e)
    × (outcome ≡ raised cancelled_error)

-- The heartbeat is gone, and the context is as before unless the wait for its task was cancelled.
abbrev pub Restores :
    {S : Type 0}
    → (ℕ → Option Exn)
    → Option PipelineRunContext
    → String
    → Outcome (Unit {0}) × World S
    → Type 0
Restores fault before run_id (outcome, w) =
    (contains run_id w.heartbeats ≡ false)
    × ((w.context ≡ before) ⊎ IsCancelled fault outcome w.database)

module _ {S : Type 0} (fault : ℕ → Option Exn) where
  -- What the two parts of the block leave, before the wait and after it.
  heartbeat_gone :
      (run_id : String) (before : Option PipelineRunContext) (f : Frame S)
      → IsHeld before run_id f
      → contains run_id (cancel_heartbeat f.heartbeat_task f.world).heartbeats ≡ false
  heartbeat_gone run_id before f h =
      ground (arith, h.beat_ok, contains-discard_self run_id f.world.heartbeats)

  context_back :
      (run_id : String) (before : Option PipelineRunContext) (f : Frame S) (w : World S)
      → IsHeld before run_id f
      → w.context ≡ f.world.context
      → (reset_context f.token w).context ≡ before
  context_back run_id before f w h same = ground (arith, h.token_ok, same)

  cleanup-Restores :
      (name run_id : String) (started_at : ℕ) (before : Option PipelineRunContext) (f : Frame S)
      → IsHeld before run_id f
      → (outcome : Outcome (Unit {0}))
      → let (result, after) = after_cleanup outcome (cleanup fault name started_at f) in
        Restores fault before run_id (result, after.world)
  unfolding cleanup
  cleanup-Restores name run_id started_at before f h outcome =
      let gone = heartbeat_gone run_id before f h in
      let back = context_back run_id before f in
      elim (Option-cases f.heartbeat_task) [
        | inl idle ↦ (ground (arith, idle, gone), inl (ground (arith, idle, back f.world h refl)))
        | inr (run, beats) ↦ elim (Option-cases (fault f.world.database.queries)) [
          | inl answered ↦ (
            ground (arith, beats, answered, gone),
            inl (ground (arith, beats, answered, back f.world h refl)),
          )
          | inr (e, cancelled) ↦ (
            ground (arith, beats, cancelled, gone),
            inr (
              f.world.database.queries,
              e,
              ground (arith, beats, cancelled),
              cancelled,
              ground (arith, beats, cancelled),
            ),
          )
        ]
      ]

  -- Loading the completed steps reads the database, and touches nothing else.
  load_completed-keeps :
      (name : String) (resume_of : Option String) (w : World S)
      → (load_completed fault name resume_of w).1
        ≡ record w { database = (load_completed fault name resume_of w).1.database }
  unfolding load_completed
  load_completed-keeps name none w = refl
  load_completed-keeps name (some previous) w = ground arith

  settle-keeps :
      (name run_id : String) (outcome : Outcome (Unit {0})) (f : Frame S)
      → let after = (settle fault name run_id outcome f).1 in
        (after.token ≡ f.token)
        × (after.heartbeat_task ≡ f.heartbeat_task)
        × (after.world.context ≡ f.world.context)
        × (after.world.heartbeats ≡ f.world.heartbeats)
  unfolding settle
  settle-keeps name run_id (ok u) f = ground arith
  settle-keeps name run_id (raised Exn.cancelled_error) f = ground arith
  settle-keeps name run_id (raised e) f = ground arith

  -- When `prepare` returns, a durable engine has one heartbeat task, of this run.
  prepare-IsHeld :
      (name run_id trigger : String) (resume_of : Option String) (w : World S)
      → w.durable ≡ true
      → contains run_id w.heartbeats ≡ false
      → let (outcome, f) = prepare fault name run_id trigger resume_of (initial_frame w) in
        IsHeld w.context run_id f
        × (f.token ≡ none)
        × (f.world.context ≡ w.context)
        × Returns (λ _. f.heartbeat_task ≡ some run_id) outcome
  unfolding prepare
  prepare-IsHeld name run_id trigger resume_of w durable quiet =
      ground (arith, load_completed-keeps name resume_of w)

  -- The rest of the `try`, after `prepare` has returned or raised.
  call_pipeline-IsHeld :
      (name run_id : String) (body : Exec (World S) (Unit {0})) (resume_of : Option String)
      (before : Option PipelineRunContext) (completed : List String) (f : Frame S)
      → f.heartbeat_task ≡ some run_id
      → f.world.context ≡ before
      → IsHeld before run_id (call_pipeline fault name run_id body resume_of completed f).1
  call_pipeline-IsHeld name run_id body resume_of before completed f beat ctx =
      let ready = set_context (run_context name run_id resume_of completed) f in
      let (outcome, w) = body ready.world in
      ground (arith, settle-keeps name run_id outcome (record ready { world = w }))

  continue-IsHeld :
      (name run_id : String) (body : Exec (World S) (Unit {0})) (resume_of : Option String)
      (before : Option PipelineRunContext) (prepared : Outcome (List String)) (f : Frame S)
      → IsHeld before run_id f
      → f.world.context ≡ before
      → Returns (λ _. f.heartbeat_task ≡ some run_id) prepared
      → IsHeld before run_id
          (continue prepared (call_pipeline fault name run_id body resume_of) f).1
  continue-IsHeld name run_id body resume_of before (ok completed) f held ctx beat =
      call_pipeline-IsHeld name run_id body resume_of before completed f beat ctx
  continue-IsHeld name run_id body resume_of before (raised e) f held ctx beat = held

  -- Whatever fails and whatever the pipeline does, `_execute` of a durable engine that has no
  -- heartbeat task of the run leaves no heartbeat task of the run; and it leaves the context variable
  -- as it found it, unless the task is cancelled while the `finally` block waits for the heartbeat
  -- task, and then it raises that cancellation.
  pub execute-Restores :
      (name run_id : String) (body : Exec (World S) (Unit {0})) (trigger : String)
      (resume_of : Option String) (w : World S)
      → w.durable ≡ true
      → contains run_id w.heartbeats ≡ false
      → Restores fault w.context run_id (execute fault name run_id body trigger resume_of w)
  unfolding execute attempt
  execute-Restores name run_id body trigger resume_of w durable quiet =
      let (held, untouched, ctx, beat) =
        prepare-IsHeld name run_id trigger resume_of w durable quiet in
      cleanup-Restores name run_id w.monotonic w.context _
        (continue-IsHeld name run_id body resume_of w.context _ _ held ctx beat) _
