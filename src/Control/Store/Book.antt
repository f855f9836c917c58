-- ===== src/Control/Store/Book.antt =====
-- Commands to the methods of PipelineStore on the runs (app/control/store.py), and a book that gives
-- each identifier its run.
use mathlib.Core.Option
use stock_tracker_data_colle.Base.{
  ℕ, ◌+◌, String, Bool, true, false, ◌&&◌, ◌||◌, ltb, Option, none, some, List, [], ◌∷◌, ◌==◌,
  if◌then◌else◌, first, is_some,
}
use stock_tracker_data_colle.Errors.{Exn}
use stock_tracker_data_colle.Exec.{Outcome, is_ok}
use stock_tracker_data_colle.Control.Schema.{PipelineRun, Database}
use stock_tracker_data_colle.Control.Store.{
  has_id, start_run, heartbeat, finish_run, recover_stale_runs,
}

-- What a client asks of the store, and the passing of time.
pub data Command : Type 0 where
  start : String → String → String → Option String → Command
  beat : String → Command
  finish : String → String → Option String → Command
  recover : ℕ → Command
  wait : ℕ → ℕ → Command

-- A command, with whether it returned.
abbrev pub reply : {A : Type 0} → Outcome A × Database → Bool × Database
reply (outcome, d) = (is_ok outcome, d)

abbrev pub perform : (ℕ → Option Exn) → Command → Database → Bool × Database
perform fault (start run_id pipeline trigger resume_of) d =
    reply (start_run fault run_id pipeline trigger resume_of d)
perform fault (beat run_id) d = reply (heartbeat fault run_id d)
perform fault (finish run_id status error) d = reply (finish_run fault run_id status error d)
perform fault (recover stale_after) d = reply (recover_stale_runs fault stale_after d)
perform fault (wait t u) d = (true, record d { clock = d.clock + t; wall_clock = d.wall_clock + u })

-- The specification: a clock and a run for each identifier.
pub record Book : Type 0 where
  pub now : ℕ
  -- the clock of the process
  pub wall : ℕ
  pub run_of : String → Option PipelineRun

abbrev pub knows : Book → Option String → Bool
knows book none = true
knows book (some run_id) = is_some (book.run_of run_id)

-- every run of the book, changed
abbrev pub revised : (String → PipelineRun → PipelineRun) → Book → Book
revised change book = record {
  now = book.now;
  wall = book.wall;
  run_of = λ j. Option.map (change j) (book.run_of j);
}

abbrev pub noted : Book → PipelineRun → Book
noted book r = record {
  now = book.now;
  wall = book.wall;
  run_of = λ j. if r.id == j then some r else book.run_of j;
}

-- The statuses that end a run.
abbrev pub is_terminal : String → Bool
is_terminal status =
    status == "completed"
    || (status == "failed" || (status == "cancelled" || status == "abandoned"))

-- The run that is resumed is the run itself.
abbrev pub names : String → Option String → Bool
names run_id none = false
names run_id (some previous) = run_id == previous

-- A heartbeat that is longer ago than the time given; a run without one is not late.
abbrev pub is_late : ℕ → ℕ → Option ℕ → Bool
is_late now stale_after none = false
is_late now stale_after (some last) = ltb (last + stale_after) now

abbrev pub specified : Command → Book → Bool × Book
specified (start run_id pipeline trigger resume_of) book =
    if is_some (book.run_of run_id)
    then (false, book)
    else if knows book resume_of || names run_id resume_of
    then (
      true,
      noted book (record {
        id = run_id;
        pipeline = pipeline;
        status = "running";
        trigger = trigger;
        submitted_at = book.wall;
        started_at = some book.wall;
        heartbeat_at = some book.wall;
        finished_at = none;
        error = none;
        resume_of = resume_of;
      }),
    )
    else (false, book)
specified (beat run_id) book = (
  true,
  revised
      (λ j r.
        if run_id == j && r.status == "running"
        then record r { heartbeat_at = some book.now }
        else r)
      book,
)
specified (finish run_id status error) book =
    if is_terminal status
    then (
      true,
      revised
          (λ j r.
            if run_id == j
            then record r {
              status = status;
              error = error;
              heartbeat_at = some book.now;
              finished_at = some book.now;
            }
            else r)
          book,
    )
    else (false, book)
specified (recover stale_after) book = (
  true,
  revised
      (λ j r.
        if r.status == "running" && is_late book.now stale_after r.heartbeat_at
        then record r {
          status = "abandoned";
          error = some "collector stopped heartbeating before completion";
          finished_at = some book.now;
        }
        else r)
      book,
)
specified (wait t u) book = (true, record book { now = book.now + t; wall = book.wall + u })

-- The replies to a list of commands, and the last state.
abbrev pub replies : {S : Type 0} → (Command → S → Bool × S) → List Command → S → List Bool × S
replies act [] s = ([], s)
replies act (c ∷ commands) s =
    let (answer, s') = act c s in
    let (answers, last) = replies act commands s' in (answer ∷ answers, last)

-- the book of a database
abbrev pub book_of : Database → Book
book_of d = record {
  now = d.clock;
  wall = d.wall_clock;
  run_of = λ j. first (has_id j) d.pipeline_runs;
}

abbrev pub seen : Bool × Database → Bool × Book
seen (answer, d) = (answer, book_of d)
