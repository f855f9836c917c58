-- ===== src/Control/Store/Lifecycle.antt =====
-- The methods of PipelineStore on the runs, against a book that gives each identifier its run.
use stock_tracker_data_colle.Base.{
  ℕ, ◌+◌, String, ◌≡◌, refl, sym, ap, ◌∙◌, fun_ext, Bool, true, false, ◌&&◌, ◌||◌, Option, none,
  some, List, [], ◌∷◌, ◌++◌, arith, ◌==◌, eq_iff, update_where, select, if◌then◌else◌, contains,
  first, exists, first-append, length, inl, inr, Bool-cases,
}
use stock_tracker_data_colle.Errors.{Exn}
use stock_tracker_data_colle.Exec.{ok, Exec, continue, ◌>>◌}
use stock_tracker_data_colle.Control.Schema.{PipelineRun, Database}
use stock_tracker_data_colle.Control.Store.{
  has_id, refers, new_run, finished_run, is_stale, abandoned_run, terminal_run_statuses, start_run,
  heartbeat, finish_run, recover_stale_runs, query, require_pool, insert_run,
}
use stock_tracker_data_colle.Control.Store.Runs.{found, found_id}
use stock_tracker_data_colle.Control.Store.Book.{
  Command, reply, perform, Book, knows, is_terminal, names, specified, replies, book_of, seen,
  start, beat, finish, recover, wait,
}

terminal : (status : String) → contains status terminal_run_statuses ≡ is_terminal status
terminal status = ground (
  arith,
  eq_iff "completed" status,
  eq_iff status "completed",
  eq_iff "failed" status,
  eq_iff status "failed",
  eq_iff "cancelled" status,
  eq_iff status "cancelled",
  eq_iff "abandoned" status,
  eq_iff status "abandoned",
)

module _ (fault : ℕ → Option Exn) (answers : (n : ℕ) → fault n ≡ none) where
  counted : Database → Database
  counted d = record d { queries = d.queries + 1 }

  query-answered :
      {A : Type 0} (q : Exec Database A) (d : Database) → query fault q d ≡ q (counted d)
  unfolding query counted
  query-answered q d = rw (answers d.queries, query) refl

  require_pool-open : (d : Database) → d.connected ≡ true → require_pool d ≡ (ok tt, d)
  unfolding require_pool
  require_pool-open d up = ground (arith, up)

  -- A query through an open pool runs.
  asked :
      {A : Type 0} (q : Exec Database A) (d : Database)
      → d.connected ≡ true
      → (require_pool >> query fault q) d ≡ q (counted d)
  asked q d up =
      ap (λ r. continue r.0 (λ _. query fault q) r.1) (require_pool-open d up) ∙ query-answered q d

  knows-refers :
      (resume_of : Option String) (d : Database)
      → (r : PipelineRun)
      → refers resume_of (d.pipeline_runs ++ r ∷ [])
        ≡ (knows (book_of d) resume_of || names r.id resume_of)
  knows-refers none d r = refl
  knows-refers (some run_id) d r =
      ground (arith, first-append (has_id run_id) d.pipeline_runs (r ∷ []))

  -- The run that is found after an insertion under an unused identifier.
  added :
      (run_id pipeline trigger : String) (resume_of : Option String) (d : Database)
      → exists (has_id run_id) d.pipeline_runs ≡ false
      → (j : String)
      → let r = new_run d.wall_clock run_id pipeline trigger resume_of in
        first (has_id j) (d.pipeline_runs ++ r ∷ [])
        ≡ (if run_id == j then some r else first (has_id j) d.pipeline_runs)
  added run_id pipeline trigger resume_of d unused j = ground (
    arith,
    unused,
    first-append (has_id j) d.pipeline_runs
        (new_run d.wall_clock run_id pipeline trigger resume_of ∷ []),
    eq_iff run_id j,
  )

  entry : Database → (String → Option PipelineRun) → Bool × Book
  entry d run_of = (true, record { now = d.clock; wall = d.wall_clock; run_of = run_of })

  perform-specified :
      (c : Command) (d : Database)
      → d.connected ≡ true
      → seen (perform fault c d) ≡ specified c (book_of d)
  unfolding start_run heartbeat finish_run recover_stale_runs entry counted
  perform-specified (start run_id pipeline trigger resume_of) d up =
      ap (λ r. seen (reply r))
        (asked (λ d'. insert_run (new_run d'.wall_clock run_id pipeline trigger resume_of) d') d up)
      ∙ elim (Bool-cases (exists (has_id run_id) d.pipeline_runs)) [
        | inl used ↦ rw used refl
        | inr unused ↦
            let r = new_run d.wall_clock run_id pipeline trigger resume_of in
            elim (Bool-cases (refers resume_of (d.pipeline_runs ++ r ∷ []))) [
              | inl present ↦
                  rw (unused, present, sym (knows-refers resume_of d r) ∙ present)
                    (ap (entry d) (fun_ext (added run_id pipeline trigger resume_of d unused)))
              | inr dangling ↦
                  rw (unused, dangling, sym (knows-refers resume_of d r) ∙ dangling) refl
            ]
      ]
  perform-specified (beat run_id) d up =
      ap (λ r. seen (reply r))
        (asked
          (λ d'. (
            ok tt,
            record d' {
              pipeline_runs =
                  update_where (λ r. r.id == run_id && r.status == "running")
                    (λ r. record r { heartbeat_at = some d'.clock }) d'.pipeline_runs;
            },
          ))
          d up)
      ∙ ap (entry d) (
          fun_ext λ j.
            found j (λ r. r.id == run_id && r.status == "running")
              (λ r. record r { heartbeat_at = some d.clock }) (λ r. refl) d.pipeline_runs
            ∙ found_id run_id j
                (λ b r.
                  if b && r.status == "running"
                  then record r { heartbeat_at = some d.clock }
                  else r)
                d.pipeline_runs)
  perform-specified (finish run_id status error) d up =
      elim (Bool-cases (contains status terminal_run_statuses)) [
        | inl known ↦
            let listed : is_terminal status ≡ true = ground (arith, known, terminal status) in
            rw (known, listed)
              (ap (λ r. seen (reply r))
                  (asked
                    (λ d'. (
                      ok tt,
                      record d' {
                        pipeline_runs =
                            update_where (has_id run_id) (finished_run d'.clock status error)
                              d'.pipeline_runs;
                      },
                    ))
                    d up)
                ∙ ap (entry d) (
                    fun_ext λ j.
                      found j (has_id run_id) (finished_run d.clock status error) (λ r. refl)
                        d.pipeline_runs
                      ∙ found_id run_id j
                          (λ b r. if b then finished_run d.clock status error r else r)
                          d.pipeline_runs))
        | inr unknown ↦
            let unlisted : is_terminal status ≡ false = ground (arith, unknown, terminal status) in
            rw (unknown, unlisted) refl
      ]
  perform-specified (recover stale_after) d up =
      ap (λ r. seen (reply r))
        (asked
          (λ d'. (
            ok (length (select (is_stale d'.clock stale_after) d'.pipeline_runs)),
            record d' {
              pipeline_runs =
                  update_where (is_stale d'.clock stale_after) (abandoned_run d'.clock)
                    d'.pipeline_runs;
            },
          ))
          d up)
      ∙ ap (entry d) (
          fun_ext λ j.
            found j (is_stale d.clock stale_after) (abandoned_run d.clock) (λ r. refl)
              d.pipeline_runs)
  perform-specified (wait t u) d up = refl

  perform-connected :
      (c : Command) (d : Database) → d.connected ≡ true → (perform fault c d).1.connected ≡ true
  unfolding start_run heartbeat finish_run recover_stale_runs
  perform-connected (start run_id pipeline trigger resume_of) d up =
      ground (arith, up, answers d.queries)
  perform-connected (beat run_id) d up = ground (arith, up, answers d.queries)
  perform-connected (finish run_id status error) d up = ground (arith, up, answers d.queries)
  perform-connected (recover stale_after) d up = ground (arith, up, answers d.queries)
  perform-connected (wait t u) d up = up

  -- While the database answers, the store does to every list of commands what the book does: it
  -- returns or raises at the same commands, and at the end each identifier has the run that it has
  -- in the book, or none if it has none there.
  pub replies-specified :
      (commands : List Command) (d : Database)
      → d.connected ≡ true
      → let (given, last) = replies (perform fault) commands d in
        replies specified commands (book_of d) ≡ (given, book_of last)
  replies-specified [] d up = refl
  replies-specified (c ∷ commands) d up =
      let (answer, d') = perform fault c d in
      let (given, last) = replies (perform fault) commands d' in
      ap (λ r. let (answers', book) = replies specified commands r.1 in (r.0 ∷ answers', book))
        (sym (perform-specified c d up))
      ∙ ap (λ r. (answer ∷ r.0, r.1)) (replies-specified commands d' (perform-connected c d up))
