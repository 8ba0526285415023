-- ===== src/App/Sweep/Only.antt =====
-- What the sweeper does to a job while other processes do nothing to the job but fail it.
use piping.Prelude.{
  Bool-cases, inl, inr, ℕ, ◌-◌, Bool, true, ◌||◌, some, none, List, [], ◌∷◌, ◌≡◌, refl, arith, any,
  if_case,
}
use piping.Error.{Result, ok, err}
use piping.Job.{Job, State, print_failed, eq_state, valid_transition}
use piping.Store.{Db, in_state, set_state}
use piping.Store.World.{
  World, Turn, Net, fine, lost, unacked, updates, apply_move, exec, query, on_net,
}
use piping.Store.Sound.{IsSound}
use piping.Store.View.{state_of}
use piping.Store.Cells.{SparesAll, InCell, InCell-apply_move, exec_rule, Failable}
use piping.Store.Jobs.{update_job, update_job_state, stale_jobs}
use piping.App.Sweep.{
  swept_states, Event, tick, done, fail_stale, fail_listed, pass, run_ticks, run,
}
use piping.App.Sweep.Kept.{sweeper}

module _ (id : ℕ) (P : State → Bool) (failable : Failable P) where
  -- The job is in one of the states, and the schedule leaves it alone.
  record Holds (w : World) : Type 0 where
    spared : SparesAll id w.turns
    cell : InCell id P w.db

  on_net-Holds :
      {A : Type 0} (f : Db → Result A × Db) (d : Db) (ts : List Turn) (w : World)
      → ((d : Db) → InCell id P d → InCell id P (f d).1)
      → SparesAll id ts
      → InCell id P d
      → (net : Net) → Holds (on_net net f (record w { db = d; turns = ts })).1
  on_net-Holds f d ts w keeps h c fine = record { spared = h; cell = keeps d c }
  on_net-Holds f d ts w keeps h c lost = record { spared = h; cell = c }
  on_net-Holds f d ts w keeps h c unacked = record { spared = h; cell = keeps d c }

  exec-Holds :
      {A : Type 0} (f : Db → Result A × Db) (w : World)
      → ((d : Db) → InCell id P d → InCell id P (f d).1)
      → Holds w
      → Holds (exec none f w).1
  exec-Holds f w keeps h =
      exec_rule id P failable f w (λ r. Holds r.1) h.spared h.cell
        (λ d ts hs c net. on_net-Holds f d ts w keeps hs c net)

  set_state-InCell :
      (i : ℕ) (from : State) (d : Db)
      → valid_transition from print_failed ≡ true
      → InCell id P d
      → InCell id P (set_state i from print_failed d)
  unfolding apply_move
  set_state-InCell i from d v c =
      let moved = InCell-apply_move id P failable (updates i from print_failed) d (λ _. refl) c in
      rw v at moved

  update_job-InCell :
      (i : ℕ) (from : State) (d : Db)
      → valid_transition from print_failed ≡ true
      → InCell id P d
      → InCell id P (update_job i from print_failed d).1
  unfolding update_job
  update_job-InCell i from d v c =
      if_case {A = Result (Unit {0}) × Db} (λ r. InCell id P r.1) (any (in_state i from) d.jobs)
        (λ _. set_state-InCell i from d v c) (λ _. c)

  fails-Holds :
      (i : ℕ) (from : State) (w : World)
      → Holds w
      → Holds (update_job_state i from print_failed w).1
  unfolding update_job_state
  fails-Holds i from w h = elim (Bool-cases (valid_transition from print_failed)) [
    | inl e ↦
        rw e
          (exec-Holds (update_job i from print_failed) w (λ d c. update_job-InCell i from d e c) h)
    | inr e ↦ rw e h
  ]

  module _ (age limit : ℕ) where
    fail_stale-Holds :
        (js : List Job) (w : World) → Holds w → Holds (fail_stale (sweeper age limit) js w)
    unfolding fail_stale sweeper
    fail_stale-Holds [] w h = h
    fail_stale-Holds (j ∷ js) w h =
        fail_stale-Holds js (update_job_state j.id j.state print_failed w).1
          (fails-Holds j.id j.state w h)

    fail_listed-Holds :
        (r : Result (List Job)) (w : World) → Holds w → Holds (fail_listed (sweeper age limit) r w)
    fail_listed-Holds (err e) w h = h
    fail_listed-Holds (ok js) w h = fail_stale-Holds js w h

    stale_jobs-Holds :
        (states : List State) (t n : ℕ) (w : World) → Holds w → Holds (stale_jobs states t n w).1
    unfolding stale_jobs query
    stale_jobs-Holds states t n w h = exec-Holds _ w (λ d c. c) h

    pass-Holds : (w : World) → Holds w → Holds (pass (sweeper age limit) w)
    unfolding pass sweeper
    pass-Holds w h =
        let r = stale_jobs swept_states (w.db.clock - age) limit w in
        fail_listed-Holds r.0 r.1 (stale_jobs-Holds swept_states (w.db.clock - age) limit w h)

    run_ticks-Holds :
        (events : List Event) (w : World) → Holds w → Holds (run_ticks (sweeper age limit) events w)
    unfolding run_ticks
    run_ticks-Holds [] w h = h
    run_ticks-Holds (done ∷ events) w h = h
    run_ticks-Holds (tick ∷ events) w h =
        run_ticks-Holds events (pass (sweeper age limit) w) (pass-Holds w h)

-- The state that a job had, or that of a failed one.
abbrev pub or_failed : State → State → Bool
or_failed s x = eq_state x s || eq_state x print_failed

failed_ok : (s : State) → or_failed s print_failed ≡ true
failed_ok s = ground arith

same_ok : (s : State) → or_failed s s ≡ true
same_ok s = ground arith

-- Any number of passes of the sweeper leave a job in the state that it had or in `print_failed`, and
-- the database sound, under every schedule in which other processes do nothing to the job but fail it.
pub run-InCell :
    (age limit : ℕ) (events : List Event) (w : World) (id : ℕ) (s : State)
    → IsSound w.db
    → SparesAll id w.turns
    → state_of id w.db ≡ some s
    → InCell id (or_failed s) (run (sweeper age limit) events w).db
unfolding run
run-InCell age limit events w id s sound spared at =
    (run_ticks-Holds id (or_failed s) (failed_ok s) age limit events (pass (sweeper age limit) w) (
      pass-Holds id (or_failed s) (failed_ok s) age limit w (record {
        spared = spared;
        cell = record { sound = sound; now = s; at = at; allowed = same_ok s };
      }))).cell
