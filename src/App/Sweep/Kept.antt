-- ===== src/App/Sweep/Kept.antt =====
-- The sweeper over the store of internal/postgres, and the soundness of the database.
use piping.Prelude.{ℕ, ◌-◌, List, [], ◌∷◌}
use piping.Error.{Result, ok, err}
use piping.Job.{Job, print_failed}
use piping.Store.World.{World}
use piping.Store.Jobs.{update_job_state, stale_jobs}
use piping.Store.Jobs.Safe.{Sound, stale_jobs-Sound, update_job_state-Sound}
use piping.App.Sweep.{
  Sweeper, swept_states, Event, tick, done, fail_stale, fail_listed, pass, run_ticks, run,
}

-- The sweeper of `run` in cmd/piping/main.go.
unfoldable pub sweeper : ℕ → ℕ → Sweeper World
sweeper age_bound batch_limit = record {
  jobs = record { stale_jobs = stale_jobs; update_job_state = update_job_state };
  now = λ w. (w.db.clock, w);
  age_bound = age_bound;
  batch_limit = batch_limit;
}

module _ (age limit : ℕ) where
  fail_stale-Sound :
      (js : List Job) (w : World) → Sound w → Sound (fail_stale (sweeper age limit) js w)
  unfolding fail_stale sweeper
  fail_stale-Sound [] w s = s
  fail_stale-Sound (j ∷ js) w s =
      fail_stale-Sound js (update_job_state j.id j.state print_failed w).1
        (update_job_state-Sound j.id j.state print_failed w s)

  fail_listed-Sound :
      (r : Result (List Job)) (w : World) → Sound w → Sound (fail_listed (sweeper age limit) r w)
  fail_listed-Sound (err e) w s = s
  fail_listed-Sound (ok js) w s = fail_stale-Sound js w s

  pass-Sound : (w : World) → Sound w → Sound (pass (sweeper age limit) w)
  unfolding pass sweeper
  pass-Sound w s =
      let r = stale_jobs swept_states (w.db.clock - age) limit w in
      fail_listed-Sound r.0 r.1 (stale_jobs-Sound swept_states (w.db.clock - age) limit w s)

  run_ticks-Sound :
      (events : List Event) (w : World) → Sound w → Sound (run_ticks (sweeper age limit) events w)
  unfolding run_ticks
  run_ticks-Sound [] w s = s
  run_ticks-Sound (done ∷ events) w s = s
  run_ticks-Sound (tick ∷ events) w s =
      run_ticks-Sound events (pass (sweeper age limit) w) (pass-Sound w s)

  -- The sweeper keeps a sound database sound, for any number of passes, whatever fails and whatever other
  -- processes commit between its statements.
  run-Sound : (events : List Event) (w : World) → Sound w → Sound (run (sweeper age limit) events w)
  unfolding run
  run-Sound events w s = run_ticks-Sound events (pass (sweeper age limit) w) (pass-Sound w s)
