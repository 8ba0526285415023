-- ===== src/App/Sweep.antt =====
-- internal/app/sweep.go: the pass that fails the jobs whose delivery was left behind. A store that
-- answers with an error is asked again at the next tick.
pub mod Kept
pub mod Only
pub mod Fails
pub mod Resolves
use piping.Prelude.{ℕ, ◌-◌, List, [], ◌∷◌}
use piping.Error.{Result, ok, err}
use piping.Job.{Job, State, quota_deducted, print_sent, print_failed}

pub record SweepJobStore (S : Type 0) : Type 0 where
  pub stale_jobs : List State → ℕ → ℕ → S → Result (List Job) × S
  pub update_job_state : ℕ → State → State → S → Result (Unit {0}) × S

-- `now` is `time.Now()`; the interval between two passes is the time from tick to tick.
pub record Sweeper (S : Type 0) : Type 0 where
  pub jobs : SweepJobStore S
  pub now : S → ℕ × S
  pub age_bound : ℕ
  pub batch_limit : ℕ

abbrev pub swept_states : List State
swept_states = quota_deducted ∷ print_sent ∷ []

-- What the `select` of `Run` finds: the next tick, or that the context is done.
pub data Event : Type 0 where
  tick done : Event

module _ {S : Type 0} where
  -- Whatever the store answers, the loop goes on with the next job.
  unfoldable pub fail_stale : Sweeper S → List Job → S → S
  fail_stale sw [] s = s
  fail_stale sw (j ∷ js) s =
      let (answer, s') = sw.jobs.update_job_state j.id j.state print_failed s in fail_stale sw js s'

  abbrev pub fail_listed : Sweeper S → Result (List Job) → S → S
  fail_listed sw (err e) s = s
  fail_listed sw (ok stale) s = fail_stale sw stale s

  -- No job was submitted before time 0, so the cutoff may stop there.
  unfoldable pub pass : Sweeper S → S → S
  unfolding fail_stale
  pass sw s =
      let (now, s1) = sw.now s in
      let (r, s2) = sw.jobs.stale_jobs swept_states (now - sw.age_bound) sw.batch_limit s1 in
      fail_listed sw r s2

  unfoldable pub run_ticks : Sweeper S → List Event → S → S
  run_ticks sw [] s = s
  run_ticks sw (done ∷ events) s = s
  run_ticks sw (tick ∷ events) s = run_ticks sw events (pass sw s)

  unfoldable pub run : Sweeper S → List Event → S → S
  unfolding run_ticks
  run sw events s = run_ticks sw events (pass sw s)
