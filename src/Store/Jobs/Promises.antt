-- ===== src/Store/Jobs/Promises.antt =====
-- What the methods of internal/postgres/job_store.go promise to their callers.
use piping.Prelude.{
  ℤ, Bool, true, false, Option, none, some, ◌≡◌, refl, arith, if◌then◌else◌, Among,
}
use piping.Error.{Error, Result, ok, err, insufficient}
use piping.Job.{Job, State, quota_insufficient, quota_deducted, eq_state}
use piping.Store.{Db, job_row}
use piping.Store.World.{World, decided}
use piping.Store.Sound.{IsSound}
use piping.Store.Ensures.{Post}
use piping.Store.Jobs.{check_result, transact, check_quota_and_store}
use piping.Store.Jobs.Transaction.{IsRecorded, transact-Ensures}

Post-IsSound : (j : Job) (r : Result Job) (d : Db) → Post (IsRecorded j) r d → IsSound d
Post-IsSound j (ok row) d p = p.sound
Post-IsSound j (err e) d p = p.0

-- Whatever other processes commit between the statements, wherever the connection fails, and whatever
-- job is submitted: a sound database stays sound. So no user ever spends more than was granted.
pub check_quota_and_store-IsSound :
    (j : Job) (w : World) → IsSound w.db → IsSound (check_quota_and_store j w).1.db
unfolding check_quota_and_store
check_quota_and_store-IsSound j w s =
    Post-IsSound j (transact j w).0 (transact j w).1.db ((transact-Ensures j).at w s)

-- Which state the row of a job has that was reported with the error.
abbrev pub ReportedAs : Option Error → State → Type 0
ReportedAs none s = s ≡ quota_deducted
ReportedAs (some insufficient) s = s ≡ quota_insufficient
ReportedAs (some e) s = ⊥

abbrev pub answered : Option Error → Bool
answered none = true
answered (some insufficient) = true
answered (some e) = false

pub record IsStored (j k : Job) (e : Option Error) (d : Db) : Type 0 where
  pub row : Job
  pub among : Among row d.jobs
  pub same_id : row.id ≡ k.id
  pub same_user : row.username ≡ j.username
  pub same_cost : row.cost ≡ j.cost
  pub same_state : row.state ≡ k.state
  pub as_reported : ReportedAs e row.state

ReportedAs-decided :
    (r : ℤ) (j : Job)
    → let s = (decided r j).state in
      ReportedAs (if eq_state s quota_insufficient then some insufficient else none) s
unfolding decided
ReportedAs-decided r j = ground arith

answered_error : (e : Error) → answered (some e) ≡ true → e ≡ insufficient
answered_error e a = ground arith

-- A call that returns no error has stored the job as `quota_deducted`, and one that returns
-- `ErrInsufficient` has stored it as `quota_insufficient`: the returned id is that of a row for the same
-- user at the same cost, under every schedule.
pub check_quota_and_store-stores :
    (j : Job) (w : World)
    → IsSound w.db
    → answered (check_quota_and_store j w).0.1 ≡ true
    → IsStored j
        (check_quota_and_store j w).0.0
        (check_quota_and_store j w).0.1
        (check_quota_and_store j w).1.db
unfolding check_quota_and_store
check_quota_and_store-stores j w s =
    go (transact j w).0 (transact j w).1.db ((transact-Ensures j).at w s)
  where
    go :
        (r : Result Job) (d : Db)
        → Post (IsRecorded j) r d
        → answered (check_result j r).1 ≡ true
        → IsStored j (check_result j r).0 (check_result j r).1 d
    go (ok row) d p a = record {
      row = row;
      among = p.among;
      same_id = refl;
      same_user = rw p.made (unfold job_row decided in refl);
      same_cost = rw p.made (unfold job_row decided in refl);
      same_state = refl;
      as_reported = rw p.made (unfold job_row in ReportedAs-decided p.r j);
    }
    go (err e) d p a = absurd (p.1 (answered_error e a))
