-- ===== src/Store/Jobs.antt =====
-- internal/postgres/job_store.go: the transaction that checks quota and stores a job, the guarded
-- changes of state, and the list of stale jobs.
pub mod Transaction
pub mod Promises
pub mod Guards
pub mod Safe
pub mod Stale
use piping.Prelude.{
  ℕ, zero, suc, ◌+◌, ℤ, pos, ltb, leb, String, Bool, true, false, ◌&&◌, Option, none, some, List,
  [], ◌∷◌, str_eq, any, select, take, if◌then◌else◌,
}
use piping.Error.{Error, Result, ok, err, other, insufficient, invalid_transition, unexpected_state}
use piping.Error as Results
use piping.Job.{
  Job, State, unknown, quota_insufficient, quota_deducted, name, eq_state, state_from_string,
  valid_transition,
}
use piping.Store.{Db, remaining, accepts_job, job_row, add_job, in_state, set_state}
use piping.Store.World.{
  World, Io, ◌>>=◌, ◌>>◌, give, exec, query, decided, alloc, refuse_row, set_sent, has_destination,
}

-- The value of `job.Job{}`.
abbrev pub zero_job : Job
zero_job = record {
  id = 0;
  username = "";
  queue_id = 0;
  destination_id = none;
  state = unknown;
  num_pages = pos 0;
  num_color_pages = pos 0;
  copies = pos 0;
  cost = pos 0;
  color = false;
  duplex = false;
  document_name = "";
  submitted_at = 0;
  completed_at = none;
  refunded_at = none;
}

-- SELECT id FROM app_user WHERE id = $1 FOR UPDATE
lock_user : String → Db → Result (Unit {0})
lock_user u d = if any (str_eq u) d.users then ok tt else err other

-- The INSERT takes an id, which no rollback gives back, and checks the row. The row is seen by others
-- only after COMMIT.
insert_job : ℕ → Job → Db → Result Job × Db
unfolding job_row alloc refuse_row
insert_job now j d =
    if accepts_job d j
    then (ok (job_row d.next_job now j), alloc d)
    else (err other, refuse_row j d)

commit_job : Job → Db → Result (Unit {0}) × Db
commit_job row d = (ok tt, add_job row d)

-- The statements of the transaction from BEGIN, whose time is `now()`, to COMMIT. An error on the way
-- rolls it back. From the third statement on the user's row is locked.
pub transact : Job → Io Job
unfolding lock_user insert_job commit_job
transact j = do
  now ← query none (λ d. ok d.clock)
  query none (λ d. ok tt)
  query (some j.username) (lock_user j.username)
  r ← query (some j.username) (λ d. ok (remaining j.username d))
  row ← exec (some j.username) (insert_job now (decided r j))
  exec (some j.username) (commit_job row)
  give (ok row)

-- What the caller gets back: the job with its id, state and time of submission.
stored : Job → Job → Job
stored j row = record j { id = row.id; state = row.state; submitted_at = row.submitted_at }

check_result : Job → Result Job → Job × Option Error
unfolding stored
check_result j (err e) = (zero_job, some e)
check_result j (ok row) =
    (stored j row, if eq_state row.state quota_insufficient then some insufficient else none)

unfoldable pub check_quota_and_store : Job → World → (Job × Option Error) × World
unfolding transact check_result
check_quota_and_store j w = let (r, w') = transact j w in (check_result j r, w')

-- The number of rows that matched decides, whatever `id` is.
unfoldable pub update_job : ℕ → State → State → Db → Result (Unit {0}) × Db
update_job id from to d =
    if any (in_state id from) d.jobs
    then (ok tt, set_state id from to d)
    else (err unexpected_state, d)

unfoldable pub update_job_state : ℕ → State → State → Io (Unit {0})
unfolding update_job
update_job_state id from to =
    if valid_transition from to
    then exec none (update_job id from to)
    else give (err invalid_transition)

pub mark_row : ℕ → ℕ → Db → Result (Unit {0}) × Db
mark_row id dest d =
    if any (in_state id quota_deducted) d.jobs
    then (if has_destination dest d then (ok tt, set_sent id dest d) else (err other, d))
    else (err unexpected_state, d)

unfoldable pub mark_sent : ℕ → ℕ → Io (Unit {0})
unfolding mark_row
mark_sent id dest = exec none (mark_row id dest)

unfoldable pub scan_job : Job → Result Job
scan_job row =
    Results.◌>>=◌ (state_from_string (name row.state)) (λ s. ok (record row { state = s }))

-- ORDER BY submitted_at
unfoldable pub insert_by_time : Job → List Job → List Job
insert_by_time j [] = j ∷ []
insert_by_time j (k ∷ ks) =
    let rest = insert_by_time j ks in
    if leb j.submitted_at k.submitted_at then j ∷ k ∷ ks else k ∷ rest

unfoldable pub order_by_time : List Job → List Job
unfolding insert_by_time
order_by_time [] = []
order_by_time (j ∷ js) = insert_by_time j (order_by_time js)

unfoldable pub scan_rows : List Job → Result (List Job)
unfolding scan_job
scan_rows [] = ok []
scan_rows (j ∷ js) =
    Results.◌>>=◌ (scan_job j) (λ k. Results.◌>>=◌ (scan_rows js) (λ ks. ok (k ∷ ks)))

-- WHERE state::text = ANY($1) AND submitted_at < $2
unfoldable pub is_stale : List State → ℕ → Job → Bool
is_stale states older_than j =
    any (λ s. str_eq (name j.state) (name s)) states && ltb j.submitted_at older_than

unfoldable pub stale_jobs : List State → ℕ → ℕ → Io (List Job)
unfolding scan_rows order_by_time
stale_jobs states older_than limit =
    query none
      (λ d. scan_rows (take limit (order_by_time (select (is_stale states older_than) d.jobs))))
