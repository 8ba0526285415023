-- ===== src/Store.antt =====
-- schema.sql: the tables of the database, and the rows that a statement of internal/postgres reads
-- or writes. Rows stand in no particular order; a query that orders its rows says so.
pub mod World
pub mod Sound
pub mod Ensures
pub mod View
pub mod Cells
pub mod Jobs
pub mod Queues
pub mod Quotas
pub mod Listings
use piping.Prelude.{
  ℕ, ℤ, pos, ◌+ℤ◌, ◌-ℤ◌, leb_ℤ, ltb_ℤ, fits_int32, eq_ℤ, String, Bool, true, false, ◌&&◌, Option,
  none, some, List, [], ◌∷◌, str_eq, ◌==◌, any, map, select, if◌then◌else◌,
}
use piping.Job.{
  Job, State, quota_insufficient, refunded, name, eq_state, is_terminal,
  quota_deducting_state_names,
}
use piping.Queue.{Destination}

-- `semester`; a text with a number in it is the list of its code points
pub record SemesterRow : Type 0 where
  pub id : ℤ
  pub name : List ℕ
  pub default_quota : ℤ

-- `semester_grant`; its surrogate key and `granted_at` are never read
pub record Grant : Type 0 where
  pub user_id : String
  pub semester_id : ℤ
  pub amount : ℤ

-- `queue`
pub record QueueRow : Type 0 where
  pub id : ℕ
  pub name : String
  pub enabled : Bool
  pub policy : String

-- `next_job` is the sequence behind the identity column of `job`, and `clock` is what `now()` reads.
pub record Db : Type 0 where
  pub users : List String
  pub semesters : List SemesterRow
  pub grants : List Grant
  pub queues : List QueueRow
  pub destinations : List Destination
  pub jobs : List Job
  pub next_job : ℕ
  pub clock : ℕ

-- COALESCE((SELECT SUM(g.amount) FROM semester_grant g WHERE g.user_id = $1), 0)
unfoldable pub granted : String → List Grant → ℤ
granted u [] = pos 0
granted u (g ∷ gs) =
    let rest = granted u gs in if str_eq g.user_id u then g.amount +ℤ rest else rest

-- j.user_id = $1 AND j.state::text = ANY($2)
unfoldable pub counts : String → Job → Bool
counts u j = str_eq j.username u && any (str_eq (name j.state)) quota_deducting_state_names

-- COALESCE((SELECT SUM(j.cost) FROM job j WHERE …), 0)
unfoldable pub spent : String → List Job → ℤ
spent u [] = pos 0
spent u (j ∷ js) = let rest = spent u js in if counts u j then j.cost +ℤ rest else rest

unfoldable pub remaining : String → Db → ℤ
remaining u d = granted u d.grants -ℤ spent u d.jobs

-- The CHECK constraints of `job`, the ranges of its `integer` columns, and its reference to `queue`.
unfoldable pub accepts_job : Db → Job → Bool
accepts_job d j =
    ltb_ℤ (pos 0) j.num_pages
    && leb_ℤ (pos 0) j.num_color_pages
    && leb_ℤ j.num_color_pages j.num_pages
    && ltb_ℤ (pos 0) j.copies
    && ltb_ℤ (pos 0) j.cost
    && fits_int32 j.num_pages
    && fits_int32 j.num_color_pages
    && fits_int32 j.copies
    && fits_int32 j.cost
    && any (λ q. q.id == j.queue_id) d.queues

-- The values that pgx can send for the `integer` columns.
unfoldable pub is_sendable : Job → Bool
is_sendable j =
    fits_int32 j.num_pages
    && fits_int32 j.num_color_pages
    && fits_int32 j.copies
    && fits_int32 j.cost

-- The row that INSERT INTO job writes: its id from the sequence, its times from `now()`.
unfoldable pub job_row : ℕ → ℕ → Job → Job
job_row id now j = record j {
  id = id;
  destination_id = none;
  submitted_at = now;
  completed_at = if eq_state j.state quota_insufficient then some now else none;
  refunded_at = none;
}

unfoldable pub add_job : Job → Db → Db
add_job row d = record d { jobs = row ∷ d.jobs }

-- WHERE id = $1 AND state = $5
unfoldable pub in_state : ℕ → State → Job → Bool
in_state id from j = j.id == id && eq_state j.state from

-- The SET clause of `UpdateJobState`.
unfoldable pub move_job : ℕ → State → Job → Job
move_job now to j = record j {
  state = to;
  completed_at = if is_terminal to then some now else j.completed_at;
  refunded_at = if eq_state to refunded then some now else j.refunded_at;
}

-- UPDATE job SET … WHERE …
abbrev pub update_where : (Job → Bool) → (Job → Job) → List Job → List Job
update_where p f [] = []
update_where p f (j ∷ js) = (if p j then f j else j) ∷ update_where p f js

unfoldable pub set_state : ℕ → State → State → Db → Db
unfolding in_state move_job
set_state id from to d = record d {
  jobs = update_where (in_state id from) (move_job d.clock to) d.jobs;
}
