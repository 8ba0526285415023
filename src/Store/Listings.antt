-- ===== src/Store/Listings.antt =====
-- The listings of internal/postgres/user_store.go and internal/postgres/queue_store.go that the web pages
-- show.
pub mod Rows
use piping.Prelude.{
  ℕ, ltb, leb, ◌==◌, String, Bool, ◌&&◌, Option, none, some, List, [], ◌∷◌, str_eq, select, take,
  if◌then◌else◌,
}
use piping.Error.{Result, ok, ◌>>=◌}
use piping.Job.{Job, name, state_from_string}
use piping.Queue.{Queue, Destination}
use piping.Store.{QueueRow}
use piping.Store.World.{Io, query}
use piping.Store.Jobs.{scan_rows, zero_job}
use piping.Store.Queues.{scan_queue}

-- ORDER BY submitted_at DESC
unfoldable pub insert_latest : Job → List Job → List Job
insert_latest j [] = j ∷ []
insert_latest j (k ∷ ks) =
    let rest = insert_latest j ks in
    if leb k.submitted_at j.submitted_at then j ∷ k ∷ ks else k ∷ rest

unfoldable pub latest_first : List Job → List Job
unfolding insert_latest
latest_first [] = []
latest_first (j ∷ js) = insert_latest j (latest_first js)

-- WHERE user_id = $1 AND submitted_at > $2
unfoldable pub is_recent : String → ℕ → Job → Bool
is_recent u newer_than j = str_eq j.username u && ltb newer_than j.submitted_at

unfoldable pub jobs_for_user : String → ℕ → ℕ → Io (List Job)
unfolding scan_rows latest_first is_recent
jobs_for_user u newer_than limit =
    query none (λ d. scan_rows (take limit (latest_first (select (is_recent u newer_than) d.jobs))))

unfoldable pub jobs_for_queue : ℕ → ℕ → Io (List Job)
unfolding scan_rows latest_first
jobs_for_queue queue_id limit =
    query none
      (λ d. scan_rows (take limit (latest_first (select (λ j. j.queue_id == queue_id) d.jobs))))

unfoldable pub jobs_for_queue_for_user : ℕ → String → ℕ → Io (List Job)
unfolding scan_rows latest_first
jobs_for_queue_for_user queue_id u limit = query none (λ d. scan_rows (
    take limit
      (latest_first (select (λ j. (j.queue_id == queue_id) && str_eq j.username u) d.jobs))))

pub record WithDestinationName : Type 0 where
  pub job : Job
  pub destination_name : String

-- COALESCE(d.name, '') of the LEFT JOIN with `destination`, by its primary key
unfoldable pub name_of_destination : Option ℕ → List Destination → String
name_of_destination none ds = ""
name_of_destination (some id) [] = ""
name_of_destination (some id) (d ∷ ds) =
    let rest = name_of_destination (some id) ds in if d.id == id then d.name else rest

-- Only the columns of the listing are read, and the state by its name.
unfoldable pub scan_job_view : List Destination → Job → Result WithDestinationName
unfolding name_of_destination
scan_job_view ds j = state_from_string (name j.state) >>= λ st. ok (record {
  job = record zero_job {
    submitted_at = j.submitted_at;
    document_name = j.document_name;
    num_pages = j.num_pages;
    copies = j.copies;
    cost = j.cost;
    state = st;
  };
  destination_name = name_of_destination j.destination_id ds;
})

unfoldable pub scan_job_views : List Destination → List Job → Result (List WithDestinationName)
unfolding scan_job_view
scan_job_views ds [] = ok []
scan_job_views ds (j ∷ js) = scan_job_view ds j >>= λ x. scan_job_views ds js >>= λ xs. ok (x ∷ xs)

-- `time.Time{}` is `none`, and stands for 1970.
unfoldable pub since : Option ℕ → ℕ
since none = 0
since (some t) = t

unfoldable pub jobs_with_destination_for_user :
    String → Option ℕ → ℕ → Io (List WithDestinationName)
unfolding scan_job_views latest_first is_recent since
jobs_with_destination_for_user u newer_than limit = query none (λ d.
    scan_job_views d.destinations
      (take limit (latest_first (select (is_recent u (since newer_than)) d.jobs))))

-- ORDER BY name; `before` is the collation of the database.
unfoldable pub insert_by_name : (String → String → Bool) → QueueRow → List QueueRow → List QueueRow
insert_by_name before q [] = q ∷ []
insert_by_name before q (r ∷ rs) =
    let rest = insert_by_name before q rs in if before q.name r.name then q ∷ r ∷ rs else r ∷ rest

unfoldable pub order_by_name : (String → String → Bool) → List QueueRow → List QueueRow
unfolding insert_by_name
order_by_name before [] = []
order_by_name before (q ∷ qs) = insert_by_name before q (order_by_name before qs)

unfoldable pub scan_queues : List QueueRow → Result (List Queue)
unfolding scan_queue
scan_queues [] = ok []
scan_queues (q ∷ qs) = scan_queue q >>= λ x. scan_queues qs >>= λ xs. ok (x ∷ xs)

unfoldable pub enabled_queues : (String → String → Bool) → Io (List Queue)
unfolding scan_queues order_by_name
enabled_queues before =
    query none (λ d. scan_queues (order_by_name before (select (λ q. q.enabled) d.queues)))
