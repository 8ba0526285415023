-- ===== src/Web/Views.antt =====
-- internal/web/views.go: what the pages show of jobs, queues and the session.
use piping.Prelude.{
  ℕ, ◌*◌, pos, ◌-ℤ◌, quot_ℤ, rem_ℤ, ltb_ℤ, leb, String, List, ◌++◌, map, str_eq, if◌then◌else◌,
}
use piping.Decimal.{codes, itoa}
use piping.Job.{name}
use piping.Queue.{Queue}
use piping.User.{role_staff, role_rank}
use piping.Session.{Session}
use piping.Store.Listings.{WithDestinationName}
use piping.Web.{Server, BaseView, JobView, QueueView}

unfoldable pub base : {S : Type 0} → Server S → Session → BaseView
base s sess = record {
  username = sess.sub;
  is_staff = leb (role_rank role_staff) (role_rank sess.role);
  build = s.build;
}

abbrev pub hour : ℕ
hour = 3600 * 1000000000

abbrev pub minute : ℕ
minute = 60 * 1000000000

-- By the whole hours and minutes of the duration: the floats of `Hours` and `Minutes` round up only in
-- its last nanoseconds, where a duration is long.
unfoldable pub format_time_since : ℕ → ℕ → List ℕ
format_time_since now t =
    let d = pos now -ℤ pos t in
    let hours = quot_ℤ d hour in
    let minutes = rem_ℤ (quot_ℤ d minute) 60 in
    if ltb_ℤ (pos 0) hours
    then itoa hours ++ codes "h" ++ itoa minutes ++ codes "m"
    else itoa minutes ++ codes "m"

abbrev pub or_none : String → String
or_none s = if str_eq s "" then "None" else s

unfoldable pub to_job_view : ℕ → WithDestinationName → JobView
unfolding format_time_since
to_job_view now j = record {
  submitted_at = j.job.submitted_at;
  time_since = format_time_since now j.job.submitted_at;
  document_name = j.job.document_name;
  pages = j.job.num_pages;
  copies = j.job.copies;
  cost = j.job.cost;
  state = name j.job.state;
  destination = or_none j.destination_name;
}

unfoldable pub to_job_views : ℕ → List WithDestinationName → List JobView
to_job_views now js = map (to_job_view now) js

unfoldable pub to_queue_views : List Queue → List QueueView
to_queue_views qs = map (λ q. record { id = q.id; name = q.name }) qs
