-- ===== src/Store/Jobs/Safe.antt =====
-- Soundness of the database under the calls of internal/postgres/job_store.go.
use piping.Prelude.{
  ℕ, true, String, Option, none, List, ◌≡◌, sym, subst, any, inl, inr, Bool-cases, if_case,
}
use piping.Error.{Result}
use piping.Job.{State, quota_deducted, valid_transition}
use piping.Store.{Db, in_state}
use piping.Store.World.{
  World, Net, fine, lost, unacked, on_net, exec, query, take_turn, has_destination,
}
use piping.Store.Sound.{IsSound}
use piping.Store.Sound.Moves.{apply_moves-IsSound, set_state-IsSound, set_sent-IsSound}
use piping.Store.Ensures.{take_turn-keeps}
use piping.Store.Jobs.{update_job, update_job_state, mark_row, mark_sent, stale_jobs}

-- The database of this world is sound.
abbrev pub Sound : World → Type 0
Sound w = IsSound w.db

pub Sound-blind : (v w : World) → w.db ≡ v.db → w.turns ≡ v.turns → Sound v → Sound w
Sound-blind v w d t s = subst IsSound (sym d) s

on_net-Sound :
    {A : Type 0} (net : Net) (f : Db → Result A × Db) (w : World)
    → ((d : Db) → IsSound d → IsSound (f d).1)
    → Sound w
    → Sound (on_net net f w).1
on_net-Sound fine f w h s = h w.db s
on_net-Sound lost f w h s = s
on_net-Sound unacked f w h s = h w.db s

pub exec-Sound :
    {A : Type 0} (lock : Option String) (f : Db → Result A × Db) (w : World)
    → ((d : Db) → IsSound d → IsSound (f d).1)
    → Sound w
    → Sound (exec lock f w).1
unfolding exec
exec-Sound lock f w h s =
    on_net-Sound (take_turn lock w).0 f (take_turn lock w).1 h
      (take_turn-keeps lock IsSound (apply_moves-IsSound lock) w s)

pub query-Sound :
    {A : Type 0} (lock : Option String) (f : Db → Result A) (w : World)
    → Sound w
    → Sound (query lock f w).1
unfolding query
query-Sound lock f w s = exec-Sound lock (λ d. (f d, d)) w (λ d h. h) s

pub update_job-IsSound :
    (id : ℕ) (from to : State) (d : Db)
    → valid_transition from to ≡ true
    → IsSound d
    → IsSound (update_job id from to d).1
unfolding update_job
update_job-IsSound id from to d v s =
    if_case {A = Result (Unit {0}) × Db} (λ p. IsSound p.1) (any (in_state id from) d.jobs)
      (λ _. set_state-IsSound id from to d v s) (λ _. s)

-- `UpdateJobState` keeps the database sound for any id and any two states, whatever fails and whatever
-- other processes commit before the statement.
pub update_job_state-Sound :
    (id : ℕ) (from to : State) (w : World) → Sound w → Sound (update_job_state id from to w).1
unfolding update_job_state
update_job_state-Sound id from to w s = elim (Bool-cases (valid_transition from to)) [
  | inl v ↦
      rw v
        (exec-Sound none (update_job id from to) w (λ d h. update_job-IsSound id from to d v h) s)
  | inr v ↦ rw v s
]

mark_row-IsSound : (id dest : ℕ) (d : Db) → IsSound d → IsSound (mark_row id dest d).1
unfolding mark_row
mark_row-IsSound id dest d s =
    if_case {A = Result (Unit {0}) × Db} (λ p. IsSound p.1)
      (any (in_state id quota_deducted) d.jobs)
      (λ _.
        if_case {A = Result (Unit {0}) × Db} (λ p. IsSound p.1) (has_destination dest d)
          (λ _. set_sent-IsSound id dest d s) (λ _. s))
      (λ _. s)

-- `MarkSent` keeps the database sound for any job and any destination, whatever fails and whatever
-- other processes commit before the statement.
pub mark_sent-Sound : (id dest : ℕ) (w : World) → Sound w → Sound (mark_sent id dest w).1
unfolding mark_sent
mark_sent-Sound id dest w s = exec-Sound none (mark_row id dest) w (mark_row-IsSound id dest) s

pub stale_jobs-Sound :
    (states : List State) (older_than limit : ℕ) (w : World)
    → Sound w
    → Sound (stale_jobs states older_than limit w).1
unfolding stale_jobs
stale_jobs-Sound states older_than limit w s = query-Sound none _ w s
