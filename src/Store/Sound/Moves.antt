-- ===== src/Store/Sound/Moves.antt =====
-- Soundness of the database under the moves of other processes, and what a move takes from a quota.
use piping.Prelude.{
  if_case, ℕ, ◌+◌, ◌<◌, ℤ, pos, ◌≤ℤ◌, leb_ℤ, leb_ℤ→≤ℤ, eq_ℤ, String, true, ◌&&◌, Option, List, [],
  ◌∷◌, ◌≡◌, ◌≢◌, refl, All, All-imp, arith, int_laws, Bool-cases, inl, inr, str_eq, eq_iff, subst,
  any,
}
use piping.Job.{Job, State, quota_deducted, is_terminal, deducts_quota, valid_transition}
use piping.Store.{
  Db, Grant, SemesterRow, granted, remaining, accepts_job, is_sendable, job_row, add_job, in_state,
  move_job, set_state,
}
use piping.Store.World.{
  Move, submits, updates, marks, adds_user, adds_semester, grants, waits, insert_user,
  insert_semester, insert_grant, accepts_grant, same_grant, mark_job, set_sent, has_destination,
  decided, alloc, refuse_row, submit_whole, apply_move, blocked, apply_moves,
}
use piping.Store.Sound.{IsRow, IsSound, bill, spent-cons, remaining_lem}
use piping.Store.Sound.Changes.{IsChange, changed-IsSound}

-- A guarded change of state is a change.
pub move_job-IsChange :
    (now id : ℕ) (from to : State)
    → valid_transition from to ≡ true
    → (j : Job) → in_state id from j ≡ true
    → IsChange j (move_job now to j)
unfolding move_job in_state
move_job-IsChange now id from to v j at = record {
  same_id = refl;
  keeps_row = λ r. unfold is_terminal valid_transition in ground (arith, r);
  no_dearer = λ r u. unfold bill valid_transition deducts_quota in ground arith;
}

pub mark_job-IsChange :
    (id dest : ℕ) (j : Job) → in_state id quota_deducted j ≡ true → IsChange j (mark_job dest j)
unfolding mark_job in_state
mark_job-IsChange id dest j at = record {
  same_id = refl;
  keeps_row = λ r. unfold is_terminal in ground (arith, r);
  no_dearer = λ r u. unfold bill deducts_quota in ground arith;
}

pub set_state-IsSound :
    (id : ℕ) (from to : State) (d : Db)
    → valid_transition from to ≡ true
    → IsSound d
    → IsSound (set_state id from to d)
unfolding set_state
set_state-IsSound id from to d v s =
    changed-IsSound (in_state id from) (move_job d.clock to)
      (move_job-IsChange d.clock id from to v) d s

pub set_sent-IsSound : (id dest : ℕ) (d : Db) → IsSound d → IsSound (set_sent id dest d)
unfolding set_sent
set_sent-IsSound id dest d s =
    changed-IsSound (in_state id quota_deducted) (mark_job dest) (mark_job-IsChange id dest) d s

-- A new row: its id is fresh, and nobody is billed more than remains.
pub add_job-IsSound :
    (row : Job) (d : Db)
    → IsRow row
    → row.id < d.next_job
    → All (λ k. k.id ≢ row.id) d.jobs
    → ((u : String) → bill u row ≤ℤ remaining u d)
    → IsSound d
    → IsSound (add_job row d)
unfolding add_job remaining
add_job-IsSound row d r fresh new affordable s = record {
  rows = (r, s.rows);
  fresh = (fresh, s.fresh);
  distinct = (new, s.distinct);
  amounts = s.amounts;
  solvent = λ u. rw spent-cons (omega (int_laws, affordable u, s.solvent u));
}

pub alloc-IsSound : (d : Db) → IsSound d → IsSound (alloc d)
unfolding alloc
alloc-IsSound d s = record {
  rows = s.rows;
  fresh =
      All-imp (λ j. j.id < d.next_job) (λ j. j.id < d.next_job + 1) d.jobs (λ j h. omega arith)
        s.fresh;
  distinct = s.distinct;
  amounts = s.amounts;
  solvent = s.solvent;
}

pub next_job-new : (d : Db) → IsSound d → All (λ k. k.id ≢ d.next_job) d.jobs
next_job-new d s =
    All-imp (λ k. k.id < d.next_job) (λ k. k.id ≢ d.next_job) d.jobs (λ k h. omega arith) s.fresh

-- The row that the INSERT writes is well formed if the table accepts it.
pub job_row-IsRow :
    (d : Db) (id now : ℕ) (r : ℤ) (j : Job)
    → accepts_job d (decided r j) ≡ true
    → IsRow (job_row id now (decided r j))
unfolding accepts_job decided job_row is_terminal
job_row-IsRow d id now r j h = ground arith

-- It is billed to its own user, and only if the quota that was read covers it.
pub bill-job_row :
    (u : String) (d : Db) (id now : ℕ) (r : ℤ) (j : Job)
    → IsSound d
    → r ≤ℤ remaining j.username d
    → bill u (job_row id now (decided r j)) ≤ℤ remaining u d
unfolding bill job_row decided deducts_quota
bill-job_row u d id now r j s h = elim (Bool-cases (str_eq j.username u)) [
  | inl e ↦
      let same : j.username ≡ u = (eq_iff j.username u).0 e in
      rw e (ground (arith, subst (λ v. r ≤ℤ remaining v d) same h, remaining_lem u d s))
  | inr e ↦ rw e (remaining_lem u d s)
]

-- A transaction that ran alone: the row is written if the table accepts it.
submit_alone :
    (j : Job) (d : Db)
    → IsSound d
    → accepts_job d (decided (remaining j.username d) j) ≡ true
    → IsSound (add_job (job_row d.next_job d.clock (decided (remaining j.username d) j)) (alloc d))
submit_alone j d s h =
    add_job-IsSound _ (alloc d) (job_row-IsRow d d.next_job d.clock (remaining j.username d) j h)
      (unfold alloc job_row in omega arith) (unfold alloc job_row in next_job-new d s)
      (λ u. unfold alloc remaining in bill-job_row u d d.next_job d.clock _ j s (omega arith))
      (alloc-IsSound d s)

pub refuse_row-IsSound : (j : Job) (d : Db) → IsSound d → IsSound (refuse_row j d)
unfolding refuse_row
refuse_row-IsSound j d s = if_case IsSound (is_sendable j) (λ _. alloc-IsSound d s) (λ _. s)

pub submit_whole-IsSound : (j : Job) (d : Db) → IsSound d → IsSound (submit_whole j d)
unfolding submit_whole
submit_whole-IsSound j d s =
    elim (Bool-cases (any (str_eq j.username) d.users && accepts_job d j')) [
      | inl e ↦ rw e (submit_alone j d s (ground arith))
      | inr e ↦ rw e (
          if_case IsSound (any (str_eq j.username) d.users) (λ _. refuse_row-IsSound j' d s)
            (λ _. s))
    ]
  where
    j' : Job
    j' = decided (remaining j.username d) j

pub granted_grows :
    (u : String) (g : Grant) (gs : List Grant)
    → leb_ℤ (pos 0) g.amount ≡ true
    → granted u gs ≤ℤ granted u (g ∷ gs)
unfolding granted
granted_grows u g gs h = elim (Bool-cases (str_eq g.user_id u)) [
  | inl e ↦ rw e (omega (int_laws, leb_ℤ→≤ℤ (pos 0) g.amount h))
  | inr e ↦ rw e (omega arith)
]

insert_grant-IsSound :
    (g : Grant) (d : Db) → accepts_grant g d ≡ true → IsSound d → IsSound (insert_grant g d)
unfolding insert_grant accepts_grant
insert_grant-IsSound g d h s = elim (Bool-cases (any (same_grant g) d.grants)) [
  | inl e ↦ rw e s
  | inr e ↦ rw e (record {
    rows = s.rows;
    fresh = s.fresh;
    distinct = s.distinct;
    amounts = (ground arith, s.amounts);
    solvent = λ u. omega (arith, s.solvent u, granted_grows u g d.grants (ground arith));
  })
]

-- The other tables play no part.
pub untouched :
    (d : Db) (us : List String) (ss : List SemesterRow) (c : ℕ)
    → IsSound d
    → IsSound (record d { users = us; semesters = ss; clock = c })
untouched d us ss c s = record {
  rows = s.rows;
  fresh = s.fresh;
  distinct = s.distinct;
  amounts = s.amounts;
  solvent = s.solvent;
}

-- No move of another process breaks the database.
pub apply_move-IsSound : (m : Move) (d : Db) → IsSound d → IsSound (apply_move m d)
unfolding apply_move insert_user insert_semester
apply_move-IsSound (submits j) d s = submit_whole-IsSound j d s
apply_move-IsSound (updates id from to) d s = elim (Bool-cases (valid_transition from to)) [
  | inl e ↦ rw e (set_state-IsSound id from to d e s)
  | inr e ↦ rw e s
]
apply_move-IsSound (marks id dest) d s = elim (Bool-cases (has_destination dest d)) [
  | inl e ↦ rw e (set_sent-IsSound id dest d s)
  | inr e ↦ rw e s
]
apply_move-IsSound (adds_user u) d s = elim (Bool-cases (any (str_eq u) d.users)) [
  | inl e ↦ rw e s
  | inr e ↦ rw e (untouched d (u ∷ d.users) d.semesters d.clock s)
]
apply_move-IsSound (adds_semester t) d s =
    elim (Bool-cases (any (λ x. eq_ℤ x.id t.id) d.semesters)) [
      | inl e ↦ rw e s
      | inr e ↦ rw e (untouched d d.users (t ∷ d.semesters) d.clock s)
    ]
apply_move-IsSound (grants g) d s = elim (Bool-cases (accepts_grant g d)) [
  | inl e ↦ rw e (insert_grant-IsSound g d e s)
  | inr e ↦ rw e s
]
apply_move-IsSound (waits n) d s = untouched d d.users d.semesters (d.clock + n) s

-- Any sequence of commits of other processes keeps a sound database sound, whether or not a lock holds
-- some of them back.
pub apply_moves-IsSound :
    (lock : Option String) (ms : List Move) (d : Db) → IsSound d → IsSound (apply_moves lock ms d)
unfolding apply_moves
apply_moves-IsSound lock [] d s = s
apply_moves-IsSound lock (m ∷ ms) d s = elim (Bool-cases (blocked lock m)) [
  | inl e ↦ rw e (apply_moves-IsSound lock ms d s)
  | inr e ↦ rw e (apply_moves-IsSound lock ms (apply_move m d) (apply_move-IsSound m d s))
]
