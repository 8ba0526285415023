-- ===== src/Store/Jobs/Transaction.antt =====
-- The quota transaction of internal/postgres/job_store.go under every schedule.
use piping.Prelude.{
  ℕ, ℤ, ◌≤ℤ◌, String, true, Option, none, some, ◌≡◌, ◌≢◌, refl, arith, if_case, Among, inl,
}
use piping.Error.{Result, ok, err, insufficient}
use piping.Job.{Job}
use piping.Store.{Db, remaining, accepts_job, job_row, add_job}
use piping.Store.World.{decided, alloc, query}
use piping.Store.Sound.{IsRow, IsSound}
use piping.Store.Sound.Moves.{
  apply_moves-IsSound, refuse_row-IsSound, add_job-IsSound, alloc-IsSound, job_row-IsRow,
  bill-job_row,
}
use piping.Store.Sound.Locked.{
  IsPending, IsPending-alloc, IsPending-apply_moves, remaining-apply_moves,
}
use piping.Store.Ensures.{
  Ensures, Does, Stable, Post, Ensures-give, Ensures-exec, Ensures-query, Ensures-bind,
}
use piping.Store.Jobs.{lock_user, insert_job, commit_job, transact}

Stable-IsSound : (lock : Option String) → Stable lock IsSound
Stable-IsSound lock ms d s = apply_moves-IsSound lock ms d s

-- At least `r` remains to the user.
record Covered (u : String) (r : ℤ) (d : Db) : Type 0 where
  sound : IsSound d
  covers : r ≤ℤ remaining u d

Stable-Covered : (u : String) (r : ℤ) → Stable (some u) (Covered u r)
Stable-Covered u r ms d c = record {
  sound = apply_moves-IsSound (some u) ms d c.sound;
  covers = omega (arith, c.covers, remaining-apply_moves u ms d c.sound);
}

-- The row is written, but not committed.
record Inserted (j : Job) (r : ℤ) (row : Job) (d : Db) : Type 0 where
  covered : Covered j.username r d
  pending : IsPending row.id d
  is_row : IsRow row
  id : ℕ
  now : ℕ
  made : row ≡ job_row id now (decided r j)

Stable-Inserted : (j : Job) (r : ℤ) (row : Job) → Stable (some j.username) (Inserted j r row)
Stable-Inserted j r row ms d c = record {
  covered = Stable-Covered j.username r ms d c.covered;
  pending = IsPending-apply_moves row.id (some j.username) ms d c.pending;
  is_row = c.is_row;
  id = c.id;
  now = c.now;
  made = c.made;
}

insert_job-Does :
    (now : ℕ) (r : ℤ) (j : Job)
    → Does (Covered j.username r) (insert_job now (decided r j)) (Inserted j r)
unfolding insert_job
insert_job-Does now r j = record {
  before = λ d c. c.sound;
  after = λ d c.
      if_case {A = Result Job × Db} (λ p. IsSound p.1) (accepts_job d (decided r j))
        (λ _. alloc-IsSound d c.sound) (λ _. refuse_row-IsSound (decided r j) d c.sound);
  result = λ d c.
      if_case {A = Result Job × Db} (λ p. Post (Inserted j r) p.0 p.1) (accepts_job d (decided r j))
        (inserted d c) (λ _. (refuse_row-IsSound (decided r j) d c.sound, λ e. cc));
}
  where
    inserted :
        (d : Db)
        → Covered j.username r d
        → accepts_job d (decided r j) ≡ true
        → Inserted j r (job_row d.next_job now (decided r j)) (alloc d)
    inserted d c h = record {
      covered = record {
        sound = alloc-IsSound d c.sound;
        covers = unfold alloc remaining in c.covers;
      };
      pending = unfold job_row in IsPending-alloc d c.sound;
      is_row = job_row-IsRow d d.next_job now r j h;
      id = d.next_job;
      now = now;
      made = refl;
    }

-- The row is in the table; its state was decided by an amount that remained to the user.
pub record IsRecorded (j row : Job) (d : Db) : Type 0 where
  pub sound : IsSound d
  pub among : Among row d.jobs
  pub id : ℕ
  pub now : ℕ
  pub r : ℤ
  pub made : row ≡ job_row id now (decided r j)

commit_job-Does :
    (j : Job) (r : ℤ) (row : Job) → Does (Inserted j r row) (commit_job row) (λ _. IsRecorded j row)
unfolding commit_job
commit_job-Does j r row = record {
  before = λ d c. c.covered.sound;
  after = λ d c. (committed d c).sound;
  result = committed;
}
  where
    committed : (d : Db) → Inserted j r row d → IsRecorded j row (add_job row d)
    committed d c = record {
      sound =
          add_job-IsSound row d c.is_row c.pending.taken c.pending.unused
            (λ u. rw c.made (bill-job_row u d c.id c.now r j c.covered.sound c.covered.covers))
            c.covered.sound;
      among = unfold add_job in inl refl;
      id = c.id;
      now = c.now;
      r = r;
      made = c.made;
    }

-- A statement that neither writes nor narrows what is known.
begin-Ensures :
    {A : Type 0} (lock : Option String) (f : Db → Result A)
    → ((d : Db) → f d ≢ err insufficient)
    → Ensures IsSound (query lock f) (λ _. IsSound)
begin-Ensures lock f errs =
    Ensures-query lock f (Stable-IsSound lock) (λ d s. s) errs (λ d s a e. s)

read-Ensures : (u : String) → Ensures IsSound (query (some u) (λ d. ok (remaining u d))) (Covered u)
read-Ensures u =
    Ensures-query (some u) _ (Stable-IsSound (some u)) (λ d s. s) (λ d e. cc)
      (λ d s r e. record { sound = s; covers = ground (arith, e) })

pub transact-Ensures : (j : Job) → Ensures IsSound (transact j) (IsRecorded j)
unfolding transact lock_user
transact-Ensures j = Ensures-bind _ _ (begin-Ensures none _ (λ d e. cc)) λ now.
    Ensures-bind _ _ (begin-Ensures none _ (λ d e. cc)) λ _.
      Ensures-bind _ _ (begin-Ensures (some j.username) _ lock_errs) λ _.
        Ensures-bind _ _ (read-Ensures j.username) λ r.
          Ensures-bind _ _
            (Ensures-exec (some j.username) _ (Stable-Covered j.username r)
              (insert_job-Does now r j))
            λ row.
              Ensures-bind _ _
                (Ensures-exec (some j.username) _ (Stable-Inserted j r row)
                  (commit_job-Does j r row))
                λ _. Ensures-give (ok row) (λ d h. h)
  where
    lock_errs : (d : Db) → lock_user j.username d ≢ err insufficient
    lock_errs d = ground arith
