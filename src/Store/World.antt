-- ===== src/Store/World.antt =====
-- What surrounds one statement: other processes commit before it runs, and the connection may fail.
-- A schedule lists, for each statement in turn, what the others commit first and how the network
-- behaves; past its end nothing interferes. Theorems hold for every schedule.
use piping.Prelude.{
  ℕ, ◌+◌, ℤ, pos, ltb_ℤ, leb_ℤ, eq_ℤ, String, Bool, false, ◌&&◌, Option, some, List, [], ◌∷◌,
  str_eq, ◌==◌, any, if◌then◌else◌,
}
use piping.Error.{Result, ok, err, other}
use piping.Job.{Job, State, quota_insufficient, quota_deducted, print_sent, valid_transition}
use piping.Store.{
  Db, SemesterRow, Grant, remaining, accepts_job, is_sendable, job_row, add_job, set_state,
  in_state, update_where,
}

-- What another process can commit: each of the store's methods, and the passing of time.
pub data Move : Type 0 where
  submits : Job → Move
  updates : ℕ → State → State → Move
  marks : ℕ → ℕ → Move
  adds_user : String → Move
  adds_semester : SemesterRow → Move
  grants : Grant → Move
  waits : ℕ → Move

-- INSERT INTO app_user … ON CONFLICT (id) DO NOTHING
unfoldable pub insert_user : String → Db → Db
insert_user u d = if any (str_eq u) d.users then d else record d { users = u ∷ d.users }

-- INSERT INTO semester … ON CONFLICT (id) DO UPDATE SET id = EXCLUDED.id
unfoldable pub insert_semester : SemesterRow → Db → Db
insert_semester s d =
    if any (λ t. eq_ℤ t.id s.id) d.semesters then d else record d { semesters = s ∷ d.semesters }

abbrev pub same_grant : Grant → Grant → Bool
same_grant g h = str_eq h.user_id g.user_id && eq_ℤ h.semester_id g.semester_id

-- The CHECK and the references of `semester_grant`.
unfoldable pub accepts_grant : Grant → Db → Bool
accepts_grant g d =
    leb_ℤ (pos 0) g.amount
    && any (str_eq g.user_id) d.users
    && any (λ t. eq_ℤ t.id g.semester_id) d.semesters

-- INSERT INTO semester_grant … ON CONFLICT (user_id, semester_id) DO NOTHING
unfoldable pub insert_grant : Grant → Db → Db
insert_grant g d = if any (same_grant g) d.grants then d else record d { grants = g ∷ d.grants }

-- The two rows that an UPDATE to `print_sent` needs: the job, and the destination it refers to.
unfoldable pub mark_job : ℕ → Job → Job
mark_job dest j = record j { state = print_sent; destination_id = some dest }

unfoldable pub set_sent : ℕ → ℕ → Db → Db
unfolding in_state mark_job
set_sent id dest d = record d {
  jobs = update_where (in_state id quota_deducted) (mark_job dest) d.jobs;
}

unfoldable pub has_destination : ℕ → Db → Bool
has_destination dest d = any (λ x. x.id == dest) d.destinations

-- The state that `CheckQuotaAndStore` gives a job, from the quota that it read.
unfoldable pub decided : ℤ → Job → Job
decided r j = record j { state = if ltb_ℤ r j.cost then quota_insufficient else quota_deducted }

unfoldable pub alloc : Db → Db
alloc d = record d { next_job = d.next_job + 1 }

-- An INSERT INTO job that is refused has taken an id all the same, unless it was never sent.
unfoldable pub refuse_row : Job → Db → Db
unfolding alloc is_sendable
refuse_row j d = if is_sendable j then alloc d else d

-- A whole `CheckQuotaAndStore` of another process, which holds the lock on its user meanwhile.
unfoldable pub submit_whole : Job → Db → Db
unfolding decided alloc refuse_row
submit_whole j d =
    let j' = decided (remaining j.username d) j in
    if any (str_eq j.username) d.users && accepts_job d j'
    then add_job (job_row d.next_job d.clock j') (alloc d)
    else if any (str_eq j.username) d.users
    then refuse_row j' d
    else d

unfoldable pub apply_move : Move → Db → Db
apply_move (submits j) d = submit_whole j d
apply_move (updates id from to) d = if valid_transition from to then set_state id from to d else d
apply_move (marks id dest) d = if has_destination dest d then set_sent id dest d else d
apply_move (adds_user u) d = insert_user u d
apply_move (adds_semester s) d = insert_semester s d
apply_move (grants g) d = if accepts_grant g d then insert_grant g d else d
apply_move (waits n) d = record d { clock = d.clock + n }

-- SELECT … FOR UPDATE holds back the other transactions that lock the same user. What is held back
-- commits later, if at all: a schedule that has it later is one of the schedules.
unfoldable pub blocked : Option String → Move → Bool
blocked (some u) (submits j) = str_eq j.username u
blocked _ _ = false

unfoldable pub apply_moves : Option String → List Move → Db → Db
unfolding apply_move blocked
apply_moves lock [] d = d
apply_moves lock (m ∷ ms) d = apply_moves lock ms (if blocked lock m then d else apply_move m d)

-- The statement is answered, or never arrives, or is carried out and its answer is lost.
pub data Net : Type 0 where
  fine lost unacked : Net

pub record Turn : Type 0 where
  pub others : List Move
  pub net : Net

-- One attempt of `smbclient`: it succeeds, fails, or runs into the deadline of the send context. Where
-- it does not succeed the document may have reached the printer all the same.
pub data Attempt : Type 0 where
  delivered : Attempt
  refused timed_out : (reached : Bool) → Attempt

-- `waits` says of each pause between two attempts whether the send context is done when it ends,
-- `rolls` are the numbers that `rand` gives, and `printed` is what reached the printers. Past the end
-- of its list an attempt succeeds, a context is not done, and the number is 0.
pub record World : Type 0 where
  pub db : Db
  pub turns : List Turn
  pub attempts : List Attempt
  pub waits : List Bool
  pub rolls : List ℕ
  pub printed : List (ℕ × List ℕ)

abbrev pub Io : Type 0 → Type 0
Io A = World → Result A × World

abbrev pub bind_result : {A B : Type 0} → Result A → (A → Io B) → Io B
bind_result (ok a) f w = f a w
bind_result (err e) f w = (err e, w)

infixl 10 ◌>>=◌ ◌>>◌
abbrev pub ◌>>=◌ : {A B : Type 0} → Io A → (A → Io B) → Io B
◌>>=◌ m f w = let (r, w') = m w in bind_result r f w'

abbrev pub ◌>>◌ : {B : Type 0} → Io (Unit {0}) → Io B → Io B
m >> k = m >>= λ _. k

abbrev pub give : {A : Type 0} → Result A → Io A
give r w = (r, w)

unfoldable pub take_turn : Option String → World → Net × World
unfolding apply_moves
take_turn lock w = elim w.turns [
  | [] ↦ (fine, w)
  | t ∷ ts ↦ (t.net, record w { db = apply_moves lock t.others w.db; turns = ts })
]

abbrev pub on_net : {A : Type 0} → Net → (Db → Result A × Db) → Io A
on_net fine f w = let (r, d) = f w.db in (r, record w { db = d })
on_net lost f w = (err other, w)
on_net unacked f w = let (r, d) = f w.db in (err other, record w { db = d })

-- One round trip to the database.
unfoldable pub exec : {A : Type 0} → Option String → (Db → Result A × Db) → Io A
unfolding take_turn
exec lock f w = let (net, w') = take_turn lock w in on_net net f w'

-- A round trip that reads.
unfoldable pub query : {A : Type 0} → Option String → (Db → Result A) → Io A
unfolding exec
query lock f = exec lock (λ d. (f d, d))
