-- ===== src/Store/Sound/Locked.antt =====
-- The lock on a user's row: the moves that other processes can make while it is held, what remains
-- to the user, and the id that was taken from the sequence.
use piping.Prelude.{
  ℕ, ◌<◌, ◌≤ℤ◌, eq_ℤ, String, false, ◌&&◌, Option, some, List, [], ◌∷◌, ◌≡◌, ◌≢◌, All, arith,
  int_laws, -ℤ_parts, if◌then◌else◌, Bool-cases, if_case, inl, inr, str_eq, any,
}
use piping.Job.{Job, quota_deducted, valid_transition}
use piping.Store.{
  Db, granted, spent, remaining, accepts_job, is_sendable, job_row, add_job, in_state, move_job,
  set_state,
}
use piping.Store.World.{
  Move, submits, updates, marks, adds_user, adds_semester, grants, waits, insert_user,
  insert_semester, insert_grant, accepts_grant, same_grant, mark_job, set_sent, has_destination,
  decided, alloc, refuse_row, submit_whole, apply_move, blocked, apply_moves,
}
use piping.Store.Sound.{IsSound, bill, spent-cons}
use piping.Store.Sound.Changes.{remaining-changed, ids-changed}
use piping.Store.Sound.Moves.{
  move_job-IsChange, mark_job-IsChange, granted_grows, apply_move-IsSound, next_job-new,
}

pub remaining-add_job :
    (u : String) (row : Job) (d : Db)
    → str_eq row.username u ≡ false
    → remaining u d ≤ℤ remaining u (add_job row d)
unfolding remaining add_job bill
remaining-add_job u row d e = rw (spent-cons, e) (omega int_laws)

remaining-refuse_row :
    (u : String) (j : Job) (d : Db) → remaining u d ≤ℤ remaining u (refuse_row j d)
unfolding refuse_row alloc remaining
remaining-refuse_row u j d =
    if_case (λ d'. remaining u d ≤ℤ remaining u d') (is_sendable j) (λ _. omega arith)
      (λ _. omega arith)

remaining-submit_whole :
    (u : String) (j : Job) (d : Db)
    → str_eq j.username u ≡ false
    → remaining u d ≤ℤ remaining u (submit_whole j d)
unfolding submit_whole
remaining-submit_whole u j d other =
    elim (Bool-cases
      (any (str_eq j.username) d.users && accepts_job d (decided (remaining j.username d) j))) [
        | inl e ↦ rw e (
            unfold alloc remaining job_row decided in
            remaining-add_job u (job_row d.next_job d.clock (decided (remaining j.username d) j))
              (alloc d) other)
        | inr e ↦ rw e (
            if_case (λ d'. remaining u d ≤ℤ remaining u d') (any (str_eq j.username) d.users)
              (λ _. remaining-refuse_row u (decided (remaining j.username d) j) d)
              (λ _. omega arith))
      ]

pub remaining-apply_move :
    (u : String) (m : Move) (d : Db)
    → IsSound d
    → blocked (some u) m ≡ false
    → remaining u d ≤ℤ remaining u (apply_move m d)
unfolding apply_move blocked
remaining-apply_move u (submits j) d s b = remaining-submit_whole u j d b
remaining-apply_move u (updates id from to) d s b = elim (Bool-cases (valid_transition from to)) [
  | inl e ↦ rw e (
      unfold set_state in
      remaining-changed (in_state id from) (move_job d.clock to)
        (move_job-IsChange d.clock id from to e) d u s)
  | inr e ↦ rw e (omega arith)
]
remaining-apply_move u (marks id dest) d s b = elim (Bool-cases (has_destination dest d)) [
  | inl e ↦ rw e (
      unfold set_sent in
      remaining-changed (in_state id quota_deducted) (mark_job dest) (mark_job-IsChange id dest) d u
        s)
  | inr e ↦ rw e (omega arith)
]
remaining-apply_move u (adds_user v) d s b = unfold insert_user remaining in ground arith
remaining-apply_move u (adds_semester t) d s b = unfold insert_semester remaining in ground arith
remaining-apply_move u (grants g) d s b =
    unfold insert_grant accepts_grant remaining in
    ground (
      arith,
      granted_grows u g d.grants,
      -ℤ_parts (granted u d.grants) (spent u d.jobs),
      -ℤ_parts (granted u (g ∷ d.grants)) (spent u d.jobs),
    )
remaining-apply_move u (waits n) d s b = unfold remaining in omega arith

-- While the user's row is locked, whatever the others commit, no less remains.
pub remaining-apply_moves :
    (u : String) (ms : List Move) (d : Db)
    → IsSound d
    → remaining u d ≤ℤ remaining u (apply_moves (some u) ms d)
unfolding apply_moves
remaining-apply_moves u [] d s = omega arith
remaining-apply_moves u (m ∷ ms) d s = elim (Bool-cases (blocked (some u) m)) [
  | inl e ↦ rw e (remaining-apply_moves u ms d s)
  | inr e ↦ rw e (
      omega (
        arith,
        remaining-apply_move u m d s e,
        remaining-apply_moves u ms (apply_move m d) (apply_move-IsSound m d s),
      ))
]

-- An id that was taken from the sequence, and that no row has yet.
pub record IsPending (id : ℕ) (d : Db) : Type 0 where
  pub taken : id < d.next_job
  pub unused : All (λ k. k.id ≢ id) d.jobs

pub IsPending-alloc : (d : Db) → IsSound d → IsPending d.next_job (alloc d)
unfolding alloc
IsPending-alloc d s = record { taken = omega arith; unused = next_job-new d s }

IsPending-refuse_row : (id : ℕ) (j : Job) (d : Db) → IsPending id d → IsPending id (refuse_row j d)
unfolding refuse_row alloc
IsPending-refuse_row id j d h =
    if_case (IsPending id) (is_sendable j)
      (λ _. record { taken = omega (arith, h.taken); unused = h.unused }) (λ _. h)

IsPending-submit_whole :
    (id : ℕ) (j : Job) (d : Db) → IsPending id d → IsPending id (submit_whole j d)
unfolding submit_whole
IsPending-submit_whole id j d h =
    elim (Bool-cases
      (any (str_eq j.username) d.users && accepts_job d (decided (remaining j.username d) j))) [
        | inl e ↦ rw e (
            unfold add_job alloc job_row in
            record { taken = omega arith; unused = (λ p. omega arith, h.unused) })
        | inr e ↦ rw e (
            if_case (IsPending id) (any (str_eq j.username) d.users)
              (λ _. IsPending-refuse_row id (decided (remaining j.username d) j) d h) (λ _. h))
      ]

IsPending-apply_move : (id : ℕ) (m : Move) (d : Db) → IsPending id d → IsPending id (apply_move m d)
unfolding apply_move
IsPending-apply_move id (submits j) d h = IsPending-submit_whole id j d h
IsPending-apply_move id (updates i from to) d h = elim (Bool-cases (valid_transition from to)) [
  | inl e ↦ rw e (
      unfold set_state in
      record {
        taken = h.taken;
        unused =
            ids-changed (in_state i from) (move_job d.clock to)
              (move_job-IsChange d.clock i from to e) (λ k. k ≢ id) d h.unused;
      })
  | inr e ↦ rw e h
]
IsPending-apply_move id (marks i dest) d h = elim (Bool-cases (has_destination dest d)) [
  | inl e ↦ rw e (
      unfold set_sent in
      record {
        taken = h.taken;
        unused =
            ids-changed (in_state i quota_deducted) (mark_job dest) (mark_job-IsChange i dest)
              (λ k. k ≢ id) d h.unused;
      })
  | inr e ↦ rw e h
]
IsPending-apply_move id (adds_user u) d h =
    unfold insert_user in
    if_case (IsPending id) (any (str_eq u) d.users) (λ _. h)
      (λ _. record { taken = h.taken; unused = h.unused })
IsPending-apply_move id (adds_semester t) d h =
    unfold insert_semester in
    if_case (IsPending id) (any (λ x. eq_ℤ x.id t.id) d.semesters) (λ _. h)
      (λ _. record { taken = h.taken; unused = h.unused })
IsPending-apply_move id (grants g) d h =
    unfold insert_grant in
    if_case (IsPending id) (accepts_grant g d)
      (λ _.
        if_case (IsPending id) (any (same_grant g) d.grants) (λ _. h)
          (λ _. record { taken = h.taken; unused = h.unused }))
      (λ _. h)
IsPending-apply_move id (waits n) d h = record { taken = h.taken; unused = h.unused }

pub IsPending-apply_moves :
    (id : ℕ) (lock : Option String) (ms : List Move) (d : Db)
    → IsPending id d
    → IsPending id (apply_moves lock ms d)
unfolding apply_moves
IsPending-apply_moves id lock [] d h = h
IsPending-apply_moves id lock (m ∷ ms) d h =
    IsPending-apply_moves id lock ms (if blocked lock m then d else apply_move m d)
      (if_case (IsPending id) (blocked lock m) (λ _. h) (λ _. IsPending-apply_move id m d h))
