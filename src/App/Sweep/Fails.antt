-- ===== src/App/Sweep/Fails.antt =====
-- What the loop of a pass does to the state of a job, when nothing interferes with it.
use piping.Prelude.{
  ℕ, Bool, true, false, ◌&&◌, ◌||◌, some, List, [], ◌∷◌, ◌≡◌, ◌≢◌, ◌⊎◌, inl, inr, refl, ap, ◌∙◌,
  subst, arith, ◌==◌, str_eq, any, All, if◌then◌else◌, Bool-cases,
}
use piping.Job.{
  Job, State, unknown, quota_insufficient, quota_deducted, print_sent, print_succeeded,
  print_failed, refunded, name, eq_state, valid_transition,
}
use piping.Store.{Db, in_state}
use piping.Store.World.{World, exec, take_turn}
use piping.Store.Sound.{IsSound}
use piping.Store.View.{state_of, written, state_of-set_state, any-in_state}
use piping.Store.Jobs.{update_job, update_job_state, is_stale}
use piping.Store.Jobs.Safe.{update_job-IsSound}
use piping.App.Sweep.{swept_states, fail_stale}
use piping.App.Sweep.Kept.{sweeper}

-- What the sweeper makes of a database by itself.
unfoldable pub fail_all : List Job → Db → Db
fail_all [] d = d
fail_all (j ∷ js) d = fail_all js (update_job j.id j.state print_failed d).1

-- The rows that can be failed: those in the states of the sweeper.
abbrev pub Failing : Job → Type 0
Failing j = valid_transition j.state print_failed ≡ true

swept_state :
    (s : State)
    → any (λ x. str_eq (name s) (name x)) swept_states ≡ true
    → valid_transition s print_failed ≡ true
unfolding name valid_transition
swept_state quota_deducted h = refl
swept_state print_sent h = refl
swept_state unknown h = cc
swept_state quota_insufficient h = cc
swept_state print_succeeded h = cc
swept_state print_failed h = cc
swept_state refunded h = cc

pub Failing-stale : (t : ℕ) (j : Job) → is_stale swept_states t j ≡ true → Failing j
unfolding is_stale
Failing-stale t j h = swept_state j.state (ground arith)

unfoldable pub quiet : World → Db → World
quiet w d = record w { db = d; turns = [] }

pub fail_stale-quiet :
    (age limit : ℕ) (js : List Job) (w : World) (d : Db)
    → All Failing js
    → fail_stale (sweeper age limit) js (quiet w d) ≡ quiet w (fail_all js d)
unfolding fail_stale sweeper fail_all quiet update_job_state exec take_turn
fail_stale-quiet age limit [] w d h = refl
fail_stale-quiet age limit (j ∷ js) w d h =
    let h0 : valid_transition j.state print_failed ≡ true = h.0 in
    rw h0 (fail_stale-quiet age limit js w (update_job j.id j.state print_failed d).1 h.1)

-- The guard finds the row of a cell exactly in the state that it asks for.
found_at :
    (id : ℕ) (from s : State) (d : Db)
    → IsSound d
    → state_of id d ≡ some s
    → any (in_state id from) d.jobs ≡ eq_state s from
unfolding state_of
found_at id from s d sound e = any-in_state id from d.jobs sound.distinct ∙ rw e refl

missed :
    (i : ℕ) (from to : State) (d : Db) (id : ℕ) (s : State)
    → IsSound d
    → state_of id d ≡ some s
    → any (in_state i from) d.jobs ≡ false
    → some s ≡ written i from to id (some s)
missed i from to d id s sound e n = elim (Bool-cases ((id == i) && eq_state s from)) [
  | inl b ↦
      let same : id ≡ i = ground arith in
      let hit : eq_state s from ≡ true = ground arith in
      absurd (
        ground (
          arith,
          subst (λ k. any (in_state k from) d.jobs ≡ eq_state s from) same
              (found_at id from s d sound e),
        ))
  | inr b ↦ rw b refl
]

state_of-update_job :
    (i : ℕ) (from to : State) (d : Db) (id : ℕ) (s : State)
    → IsSound d
    → state_of id d ≡ some s
    → state_of id (update_job i from to d).1 ≡ written i from to id (some s)
unfolding update_job
state_of-update_job i from to d id s sound e = elim (Bool-cases (any (in_state i from) d.jobs)) [
  | inl f ↦ rw f (state_of-set_state i from to d id ∙ ap (written i from to id) e)
  | inr n ↦ rw n (e ∙ missed i from to d id s sound e n)
]

-- Whether the list has a row for the cell.
abbrev pub hits : ℕ → State → List Job → Bool
hits id s js = any (in_state id s) js

Failing-known : (j : Job) → Failing j → eq_state j.state print_failed ≡ false
unfolding valid_transition
Failing-known j h = ground arith

pub in_state_self : (j : Job) → in_state j.id j.state j ≡ true
unfolding in_state
in_state_self j = ground arith

pub in_state_id : (j k : Job) → in_state j.id j.state k ≡ true → k.id ≡ j.id
unfolding in_state
in_state_id j k h = ground arith

pub ==_apart : {a b : ℕ} → a ≢ b → (a == b) ≡ false
==_apart h = ground arith

hits_failed : (id : ℕ) (js : List Job) → All Failing js → hits id print_failed js ≡ false
unfolding in_state
hits_failed id [] h = refl
hits_failed id (j ∷ js) h = rw (Failing-known j h.0, hits_failed id js h.1) (ground arith)

in_state_sym :
    (id : ℕ) (s : State) (j : Job) → in_state id s j ≡ ((id == j.id) && eq_state s j.state)
unfolding in_state
in_state_sym id s j = ground arith

state_of-fail_one :
    (j : Job) (d : Db) (id : ℕ) (s : State)
    → IsSound d
    → state_of id d ≡ some s
    → state_of id (update_job j.id j.state print_failed d).1
      ≡ some (if in_state id s j then print_failed else s)
state_of-fail_one j d id s sound e =
    state_of-update_job j.id j.state print_failed d id s sound e
    ∙ rw (in_state_sym id s j) (ground arith)

pub state_of-fail_all :
    (js : List Job) (d : Db) (id : ℕ) (s : State)
    → All Failing js
    → IsSound d
    → state_of id d ≡ some s
    → state_of id (fail_all js d) ≡ some (if hits id s js then print_failed else s)
unfolding fail_all
state_of-fail_all [] d id s h sound e = e
state_of-fail_all (j ∷ js) d id s h sound e =
    let d' = (update_job j.id j.state print_failed d).1 in
    let s' = if in_state id s j then print_failed else s in
    state_of-fail_all js d' id s' h.1 (update_job-IsSound j.id j.state print_failed d h.0 sound)
      (state_of-fail_one j d id s sound e)
    ∙ ap some (joined (Bool-cases (in_state id s j)))
  where
    joined :
        (in_state id s j ≡ true) ⊎ (in_state id s j ≡ false)
        → (let s' = if in_state id s j then print_failed else s in
            if hits id s' js then print_failed else s')
          ≡ (if in_state id s j || hits id s js then print_failed else s)
    joined (inl b) = rw (b, hits_failed id js h.1) refl
    joined (inr b) = rw b refl
