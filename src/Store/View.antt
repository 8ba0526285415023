-- ===== src/Store/View.antt =====
-- One job as its deliverer sees it: the state of the row with its id. The guarded statements act on
-- this view as on a single cell.
use piping.Prelude.{
  ℕ, false, Option, none, some, List, [], ◌∷◌, ◌≡◌, ◌≢◌, refl, subst, arith, any, ◌==◌, ==_iff,
  ==_refl, ◌∙◌, All, ◌&&◌, if◌then◌else◌, Bool-cases, inl, inr,
}
use piping.Job.{Job, State, quota_deducted, print_sent, eq_state}
use piping.Store.{Db, in_state, move_job, set_state, update_where}
use piping.Store.World.{mark_job, set_sent}
use piping.Store.Sound.{Distinct}

unfoldable pub state_in : ℕ → List Job → Option State
state_in id [] = none
state_in id (j ∷ js) = if j.id == id then some j.state else state_in id js

unfoldable pub state_of : ℕ → Db → Option State
unfolding state_in
state_of id d = state_in id d.jobs

-- What an update of the rows of job `i` in state `from` to state `to` makes of a cell.
abbrev pub written : ℕ → State → State → ℕ → Option State → Option State
written i from to id none = none
written i from to id (some s) = if (id == i) && eq_state s from then some to else some s

-- An UPDATE that gives the rows of job `i` in state `from` the state `to`.
module _ (i : ℕ) (from to : State) (f : Job → Job) (same_id : (j : Job) → (f j).id ≡ j.id)
    (to_state : (j : Job) → (f j).state ≡ to) where
  at_self :
      (j : Job) (js : List Job)
      → state_in j.id (update_where (in_state i from) f (j ∷ js))
        ≡ written i from to j.id (state_in j.id (j ∷ js))
  unfolding state_in in_state
  at_self j js = elim (Bool-cases ((j.id == i) && eq_state j.state from)) [
    | inl b ↦ rw (b, same_id j, ==_refl j.id, to_state j) (rw b)
    | inr b ↦ rw (b, ==_refl j.id) (rw b)
  ]

  elsewhere :
      (id : ℕ) (j : Job) (js : List Job)
      → (j.id == id) ≡ false
      → state_in id (update_where (in_state i from) f (j ∷ js))
        ≡ state_in id (update_where (in_state i from) f js)
  unfolding state_in
  elsewhere id j js e = elim (Bool-cases (in_state i from j)) [
    | inl b ↦ rw (b, same_id j, e)
    | inr b ↦ rw (b, e)
  ]

  state_in-update_where :
      (id : ℕ) (js : List Job)
      → state_in id (update_where (in_state i from) f js) ≡ written i from to id (state_in id js)
  unfolding state_in
  state_in-update_where id [] = refl
  state_in-update_where id (j ∷ js) = elim (Bool-cases (j.id == id)) [
    | inl e ↦
        subst
          (λ k.
            state_in k (update_where (in_state i from) f (j ∷ js))
            ≡ written i from to k (state_in k (j ∷ js)))
          ((==_iff j.id id).0 e) (at_self j js)
    | inr e ↦ elsewhere id j js e ∙ rw e (state_in-update_where id js)
  ]

pub state_of-set_state :
    (i : ℕ) (from to : State) (d : Db) (id : ℕ)
    → state_of id (set_state i from to d) ≡ written i from to id (state_of id d)
unfolding state_of set_state
state_of-set_state i from to d id =
    state_in-update_where i from to (move_job d.clock to) (λ j. unfold move_job in refl)
      (λ j. unfold move_job in refl) id d.jobs

pub state_of-set_sent :
    (i dest : ℕ) (d : Db) (id : ℕ)
    → state_of id (set_sent i dest d) ≡ written i quota_deducted print_sent id (state_of id d)
unfolding state_of set_sent
state_of-set_sent i dest d id =
    state_in-update_where i quota_deducted print_sent (mark_job dest) (λ j. unfold mark_job in refl)
      (λ j. unfold mark_job in refl) id d.jobs

none-among :
    (id : ℕ) (from : State) (js : List Job)
    → All (λ k. k.id ≢ id) js
    → any (in_state id from) js ≡ false
unfolding in_state
none-among id from [] h = refl
none-among id from (j ∷ js) h = ground (arith, h.0, none-among id from js h.1)

-- A statement finds a row to change exactly when the cell is in the state that it asks for.
pub any-in_state :
    (id : ℕ) (from : State) (js : List Job)
    → Distinct js
    → any (in_state id from) js
      ≡ (elim (state_in id js) [ none ↦ false | some s ↦ eq_state s from ])
unfolding state_in in_state
any-in_state id from [] h = refl
any-in_state id from (j ∷ js) h = elim (Bool-cases (j.id == id)) [
  | inl e ↦
      let same : j.id ≡ id = (==_iff j.id id).0 e in
      let rest = none-among id from js (subst (λ i. All (λ k. k.id ≢ i) js) same h.0) in
      rw (e, rest) (ground arith)
  | inr e ↦ rw (e, any-in_state id from js h.1)
]
