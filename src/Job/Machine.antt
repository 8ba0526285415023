-- ===== src/Job/Machine.antt =====
-- Names, terminal states and paths of the job state machine of internal/job/job.go.
use piping.Prelude.{
  ℕ, suc, ◌+◌, ◌≤◌, String, true, false, List, [], ◌∷◌, ◌≡◌, ◌≢◌, ◌↔◌, refl, str_eq, eq_iff, arith,
  any, Bool-cases, inl, inr, ap, sym, ◌∙◌,
}
use piping.Error.{Result, ok, err, other}
use piping.Job.{
  State, unknown, quota_insufficient, quota_deducted, print_sent, print_succeeded, print_failed,
  refunded, name, eq_state, all_states, named, state_from_string, is_terminal, deducts_quota,
  valid_transition, quota_deducting_state_names,
}

pub eq_state_iff : (s t : State) → (eq_state s t ≡ true) ↔ (s ≡ t)
eq_state_iff s t = ground arith

named_sound : (s : String) (l : List State) (st : State) → named s l ≡ ok st → name st ≡ s
unfolding named
named_sound s [] st h = cc
named_sound s (x ∷ l) st h = elim (Bool-cases (str_eq (name x) s)) [
  | inl e ↦ ground (arith, (eq_iff (name x) s).0 e)
  | inr e ↦ named_sound s l st (rw e at h)
]

named_known :
    (s : String) (l : List State)
    → any (λ st. eq_state st unknown) l ≡ false
    → named s l ≢ ok unknown
unfolding named
named_known s [] k h = cc
named_known s (x ∷ l) k h = ground (arith, named_known s l)

abbrev parsed : State → Result State
parsed unknown = err other
parsed st = ok st

parsed_lem : (st : State) → state_from_string (name st) ≡ parsed st
unfolding state_from_string
parsed_lem unknown = refl
parsed_lem quota_insufficient = refl
parsed_lem quota_deducted = refl
parsed_lem print_sent = refl
parsed_lem print_succeeded = refl
parsed_lem print_failed = refl
parsed_lem refunded = refl

known : (st : State) → st ≢ unknown → state_from_string (name st) ≡ ok st
known st h = ground (arith, parsed_lem st)

parsed-injective : (s t : State) → parsed s ≡ parsed t → s ≡ t
parsed-injective s t e = ground arith

found : (s : String) (st : State) → state_from_string s ≡ ok st → (st ≢ unknown) × (name st ≡ s)
unfolding state_from_string
found s st h = (λ e. named_known s all_states refl (rw e at h), named_sound s all_states st h)

-- `StateFromString` finds the state of every stored name, and only states that have a name: the
-- result is `st` exactly when `st` is not `Unknown` and `s` is its name.
pub state_from_string_iff :
    (s : String) (st : State) → (state_from_string s ≡ ok st) ↔ ((st ≢ unknown) × (name st ≡ s))
state_from_string_iff s st = (found s st, λ h. rw (← h.1) (known st h.0))

-- A name belongs to one state.
pub name-injective : (s t : State) → name s ≡ name t → s ≡ t
name-injective s t e =
    parsed-injective s t (sym (parsed_lem s) ∙ ap state_from_string e ∙ parsed_lem t)

-- A path of the machine: any number of valid transitions.
infix 40 ◌⟶*◌
pub data ◌⟶*◌ : State → State → Type 0 where
  here : {s : State} → s ⟶* s
  step : {s t u : State} → valid_transition s t ≡ true → t ⟶* u → s ⟶* u

pub steps : {s t : State} → s ⟶* t → ℕ
steps here = 0
steps (step v p) = suc (steps p)

-- How many transitions a job can still make.
abbrev left : State → ℕ
left quota_deducted = 3
left print_sent = 2
left print_succeeded = 1
left _ = 0

left-step : (s t : State) → valid_transition s t ≡ true → suc (left t) ≤ left s
unfolding valid_transition
left-step s t v = ground arith

left-steps : {s t : State} (p : s ⟶* t) → steps p + left t ≤ left s
unfolding steps
left-steps here = omega arith
left-steps (step {s} {t} v p) = omega (arith, left-step s t v, left-steps p)

left-le : (s : State) → left s ≤ 3
left-le s = ground arith

-- The machine has no cycle: no path is longer than three transitions.
pub steps-le : {s t : State} (p : s ⟶* t) → steps p ≤ 3
steps-le {s} p = omega (arith, left-steps p, left-le s)

pub terminal_step :
    (s t : State) → valid_transition s t ≡ true → is_terminal s ≡ true → is_terminal t ≡ true
unfolding valid_transition is_terminal
terminal_step s t v h = ground arith

-- A job that has reached a terminal state stays in terminal states.
terminal_stays : {s t : State} → s ⟶* t → is_terminal s ≡ true → is_terminal t ≡ true
terminal_stays here h = h
terminal_stays (step {s} {t} v p) h = terminal_stays p (terminal_step s t v h)

pub deducts_step :
    (s t : State) → valid_transition s t ≡ true → deducts_quota t ≡ true → deducts_quota s ≡ true
unfolding valid_transition deducts_quota
deducts_step s t v h = ground arith

-- Quota that a job has given back is never taken again: along a path, a state that deducts quota
-- has only states that deduct quota before it.
pub deducts_before : {s t : State} → s ⟶* t → deducts_quota t ≡ true → deducts_quota s ≡ true
deducts_before here h = h
deducts_before (step {s} {t} v p) h = deducts_step s t v (deducts_before p h)

-- Every state but `Unknown` has a path to a terminal state.
pub terminal_reachable : (s : State) → s ≢ unknown → (t : State) × (s ⟶* t) × (is_terminal t ≡ true)
unfolding is_terminal valid_transition
terminal_reachable unknown h = absurd (h refl)
terminal_reachable quota_deducted h = (print_failed, step refl here, refl)
terminal_reachable print_sent h = (print_failed, step refl here, refl)
terminal_reachable quota_insufficient h = (quota_insufficient, here, refl)
terminal_reachable print_succeeded h = (print_succeeded, here, refl)
terminal_reachable print_failed h = (print_failed, here, refl)
terminal_reachable refunded h = (refunded, here, refl)

-- The names that the quota queries count are those of the states that deduct quota.
pub deducting_names :
    (s : State) → any (str_eq (name s)) quota_deducting_state_names ≡ deducts_quota s
unfolding quota_deducting_state_names deducts_quota name
deducting_names unknown = refl
deducting_names quota_insufficient = refl
deducting_names quota_deducted = refl
deducting_names print_sent = refl
deducting_names print_succeeded = refl
deducting_names print_failed = refl
deducting_names refunded = refl
