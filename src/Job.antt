-- ===== src/Job.antt =====
-- internal/job/job.go: the states of a job, their names, and the transitions between them.
pub mod Machine
use piping.Prelude.{
  ℕ, ℤ, String, Bool, true, false, Option, List, [], ◌∷◌, str_eq, ◌==◌, any, if◌then◌else◌,
}
use piping.Error.{Result, ok, err, other}

pub data State : Type 0 where
  unknown quota_insufficient quota_deducted print_sent : State
  print_succeeded print_failed refunded : State

unfoldable pub name : State → String
name unknown = ""
name quota_insufficient = "quota_insufficient"
name quota_deducted = "quota_deducted"
name print_sent = "print_sent"
name print_succeeded = "print_succeeded"
name print_failed = "print_failed"
name refunded = "refunded"

-- Go compares the structs by their names, and the names are distinct (`Machine.name-injective`).
abbrev pub rank : State → ℕ
rank unknown = 0
rank quota_insufficient = 1
rank quota_deducted = 2
rank print_sent = 3
rank print_succeeded = 4
rank print_failed = 5
rank refunded = 6

abbrev pub eq_state : State → State → Bool
eq_state s t = rank s == rank t

abbrev pub all_states : List State
all_states =
    quota_insufficient ∷ quota_deducted ∷ print_sent ∷ print_succeeded ∷ print_failed ∷ refunded
    ∷ []

-- The loop of `StateFromString` over the states that are left.
named : String → List State → Result State
named s [] = err other
named s (st ∷ rest) = if str_eq (name st) s then ok st else named s rest

unfoldable pub state_from_string : String → Result State
unfolding named name
state_from_string s = named s all_states

unfoldable pub is_terminal : State → Bool
is_terminal quota_insufficient = true
is_terminal print_succeeded = true
is_terminal print_failed = true
is_terminal refunded = true
is_terminal _ = false

unfoldable pub deducts_quota : State → Bool
deducts_quota quota_deducted = true
deducts_quota print_sent = true
deducts_quota print_succeeded = true
deducts_quota _ = false

unfoldable pub quota_deducting_state_names : List String
unfolding name
quota_deducting_state_names = name quota_deducted ∷ name print_sent ∷ name print_succeeded ∷ []

unfoldable pub valid_transitions : State → List State
valid_transitions quota_deducted = print_sent ∷ print_failed ∷ []
valid_transitions print_sent = print_succeeded ∷ print_failed ∷ []
valid_transitions print_succeeded = refunded ∷ []
valid_transitions _ = []

unfoldable pub valid_transition : State → State → Bool
unfolding valid_transitions
valid_transition from to = any (λ t. eq_state t to) (valid_transitions from)

-- Times are instants of one clock. `Option` is a pointer that may be nil.
pub record Job : Type 0 where
  pub id : ℕ
  pub username : String
  pub queue_id : ℕ
  pub destination_id : Option ℕ
  pub state : State
  pub num_pages : ℤ
  pub num_color_pages : ℤ
  pub copies : ℤ
  pub cost : ℤ
  pub color : Bool
  pub duplex : Bool
  pub document_name : String
  pub submitted_at : ℕ
  pub completed_at : Option ℕ
  pub refunded_at : Option ℕ
