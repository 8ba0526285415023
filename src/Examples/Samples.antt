-- ===== src/Examples/Samples.antt =====
-- A small department with one queue, one user and one job.
use piping.Prelude.{
  pos, ◌+ℤ◌, ◌≤ℤ◌, String, true, false, none, [], ◌∷◌, refl, arith, str_eq, any, Bool-cases, inl,
  inr,
}
use piping.Error.{ok}
use piping.Job.{Job, quota_deducted, print_failed, name, is_terminal, quota_deducting_state_names}
use piping.Queue.{Destination}
use piping.Store.{Db, granted, counts, spent}
use piping.Store.World.{updates, waits, fine, refused, World}
use piping.Store.Sound.{IsSound, IsRow}
use piping.Store.View.{state_of}
use piping.Store.Cells.{InCell}
use piping.Store.Jobs.Guards.{waiting}
use piping.App.Submit.{SubmitInput}
use piping.App.Postgres.{Config}
use piping.User.{User, role_user}
use piping.Prelude.{ℕ, List}

abbrev pub print_job : Job
print_job = record {
  id = 1;
  username = "alice";
  queue_id = 7;
  destination_id = none;
  state = quota_deducted;
  num_pages = pos 4;
  num_color_pages = pos 2;
  copies = pos 1;
  cost = pos 12;
  color = true;
  duplex = false;
  document_name = "thesis.pdf";
  submitted_at = 40;
  completed_at = none;
  refunded_at = none;
}

abbrev pub left_printer : Destination
left_printer = record { id = 3; queue_id = 7; address = "//p/left"; name = "left"; enabled = false }

abbrev pub right_printer : Destination
right_printer = record {
  id = 4;
  queue_id = 7;
  address = "//p/right";
  name = "right";
  enabled = true;
}

-- "Fall 26"
abbrev name_of_semester : List ℕ
name_of_semester = 70 ∷ 97 ∷ 108 ∷ 108 ∷ 32 ∷ 50 ∷ 54 ∷ []

abbrev pub department : Db
department = record {
  users = "alice" ∷ [];
  semesters = record { id = pos 1; name = name_of_semester; default_quota = pos 100 } ∷ [];
  grants = record { user_id = "alice"; semester_id = pos 1; amount = pos 100 } ∷ [];
  queues = record { id = 7; name = "main"; enabled = true; policy = "uniform" } ∷ [];
  destinations = left_printer ∷ right_printer ∷ [];
  jobs = print_job ∷ [];
  next_job = 2;
  clock = 50;
}

print_job-IsRow : IsRow print_job
print_job-IsRow = record {
  pages_pos = ground arith;
  color_nonneg = ground arith;
  color_within = ground arith;
  copies_pos = ground arith;
  cost_pos = ground arith;
  state_known = ground arith;
  completed = unfold is_terminal in refl;
  refund_dated = refl;
}

solvent : (u : String) → spent u department.jobs ≤ℤ granted u department.grants
unfolding spent granted counts ◌+ℤ◌
solvent u = elim (Bool-cases (str_eq "alice" u)) [
  | inl e ↦
      rw e (elim (Bool-cases (any (str_eq (name quota_deducted)) quota_deducting_state_names)) [
        | inl y ↦ rw y (omega arith)
        | inr n ↦ rw n (omega arith)
      ])
  | inr e ↦ rw e (omega arith)
]

pub department-IsSound : IsSound department
department-IsSound = record {
  rows = (print_job-IsRow, tt);
  fresh = (omega arith, tt);
  distinct = (tt, tt);
  amounts = (ground arith, tt);
  solvent = solvent;
}

-- Another user is granted quota before the first statement, the sweeper fails the job before the
-- third, and the first attempt to print is refused.
abbrev pub scene : World
scene = record {
  db = department;
  turns =
      record { others = waits 3 ∷ []; net = fine }
      ∷ record { others = []; net = fine }
      ∷ record { others = updates 1 quota_deducted print_failed ∷ []; net = fine }
      ∷ [];
  attempts = refused false ∷ [];
  waits = false ∷ [];
  rolls = 5 ∷ [];
  printed = [];
}

abbrev pub config : Config
config = record {
  gs = λ doc. ok (pos 3, pos 1);
  rates = record { color_rate = pos 5 };
  max_bytes = pos 1000;
  max_pages = pos 100;
  max_copies = pos 10;
  max_send_attempts = pos 3;
}

-- "%PDF-1"
abbrev pub upload : SubmitInput
upload = record {
  username = "alice";
  queue_id = 7;
  document = 37 ∷ 80 ∷ 68 ∷ 70 ∷ 45 ∷ 49 ∷ [];
  color = true;
  duplex = true;
  copies = pos 2;
  filename = "notes.pdf";
}

pub print_job-InCell : InCell 1 (waiting quota_deducted) department
print_job-InCell = record {
  sound = department-IsSound;
  now = quota_deducted;
  at = unfold state_of in refl;
  allowed = refl;
}

abbrev pub alice : User
alice = record {
  username = "alice";
  full_name = "Alice";
  email = "alice@campus";
  role = role_user;
  quota_eligible = true;
  enrolments = pos 202601 ∷ pos 202701 ∷ [];
}
