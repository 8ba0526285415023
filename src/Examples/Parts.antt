-- ===== src/Examples/Parts.antt =====
-- Theorems on the parts without state (internal/job, quota, queue, semester, user), at concrete inputs.
use piping.PrintTicket.{Attributes, xcpt, xpif_lines, uel, crlf}
use piping.PrintTicket.Lines.{read_lines, ended, ticket_line, read_lines-xcpt}
use piping.Prelude.{
  map, List, ◌++◌, ℕ, ◌≤◌, ◌*◌, pos, ◌↔◌, true, [], ◌∷◌, ◌≡◌, refl, arith, str_eq, any, inr, Among,
}
use piping.Error.{ok}
use piping.Job.{
  State, quota_deducted, print_sent, print_succeeded, refunded, name, is_terminal,
  quota_deducting_state_names, valid_transition, deducts_quota,
}
use piping.Job.Machine.{
  ◌⟶*◌, here, step, steps, steps-le, deducts_before, deducting_names, terminal_reachable,
}
use piping.Quota.{cost}
use piping.Quota.Bounds.{at_rate, price, cost_exact}
use piping.Queue.{Destination, uniform_balancer, enabled_destinations, choose}
use piping.Queue.Balance.{choose-enabled}
use piping.Semester.{code, name as name_of_code, current}
use piping.Semester.RoundTrip.{code-name, current_exact, IsStart}
use piping.Decimal.{codes}
use piping.App.Provision.{entitled_codes}
use piping.App.Provision.Quota.{entitled_codes-Among}
use piping.Prelude.{ℕ, ◌+◌, ◌*◌, ◌<◌, ◌++◌, ◌⊎◌, leb_ℤ}
use piping.Examples.Samples.{department, alice}

cost_exact_example :
    (cost (at_rate 5) (pos 10) (pos 3) ≡ pos (price 5 10 3))
    × (10 ≤ price 5 10 3)
    × (price 5 10 3 ≤ 10 * 5)
cost_exact_example = cost_exact 10 3 5 (omega arith) (omega arith) (ground arith)

choose-enabled_example :
    (d : Destination) × (choose uniform_balancer 5 (enabled_destinations department.destinations)
      ≡ ok d)
    × (d.enabled ≡ true)
    × Among d department.destinations
choose-enabled_example =
    choose-enabled uniform_balancer 5 department.destinations
      (unfold enabled_destinations in ground arith)

abbrev whole_life : quota_deducted ⟶* refunded
whole_life =
    unfold valid_transition in
    step {t = print_sent} refl (step {t = print_succeeded} refl (step {t = refunded} refl here))

steps-le_example : steps whole_life ≤ 3
steps-le_example = steps-le whole_life

deducts_before_example : deducts_quota quota_deducted ≡ true
deducts_before_example =
    deducts_before
      (step {s = quota_deducted} {t = print_sent} (unfold valid_transition in refl) here)
      (unfold deducts_quota in refl)

terminal_reachable_example : (t : State) × (print_sent ⟶* t) × (is_terminal t ≡ true)
terminal_reachable_example = terminal_reachable print_sent (ground arith)

deducting_names_example :
    any (str_eq (name print_sent)) quota_deducting_state_names ≡ deducts_quota print_sent
deducting_names_example = deducting_names print_sent

code-name_example : code (name_of_code (pos (2026 * 100 + 9))) ≡ ok (pos (2026 * 100 + 9))
code-name_example = code-name 2026 9 (inr (inr refl)) (ground arith)

current_exact_example :
    (m : ℕ) × IsStart m × (m ≤ 11) × (11 < m + 4) × (current (pos 2026) 11 ≡ pos (2026 * 100 + m))
current_exact_example = current_exact 2026 11 (ground arith) (ground arith) (ground arith)

entitled_codes-Among_example :
    Among (pos 202601) (entitled_codes alice (pos 202609))
    ↔ (true ≡ true) × (pos 202609 ≡ pos 202601)
      ⊎ (Among (pos 202601) alice.enrolments × (leb_ℤ (pos 202601) (pos 202609) ≡ true))
entitled_codes-Among_example = entitled_codes-Among alice (pos 202609) (pos 202601)

-- A user name with a line break and a command of the printer in it.
abbrev odd_ticket : Attributes
odd_ticket = record {
  copies = pos 2;
  sides = codes "one-sided";
  color_mode = codes "color";
  job_name = codes "piping-job-7";
  user = 13 ∷ 10 ∷ codes "@PJL <x>";
}

read_lines-xcpt_example :
    (body : List ℕ) × (xcpt odd_ticket (37 ∷ 80 ∷ []) ≡ uel ++ body)
    × (read_lines 26 body ≡ (
      ended (codes "@PJL JOB")
          ∷ (map (λ l. ended (ticket_line l)) (xpif_lines odd_ticket)
              ++ ended (codes "@PJL ENTER LANGUAGE=PDF") ∷ []),
      (37 ∷ 80 ∷ []) ++ (uel ++ (crlf (codes "@PJL EOJ") ++ uel)),
    ))
read_lines-xcpt_example = read_lines-xcpt odd_ticket (37 ∷ 80 ∷ [])

abbrev refused_run : List ℕ
refused_run = codes "NT_STATUS_LOGON_FAILURE: tree NT_STATUS_LOGON_FAILURE"
