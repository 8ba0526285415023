-- ===== src/App/Deliver.antt =====
-- internal/app/deliver.go: one delivery of one job.
pub mod Waits
mod Printed
pub mod Keeps
pub mod Outcome
pub mod Attempts
use piping.Prelude.{
  ℕ, zero, suc, ◌-◌, ℤ, pos, ltb_ℤ, pos_part, Bool, true, false, Option, none, some, List, [], ◌∷◌,
  if◌then◌else◌,
}
use piping.Error.{Error, Result, ok, err, other, unexpected_state, deadline_exceeded}
use piping.Job.{Job, State, quota_deducted, print_sent, print_succeeded, print_failed}
use piping.Queue.{
  Destination, LoadBalancerPolicy, enabled_destinations, load_balancer_from_policy, choose,
}
use piping.PrintTicket.{from_job, xcpt}

-- `unset` is the value `DeliveryOutcome{}`.
pub data DeliveryOutcome : Type 0 where
  unset delivery_failed delivery_succeeded : DeliveryOutcome

pub record Sender (S : Type 0) : Type 0 where
  pub send : Destination → List ℕ → S → Option Error × S

pub record DeliveryJobStore (S : Type 0) : Type 0 where
  pub update_job_state : ℕ → State → State → S → Result (Unit {0}) × S
  pub mark_sent : ℕ → ℕ → S → Result (Unit {0}) × S

pub record DeliveryQueueStore (S : Type 0) : Type 0 where
  pub destinations_for_queue : ℕ → S → Result (List Destination) × S
  pub load_balancer_policy_for_queue : ℕ → S → Result LoadBalancerPolicy × S

-- `pause` waits `retryWait` and says whether the send context, which ends after `timeout`, is done;
-- `rand` draws a number for the load balancer.
pub record Deliverer (S : Type 0) : Type 0 where
  pub sender : Sender S
  pub jobs : DeliveryJobStore S
  pub queues : DeliveryQueueStore S
  pub max_attempts : ℕ
  pub pause : S → Bool × S
  pub rand : S → ℕ × S

unfoldable pub target : DeliveryOutcome → State
target delivery_succeeded = print_succeeded
target _ = print_failed

-- The result of `resolve`, from the answer of `UpdateJobState`.
abbrev pub resolution : DeliveryOutcome → Result (Unit {0}) → DeliveryOutcome × Option Error
resolution out (ok _) = (out, none)
resolution out (err unexpected_state) = (delivery_failed, none)
resolution out (err e) = (out, some e)

module _ {S : Type 0} where
  -- There is always at least one attempt.
  unfoldable pub new_deliverer :
      Sender S
      → DeliveryJobStore S
      → DeliveryQueueStore S
      → (S → Bool × S)
      → (S → ℕ × S)
      → ℤ
      → Deliverer S
  new_deliverer s j q pause rand n = record {
    sender = s;
    jobs = j;
    queues = q;
    max_attempts = if ltb_ℤ n (pos 1) then 1 else pos_part n;
    pause = pause;
    rand = rand;
  }

  unfoldable pub resolve :
      Deliverer S → ℕ → State → DeliveryOutcome → S → (DeliveryOutcome × Option Error) × S
  unfolding target
  resolve d id from out s =
      let (r, s') = d.jobs.update_job_state id from (target out) s in (resolution out r, s')

  abbrev pub pick_from :
      Deliverer S → List Destination → Result LoadBalancerPolicy → S → Result Destination × S
  pick_from d dests (err e) s = (err e, s)
  pick_from d dests (ok p) s = elim (load_balancer_from_policy p) [
    | err e ↦ (err e, s)
    | ok lb ↦ let (roll, s') = d.rand s in (choose lb roll dests, s')
  ]

  abbrev pub pick_enabled : Deliverer S → ℕ → List Destination → S → Result Destination × S
  pick_enabled d queue_id [] s = (err other, s)
  pick_enabled d queue_id (x ∷ dests) s =
      let (p, s') = d.queues.load_balancer_policy_for_queue queue_id s in
      pick_from d (x ∷ dests) p s'

  abbrev pub pick_listed : Deliverer S → ℕ → Result (List Destination) → S → Result Destination × S
  pick_listed d queue_id (err e) s = (err e, s)
  pick_listed d queue_id (ok dests) s = pick_enabled d queue_id (enabled_destinations dests) s

  unfoldable pub pick_destination : Deliverer S → ℕ → S → Result Destination × S
  pick_destination d queue_id s =
      let (r, s') = d.queues.destinations_for_queue queue_id s in pick_listed d queue_id r s'

  -- After the last attempt there is no pause.
  abbrev pub after_last : Deliverer S → ℕ → Option Error → S → (DeliveryOutcome × Option Error) × S
  after_last d id none s = resolve d id print_sent delivery_succeeded s
  after_last d id (some e) s = resolve d id print_sent delivery_failed s

  -- The `select` of the loop: the context is done, or the next attempt follows.
  abbrev pub after_pause :
      Deliverer S
      → ℕ
      → (S → (DeliveryOutcome × Option Error) × S)
      → Bool
      → S
      → (DeliveryOutcome × Option Error) × S
  after_pause d id next true s = resolve d id print_sent delivery_failed s
  after_pause d id next false s = next s

  abbrev pub after_attempt :
      Deliverer S
      → ℕ
      → (S → (DeliveryOutcome × Option Error) × S)
      → Option Error
      → S
      → (DeliveryOutcome × Option Error) × S
  after_attempt d id next none s = resolve d id print_sent delivery_succeeded s
  after_attempt d id next (some deadline_exceeded) s = resolve d id print_sent delivery_failed s
  after_attempt d id next (some e) s =
      let (overdue, s') = d.pause s in after_pause d id next overdue s'

  -- The loop over the attempts; `left` are those that may follow this one.
  unfoldable pub send_loop :
      Deliverer S → ℕ → Destination → List ℕ → ℕ → S → (DeliveryOutcome × Option Error) × S
  unfolding resolve
  send_loop d id dest doc zero s =
      let (answer, s') = d.sender.send dest doc s in after_last d id answer s'
  send_loop d id dest doc (suc left) s =
      let (answer, s') = d.sender.send dest doc s in
      after_attempt d id (send_loop d id dest doc left) answer s'

  abbrev pub send_marked :
      Deliverer S
      → Job
      → Destination
      → List ℕ
      → Result (Unit {0})
      → S
      → (DeliveryOutcome × Option Error) × S
  send_marked d j dest doc (err unexpected_state) s = ((delivery_failed, none), s)
  send_marked d j dest doc (err e) s = ((delivery_failed, some e), s)
  send_marked d j dest doc (ok _) s =
      send_loop d j.id dest (xcpt (from_job j) doc) (d.max_attempts - 1) s

  abbrev pub deliver_to :
      Deliverer S → Job → List ℕ → Result Destination → S → (DeliveryOutcome × Option Error) × S
  deliver_to d j doc (err e) s = resolve d j.id quota_deducted delivery_failed s
  deliver_to d j doc (ok dest) s =
      let (r, s') = d.jobs.mark_sent j.id dest.id s in send_marked d j dest doc r s'

  unfoldable pub deliver : Deliverer S → Job → List ℕ → S → (DeliveryOutcome × Option Error) × S
  unfolding send_loop pick_destination
  deliver d j doc s = let (r, s') = pick_destination d j.queue_id s in deliver_to d j doc r s'
