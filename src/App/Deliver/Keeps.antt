-- ===== src/App/Deliver/Keeps.antt =====
-- Conditions that each call of a delivery keeps.
use piping.Prelude.{ℕ, zero, suc, Bool, true, false, Option, none, some, List, [], ◌∷◌}
use piping.Error.{Error, Result, ok, err, unexpected_state, deadline_exceeded}
use piping.Job.{Job, State, quota_deducted, print_sent}
use piping.Queue.{
  Destination, LoadBalancerPolicy, unknown_policy, uniform_policy, enabled_destinations,
  load_balancer_from_policy,
}
use piping.App.Deliver.{
  DeliveryOutcome, delivery_failed, delivery_succeeded, Deliverer, target, resolve, after_last,
  after_pause, after_attempt, send_loop, send_marked, deliver_to, pick_from, pick_enabled,
  pick_listed, pick_destination, deliver,
}

-- Each call of the deliverer's interfaces keeps `P`.
pub record IsKept {S : Type 0} (d : Deliverer S) (P : S → Type 0) : Type 0 where
  pub sends : (dest : Destination) (doc : List ℕ) (s : S) → P s → P (d.sender.send dest doc s).1
  pub pauses : (s : S) → P s → P (d.pause s).1
  pub rolls : (s : S) → P s → P (d.rand s).1
  pub lists : (q : ℕ) (s : S) → P s → P (d.queues.destinations_for_queue q s).1
  pub reads : (q : ℕ) (s : S) → P s → P (d.queues.load_balancer_policy_for_queue q s).1
  pub updates :
      (id : ℕ) (from to : State) (s : S) → P s → P (d.jobs.update_job_state id from to s).1
  pub marks : (id dest : ℕ) (s : S) → P s → P (d.jobs.mark_sent id dest s).1

module _ {S : Type 0} (d : Deliverer S) (P : S → Type 0) (kept : IsKept d P) where
  resolve-kept :
      (id : ℕ) (from : State) (out : DeliveryOutcome) (s : S) → P s → P (resolve d id from out s).1
  unfolding resolve
  resolve-kept id from out s h = kept.updates id from (target out) s h

  after_last-kept : (id : ℕ) (a : Option Error) (s : S) → P s → P (after_last d id a s).1
  after_last-kept id none s h = resolve-kept id print_sent delivery_succeeded s h
  after_last-kept id (some e) s h = resolve-kept id print_sent delivery_failed s h

  module _ (id : ℕ) (next : S → (DeliveryOutcome × Option Error) × S)
      (keeps : (s : S) → P s → P (next s).1) where
    after_pause-kept : (b : Bool) (s : S) → P s → P (after_pause d id next b s).1
    after_pause-kept true s h = resolve-kept id print_sent delivery_failed s h
    after_pause-kept false s h = keeps s h

    after_attempt-kept : (a : Option Error) (s : S) → P s → P (after_attempt d id next a s).1
    after_attempt-kept none s h = resolve-kept id print_sent delivery_succeeded s h
    after_attempt-kept (some deadline_exceeded) s h = resolve-kept id print_sent delivery_failed s h
    after_attempt-kept (some e) s h = after_pause-kept (d.pause s).0 (d.pause s).1 (kept.pauses s h)

  send_loop-kept :
      (id : ℕ) (dest : Destination) (doc : List ℕ) (left : ℕ) (s : S)
      → P s
      → P (send_loop d id dest doc left s).1
  unfolding send_loop
  send_loop-kept id dest doc zero s h = after_last-kept id _ _ (kept.sends dest doc s h)
  send_loop-kept id dest doc (suc left) s h =
      after_attempt-kept id (send_loop d id dest doc left) (send_loop-kept id dest doc left) _ _
        (kept.sends dest doc s h)

  pick_from-kept :
      (dests : List Destination) (p : Result LoadBalancerPolicy) (s : S)
      → P s
      → P (pick_from d dests p s).1
  unfolding load_balancer_from_policy
  pick_from-kept dests (err e) s h = h
  pick_from-kept dests (ok unknown_policy) s h = h
  pick_from-kept dests (ok uniform_policy) s h = kept.rolls s h

  pick_enabled-kept :
      (queue_id : ℕ) (dests : List Destination) (s : S)
      → P s
      → P (pick_enabled d queue_id dests s).1
  pick_enabled-kept queue_id [] s h = h
  pick_enabled-kept queue_id (x ∷ dests) s h =
      pick_from-kept (x ∷ dests) _ _ (kept.reads queue_id s h)

  pick_listed-kept :
      (queue_id : ℕ) (r : Result (List Destination)) (s : S)
      → P s
      → P (pick_listed d queue_id r s).1
  pick_listed-kept queue_id (err e) s h = h
  pick_listed-kept queue_id (ok dests) s h =
      pick_enabled-kept queue_id (enabled_destinations dests) s h

  send_marked-kept :
      (j : Job) (dest : Destination) (doc : List ℕ) (r : Result (Unit {0})) (s : S)
      → P s
      → P (send_marked d j dest doc r s).1
  send_marked-kept j dest doc (ok _) s h = send_loop-kept j.id dest _ _ s h
  send_marked-kept j dest doc (err unexpected_state) s h = h
  send_marked-kept j dest doc (err e) s h = h

  deliver_to-kept :
      (j : Job) (doc : List ℕ) (r : Result Destination) (s : S) → P s → P (deliver_to d j doc r s).1
  deliver_to-kept j doc (err e) s h = resolve-kept j.id quota_deducted delivery_failed s h
  deliver_to-kept j doc (ok dest) s h =
      send_marked-kept j dest doc _ _ (kept.marks j.id dest.id s h)

  pub deliver-kept : (j : Job) (doc : List ℕ) (s : S) → P s → P (deliver d j doc s).1
  unfolding deliver pick_destination
  deliver-kept j doc s h =
      deliver_to-kept j doc _ _ (pick_listed-kept j.queue_id _ _ (kept.lists j.queue_id s h))
