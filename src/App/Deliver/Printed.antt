-- ===== src/App/Deliver/Printed.antt =====
-- What a delivery does without printing anything: all but the attempts to send.
use piping.Prelude.{
  String, Bool-cases, ℕ, ℤ, Bool, Option, none, List, [], ◌∷◌, ◌≡◌, refl, ◌∙◌, inl, inr,
}
use piping.Error.{Result, ok, err}
use piping.Job.{State, valid_transition}
use piping.Queue.{
  Destination, LoadBalancerPolicy, unknown_policy, uniform_policy, enabled_destinations,
  load_balancer_from_policy,
}
use piping.Store.{Db}
use piping.Store.World.{World, Turn, Net, fine, lost, unacked, on_net, exec, query, take_turn}
use piping.Store.Jobs.{update_job_state}
use piping.Store.Queues.{destinations_for_queue, load_balancer_policy_for_queue}
use piping.App.Deliver.{pick_from, pick_enabled, pick_listed, pick_destination}
use piping.App.Postgres.{deliverer, pause, rand}

pub printed-on_net :
    {A : Type 0} (net : Net) (f : Db → Result A × Db) (w : World)
    → (on_net net f w).1.printed ≡ w.printed
printed-on_net fine f w = refl
printed-on_net lost f w = refl
printed-on_net unacked f w = refl

pub printed-take_turn :
    (lock : Option String) (w : World) → (take_turn lock w).1.printed ≡ w.printed
unfolding take_turn
printed-take_turn lock w = go w.turns refl
  where
    go : (ts : List Turn) → w.turns ≡ ts → (take_turn lock w).1.printed ≡ w.printed
    go [] e = rw (e, take_turn)
    go (t ∷ ts) e = rw (e, take_turn)

-- No call of the store prints.
pub printed-exec :
    {A : Type 0} (lock : Option String) (f : Db → Result A × Db) (w : World)
    → (exec lock f w).1.printed ≡ w.printed
unfolding exec
printed-exec lock f w =
    printed-on_net (take_turn lock w).0 f (take_turn lock w).1 ∙ printed-take_turn lock w

pub printed-query :
    {A : Type 0} (lock : Option String) (f : Db → Result A) (w : World)
    → (query lock f w).1.printed ≡ w.printed
unfolding query
printed-query lock f w = printed-exec lock (λ d. (f d, d)) w

pub printed-update :
    (id : ℕ) (from to : State) (w : World) → (update_job_state id from to w).1.printed ≡ w.printed
unfolding update_job_state
printed-update id from to w = elim (Bool-cases (valid_transition from to)) [
  | inl e ↦ rw e (printed-exec none _ w)
  | inr e ↦ rw e
]

pub printed-pause : (w : World) → (pause w).1.printed ≡ w.printed
unfolding pause
printed-pause w = go w.waits refl
  where
    go : (l : List Bool) → w.waits ≡ l → (pause w).1.printed ≡ w.printed
    go [] e = rw (e, pause)
    go (b ∷ l) e = rw (e, pause)

pub printed-rand : (w : World) → (rand w).1.printed ≡ w.printed
unfolding rand
printed-rand w = go w.rolls refl
  where
    go : (l : List ℕ) → w.rolls ≡ l → (rand w).1.printed ≡ w.printed
    go [] e = rw (e, rand)
    go (r ∷ l) e = rw (e, rand)

module _ (n : ℤ) where
  pub printed-pick_from :
      (dests : List Destination) (p : Result LoadBalancerPolicy) (w : World)
      → (pick_from (deliverer n) dests p w).1.printed ≡ w.printed
  unfolding deliverer load_balancer_from_policy
  printed-pick_from dests (err e) w = refl
  printed-pick_from dests (ok unknown_policy) w = refl
  printed-pick_from dests (ok uniform_policy) w = printed-rand w

  pub printed-pick_listed :
      (queue_id : ℕ) (r : Result (List Destination)) (w : World)
      → (pick_listed (deliverer n) queue_id r w).1.printed ≡ w.printed
  unfolding deliverer load_balancer_policy_for_queue
  printed-pick_listed queue_id (err e) w = refl
  printed-pick_listed queue_id (ok dests) w = go (enabled_destinations dests)
    where
      go : (l : List Destination) → (pick_enabled (deliverer n) queue_id l w).1.printed ≡ w.printed
      go [] = refl
      go (d ∷ l) = printed-pick_from (d ∷ l) _ _ ∙ printed-query none _ w

  pub printed-pick_destination :
      (queue_id : ℕ) (w : World) → (pick_destination (deliverer n) queue_id w).1.printed ≡ w.printed
  unfolding pick_destination deliverer destinations_for_queue
  printed-pick_destination queue_id w = printed-pick_listed queue_id _ _ ∙ printed-query none _ w
