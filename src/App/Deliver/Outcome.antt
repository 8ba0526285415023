-- ===== src/App/Deliver/Outcome.antt =====
-- What the outcome of a delivery says of the job and of the printers, under every schedule in which
-- no one but the sweeper touches the job.
use piping.Prelude.{
  ℕ, zero, suc, ℤ, Bool, true, false, Option, none, some, List, [], ◌∷◌, ◌≡◌, refl,
}
use piping.Error.{Error, Result, ok, err, deadline_exceeded}
use piping.Job.{Job, State, quota_deducted, print_sent, valid_transition}
use piping.Queue.{
  Destination, LoadBalancerPolicy, unknown_policy, uniform_policy, enabled_destinations,
  load_balancer_from_policy,
}
use piping.Store.{Db}
use piping.Store.World.{World}
use piping.Store.Sound.{IsSound}
use piping.Store.View.{state_of}
use piping.Store.Cells.{SparesAll, InCell}
use piping.Store.Jobs.Guards.{waiting, waiting_self, update_rule, mark_rule}
use piping.Store.Queues.{destinations_for_queue, load_balancer_policy_for_queue}
use piping.App.Deliver.{
  DeliveryOutcome, delivery_failed, delivery_succeeded, Deliverer, target, resolution, resolve,
  after_last, after_pause, after_attempt, send_loop, deliver_to, send_marked, pick_from,
  pick_enabled, pick_listed, pick_destination, deliver,
}
use piping.App.Deliver.Waits.{Waits, Waits-blind, send-keeps, pause-keeps, rand-keeps, query-Waits}
use piping.App.Postgres.{deliverer, send, pause}

-- What `(outcome, nil)` promises of the job `id`; an error promises nothing but that the database is sound.
abbrev pub Promise : ℕ → DeliveryOutcome × Option Error → Db → Type 0
Promise id (out, none) d = state_of id d ≡ some (target out)
Promise id (out, some e) d = Unit

abbrev pub Told : ℕ → (DeliveryOutcome × Option Error) × World → Type 0
Told id (res, w) = IsSound w.db × Promise id res w.db

module _ (n : ℤ) (id : ℕ) where
  abbrev sys : Deliverer World
  sys = deliverer n

  -- Telling the outcome is truthful whenever the job still waits in `from`.
  resolve-Told :
      (from : State) (out : DeliveryOutcome) (w : World)
      → valid_transition from (target out) ≡ true
      → SparesAll id w.turns
      → InCell id (waiting from) w.db
      → Told id (resolve sys id from out w)
  unfolding resolve deliverer
  resolve-Told from out w v spares c =
      update_rule id w (λ p. Told id (resolution out p.0, p.1)) from (target out) v spares c
        (record {
          done = λ d ts h s at. (s, at);
          failed = λ d ts h s at. (s, at);
          unanswered = λ d ts h s. (s, tt);
        })

  sent_failed :
      (w : World) → Waits id print_sent w → Told id (resolve sys id print_sent delivery_failed w)
  sent_failed w (h, c) =
      resolve-Told print_sent delivery_failed w (unfold valid_transition target in refl) h c

  sent_succeeded :
      (w : World) → Waits id print_sent w → Told id (resolve sys id print_sent delivery_succeeded w)
  sent_succeeded w (h, c) =
      resolve-Told print_sent delivery_succeeded w (unfold valid_transition target in refl) h c

  after_last-Told :
      (a : Option Error) (w : World) → Waits id print_sent w → Told id (after_last sys id a w)
  after_last-Told none w h = sent_succeeded w h
  after_last-Told (some e) w h = sent_failed w h

  module _ (next : World → (DeliveryOutcome × Option Error) × World)
      (told : (w : World) → Waits id print_sent w → Told id (next w)) where
    after_pause-Told :
        (b : Bool) (w : World) → Waits id print_sent w → Told id (after_pause sys id next b w)
    after_pause-Told true w h = sent_failed w h
    after_pause-Told false w h = told w h

    after_attempt-Told :
        (a : Option Error) (w : World)
        → Waits id print_sent w
        → Told id (after_attempt sys id next a w)
    unfolding deliverer
    after_attempt-Told none w h = sent_succeeded w h
    after_attempt-Told (some deadline_exceeded) w h = sent_failed w h
    after_attempt-Told (some e) w h =
        after_pause-Told (pause w).0 (pause w).1
          (pause-keeps (Waits id print_sent) (Waits-blind id print_sent) w h)

  send_loop-Told :
      (dest : Destination) (doc : List ℕ) (left : ℕ) (w : World)
      → Waits id print_sent w
      → Told id (send_loop sys id dest doc left w)
  unfolding send_loop deliverer
  send_loop-Told dest doc zero w h =
      after_last-Told (send dest doc w).0 (send dest doc w).1
        (send-keeps (Waits id print_sent) (Waits-blind id print_sent) dest doc w h)
  send_loop-Told dest doc (suc left) w h =
      after_attempt-Told (send_loop sys id dest doc left) (send_loop-Told dest doc left)
        (send dest doc w).0 (send dest doc w).1
        (send-keeps (Waits id print_sent) (Waits-blind id print_sent) dest doc w h)

  module _ (from : State) where
    pick_from-Waits :
        (dests : List Destination) (p : Result LoadBalancerPolicy) (w : World)
        → Waits id from w
        → Waits id from (pick_from sys dests p w).1
    unfolding deliverer load_balancer_from_policy
    pick_from-Waits dests (err e) w h = h
    pick_from-Waits dests (ok unknown_policy) w h = h
    pick_from-Waits dests (ok uniform_policy) w h =
        rand-keeps (Waits id from) (Waits-blind id from) w h

    pick_enabled-Waits :
        (queue_id : ℕ) (dests : List Destination) (w : World)
        → Waits id from w
        → Waits id from (pick_enabled sys queue_id dests w).1
    unfolding deliverer load_balancer_policy_for_queue
    pick_enabled-Waits queue_id [] w h = h
    pick_enabled-Waits queue_id (x ∷ dests) w h =
        pick_from-Waits (x ∷ dests) _ _ (query-Waits id from _ w h)

    pick_listed-Waits :
        (queue_id : ℕ) (r : Result (List Destination)) (w : World)
        → Waits id from w
        → Waits id from (pick_listed sys queue_id r w).1
    pick_listed-Waits queue_id (err e) w h = h
    pick_listed-Waits queue_id (ok dests) w h =
        pick_enabled-Waits queue_id (enabled_destinations dests) w h

    pick_destination-Waits :
        (queue_id : ℕ) (w : World)
        → Waits id from w
        → Waits id from (pick_destination sys queue_id w).1
    unfolding pick_destination deliverer destinations_for_queue
    pick_destination-Waits queue_id w h = pick_listed-Waits queue_id _ _ (query-Waits id from _ w h)

module _ (n : ℤ) (j : Job) (doc : List ℕ) where
  deliver_to-Told :
      (r : Result Destination) (w : World)
      → Waits j.id quota_deducted w
      → Told j.id (deliver_to (deliverer n) j doc r w)
  unfolding deliverer target
  deliver_to-Told (err e) w (h, c) =
      resolve-Told n j.id quota_deducted delivery_failed w (unfold valid_transition target in refl)
        h c
  deliver_to-Told (ok dest) w (h, c) =
      mark_rule j.id w (λ p. Told j.id (send_marked (deliverer n) j dest doc p.0 p.1)) dest.id h c
        (record {
          done = λ d ts h' s at. send_loop-Told n j.id dest _ _ _ (
            h',
            record { sound = s; now = print_sent; at = at; allowed = waiting_self print_sent },
          );
          failed = λ d ts h' s at. (s, at);
          unanswered = λ d ts h' s. (s, tt);
        })

  -- Whatever the network, the printers and the load balancer do, and whatever other processes commit in
  -- between, as long as they do nothing to this job but fail it as the sweeper does: a job in
  -- `quota_deducted` or `print_failed` whose delivery is reported as a success is in `print_succeeded`, and
  -- one whose delivery is reported as failed without an error is in `print_failed`. The database, if it was
  -- sound, stays sound in every case.
  pub deliver-truthful :
      (w : World)
      → SparesAll j.id w.turns
      → InCell j.id (waiting quota_deducted) w.db
      → Told j.id (deliver (deliverer n) j doc w)
  unfolding deliver
  deliver-truthful w h c =
      deliver_to-Told _ _ (pick_destination-Waits n j.id quota_deducted j.queue_id w (h, c))
