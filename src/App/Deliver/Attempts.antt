-- ===== src/App/Deliver/Attempts.antt =====
-- What a delivery (internal/app/deliver.go) prints, and how often.
use piping.Prelude.{
  ◌≢◌, ℕ, zero, suc, ◌+◌, ◌-◌, ◌≤◌, ℤ, pos, ltb_ℤ, pos_part, Bool, true, false, Option, none, some,
  List, [], ◌∷◌, ◌≡◌, refl, subst, arith, length, Among, inl, if◌then◌else◌,
}
use piping.Error.{Error, Result, ok, err, unexpected_state, deadline_exceeded}
use piping.Job.{Job, State, print_sent}
use piping.Queue.{Destination}
use piping.PrintTicket.{from_job, xcpt}
use piping.Store.World.{World, Attempt, delivered, refused, timed_out}
use piping.Store.Jobs.{mark_sent}
use piping.App.Deliver.{
  DeliveryOutcome, delivery_failed, delivery_succeeded, Deliverer, target, resolution, resolve,
  after_last, after_pause, after_attempt, send_loop, send_marked, deliver_to, pick_destination,
  deliver,
}
use piping.App.Deliver.Printed.{
  printed-exec, printed-update, printed-pause, printed-pick_destination,
}
use piping.App.Postgres.{deliverer, send, pause}

-- One attempt prints once at most, and a successful one prints.
record IsAttempt (x : ℕ × List ℕ) (before after : List (ℕ × List ℕ)) (answer : Option Error)
    : Type 0 where
  once : length after ≤ length before + 1
  shown : answer ≡ none → Among x after

send-IsAttempt :
    (dest : Destination) (doc : List ℕ) (w : World)
    → IsAttempt (dest.id, doc) w.printed (send dest doc w).1.printed (send dest doc w).0
unfolding send
send-IsAttempt dest doc w = go w.attempts refl
  where
    go :
        (l : List Attempt)
        → w.attempts ≡ l
        → IsAttempt (dest.id, doc) w.printed (send dest doc w).1.printed (send dest doc w).0
    go [] e = rw (e, send) (record { once = omega arith; shown = λ _. inl refl })
    go (delivered ∷ l) e = rw (e, send) (record { once = omega arith; shown = λ _. inl refl })
    go (refused true ∷ l) e = rw (e, send) (record { once = omega arith; shown = λ p. cc })
    go (refused false ∷ l) e = rw (e, send) (record { once = omega arith; shown = λ p. cc })
    go (timed_out true ∷ l) e = rw (e, send) (record { once = omega arith; shown = λ p. cc })
    go (timed_out false ∷ l) e = rw (e, send) (record { once = omega arith; shown = λ p. cc })

-- What a delivery may say: the document is on a printer, if it says that it succeeded.
abbrev pub Reported : Type 0
Reported = (DeliveryOutcome × Option Error) × World

pub record IsHonest (k : ℕ) (x : ℕ × List ℕ) (before : List (ℕ × List ℕ)) (res : Reported)
    : Type 0 where
  pub bounded : length res.1.printed ≤ length before + k
  pub shown : res.0 ≡ (delivery_succeeded, none) → Among x res.1.printed

-- A failure is never told as a success.
failure_told : (r : Result (Unit {0})) → resolution delivery_failed r ≢ (delivery_succeeded, none)
failure_told (ok _) e = cc
failure_told (err unexpected_state) e = cc
failure_told (err x) e = cc

module _ (n : ℤ) (id : ℕ) (x : ℕ × List ℕ) where
  abbrev sys : Deliverer World
  sys = deliverer n

  resolve_failed :
      (k : ℕ) (before : List (ℕ × List ℕ)) (from : State) (w : World)
      → length w.printed ≤ length before + k
      → IsHonest k x before (resolve sys id from delivery_failed w)
  unfolding resolve deliverer target
  resolve_failed k before from w h = record {
    bounded = rw printed-update h;
    shown = λ e. absurd (failure_told _ e);
  }

  resolve_succeeded :
      (k : ℕ) (before : List (ℕ × List ℕ)) (w : World)
      → length w.printed ≤ length before + k
      → Among x w.printed
      → IsHonest k x before (resolve sys id print_sent delivery_succeeded w)
  unfolding resolve deliverer target
  resolve_succeeded k before w h a = record {
    bounded = rw printed-update h;
    shown = λ e. rw printed-update a;
  }

module _ (n : ℤ) (id : ℕ) (dest : Destination) (doc : List ℕ) (k : ℕ)
    (before : List (ℕ × List ℕ)) where
  abbrev x : ℕ × List ℕ
  x = (dest.id, doc)

  abbrev Fits : ℕ → World → Type 0
  Fits m w = length w.printed + m ≤ length before + k

  after_last-IsHonest :
      (a : Option Error) (w : World)
      → Fits 0 w
      → (a ≡ none → Among x w.printed)
      → IsHonest k x before (after_last (deliverer n) id a w)
  after_last-IsHonest none w h shown =
      resolve_succeeded n id x k before w (omega arith) (shown refl)
  after_last-IsHonest (some e) w h shown = resolve_failed n id x k before print_sent w (omega arith)

  module _ (left : ℕ) (next : World → Reported)
      (honest : (w : World) → Fits (suc left) w → IsHonest k x before (next w)) where
    after_pause-IsHonest :
        (b : Bool) (w : World)
        → Fits (suc left) w
        → IsHonest k x before (after_pause (deliverer n) id next b w)
    after_pause-IsHonest true w h = resolve_failed n id x k before print_sent w (omega arith)
    after_pause-IsHonest false w h = honest w h

    after_attempt-IsHonest :
        (a : Option Error) (w : World)
        → Fits (suc left) w
        → (a ≡ none → Among x w.printed)
        → IsHonest k x before (after_attempt (deliverer n) id next a w)
    unfolding deliverer
    after_attempt-IsHonest none w h shown =
        resolve_succeeded n id x k before w (omega arith) (shown refl)
    after_attempt-IsHonest (some deadline_exceeded) w h shown =
        resolve_failed n id x k before print_sent w (omega arith)
    after_attempt-IsHonest (some e) w h shown =
        after_pause-IsHonest (pause w).0 (pause w).1 (rw printed-pause h)

  send_loop-IsHonest :
      (left : ℕ) (w : World)
      → Fits (suc left) w
      → IsHonest k x before (send_loop (deliverer n) id dest doc left w)
  unfolding send_loop deliverer
  send_loop-IsHonest zero w h =
      let a = send-IsAttempt dest doc w in
      after_last-IsHonest (send dest doc w).0 (send dest doc w).1 (omega (arith, a.once)) a.shown
  send_loop-IsHonest (suc left) w h =
      let a = send-IsAttempt dest doc w in
      after_attempt-IsHonest left (send_loop (deliverer n) id dest doc left)
        (send_loop-IsHonest left) (send dest doc w).0 (send dest doc w).1 (omega (arith, a.once))
        a.shown

module _ (n : ℤ) where
  -- The attempts that the configuration allows: at least one.
  abbrev pub allowed : ℕ
  allowed = if ltb_ℤ n (pos 1) then 1 else pos_part n

  allowed_pos : suc (allowed - 1) ≡ allowed
  allowed_pos = ground arith

module _ (n : ℤ) (j : Job) (doc : List ℕ) where
  -- The document with its ticket, at the destination that was picked, if any was.
  abbrev pub ticketed : Result Destination → ℕ × List ℕ
  ticketed (err e) = (0, xcpt (from_job j) doc)
  ticketed (ok dest) = (dest.id, xcpt (from_job j) doc)

  nothing_sent :
      (k : ℕ) (y : ℕ × List ℕ) (w : World) (out : DeliveryOutcome × Option Error)
      → out ≢ (delivery_succeeded, none)
      → IsHonest k y w.printed (out, w)
  nothing_sent k y w out h = record { bounded = omega arith; shown = λ e. absurd (h e) }

  send_marked-IsHonest :
      (dest : Destination) (r : Result (Unit {0})) (w : World)
      → IsHonest
          (allowed n)
          (ticketed (ok dest))
          w.printed
          (send_marked (deliverer n) j dest doc r w)
  unfolding deliverer
  send_marked-IsHonest dest (ok _) w =
      send_loop-IsHonest n j.id dest (xcpt (from_job j) doc) (allowed n) w.printed (allowed n - 1) w
        (omega (arith, allowed_pos n))
  send_marked-IsHonest dest (err unexpected_state) w = nothing_sent _ _ w _ (λ e. cc)
  send_marked-IsHonest dest (err e) w = nothing_sent _ _ w _ (λ p. cc)

  deliver_to-IsHonest :
      (r : Result Destination) (w : World)
      → IsHonest (allowed n) (ticketed r) w.printed (deliver_to (deliverer n) j doc r w)
  unfolding deliverer mark_sent
  deliver_to-IsHonest (err e) w = resolve_failed n j.id _ (allowed n) w.printed _ w (omega arith)
  deliver_to-IsHonest (ok dest) w =
      subst
        (λ l.
          IsHonest (allowed n) (ticketed (ok dest)) l (deliver_to (deliverer n) j doc (ok dest) w))
        (printed-exec none _ w) (send_marked-IsHonest dest _ _)

  -- A delivery prints its document at most as often as attempts are allowed, and one that is reported
  -- as successful has printed the document, with its ticket, at the destination that was picked. This
  -- holds under every schedule of failures and of other processes.
  pub deliver-IsHonest :
      (w : World)
      → IsHonest
          (allowed n)
          (ticketed (pick_destination (deliverer n) j.queue_id w).0)
          w.printed
          (deliver (deliverer n) j doc w)
  unfolding deliver
  deliver-IsHonest w =
      subst
        (λ l.
          IsHonest (allowed n) (ticketed (pick_destination (deliverer n) j.queue_id w).0) l
            (deliver (deliverer n) j doc w))
        (printed-pick_destination n j.queue_id w) (deliver_to-IsHonest _ _)
