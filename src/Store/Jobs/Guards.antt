-- ===== src/Store/Jobs/Guards.antt =====
-- The guarded changes of state of internal/postgres/job_store.go, as the deliverer of a job meets
-- them: either it finds the job where it left it, or the sweeper has failed the job meanwhile.
use piping.Prelude.{
  ℕ, Bool, true, false, ◌||◌, none, some, List, ◌≡◌, ◌⊎◌, inl, inr, refl, ap, ◌∙◌, arith, any,
  ==_refl, if_case, Bool-cases,
}
use piping.Error.{Result, ok, err, other, unexpected_state}
use piping.Job.{State, quota_deducted, print_sent, print_failed, eq_state, valid_transition}
use piping.Job.Machine.{eq_state_iff}
use piping.Store.{Db, in_state}
use piping.Store.World.{Turn, World, Net, fine, lost, unacked, on_net, exec, has_destination}
use piping.Store.Sound.{IsSound}
use piping.Store.Sound.Moves.{set_state-IsSound, set_sent-IsSound}
use piping.Store.View.{state_of, written, state_of-set_state, state_of-set_sent, any-in_state}
use piping.Store.Cells.{SparesAll, InCell, exec_rule}
use piping.Store.Jobs.{update_job, update_job_state, mark_row, mark_sent}

-- The states of a job that waits in `from`, unless the sweeper has failed it.
abbrev pub waiting : State → State → Bool
waiting from s = eq_state s from || eq_state s print_failed

pub waiting-Failable : (from : State) → waiting from print_failed ≡ true
waiting-Failable from = ground arith

pub waiting_self : (from : State) → waiting from from ≡ true
waiting_self from = ground arith

-- The row is found exactly if the job still waits.
found :
    (id : ℕ) (from : State) (d : Db)
    → (c : InCell id (waiting from) d) → any (in_state id from) d.jobs ≡ eq_state c.now from
unfolding state_of
found id from d c = any-in_state id from d.jobs c.sound.distinct ∙ rw c.at

written_self : (id : ℕ) (from to : State) → written id from to id (some from) ≡ some to
written_self id from to = rw (==_refl id, ==_refl _)

-- How a guarded statement of the deliverer ends: done, found failed, or without an answer.
pub record Ends (id : ℕ) (to : State) (w : World) (G : Result (Unit {0}) × World → Type 0)
    : Type 0 where
  pub done :
      (d : Db) (ts : List Turn)
      → SparesAll id ts
      → IsSound d
      → state_of id d ≡ some to
      → G (ok tt, record w { db = d; turns = ts })
  pub failed :
      (d : Db) (ts : List Turn)
      → SparesAll id ts
      → IsSound d
      → state_of id d ≡ some print_failed
      → G (err unexpected_state, record w { db = d; turns = ts })
  pub unanswered :
      (d : Db) (ts : List Turn)
      → SparesAll id ts
      → IsSound d
      → G (err other, record w { db = d; turns = ts })

module _ (id : ℕ) (from to : State) (w : World) (G : Result (Unit {0}) × World → Type 0) where
  abbrev At : Db → List Turn → World
  At d ts = record w { db = d; turns = ts }

  -- What a statement made of the database, by whether it found the row.
  abbrev Made : Db → Result (Unit {0}) → Db → Type 0
  Made d r d' =
      IsSound d'
      × ((r ≡ ok tt) × (state_of id d' ≡ some to)
          ⊎ (r ≡ err unexpected_state) × (state_of id d' ≡ some print_failed)
          ⊎ (r ≡ err other))

  end_of :
      (net : Net) (f : Db → Result (Unit {0}) × Db) (d : Db) (ts : List Turn)
      → Ends id to w G
      → SparesAll id ts
      → IsSound d
      → Made d (f d).0 (f d).1
      → G (on_net net f (At d ts))
  end_of fine f d ts ends h s (s', inl (e, at)) = rw e (ends.done (f d).1 ts h s' at)
  end_of fine f d ts ends h s (s', inr (inl (e, at))) = rw e (ends.failed (f d).1 ts h s' at)
  end_of fine f d ts ends h s (s', inr (inr e)) = rw e (ends.unanswered (f d).1 ts h s')
  end_of lost f d ts ends h s m = ends.unanswered d ts h s
  end_of unacked f d ts ends h s m = ends.unanswered (f d).1 ts h m.0

  pub guarded_rule :
      (f : Db → Result (Unit {0}) × Db)
      → ((d : Db) → InCell id (waiting from) d → Made d (f d).0 (f d).1)
      → SparesAll id w.turns
      → InCell id (waiting from) w.db
      → Ends id to w G
      → G (exec none f w)
  guarded_rule f made spares c ends =
      exec_rule id (waiting from) (waiting-Failable from) f w G spares c
        (λ d ts h c' net. end_of net f d ts ends h c'.sound (made d c'))

-- A job that waits in `from`, and was not found there, was failed by the sweeper.
swept_away :
    (id : ℕ) (from : State) (d : Db) (c : InCell id (waiting from) d)
    → eq_state c.now from ≡ false
    → state_of id d ≡ some print_failed
swept_away id from d c n = c.at ∙ ap some ((eq_state_iff c.now print_failed).0 (rw n at c.allowed))

in_place :
    (id : ℕ) (from : State) (d : Db) (c : InCell id (waiting from) d)
    → eq_state c.now from ≡ true
    → state_of id d ≡ some from
in_place id from d c y = c.at ∙ ap some ((eq_state_iff c.now from).0 y)

module _ (id : ℕ) (w : World) (G : Result (Unit {0}) × World → Type 0) where
  update_job-Made :
      (from to : State) (d : Db)
      → valid_transition from to ≡ true
      → InCell id (waiting from) d
      → Made id from to w G d (update_job id from to d).0 (update_job id from to d).1
  unfolding update_job
  update_job-Made from to d v c = elim (Bool-cases (eq_state c.now from)) [
    | inl y ↦
        rw (found id from d c, y)
          (
            set_state-IsSound id from to d v c.sound,
            inl (refl, rw (state_of-set_state, in_place id from d c y) (written_self id from to)),
          )
    | inr n ↦ rw (found id from d c, n) (c.sound, inr (inl (refl, swept_away id from d c n)))
  ]

  pub update_rule :
      (from to : State)
      → valid_transition from to ≡ true
      → SparesAll id w.turns
      → InCell id (waiting from) w.db
      → Ends id to w G
      → G (update_job_state id from to w)
  unfolding update_job_state
  update_rule from to v spares c ends = rw v (
      guarded_rule id from to w G (update_job id from to) (λ d c'. update_job-Made from to d v c')
        spares c ends)

  mark_row-Made :
      (dest : ℕ) (d : Db)
      → InCell id (waiting quota_deducted) d
      → Made id quota_deducted print_sent w G d (mark_row id dest d).0 (mark_row id dest d).1
  unfolding mark_row
  mark_row-Made dest d c = elim (Bool-cases (eq_state c.now quota_deducted)) [
    | inl y ↦
        rw (found id quota_deducted d c, y)
          (if_case {A = Result (Unit {0}) × Db}
            (λ p. Made id quota_deducted print_sent w G d p.0 p.1) (has_destination dest d)
            (λ _. (
              set_sent-IsSound id dest d c.sound,
              inl (
                refl,
                rw (state_of-set_sent, in_place id quota_deducted d c y)
                    (written_self id quota_deducted print_sent),
              ),
            ))
            (λ _. (c.sound, inr (inr refl))))
    | inr n ↦
        rw (found id quota_deducted d c, n)
          (c.sound, inr (inl (refl, swept_away id quota_deducted d c n)))
  ]

  pub mark_rule :
      (dest : ℕ)
      → SparesAll id w.turns
      → InCell id (waiting quota_deducted) w.db
      → Ends id print_sent w G
      → G (mark_sent id dest w)
  unfolding mark_sent
  mark_rule dest spares c ends =
      guarded_rule id quota_deducted print_sent w G (mark_row id dest) (mark_row-Made dest) spares c
        ends
