-- ===== src/App/Deliver/Waits.antt =====
-- A job that waits for its deliverer, and what the deliverer does that leaves it waiting: sending,
-- pausing, drawing a number, reading the tables.
use piping.Prelude.{ℕ, Bool, true, false, none, List, [], ◌∷◌, ◌≡◌, refl, sym, subst}
use piping.Error.{Result}
use piping.Job.{State}
use piping.Queue.{Destination}
use piping.Store.{Db}
use piping.Store.World.{
  World, Turn, Attempt, delivered, refused, timed_out, Net, fine, lost, unacked, on_net, query,
}
use piping.Store.Cells.{SparesAll, InCell, exec_rule}
use piping.Store.Jobs.Guards.{waiting, waiting-Failable}
use piping.App.Postgres.{send, pause, rand}

-- The job waits in `from`, and nobody but the sweeper will touch it.
abbrev pub Waits : ℕ → State → World → Type 0
Waits id from w = SparesAll id w.turns × InCell id (waiting from) w.db

-- The sender, the pause and the random numbers leave the database and its schedule alone.
module _ (P : World → Type 0)
    (blind : (v w : World) → w.db ≡ v.db → w.turns ≡ v.turns → P v → P w) where
  pub send-keeps : (dest : Destination) (doc : List ℕ) (w : World) → P w → P (send dest doc w).1
  unfolding send
  send-keeps dest doc w p = go w.attempts refl
    where
      go : (l : List Attempt) → w.attempts ≡ l → P (send dest doc w).1
      go [] e = rw (e, send) (blind w _ refl refl p)
      go (delivered ∷ rest) e = rw (e, send) (blind w _ refl refl p)
      go (refused true ∷ rest) e = rw (e, send) (blind w _ refl refl p)
      go (refused false ∷ rest) e = rw (e, send) (blind w _ refl refl p)
      go (timed_out true ∷ rest) e = rw (e, send) (blind w _ refl refl p)
      go (timed_out false ∷ rest) e = rw (e, send) (blind w _ refl refl p)

  pub pause-keeps : (w : World) → P w → P (pause w).1
  unfolding pause
  pause-keeps w p = go w.waits refl
    where
      go : (bs : List Bool) → w.waits ≡ bs → P (pause w).1
      go [] e = rw (e, pause) p
      go (b ∷ bs) e = rw (e, pause) (blind w _ refl refl p)

  pub rand-keeps : (w : World) → P w → P (rand w).1
  unfolding rand
  rand-keeps w p = go w.rolls refl
    where
      go : (rs : List ℕ) → w.rolls ≡ rs → P (rand w).1
      go [] e = rw (e, rand) p
      go (r ∷ rs) e = rw (e, rand) (blind w _ refl refl p)

pub Waits-blind :
    (id : ℕ) (from : State) (v w : World)
    → w.db ≡ v.db
    → w.turns ≡ v.turns
    → Waits id from v
    → Waits id from w
Waits-blind id from v w d t (h, c) =
    (subst (SparesAll id) (sym t) h, subst (InCell id (waiting from)) (sym d) c)

module _ (id : ℕ) where
  pub query-Waits :
      {A : Type 0} (from : State) (f : Db → Result A) (w : World)
      → Waits id from w
      → Waits id from (query none f w).1
  unfolding query
  query-Waits {A} from f w (h, c) =
      exec_rule id (waiting from) (waiting-Failable from) (λ d. (f d, d)) w
        (λ (p : Result A × World). Waits id from p.1) h c still
    where
      still :
          (d : Db) (ts : List Turn)
          → SparesAll id ts
          → InCell id (waiting from) d
          → (net : Net)
          → Waits id from (on_net net (λ d. (f d, d)) (record w { db = d; turns = ts })).1
      still d ts h c fine = (h, c)
      still d ts h c lost = (h, c)
      still d ts h c unacked = (h, c)
