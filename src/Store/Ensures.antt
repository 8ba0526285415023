-- ===== src/Store/Ensures.antt =====
-- What a call of the store ensures under every schedule: from a database in `P` it ends with a result
-- and a database in `Q`, or with an error, never `ErrInsufficient`, and a sound database.
use piping.Prelude.{String, Option, List, [], ◌∷◌, ◌≡◌, ◌≢◌, refl, ◌∙◌, ap}
use piping.Error.{Result, ok, err, insufficient}
use piping.Store.{Db}
use piping.Store.World.{
  Move, Turn, Net, fine, lost, unacked, World, Io, ◌>>=◌, bind_result, give, on_net, exec,
  take_turn, query, apply_moves,
}
use piping.Store.Sound.{IsSound}

abbrev pub Post : {A : Type 0} → (A → Db → Type 0) → Result A → Db → Type 0
Post Q (ok a) d = Q a d
Post Q (err e) d = IsSound d × (e ≢ insufficient)

pub record Ensures {A : Type 0} (P : Db → Type 0) (m : Io A) (Q : A → Db → Type 0) : Type 0 where
  pub at : (w : World) → P w.db → Post Q (m w).0 (m w).1.db

-- What a statement does to a database that is in `P` when it runs.
pub record Does {A : Type 0} (P : Db → Type 0) (f : Db → Result A × Db) (Q : A → Db → Type 0)
    : Type 0 where
  pub before : (d : Db) → P d → IsSound d
  pub after : (d : Db) → P d → IsSound (f d).1
  pub result : (d : Db) → P d → Post Q (f d).0 (f d).1

-- A condition that the other processes keep while the lock is held.
abbrev pub Stable : Option String → (Db → Type 0) → Type 0
Stable lock P = (ms : List Move) (d : Db) → P d → P (apply_moves lock ms d)

-- Waiting for a statement's turn keeps what the other processes keep.
pub take_turn-keeps :
    (lock : Option String) (P : Db → Type 0)
    → Stable lock P
    → (w : World) → P w.db
    → P (take_turn lock w).1.db
unfolding take_turn
take_turn-keeps lock P stable w p = go w.turns refl
  where
    go : (ts : List Turn) → w.turns ≡ ts → P (take_turn lock w).1.db
    go [] e = rw (e, take_turn) p
    go (t ∷ ts) e = rw (e, take_turn) (stable t.others w.db p)

module _ {A : Type 0} {P : Db → Type 0} {Q : A → Db → Type 0} where
  pub Ensures-give : (r : Result A) → ((d : Db) → P d → Post Q r d) → Ensures P (give r) Q
  Ensures-give r h = record { at = λ w p. h w.db p }

  on_net-Post :
      (net : Net) (f : Db → Result A × Db) (w : World)
      → Does P f Q
      → P w.db
      → Post Q (on_net net f w).0 (on_net net f w).1.db
  on_net-Post fine f w does p = does.result w.db p
  on_net-Post lost f w does p = (does.before w.db p, λ e. cc)
  on_net-Post unacked f w does p = (does.after w.db p, λ e. cc)

  pub Ensures-exec :
      (lock : Option String) (f : Db → Result A × Db)
      → Stable lock P
      → Does P f Q
      → Ensures P (exec lock f) Q
  unfolding exec
  Ensures-exec lock f stable does = record {
    at = λ w p.
        on_net-Post (take_turn lock w).0 f (take_turn lock w).1 does
          (take_turn-keeps lock P stable w p);
  }

  pub Ensures-query :
      (lock : Option String) (f : Db → Result A)
      → Stable lock P
      → ((d : Db) → P d → IsSound d)
      → ((d : Db) → f d ≢ err insufficient)
      → ((d : Db) → P d → (a : A) → f d ≡ ok a → Q a d)
      → Ensures P (query lock f) Q
  unfolding query
  Ensures-query lock f stable sound errs result =
      Ensures-exec lock (λ d. (f d, d)) stable
        (record { before = sound; after = sound; result = λ d p. go (f d) d p refl })
    where
      go : (r : Result A) (d : Db) → P d → f d ≡ r → Post Q r d
      go (ok a) d p e = result d p a e
      go (err x) d p e = (sound d p, λ i. errs d (e ∙ ap err i))

module _ {A B : Type 0} {P : Db → Type 0} {Q : A → Db → Type 0} {R : B → Db → Type 0} where
  pub Ensures-bind :
      (m : Io A) (f : A → Io B)
      → Ensures P m Q
      → ((a : A) → Ensures (Q a) (f a) R)
      → Ensures P (m >>= f) R
  Ensures-bind m f hm hf = record { at = λ w p. go (m w).0 (m w).1 (hm.at w p) }
    where
      go :
          (r : Result A) (w : World)
          → Post Q r w.db
          → Post R (bind_result r f w).0 (bind_result r f w).1.db
      go (ok a) w q = (hf a).at w q
      go (err e) w q = q
