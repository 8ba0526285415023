-- ===== src/Store/Cells.antt =====
-- A job whose only visitors are its own deliverer and the sweeper: what other processes do to its
-- state between the deliverer's statements, and a rule to step over one statement.
use piping.Prelude.{
  ℕ, ◌<◌, Bool, true, false, ◌&&◌, none, some, List, [], ◌∷◌, ◌≡◌, ◌≢◌, ◌⊎◌, inl, inr, refl, ap,
  sym, arith, any, ◌==◌, ==_iff, All, if◌then◌else◌, if_case, Bool-cases, str_eq, eq_ℤ,
}
use piping.Error.{Result}
use piping.Job.{Job, State, print_failed, print_sent, quota_deducted, valid_transition, eq_state}
use piping.Store.{Db, add_job, job_row, accepts_job, is_sendable, remaining}
use piping.Store.World.{
  Move, submits, updates, marks, adds_user, adds_semester, grants, waits, Turn, Net, fine, World,
  apply_move, apply_moves, submit_whole, refuse_row, alloc, insert_user, insert_semester,
  insert_grant, accepts_grant, same_grant, has_destination, decided, take_turn, exec, on_net,
}
use piping.Store.Sound.{IsSound}
use piping.Store.Sound.Moves.{apply_move-IsSound}
use piping.Store.View.{state_in, state_of, state_of-set_state, state_of-set_sent}

ne_test : (n id : ℕ) → id < n → (n == id) ≡ false
ne_test n id h = ground arith

-- Another process may fail the job, as the sweeper does, and does nothing else to it.
abbrev pub Spares : ℕ → Move → Type 0
Spares id (updates i from to) = i ≡ id → to ≡ print_failed
Spares id (marks i dest) = i ≢ id
Spares id _ = Unit

abbrev pub SparesAll : ℕ → List Turn → Type 0
SparesAll id turns = All (λ (t : Turn). All (Spares id) t.others) turns

state_in-lt :
    (id n : ℕ) (js : List Job) {s : State}
    → All (λ j. j.id < n) js
    → state_in id js ≡ some s
    → id < n
unfolding state_in
state_in-lt id n [] h e = cc
state_in-lt id n (j ∷ js) h e = elim (Bool-cases (j.id == id)) [
  | inl b ↦ rw (← (==_iff j.id id).0 b) h.0
  | inr b ↦ state_in-lt id n js h.1 (rw b at e)
]

spared_write :
    (i id : ℕ) (b : Bool) (to s : State)
    → (i ≡ id → to ≡ print_failed)
    → let o = if (id == i) && b then some to else some s in (o ≡ some s) ⊎ (o ≡ some print_failed)
spared_write i id true to s h = elim (Bool-cases (id == i)) [
  | inl e ↦ inr (rw e (ap some (h (sym ((==_iff id i).0 e)))))
  | inr e ↦ inl (rw e)
]
spared_write i id false to s h = elim (Bool-cases (id == i)) [
  | inl e ↦ inl (rw e)
  | inr e ↦ inl (rw e)
]

module _ (id : ℕ) (d : Db) (s : State) (sound : IsSound d) (at : state_of id d ≡ some s) where
  abbrev Stays : Db → Type 0
  Stays d' = (state_of id d' ≡ some s) ⊎ (state_of id d' ≡ some print_failed)

  Stays-submit_whole : (j : Job) → Stays (submit_whole j d)
  unfolding submit_whole refuse_row alloc state_of
  Stays-submit_whole j =
      if_case Stays
        (any (str_eq j.username) d.users && accepts_job d (decided (remaining j.username d) j))
        (λ _. inl (
          unfold add_job alloc job_row state_in in
          rw (ne_test d.next_job id (state_in-lt id d.next_job d.jobs sound.fresh at)) at))
        (λ _.
          if_case Stays (any (str_eq j.username) d.users)
            (λ _.
              if_case Stays (is_sendable (decided (remaining j.username d) j)) (λ _. inl at)
                (λ _. inl at))
            (λ _. inl at))

  Stays-updates :
      (i : ℕ) (from to : State)
      → (i ≡ id → to ≡ print_failed)
      → Stays (apply_move (updates i from to) d)
  unfolding apply_move
  Stays-updates i from to h =
      if_case Stays (valid_transition from to)
        (λ _. rw state_of-set_state (rw at (spared_write i id (eq_state s from) to s h)))
        (λ _. inl at)

  Stays-marks : (i dest : ℕ) → i ≢ id → Stays (apply_move (marks i dest) d)
  unfolding apply_move
  Stays-marks i dest h =
      if_case Stays (has_destination dest d)
        (λ _.
          rw state_of-set_sent (
            rw at (spared_write i id (eq_state s quota_deducted) print_sent s (λ e. absurd (h e)))))
        (λ _. inl at)

  pub Stays-apply_move : (m : Move) → Spares id m → Stays (apply_move m d)
  unfolding apply_move state_of insert_user insert_semester insert_grant
  Stays-apply_move (submits j) h = Stays-submit_whole j
  Stays-apply_move (updates i from to) h = Stays-updates i from to h
  Stays-apply_move (marks i dest) h = Stays-marks i dest h
  Stays-apply_move (adds_user u) h =
      if_case Stays (any (str_eq u) d.users) (λ _. inl at) (λ _. inl at)
  Stays-apply_move (adds_semester t) h =
      if_case Stays (any (λ x. eq_ℤ x.id t.id) d.semesters) (λ _. inl at) (λ _. inl at)
  Stays-apply_move (grants g) h =
      if_case Stays (accepts_grant g d)
        (λ _. if_case Stays (any (same_grant g) d.grants) (λ _. inl at) (λ _. inl at)) (λ _. inl at)
  Stays-apply_move (waits n) h = inl at

-- The job is in one of the states that `P` allows.
pub record InCell (id : ℕ) (P : State → Bool) (d : Db) : Type 0 where
  pub sound : IsSound d
  pub now : State
  pub at : state_of id d ≡ some now
  pub allowed : P now ≡ true

-- A set of states that the sweeper does not lead out of.
abbrev pub Failable : (State → Bool) → Type 0
Failable P = P print_failed ≡ true

module _ (id : ℕ) (P : State → Bool) (failable : Failable P) where
  pub InCell-apply_move :
      (m : Move) (d : Db) → Spares id m → InCell id P d → InCell id P (apply_move m d)
  InCell-apply_move m d h c = elim (Stays-apply_move id d c.now c.sound c.at m h) [
    | inl e ↦ record {
      sound = apply_move-IsSound m d c.sound;
      now = c.now;
      at = e;
      allowed = c.allowed;
    }
    | inr e ↦ record {
      sound = apply_move-IsSound m d c.sound;
      now = print_failed;
      at = e;
      allowed = failable;
    }
  ]

  pub InCell-apply_moves :
      (ms : List Move) (d : Db)
      → All (Spares id) ms
      → InCell id P d
      → InCell id P (apply_moves none ms d)
  unfolding apply_moves
  InCell-apply_moves [] d h c = c
  InCell-apply_moves (m ∷ ms) d h c =
      InCell-apply_moves ms (apply_move m d) h.1 (InCell-apply_move m d h.0 c)

  -- The rule for one statement: the goal `G` is shown of each way in which it can end.
  pub exec_rule :
      {A : Type 0} (f : Db → Result A × Db) (w : World) (G : Result A × World → Type 0)
      → SparesAll id w.turns
      → InCell id P w.db
      → ((d : Db) (ts : List Turn)
          → SparesAll id ts
          → InCell id P d
          → (net : Net) → G (on_net net f (record w { db = d; turns = ts })))
      → G (exec none f w)
  unfolding exec take_turn
  exec_rule {A} f w G spares c k = go w.turns refl spares
    where
      go : (ts : List Turn) → w.turns ≡ ts → SparesAll id ts → G (exec none f w)
      go [] e h = rw (e, exec, take_turn) (k w.db w.turns spares c fine)
      go (t ∷ ts) e h =
          rw (e, exec, take_turn)
            (k (apply_moves none t.others w.db) ts h.1 (InCell-apply_moves t.others w.db h.0 c)
              t.net)
