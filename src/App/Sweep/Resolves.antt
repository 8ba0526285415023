-- ===== src/App/Sweep/Resolves.antt =====
-- What one pass of the sweeper does to each job, when nothing interferes with it.
use piping.Prelude.{
  Bool, ◌&&◌, ◌||◌, ltb, str_eq, any, ℕ, ◌-◌, ◌≤◌, true, some, List, [], ◌∷◌, ◌≡◌, ◌≢◌, inl, inr,
  refl, sym, ap, ◌∙◌, subst, arith, ==_refl, length, Among, All, All-Among, All-by_Among, any-Among,
  any_found, if◌then◌else◌, Bool-cases,
}
use piping.Job.{
  Job, State, unknown, quota_insufficient, quota_deducted, print_sent, print_succeeded,
  print_failed, refunded, name, eq_state,
}
use piping.Store.{Db, in_state}
use piping.Store.World.{World}
use piping.Store.Sound.{IsSound, Distinct}
use piping.Store.View.{state_in, state_of}
use piping.Store.Jobs.{is_stale}
use piping.Store.Jobs.Stale.{listed, listed-Among, Among-listed, stale_jobs-quiet, Distinct-same}
use piping.App.Sweep.{swept_states, fail_listed, pass}
use piping.App.Sweep.Kept.{sweeper}
use piping.App.Sweep.Fails.{
  fail_all, Failing, Failing-stale, quiet, fail_stale-quiet, hits, in_state_self, in_state_id,
  ==_apart, state_of-fail_all,
}

-- A row is hit exactly if it is stale.
hits-listed :
    (t limit : ℕ) (d : Db) (j : Job)
    → IsSound d
    → length d.jobs ≤ limit
    → Among j d.jobs
    → hits j.id j.state (listed swept_states t limit d) ≡ is_stale swept_states t j
hits-listed t limit d j sound room h = elim (Bool-cases (is_stale swept_states t j)) [
  | inl b ↦ rw b (
      any-Among (in_state j.id j.state) j (listed swept_states t limit d)
        (Among-listed swept_states t limit d j room h b) (in_state_self j))
  | inr b ↦ rw b (elim (Bool-cases (hits j.id j.state (listed swept_states t limit d))) [
    | inl y ↦
        let (k, k_in, k_hit) =
          any_found (in_state j.id j.state) (listed swept_states t limit d) y in
        let (k_row, k_stale) = listed-Among swept_states t limit d k k_in in
        let same : k ≡ j =
          Distinct-same j k d.jobs sound.distinct h k_row (in_state_id j k k_hit) in
        absurd (ground (arith, subst (λ x. is_stale swept_states t x ≡ true) same k_stale))
    | inr n ↦ n
  ])
]

state_in-Among :
    (j : Job) (js : List Job) → Distinct js → Among j js → state_in j.id js ≡ some j.state
unfolding state_in
state_in-Among j [] d h = elim h [ ]
state_in-Among j (x ∷ js) d (inl e) = rw (e, ==_refl j.id) refl
state_in-Among j (x ∷ js) d (inr h) =
    rw (==_apart (λ e. All-Among (λ y. y.id ≢ x.id) j js d.0 h (sym e))) (state_in-Among j js d.1 h)

Failing-listed : (t limit : ℕ) (d : Db) → All Failing (listed swept_states t limit d)
Failing-listed t limit d =
    All-by_Among Failing (listed swept_states t limit d)
      (λ j h. Failing-stale t j (listed-Among swept_states t limit d j h).1)

pass-quiet :
    (age limit : ℕ) (w : World)
    → IsSound w.db
    → pass (sweeper age limit) (record w { turns = [] }) ≡ record w {
      turns = [];
      db = fail_all (listed swept_states (w.db.clock - age) limit w.db) w.db;
    }
unfolding pass sweeper quiet
pass-quiet age limit w sound =
    let t = w.db.clock - age in
    ap (λ r. fail_listed (sweeper age limit) r.0 r.1)
      (stale_jobs-quiet swept_states t limit w sound)
    ∙ fail_stale-quiet age limit (listed swept_states t limit w.db) w w.db
        (Failing-listed t limit w.db)

-- The states of the sweeper, by their names.
swept-names :
    (s : State)
    → any (λ x. str_eq (name s) (name x)) swept_states
      ≡ (eq_state s quota_deducted || eq_state s print_sent)
unfolding name eq_state
swept-names unknown = refl
swept-names quota_insufficient = refl
swept-names quota_deducted = refl
swept-names print_sent = refl
swept-names print_succeeded = refl
swept-names print_failed = refl
swept-names refunded = refl

-- The row waits for its delivery since before `t`.
abbrev pub waits_since : ℕ → Job → Bool
waits_since t j =
    (eq_state j.state quota_deducted || eq_state j.state print_sent) && ltb j.submitted_at t

is_stale-waits : (t : ℕ) (j : Job) → is_stale swept_states t j ≡ waits_since t j
unfolding is_stale
is_stale-waits t j = rw (swept-names j.state) refl

-- From a sound database, with no interference and no failure and a batch that has room for all jobs, a
-- pass of the sweeper puts every job that waits in `quota_deducted` or `print_sent` since before the
-- cutoff in `print_failed`, and leaves every other job in its state.
pub pass-resolves :
    (age limit : ℕ) (w : World) (j : Job)
    → IsSound w.db
    → length w.db.jobs ≤ limit
    → Among j w.db.jobs
    → state_of j.id (pass (sweeper age limit) (record w { turns = [] })).db
      ≡ some (if waits_since (w.db.clock - age) j then print_failed else j.state)
pass-resolves age limit w j sound room h =
    let t = w.db.clock - age in
    rw (pass-quiet age limit w sound) (
      state_of-fail_all (listed swept_states t limit w.db) w.db j.id j.state
        (Failing-listed t limit w.db) sound
        (unfold state_of in state_in-Among j w.db.jobs sound.distinct h)
      ∙ rw (hits-listed t limit w.db j sound room h, is_stale-waits t j) refl)
