-- ===== src/Store/Listings/Rows.antt =====
-- Which rows a listing can show, under every schedule.
use piping.Prelude.{
  ℕ, zero, suc, ◌≤◌, ◌<◌, leb, String, eq_iff, true, none, List, [], ◌∷◌, ◌≡◌, ◌⊎◌, inl, inr, subst,
  refl, arith, All, All-take, All-by_Among, Among-select, select, take, length, if_case,
}
use piping.Error.{Result, ok, err, other, ◌>>=◌}
use piping.Job.{Job, State, name, state_from_string}
use piping.Store.{Db}
use piping.Store.World.{World, Turn, Net, fine, lost, unacked, on_net, exec, query, take_turn}
use piping.Store.Jobs.{scan_job, scan_rows}
use piping.Store.Listings.{insert_latest, latest_first, is_recent, jobs_for_user}

-- A job of the listing: it belongs to the user, and is newer than the time.
pub record IsListed (u : String) (newer_than : ℕ) (j : Job) : Type 0 where
  pub owner : j.username ≡ u
  pub recent : newer_than < j.submitted_at

-- What a listing may answer.
abbrev pub Shows : String → ℕ → ℕ → Result (List Job) → Type 0
Shows u t limit (err e) = Unit
Shows u t limit (ok js) = All (IsListed u t) js × (length js ≤ limit)

is_recent-IsListed : (u : String) (t : ℕ) (j : Job) → is_recent u t j ≡ true → IsListed u t j
unfolding is_recent
is_recent-IsListed u t j h = record {
  owner = (eq_iff j.username u).0 (ground arith);
  recent = ground arith;
}

insert_latest-All :
    (P : Job → Type 0) (j : Job) (js : List Job) → P j → All P js → All P (insert_latest j js)
unfolding insert_latest
insert_latest-All P j [] p h = (p, tt)
insert_latest-All P j (k ∷ ks) p h =
    if_case (All P) (leb k.submitted_at j.submitted_at) (λ _. (p, h))
      (λ _. (h.0, insert_latest-All P j ks p h.1))

latest_first-All : (P : Job → Type 0) (js : List Job) → All P js → All P (latest_first js)
unfolding latest_first
latest_first-All P [] h = tt
latest_first-All P (j ∷ js) h =
    insert_latest-All P j (latest_first js) h.0 (latest_first-All P js h.1)

length-take : (n : ℕ) (js : List Job) → length (take n js) ≤ n
length-take zero js = omega arith
length-take (suc n) [] = omega arith
length-take (suc n) (j ∷ js) = omega (arith, length-take n js)

-- Scanning rows shows no other jobs.
Scanned : String → ℕ → List Job → Result (List Job) → Type 0
Scanned u t js (err e) = Unit
Scanned u t js (ok ks) = All (IsListed u t) ks × (length ks ≡ length js)

scan_rows-Scanned :
    (u : String) (t : ℕ) (js : List Job) → All (IsListed u t) js → Scanned u t js (scan_rows js)
unfolding scan_rows scan_job Scanned
scan_rows-Scanned u t [] h = (tt, refl)
scan_rows-Scanned u t (j ∷ js) h =
    go (state_from_string (name j.state)) (scan_rows js) (scan_rows-Scanned u t js h.1)
  where
    go :
        (a : Result State) (r : Result (List Job))
        → Scanned u t js r
        → Scanned u t
            (j ∷ js)
            ((a >>= λ s. ok (record j { state = s })) >>= λ k. r >>= λ ks. ok (k ∷ ks))
    go (err e) r p = tt
    go (ok s) (err e) p = tt
    go (ok s) (ok ks) p =
        ((record { owner = h.0.owner; recent = h.0.recent }, p.0), omega (arith, p.1))

-- An answer of the network is an error, or what the statement read.
answer_case :
    {A : Type 0} (P : Result A → Type 0) (net : Net) (f : Db → Result A) (w : World)
    → P (err other)
    → ((d : Db) → P (f d))
    → P (on_net net (λ d. (f d, d)) w).0
answer_case P fine f w e h = h w.db
answer_case P lost f w e h = e
answer_case P unacked f w e h = e

-- Whether the next statement is answered.
abbrev pub next_net : List Turn → Net
next_net [] = fine
next_net (t ∷ ts) = t.net

take_turn-next : (w : World) → (take_turn none w).0 ≡ next_net w.turns
unfolding take_turn
take_turn-next w = go w.turns refl
  where
    go : (ts : List Turn) → w.turns ≡ ts → (take_turn none w).0 ≡ next_net w.turns
    go [] e = rw e refl
    go (t ∷ ts) e = rw e refl

on_net_lost :
    {A : Type 0} (f : Db → Result A × Db) (w : World) (net : Net)
    → (net ≡ fine) ⊎ ((on_net net f w).0 ≡ err other)
on_net_lost f w fine = inl refl
on_net_lost f w lost = inr refl
on_net_lost f w unacked = inr refl

module _ (u : String) (t limit : ℕ) where
  rows : Db → List Job
  rows d = take limit (latest_first (select (is_recent u t) d.jobs))

  rows-IsListed : (d : Db) → All (IsListed u t) (rows d)
  unfolding rows
  rows-IsListed d = All-take (IsListed u t) limit (latest_first (select (is_recent u t) d.jobs)) (
      latest_first-All (IsListed u t) (select (is_recent u t) d.jobs) (
        All-by_Among (IsListed u t) (select (is_recent u t) d.jobs)
          (λ j i. is_recent-IsListed u t j (Among-select (is_recent u t) j d.jobs i).1)))

  shown : (d : Db) (r : Result (List Job)) → Scanned u t (rows d) r → Shows u t limit r
  unfolding rows Scanned
  shown d (err e) s = tt
  shown d (ok js) s =
      (s.0, omega (arith, s.1, length-take limit (latest_first (select (is_recent u t) d.jobs))))

  listing_lost :
      (w : World) → (next_net w.turns ≡ fine) ⊎ ((jobs_for_user u t limit w).0 ≡ err other)
  unfolding jobs_for_user query exec rows
  listing_lost w =
      subst (λ net. (net ≡ fine) ⊎ ((jobs_for_user u t limit w).0 ≡ err other)) (take_turn-next w)
        (on_net_lost (λ d. (scan_rows (rows d), d)) (take_turn none w).1 (take_turn none w).0)

  -- The listing of the jobs of a user shows jobs of this user only, newer than the given time, and no
  -- more than the limit, under every schedule; if its statement is lost, or the answer to it, the
  -- listing is an error.
  pub jobs_for_user-Shows :
      (w : World)
      → Shows u t limit (jobs_for_user u t limit w).0
        × ((next_net w.turns ≡ fine) ⊎ ((jobs_for_user u t limit w).0 ≡ err other))
  unfolding jobs_for_user query exec rows
  jobs_for_user-Shows w = (
    answer_case (Shows u t limit) (take_turn none w).0 (λ d. scan_rows (rows d))
        (take_turn none w).1 tt
        (λ d. shown d (scan_rows (rows d)) (scan_rows-Scanned u t (rows d) (rows-IsListed d))),
    listing_lost w,
  )
