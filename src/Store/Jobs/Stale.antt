-- ===== src/Store/Jobs/Stale.antt =====
-- `StaleJobs` of internal/postgres/job_store.go: which rows it lists.
use piping.Prelude.{
  ℕ, zero, suc, ◌≤◌, Bool, true, List, [], ◌∷◌, ◌≡◌, ◌≢◌, ◌⊎◌, ◌↔◌, inl, inr, refl, sym, ap, arith,
  select, take, length, Among, Among-select, select-Among, All, All-Among, All-by_Among, ◌∙◌,
}
use piping.Error.{ok}
use piping.Job.{Job, State, unknown, name}
use piping.Job.Machine.{state_from_string_iff}
use piping.Store.{Db}
use piping.Store.World.{World, query, exec, take_turn}
use piping.Store.Sound.{IsSound, IsRow, Distinct}
use piping.Store.Jobs.{insert_by_time, order_by_time, scan_job, scan_rows, is_stale, stale_jobs}

-- The rows that the query selects, in its order.
unfoldable pub listed : List State → ℕ → ℕ → Db → List Job
listed states older_than limit d =
    take limit (order_by_time (select (is_stale states older_than) d.jobs))

scan_job_known : (j : Job) → j.state ≢ unknown → scan_job j ≡ ok j
unfolding scan_job
scan_job_known j h = rw ((state_from_string_iff (name j.state) j.state).1 (h, refl)) refl

scan_rows_known : (js : List Job) → All (λ j. j.state ≢ unknown) js → scan_rows js ≡ ok js
unfolding scan_rows
scan_rows_known [] h = refl
scan_rows_known (j ∷ js) h = rw (scan_job_known j h.0, scan_rows_known js h.1) refl

insert-Among : (a j : Job) (js : List Job) → Among a (insert_by_time j js) ↔ (j ≡ a) ⊎ Among a js
unfolding insert_by_time
insert-Among a j [] = ground arith
insert-Among a j (k ∷ ks) = ground (arith, insert-Among a j ks)

order-Among : (a : Job) (js : List Job) → Among a (order_by_time js) ↔ Among a js
unfolding order_by_time
order-Among a [] = ground arith
order-Among a (j ∷ js) = ground (arith, order-Among a js, insert-Among a j (order_by_time js))

take-Among : (a : Job) (n : ℕ) (js : List Job) → Among a (take n js) → Among a js
take-Among a zero js h = elim h [ ]
take-Among a (suc n) [] h = h
take-Among a (suc n) (j ∷ js) h = ground (arith, take-Among a n js)

take_all : (n : ℕ) (js : List Job) → length js ≤ n → take n js ≡ js
take_all zero [] h = refl
take_all (suc n) [] h = refl
take_all zero (j ∷ js) h = elim h [ ]
take_all (suc n) (j ∷ js) h = rw (take_all n js (omega arith)) refl

length-insert_by_time : (j : Job) (js : List Job) → length (insert_by_time j js) ≡ suc (length js)
unfolding insert_by_time
length-insert_by_time j [] = refl
length-insert_by_time j (k ∷ ks) = ground (arith, length-insert_by_time j ks)

length-order_by_time : (js : List Job) → length (order_by_time js) ≡ length js
unfolding order_by_time
length-order_by_time [] = refl
length-order_by_time (j ∷ js) =
    ground (arith, length-insert_by_time j (order_by_time js), length-order_by_time js)

length-select : (p : Job → Bool) (js : List Job) → length (select p js) ≤ length js
length-select p [] = omega arith
length-select p (j ∷ js) = ground (arith, length-select p js)

-- Rows with the same id are the same row.
pub Distinct-same :
    (j k : Job) (js : List Job) → Distinct js → Among j js → Among k js → k.id ≡ j.id → k ≡ j
Distinct-same j k [] h hj hk e = elim hj [ ]
Distinct-same j k (x ∷ js) h (inl p) (inl q) e = sym q ∙ p
Distinct-same j k (x ∷ js) h (inl p) (inr q) e =
    absurd (All-Among (λ y. y.id ≢ x.id) k js h.0 q (e ∙ ap (λ y. y.id) (sym p)))
Distinct-same j k (x ∷ js) h (inr p) (inl q) e =
    absurd (All-Among (λ y. y.id ≢ x.id) j js h.0 p (sym e ∙ ap (λ y. y.id) (sym q)))
Distinct-same j k (x ∷ js) h (inr p) (inr q) e = Distinct-same j k js h.1 p q e

pub listed-Among :
    (states : List State) (t limit : ℕ) (d : Db) (j : Job)
    → Among j (listed states t limit d)
    → Among j d.jobs × (is_stale states t j ≡ true)
unfolding listed
listed-Among states t limit d j h =
    Among-select (is_stale states t) j d.jobs
      ((order-Among j (select (is_stale states t) d.jobs)).0 (take-Among j limit _ h))

-- With room for all rows, every stale row is listed.
pub Among-listed :
    (states : List State) (t limit : ℕ) (d : Db) (j : Job)
    → length d.jobs ≤ limit
    → Among j d.jobs
    → is_stale states t j ≡ true
    → Among j (listed states t limit d)
unfolding listed
Among-listed states t limit d j room h s =
    let rows = select (is_stale states t) d.jobs in
    rw
      (take_all limit (order_by_time rows)
        (omega (arith, length-order_by_time rows, length-select (is_stale states t) d.jobs)))
      ((order-Among j rows).1 (select-Among (is_stale states t) j d.jobs h s))

listed-known :
    (states : List State) (t limit : ℕ) (d : Db)
    → IsSound d
    → All (λ j. j.state ≢ unknown) (listed states t limit d)
listed-known states t limit d s =
    All-by_Among (λ j. j.state ≢ unknown) (listed states t limit d)
      (λ j h. (All-Among IsRow j d.jobs s.rows (listed-Among states t limit d j h).0).state_known)

-- With no interference and no failure the query answers with all the rows that it lists, since every
-- stored state has a name.
pub stale_jobs-quiet :
    (states : List State) (t limit : ℕ) (w : World)
    → IsSound w.db
    → stale_jobs states t limit (record w { turns = [] })
      ≡ (ok (listed states t limit w.db), record w { turns = [] })
unfolding stale_jobs query exec take_turn listed
stale_jobs-quiet states t limit w s =
    ap (λ r. (r, record w { turns = [] }))
      (scan_rows_known (listed states t limit w.db) (listed-known states t limit w.db s))
