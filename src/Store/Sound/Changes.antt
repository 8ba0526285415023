-- ===== src/Store/Sound/Changes.antt =====
-- Changes of rows in place: those that keep the row's id, keep the row well formed, and take no quota.
use piping.Prelude.{
  ℕ, ◌<◌, ◌≤ℤ◌, String, Bool, true, List, [], ◌∷◌, ◌≡◌, ◌≢◌, All, arith, int_laws, Bool-cases, inl,
  inr,
}
use piping.Job.{Job}
use piping.Store.{Db, spent, remaining, update_where}
use piping.Store.Sound.{IsRow, Distinct, IsSound, bill, spent-cons}

pub record IsChange (j k : Job) : Type 0 where
  pub same_id : k.id ≡ j.id
  pub keeps_row : IsRow j → IsRow k
  pub no_dearer : IsRow j → (u : String) → bill u k ≤ℤ bill u j

module _ (p : Job → Bool) (f : Job → Job) (change : (j : Job) → p j ≡ true → IsChange j (f j)) where
  All-update_where :
      (P : Job → Type 0)
      → ((j : Job) → p j ≡ true → P j → P (f j))
      → (js : List Job) → All P js
      → All P (update_where p f js)
  All-update_where P keep [] h = tt
  All-update_where P keep (j ∷ js) h = elim (Bool-cases (p j)) [
    | inl e ↦ (rw e (keep j e h.0), All-update_where P keep js h.1)
    | inr e ↦ (rw e h.0, All-update_where P keep js h.1)
  ]

  ids-update_where :
      (P : ℕ → Type 0) (js : List Job)
      → All (λ j. P j.id) js
      → All (λ j. P j.id) (update_where p f js)
  ids-update_where P js h = All-update_where (λ j. P j.id) (λ j e x. rw (change j e).same_id x) js h

  Distinct-update_where : (js : List Job) → Distinct js → Distinct (update_where p f js)
  Distinct-update_where [] h = tt
  Distinct-update_where (j ∷ js) h = elim (Bool-cases (p j)) [
    | inl e ↦ (
      rw e (rw (change j e).same_id (ids-update_where (λ i. i ≢ j.id) js h.0)),
      Distinct-update_where js h.1,
    )
    | inr e ↦ (rw e (ids-update_where (λ i. i ≢ j.id) js h.0), Distinct-update_where js h.1)
  ]

  spent-update_where :
      (u : String) (js : List Job) → All IsRow js → spent u (update_where p f js) ≤ℤ spent u js
  spent-update_where u [] h = omega arith
  spent-update_where u (j ∷ js) h = elim (Bool-cases (p j)) [
    | inl e ↦
        rw (e, spent-cons u (f j) (update_where p f js), spent-cons u j js)
          (omega (int_laws, (change j e).no_dearer h.0 u, spent-update_where u js h.1))
    | inr e ↦
        rw (e, spent-cons u j (update_where p f js), spent-cons u j js)
          (omega (int_laws, spent-update_where u js h.1))
  ]

  abbrev pub changed : Db → Db
  changed d = record d { jobs = update_where p f d.jobs }

  pub changed-IsSound : (d : Db) → IsSound d → IsSound (changed d)
  changed-IsSound d s = record {
    rows = All-update_where IsRow (λ j e. (change j e).keeps_row) d.jobs s.rows;
    fresh = ids-update_where (λ i. i < d.next_job) d.jobs s.fresh;
    distinct = Distinct-update_where d.jobs s.distinct;
    amounts = s.amounts;
    solvent = λ u. omega (int_laws, spent-update_where u d.jobs s.rows, s.solvent u);
  }

  pub remaining-changed :
      (d : Db) (u : String) → IsSound d → remaining u d ≤ℤ remaining u (changed d)
  unfolding remaining
  remaining-changed d u s = omega (int_laws, spent-update_where u d.jobs s.rows)

  pub ids-changed :
      (P : ℕ → Type 0) (d : Db) → All (λ j. P j.id) d.jobs → All (λ j. P j.id) (changed d).jobs
  ids-changed P d h = ids-update_where P d.jobs h
