-- ===== src/Store/Sound.antt =====
-- What holds of the database at every moment: the rows of `job` meet their constraints and carry the
-- times that their states ask for, ids are unique, and no user has spent more than was granted.
pub mod Changes
pub mod Moves
pub mod Locked
use piping.Prelude.{
  ℕ, ◌<◌, ℤ, pos, ◌+ℤ◌, ◌-ℤ◌, ◌≤ℤ◌, ◌<ℤ◌, String, Bool, true, false, ◌&&◌, Option, none, some, List,
  [], ◌∷◌, ◌≡◌, ◌≢◌, refl, str_eq, any, All, arith, int_laws, if◌then◌else◌,
}
use piping.Job.{Job, State, unknown, refunded, eq_state, is_terminal, deducts_quota}
use piping.Job.Machine.{deducting_names}
use piping.Store.{Db, Grant, granted, counts, spent, remaining}

abbrev pub is_some {ℓ} : {A : Type ℓ} → Option A → Bool
is_some none = false
is_some (some _) = true

pub record IsRow (j : Job) : Type 0 where
  pub pages_pos : pos 0 <ℤ j.num_pages
  pub color_nonneg : pos 0 ≤ℤ j.num_color_pages
  pub color_within : j.num_color_pages ≤ℤ j.num_pages
  pub copies_pos : pos 0 <ℤ j.copies
  pub cost_pos : pos 0 <ℤ j.cost
  pub state_known : j.state ≢ unknown
  pub completed : is_some j.completed_at ≡ is_terminal j.state
  pub refund_dated : is_some j.refunded_at ≡ eq_state j.state refunded

abbrev pub Distinct : List Job → Type 0
Distinct [] = Unit
Distinct (j ∷ js) = All (λ k. k.id ≢ j.id) js × Distinct js

pub record IsSound (d : Db) : Type 0 where
  pub rows : All IsRow d.jobs
  pub fresh : All (λ j. j.id < d.next_job) d.jobs
  pub distinct : Distinct d.jobs
  pub amounts : All (λ (g : Grant). pos 0 ≤ℤ g.amount) d.grants
  pub solvent : (u : String) → spent u d.jobs ≤ℤ granted u d.grants

-- What a job takes from the quota of a user.
unfoldable pub bill : String → Job → ℤ
bill u j = if str_eq j.username u && deducts_quota j.state then j.cost else pos 0

add-if : (b : Bool) (c r : ℤ) → (if b then c +ℤ r else r) ≡ (if b then c else pos 0) +ℤ r
add-if true c r = refl
add-if false c r = omega int_laws

pub spent-cons : (u : String) (j : Job) (js : List Job) → spent u (j ∷ js) ≡ bill u j +ℤ spent u js
unfolding spent bill counts
spent-cons u j js = rw deducting_names (add-if _ j.cost (spent u js))

pub remaining_lem : (u : String) (d : Db) → IsSound d → pos 0 ≤ℤ remaining u d
unfolding remaining
remaining_lem u d s = omega (int_laws, s.solvent u)
