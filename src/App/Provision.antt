-- ===== src/App/Provision.antt =====
-- internal/app/provision.go: a user who signs in gets the quota of the semesters of his enrolments.
pub mod Quota
pub mod Grants
pub mod Steps
pub mod Settled
pub mod Again
use piping.Prelude.{
  ℕ, ℤ, pos, rem_ℤ, eq_ℤ, ltb_ℤ, leb_ℤ, String, Bool, ◌&&◌, any, List, [], ◌∷◌, if◌then◌else◌,
}
use piping.Error.{Error, Result, ok, err}
use piping.User.{User}

pub record ProvisionStore (S : Type 0) : Type 0 where
  pub ensure_semester : ℤ → ℤ → S → Result ℤ × S
  pub ensure_grant : String → ℤ → ℤ → S → Result (Unit {0}) × S
  pub ensure_user : String → S → Result (Unit {0}) × S

-- `in_order` is the order in which Go happens to go through the keys of a map.
pub record Provisioner (S : Type 0) : Type 0 where
  pub store : ProvisionStore S
  pub default_quota : ℤ
  pub in_order : List ℤ → List ℤ

unfoldable pub quota_for : ℤ → ℤ → ℤ
quota_for default_quota code =
    if eq_ℤ (rem_ℤ code 100) (pos 5)
    then pos 0
    else if ltb_ℤ code (pos 201609)
    then pos 0
    else if eq_ℤ code (pos 201609)
    then pos 500
    else if ltb_ℤ (pos 201609) code && ltb_ℤ code (pos 201909)
    then pos 1000
    else default_quota

-- The keys of a map of type `map[int]bool`, each of them once.
abbrev pub set_true : ℤ → List ℤ → List ℤ
set_true code entitled = if any (eq_ℤ code) entitled then entitled else code ∷ entitled

-- The loop over the enrolments that are left.
unfoldable pub add_enrolments : ℤ → List ℤ → List ℤ → List ℤ
add_enrolments now [] entitled = entitled
add_enrolments now (code ∷ codes) entitled =
    add_enrolments now codes (if leb_ℤ code now then set_true code entitled else entitled)

unfoldable pub entitled_codes : User → ℤ → List ℤ
unfolding add_enrolments
entitled_codes u now = add_enrolments now u.enrolments (if u.quota_eligible then now ∷ [] else [])

module _ {S : Type 0} where
  -- An error is logged, and the loop goes on.
  abbrev pub grant_amount : Provisioner S → String → ℤ → Result ℤ → S → S
  grant_amount p username code (err e) s = s
  grant_amount p username code (ok amount) s = (p.store.ensure_grant username code amount s).1

  abbrev pub grant_semester : Provisioner S → String → ℤ → S → S
  grant_semester p username code s =
      let (r, s') = p.store.ensure_semester code (quota_for p.default_quota code) s in
      grant_amount p username code r s'

  unfoldable pub grant_semesters : Provisioner S → String → List ℤ → S → S
  grant_semesters p username [] s = s
  grant_semesters p username (code ∷ codes) s =
      grant_semesters p username codes (grant_semester p username code s)

  abbrev pub provision_known :
      Provisioner S → User → ℤ → Result (Unit {0}) → S → Result (Unit {0}) × S
  provision_known p u now (err e) s = (err e, s)
  provision_known p u now (ok _) s =
      (ok tt, grant_semesters p u.username (p.in_order (entitled_codes u now)) s)

  unfoldable pub provision : Provisioner S → User → ℤ → S → Result (Unit {0}) × S
  unfolding grant_semesters
  provision p u now s =
      let (r, s') = p.store.ensure_user u.username s in provision_known p u now r s'
