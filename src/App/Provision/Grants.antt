-- ===== src/App/Provision/Grants.antt =====
-- Provisioning over the store of internal/postgres, and the soundness of the database.
use piping.Prelude.{ℤ, String, List, [], ◌∷◌}
use piping.Error.{Result, ok, err}
use piping.User.{User}
use piping.Store.World.{World}
use piping.Store.Jobs.Safe.{Sound}
use piping.Store.Quotas.{ensure_user, ensure_semester, ensure_grant}
use piping.Store.Quotas.Safe.{ensure_user-Sound, ensure_semester-Sound, ensure_grant-Sound}
use piping.App.Provision.{
  Provisioner, quota_for, entitled_codes, grant_amount, grant_semester, grant_semesters,
  provision_known, provision,
}

-- The provisioner of `run` in cmd/piping/main.go.
unfoldable pub provisioner : ℤ → (List ℤ → List ℤ) → Provisioner World
provisioner default_quota in_order = record {
  store = record {
    ensure_semester = ensure_semester;
    ensure_grant = ensure_grant;
    ensure_user = ensure_user;
  };
  default_quota = default_quota;
  in_order = in_order;
}

module _ (q : ℤ) (in_order : List ℤ → List ℤ) where
  abbrev p : Provisioner World
  p = provisioner q in_order

  grant_amount-Sound :
      (u : String) (code : ℤ) (r : Result ℤ) (w : World)
      → Sound w
      → Sound (grant_amount p u code r w)
  unfolding provisioner
  grant_amount-Sound u code (err e) w s = s
  grant_amount-Sound u code (ok amount) w s = ensure_grant-Sound u code amount w s

  grant_semesters-Sound :
      (u : String) (codes : List ℤ) (w : World) → Sound w → Sound (grant_semesters p u codes w)
  unfolding grant_semesters provisioner
  grant_semesters-Sound u [] w s = s
  grant_semesters-Sound u (code ∷ codes) w s =
      let r = ensure_semester code (quota_for q code) w in
      grant_semesters-Sound u codes (grant_semester p u code w)
        (grant_amount-Sound u code r.0 r.1 (ensure_semester-Sound code (quota_for q code) w s))

  provision_known-Sound :
      (u : User) (now : ℤ) (r : Result (Unit {0})) (w : World)
      → Sound w
      → Sound (provision_known p u now r w).1
  unfolding provisioner
  provision_known-Sound u now (err e) w s = s
  provision_known-Sound u now (ok _) w s =
      grant_semesters-Sound u.username (in_order (entitled_codes u now)) w s

  -- Provisioning any user in any semester keeps a sound database sound, in whatever order the codes are
  -- gone through, whatever fails and whatever other processes commit between the statements.
  pub provision-Sound : (u : User) (now : ℤ) (w : World) → Sound w → Sound (provision p u now w).1
  unfolding provision provisioner
  provision-Sound u now w s =
      let r = ensure_user u.username w in
      provision_known-Sound u now r.0 r.1 (ensure_user-Sound u.username w s)
