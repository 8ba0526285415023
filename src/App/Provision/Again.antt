-- ===== src/App/Provision/Again.antt =====
-- internal/app/provision.go with no interference and no failure, once and twice.
use piping.Prelude.{
  ℤ, String, str_eq, eq_refl, true, any, List, [], ◌∷◌, ◌≡◌, refl, ap, ◌∙◌, ◌↔◌, Among, if_case,
}
use piping.Error.{Result, ok, err}
use piping.User.{User}
use piping.Store.{Db}
use piping.Store.World.{World, exec, take_turn, insert_user}
use piping.Store.Quotas.{ensure_user, ensure_semester, ensure_grant, upsert_semester}
use piping.App.Provision.{
  Provisioner, quota_for, entitled_codes, grant_amount, grant_semester, grant_semesters, provision,
}
use piping.App.Provision.Grants.{provisioner}
use piping.App.Provision.Steps.{has_grant, Grantable, given, granted_one, granted_all, IsStep}
use piping.App.Provision.Settled.{IsSettled, IsOrdinary, granted_all-IsStep, granted_all-settled}

module _ (q : ℤ) (in_order : List ℤ → List ℤ) where
  abbrev p : Provisioner World
  p = provisioner q in_order

  abbrev quiet : World → Db → World
  quiet w d = record w { db = d; turns = [] }

  grant_amount-quiet :
      (u : String) (code : ℤ) (r : Result ℤ) (w : World) (d : Db)
      → grant_amount p u code r (quiet w d) ≡ quiet w (given u code (r, d))
  unfolding provisioner ensure_grant exec take_turn
  grant_amount-quiet u code (err e) w d = refl
  grant_amount-quiet u code (ok amount) w d = refl

  grant_semester-quiet :
      (u : String) (code : ℤ) (w : World) (d : Db)
      → grant_semester p u code (quiet w d) ≡ quiet w (granted_one q u code d)
  unfolding provisioner ensure_semester exec take_turn granted_one
  grant_semester-quiet u code w d =
      let r = upsert_semester code (quota_for q code) d in grant_amount-quiet u code r.0 w r.1

  grant_semesters-quiet :
      (u : String) (codes : List ℤ) (w : World) (d : Db)
      → grant_semesters p u codes (quiet w d) ≡ quiet w (granted_all q u codes d)
  unfolding grant_semesters granted_all
  grant_semesters-quiet u [] w d = refl
  grant_semesters-quiet u (code ∷ codes) w d =
      ap (grant_semesters p u codes) (grant_semester-quiet u code w d)
      ∙ grant_semesters-quiet u codes w (granted_one q u code d)

  provision-quiet :
      (u : User) (now : ℤ) (w : World)
      → provision p u now (record w { turns = [] }) ≡ (
        ok tt,
        quiet w (
            granted_all q u.username
              (in_order (entitled_codes u now))
              (insert_user u.username w.db)),
      )
  unfolding provision provisioner ensure_user exec take_turn
  provision-quiet u now w =
      ap (λ x. (ok tt, x))
        (grant_semesters-quiet u.username (in_order (entitled_codes u now)) w
          (insert_user u.username w.db))

-- The database in which a user is there, after the first statement.
insert_user_known : (u : String) (d : Db) → any (str_eq u) (insert_user u d).users ≡ true
unfolding insert_user
insert_user_known u d =
    if_case (λ (x : Db). any (str_eq u) x.users ≡ true) (any (str_eq u) d.users) (λ e. e)
      (λ _. rw (eq_refl u) refl)

insert_user-Grantable : (u : String) (d : Db) → Grantable d → Grantable (insert_user u d)
unfolding insert_user
insert_user-Grantable u d g = if_case Grantable (any (str_eq u) d.users) (λ _. g) (λ _. g)

insert_user_again : (u : String) (d : Db) → any (str_eq u) d.users ≡ true → insert_user u d ≡ d
unfolding insert_user
insert_user_again u d h = rw h refl

module _ (q : ℤ) (in_order : List ℤ → List ℤ) (u : User) (now : ℤ) (w : World)
    (grantable : Grantable w.db) (same : (c : ℤ) (l : List ℤ) → Among c (in_order l) ↔ Among c l)
    (ordinary : (c : ℤ) → Among c (entitled_codes u now) → IsOrdinary q c) where
  abbrev ordered : List ℤ
  ordered = in_order (entitled_codes u now)

  abbrev after : Db
  after = granted_all q u.username ordered (insert_user u.username w.db)

  ended :
      IsStep u.username (insert_user u.username w.db) after
      × ((c : ℤ) → Among c ordered → IsSettled u.username c after)
  ended =
      granted_all-IsStep q u.username ordered (insert_user u.username w.db)
        (insert_user_known u.username w.db) (insert_user-Grantable u.username w.db grantable)
        (λ c i. ordinary c ((same c (entitled_codes u now)).0 i))

  -- With no interference and no failure, and with semesters whose codes and default quotas the tables take,
  -- provisioning leaves the user with a grant for every semester that he is entitled to.
  pub provision-grants :
      (c : ℤ)
      → Among c (entitled_codes u now)
      → has_grant u.username c
          (provision (provisioner q in_order) u now (record w { turns = [] })).1.db
        ≡ true
  provision-grants c i =
      rw (provision-quiet q in_order u now w)
        ((ended.1 c ((same c (entitled_codes u now)).1 i)).in_hand)

  -- Under the same conditions a second sign-in changes nothing, in whatever order its codes are gone
  -- through.
  pub provision_again :
      (in_order' : List ℤ → List ℤ)
      → ((c : ℤ) (l : List ℤ) → Among c (in_order' l) ↔ Among c l)
      → provision
          (provisioner q in_order')
          u
          now
          (provision (provisioner q in_order) u now (record w { turns = [] })).1
        ≡ (ok tt, (provision (provisioner q in_order) u now (record w { turns = [] })).1)
  provision_again in_order' same' = rw (provision-quiet q in_order u now w) (
      provision-quiet q in_order' u now (record w { db = after; turns = [] })
      ∙ ap (λ d. (ok tt, record w { db = d; turns = [] })) nothing)
    where
      nothing :
          granted_all q u.username (in_order' (entitled_codes u now)) (insert_user u.username after)
          ≡ after
      nothing =
          ap (granted_all q u.username (in_order' (entitled_codes u now)))
            (insert_user_again u.username after ended.0.known)
          ∙ granted_all-settled q u.username (in_order' (entitled_codes u now)) after (λ c i.
            ended.1 c ((same c (entitled_codes u now)).1 ((same' c (entitled_codes u now)).0 i)))
