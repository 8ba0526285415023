-- ===== src/Examples/Runs.antt =====
-- Theorems on whole runs over the store (internal/app, internal/postgres), at the department.
use piping.Prelude.{
  ℤ, true, All-Among, Among, ◌-◌, if◌then◌else◌, pos, ◌+ℤ◌, ◌-ℤ◌, ◌≤ℤ◌, some, [], ◌∷◌, ◌≡◌, refl,
  arith, inl, ◌⊎◌,
}
use piping.Job.{quota_deducted, print_failed, quota_deducting_state_names, valid_transition}
use piping.Store.{granted, counts, spent, remaining, set_state, accepts_job}
use piping.Store.World.{submits, updates, query, decided, apply_moves}
use piping.Store.Sound.{IsSound}
use piping.Store.Sound.Locked.{remaining-apply_moves}
use piping.Store.View.{state_of}
use piping.Store.Jobs.{check_quota_and_store}
use piping.Store.Jobs.Promises.{
  check_quota_and_store-IsSound, check_quota_and_store-stores, IsStored,
}
use piping.Store.Jobs.Safe.{Sound}
use piping.App.Deliver.{deliver, pick_destination}
use piping.App.Deliver.Outcome.{Told, deliver-truthful}
use piping.App.Deliver.Attempts.{IsHonest, allowed, ticketed, deliver-IsHonest}
use piping.App.Submit.{submit}
use piping.App.Submit.Checks.{Decided, submit-Decided}
use piping.App.Postgres.{deliverer, submitter}
use piping.App.Sound.{submit-Sound}
use piping.App.Sweep.{pass, run, tick, done}
use piping.App.Sweep.Kept.{sweeper}
use piping.App.Sweep.Only.{or_failed, run-InCell}
use piping.App.Sweep.Resolves.{waits_since, pass-resolves}
use piping.Store.Cells.{InCell}
use piping.Store.World.{fine}
use piping.Error.{err, other}
use piping.Store.Listings.{jobs_for_user}
use piping.Store.Listings.Rows.{Shows, next_net, jobs_for_user-Shows}
use piping.Error.{ok}
use piping.App.Provision.{quota_for, entitled_codes, provision}
use piping.App.Provision.Steps.{has_grant}
use piping.App.Provision.Settled.{IsOrdinary}
use piping.App.Provision.Again.{provision-grants, provision_again}
use piping.App.Provision.Grants.{provisioner, provision-Sound}
use piping.Examples.Samples.{
  print_job, department, department-IsSound, scene, config, upload, print_job-InCell, alice,
}

submit-Sound_example : Sound (submit (submitter config) upload scene).1
submit-Sound_example = submit-Sound config upload scene department-IsSound

check_quota_and_store-IsSound_example : IsSound (check_quota_and_store print_job scene).1.db
check_quota_and_store-IsSound_example =
    check_quota_and_store-IsSound print_job scene department-IsSound

check_quota_and_store-stores_example :
    IsStored print_job
      (check_quota_and_store print_job scene).0.0
      (check_quota_and_store print_job scene).0.1
      (check_quota_and_store print_job scene).1.db
unfolding query valid_transition set_state accepts_job decided remaining ◌-ℤ◌ granted ◌+ℤ◌ spent
    counts quota_deducting_state_names
check_quota_and_store-stores_example =
    check_quota_and_store-stores print_job scene department-IsSound
      (unfold check_quota_and_store in refl)

deliver-truthful_example : Told 1 (deliver (deliverer (pos 3)) print_job upload.document scene)
deliver-truthful_example =
    deliver-truthful (pos 3) print_job upload.document scene
      ((tt, tt), (tt, (((λ _. refl), tt), tt))) print_job-InCell

deliver-IsHonest_example :
    IsHonest
      (allowed (pos 3))
      (ticketed (pos 3) print_job upload.document (pick_destination (deliverer (pos 3)) 7 scene).0)
      []
      (deliver (deliverer (pos 3)) print_job upload.document scene)
deliver-IsHonest_example = deliver-IsHonest (pos 3) print_job upload.document scene

submit-Decided_example :
    Decided (submitter config) upload scene (submit (submitter config) upload scene)
submit-Decided_example = submit-Decided (submitter config) upload scene

remaining-apply_moves_example :
    remaining "alice" department
    ≤ℤ remaining "alice" (
        apply_moves
          (some "alice")
          (updates 1 quota_deducted print_failed ∷ submits print_job ∷ [])
          department)
remaining-apply_moves_example =
    remaining-apply_moves "alice" (updates 1 quota_deducted print_failed ∷ submits print_job ∷ [])
      department department-IsSound

pass-resolves_example :
    state_of 1 (pass (sweeper 5 10) (record scene { turns = [] })).db
    ≡ some (if waits_since (50 - 5) print_job then print_failed else quota_deducted)
pass-resolves_example =
    pass-resolves 5 10 scene print_job department-IsSound (omega arith) (inl refl)

run-InCell_example :
    InCell 1 (or_failed quota_deducted) (run (sweeper 5 10) (tick ∷ done ∷ []) scene).db
run-InCell_example =
    run-InCell 5 10 (tick ∷ done ∷ []) scene 1 quota_deducted department-IsSound
      ((tt, tt), (tt, (((λ _. refl), tt), tt))) (unfold state_of in refl)

provision-Sound_example :
    Sound (provision (provisioner (pos 250) (λ l. l)) alice (pos 202609) scene).1
provision-Sound_example =
    provision-Sound (pos 250) (λ l. l) alice (pos 202609) scene department-IsSound

alice-IsOrdinary : (c : ℤ) → Among c (entitled_codes alice (pos 202609)) → IsOrdinary (pos 250) c
unfolding entitled_codes
alice-IsOrdinary c i =
    All-Among (IsOrdinary (pos 250)) c (pos 202601 ∷ pos 202609 ∷ [])
      (unfold quota_for in ((ground arith, ground arith), ((ground arith, ground arith), tt))) i

provision-grants_example :
    has_grant "alice"
      (pos 202601)
      (provision
        (provisioner (pos 250) (λ l. l))
        alice
        (pos 202609)
        (record scene { turns = [] })).1.db
    ≡ true
provision-grants_example =
    provision-grants (pos 250) (λ l. l) alice (pos 202609) scene (refl, tt)
      (λ c l. ((λ i. i), (λ i. i))) alice-IsOrdinary (pos 202601)
      (unfold entitled_codes in inl refl)

provision_again_example :
    provision
      (provisioner (pos 250) (λ l. l))
      alice
      (pos 202609)
      (provision
        (provisioner (pos 250) (λ l. l))
        alice
        (pos 202609)
        (record scene { turns = [] })).1
    ≡ (
      ok tt,
      (provision
          (provisioner (pos 250) (λ l. l))
          alice
          (pos 202609)
          (record scene { turns = [] })).1,
    )
provision_again_example =
    provision_again (pos 250) (λ l. l) alice (pos 202609) scene (refl, tt)
      (λ c l. ((λ i. i), (λ i. i))) alice-IsOrdinary (λ l. l) (λ c l. ((λ i. i), (λ i. i)))

jobs_for_user-Shows_example :
    Shows "alice" 30 5 (jobs_for_user "alice" 30 5 scene).0
    × ((next_net scene.turns ≡ fine) ⊎ ((jobs_for_user "alice" 30 5 scene).0 ≡ err other))
jobs_for_user-Shows_example = jobs_for_user-Shows "alice" 30 5 scene
