-- ===== src/Store/Quotas/Safe.antt =====
-- Soundness of the database under the methods that provision a user (internal/postgres/quota_store.go).
use piping.Prelude.{ℤ, true, ◌&&◌, fits_int32, none, String, ◌≡◌, if_case, arith}
use piping.Error.{Result, ok}
use piping.Store.{Db, Grant}
use piping.Store.World.{
  World, adds_user, adds_semester, grants, apply_move, accepts_grant, insert_user, insert_grant,
}
use piping.Store.Sound.{IsSound}
use piping.Store.Sound.Moves.{apply_move-IsSound}
use piping.Store.Jobs.Safe.{Sound, exec-Sound}
use piping.Store.Quotas.{ensure_user, upsert_semester, ensure_semester, add_grant, ensure_grant}

pub ensure_user-Sound : (u : String) (w : World) → Sound w → Sound (ensure_user u w).1
unfolding ensure_user
ensure_user-Sound u w s =
    exec-Sound none (λ d. (ok tt, insert_user u d)) w
      (λ d h. unfold apply_move in apply_move-IsSound (adds_user u) d h) s

upsert_semester-IsSound :
    (id quota : ℤ) (d : Db) → IsSound d → IsSound (upsert_semester id quota d).1
unfolding upsert_semester apply_move
upsert_semester-IsSound id quota d h =
    if_case {A = Result ℤ × Db} (λ p. IsSound p.1) (fits_int32 id && fits_int32 quota)
      (λ _.
        apply_move-IsSound (adds_semester (record { id = id; name = _; default_quota = quota })) d
          h)
      (λ _. h)

pub ensure_semester-Sound :
    (id quota : ℤ) (w : World) → Sound w → Sound (ensure_semester id quota w).1
unfolding ensure_semester
ensure_semester-Sound id quota w s =
    exec-Sound none (upsert_semester id quota) w (upsert_semester-IsSound id quota) s

insert_accepted :
    (g : Grant) (d : Db) → accepts_grant g d ≡ true → IsSound d → IsSound (insert_grant g d)
unfolding apply_move
insert_accepted g d a h = rw a at (apply_move-IsSound (grants g) d h)

add_grant-IsSound : (g : Grant) (d : Db) → IsSound d → IsSound (add_grant g d).1
unfolding add_grant
add_grant-IsSound g d h =
    if_case {A = Result (Unit {0}) × Db} (λ p. IsSound p.1)
      (fits_int32 g.semester_id && fits_int32 g.amount && accepts_grant g d)
      (λ a. insert_accepted g d (ground arith) h) (λ _. h)

pub ensure_grant-Sound :
    (u : String) (semester_id amount : ℤ) (w : World)
    → Sound w
    → Sound (ensure_grant u semester_id amount w).1
unfolding ensure_grant
ensure_grant-Sound u semester_id amount w s =
    let g : Grant = record { user_id = u; semester_id = semester_id; amount = amount } in
    exec-Sound none (add_grant g) w (add_grant-IsSound g) s
