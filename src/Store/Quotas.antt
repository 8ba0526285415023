-- ===== src/Store/Quotas.antt =====
-- internal/postgres/quota_store.go, and `EnsureUser` of internal/postgres/user_store.go.
pub mod Safe
use piping.Prelude.{
  ℕ, ℤ, pos, wrap64, leb_ℤ, fits_int32, eq_ℤ, String, Bool, ◌&&◌, none, List, [], ◌∷◌,
  if◌then◌else◌,
}
use piping.Error.{Result, ok, err, other}
use piping.Semester.{name}
use piping.Store.{Db, SemesterRow, Grant, granted, spent, remaining}
use piping.Store.World.{Io, query, exec, insert_user, insert_semester, insert_grant, accepts_grant}

unfoldable pub remaining_quota : String → Io ℤ
remaining_quota u = query none (λ d. ok (wrap64 (remaining u d)))

unfoldable pub granted_quota : String → Io ℤ
granted_quota u = query none (λ d. ok (wrap64 (granted u d.grants)))

unfoldable pub spent_quota : String → Io ℤ
spent_quota u = query none (λ d. ok (wrap64 (spent u d.jobs)))

unfoldable pub ensure_user : String → Io (Unit {0})
ensure_user u = exec none (λ d. (ok tt, insert_user u d))

-- RETURNING default_quota, of the row that is there after the INSERT
unfoldable pub default_of : ℤ → List SemesterRow → Result ℤ
default_of id [] = err other
default_of id (s ∷ ss) = if eq_ℤ s.id id then ok s.default_quota else default_of id ss

-- The columns hold 32 bits.
unfoldable pub upsert_semester : ℤ → ℤ → Db → Result ℤ × Db
upsert_semester id quota d =
    let d' = insert_semester (record { id = id; name = name id; default_quota = quota }) d in
    if fits_int32 id && fits_int32 quota then (default_of id d'.semesters, d') else (err other, d)

unfoldable pub ensure_semester : ℤ → ℤ → Io ℤ
unfolding upsert_semester default_of
ensure_semester id quota = exec none (upsert_semester id quota)

unfoldable pub add_grant : Grant → Db → Result (Unit {0}) × Db
add_grant g d =
    if fits_int32 g.semester_id && fits_int32 g.amount && accepts_grant g d
    then (ok tt, insert_grant g d)
    else (err other, d)

unfoldable pub ensure_grant : String → ℤ → ℤ → Io (Unit {0})
unfolding add_grant
ensure_grant u semester_id amount =
    exec none (add_grant (record { user_id = u; semester_id = semester_id; amount = amount }))
