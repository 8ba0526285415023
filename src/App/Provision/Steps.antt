-- ===== src/App/Provision/Steps.antt =====
-- What the statements of provisioning do to the tables of semesters and grants.
use piping.Prelude.{
  ℤ, pos, leb_ℤ, eq_ℤ, eq_ℤ_iff, fits_int32, String, str_eq, eq_refl, Bool, true, ◌&&◌, any, List,
  [], ◌∷◌, ◌≡◌, refl, arith, All, if_case, Bool-cases, inl, inr,
}
use piping.Error.{Result, ok, err}
use piping.Store.{Db, Grant, SemesterRow}
use piping.Store.World.{insert_semester, insert_grant, same_grant}
use piping.Store.Quotas.{upsert_semester, default_of, add_grant}
use piping.App.Provision.{quota_for}

-- A grant for a user in a semester.
abbrev pub grant : String → ℤ → ℤ → Grant
grant u code amount = record { user_id = u; semester_id = code; amount = amount }

-- The user has been granted the quota of the semester.
abbrev pub has_grant : String → ℤ → Db → Bool
has_grant u code d = any (same_grant (grant u code (pos 0))) d.grants

abbrev pub has_semester : ℤ → Db → Bool
has_semester code d = any (λ t. eq_ℤ t.id code) d.semesters

-- The default quota of every semester can be granted.
abbrev pub Grantable : Db → Type 0
Grantable d =
    All (λ (s : SemesterRow). (leb_ℤ (pos 0) s.default_quota && fits_int32 s.default_quota) ≡ true)
      d.semesters

-- What is done for one semester.
abbrev pub given : String → ℤ → Result ℤ × Db → Db
given u code (err e, d) = d
given u code (ok amount, d) = (add_grant (grant u code amount) d).1

unfoldable pub granted_one : ℤ → String → ℤ → Db → Db
granted_one q u code d = given u code (upsert_semester code (quota_for q code) d)

unfoldable pub granted_all : ℤ → String → List ℤ → Db → Db
granted_all q u [] d = d
granted_all q u (code ∷ codes) d = granted_all q u codes (granted_one q u code d)

-- A step of provisioning for `u` forgets nothing.
pub record IsStep (u : String) (d d' : Db) : Type 0 where
  pub known : any (str_eq u) d'.users ≡ true
  pub grantable : Grantable d'
  pub keeps_semester : (c : ℤ) → has_semester c d ≡ true → has_semester c d' ≡ true
  pub keeps_grant : (c : ℤ) → has_grant u c d ≡ true → has_grant u c d' ≡ true

pub IsStep-then : {u : String} {a b c : Db} → IsStep u a b → IsStep u b c → IsStep u a c
IsStep-then s t = record {
  known = t.known;
  grantable = t.grantable;
  keeps_semester = λ k h. t.keeps_semester k (s.keeps_semester k h);
  keeps_grant = λ k h. t.keeps_grant k (s.keeps_grant k h);
}

pub eq_ℤ_refl : (a : ℤ) → eq_ℤ a a ≡ true
eq_ℤ_refl a = (eq_ℤ_iff a a).1 refl

module _ (u : String) (d : Db) (known : any (str_eq u) d.users ≡ true)
    (grantable : Grantable d) where
  pub insert_semester-IsStep :
      (row : SemesterRow)
      → (leb_ℤ (pos 0) row.default_quota && fits_int32 row.default_quota) ≡ true
      → IsStep u d (insert_semester row d) × (has_semester row.id (insert_semester row d) ≡ true)
  unfolding insert_semester
  insert_semester-IsStep row ok_row =
      if_case (λ d'. IsStep u d d' × (has_semester row.id d' ≡ true))
        (any (λ t. eq_ℤ t.id row.id) d.semesters)
        (λ e. (
          record {
            known = known;
            grantable = grantable;
            keeps_semester = λ c h. h;
            keeps_grant = λ c h. h;
          },
          e,
        ))
        (λ _. (
          record {
            known = known;
            grantable = (ok_row, grantable);
            keeps_semester = λ c h. ground (arith, h);
            keeps_grant = λ c h. h;
          },
          rw (eq_ℤ_refl row.id) refl,
        ))

  pub insert_grant-IsStep :
      (g : Grant)
      → g.user_id ≡ u
      → IsStep u d (insert_grant g d) × (has_grant u g.semester_id (insert_grant g d) ≡ true)
  unfolding insert_grant
  insert_grant-IsStep g mine =
      if_case (λ d'. IsStep u d d' × (has_grant u g.semester_id d' ≡ true))
        (any (same_grant g) d.grants)
        (λ e. (
          record {
            known = known;
            grantable = grantable;
            keeps_semester = λ c h. h;
            keeps_grant = λ c h. h;
          },
          rw (← mine) e,
        ))
        (λ _. (
          record {
            known = known;
            grantable = grantable;
            keeps_semester = λ c h. h;
            keeps_grant = λ c h. ground (arith, h);
          },
          rw (mine, eq_refl u, eq_ℤ_refl g.semester_id) refl,
        ))

pub default_of_found :
    (code : ℤ) (ss : List SemesterRow)
    → All
        (λ (s : SemesterRow). (leb_ℤ (pos 0) s.default_quota && fits_int32 s.default_quota) ≡ true)
        ss
    → any (λ t. eq_ℤ t.id code) ss ≡ true
    → (a : ℤ) × (default_of code ss ≡ ok a) × ((leb_ℤ (pos 0) a && fits_int32 a) ≡ true)
unfolding default_of
default_of_found code [] h e = cc
default_of_found code (s ∷ ss) h e = elim (Bool-cases (eq_ℤ s.id code)) [
  | inl b ↦ (s.default_quota, rw b refl, h.0)
  | inr b ↦ let (a, f, k) = default_of_found code ss h.1 (rw b at e) in (a, rw b f, k)
]
