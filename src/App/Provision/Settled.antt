-- ===== src/App/Provision/Settled.antt =====
-- What provisioning leaves behind, one semester after the other.
use piping.Prelude.{
  ℤ, pos, leb_ℤ, fits_int32, String, str_eq, Bool, true, ◌&&◌, any, List, [], ◌∷◌, ◌≡◌, refl, ap,
  subst, ◌∙◌, arith, Among, if◌then◌else◌, if_case, inl, inr,
}
use piping.Error.{Result, ok, err, other}
use piping.Semester.{name}
use piping.Store.{Db, Grant, SemesterRow}
use piping.Store.World.{insert_semester, insert_grant, accepts_grant}
use piping.Store.Quotas.{upsert_semester, default_of, add_grant}
use piping.App.Provision.{quota_for}
use piping.App.Provision.Steps.{
  grant, has_grant, has_semester, Grantable, given, granted_one, granted_all, IsStep, IsStep-then,
  insert_semester-IsStep, insert_grant-IsStep, default_of_found,
}

-- The semester is there, and `u` has its grant.
pub record IsSettled (u : String) (code : ℤ) (d : Db) : Type 0 where
  pub in_table : has_semester code d ≡ true
  pub in_hand : has_grant u code d ≡ true

-- The code and its default quota are numbers that the tables take.
abbrev pub IsOrdinary : ℤ → ℤ → Type 0
IsOrdinary q code =
    (fits_int32 code ≡ true)
    × ((leb_ℤ (pos 0) (quota_for q code) && fits_int32 (quota_for q code)) ≡ true)

if_true : {A : Type 0} (b : Bool) (x y : A) → b ≡ true → (if b then x else y) ≡ x
if_true b x y h = rw h refl

upsert_fits :
    (code quota : ℤ) (d : Db)
    → fits_int32 code ≡ true
    → fits_int32 quota ≡ true
    → let d1 = insert_semester (record { id = code; name = name code; default_quota = quota }) d in
      upsert_semester code quota d ≡ (default_of code d1.semesters, d1)
unfolding upsert_semester
upsert_fits code quota d f g =
    let d1 = insert_semester (record { id = code; name = name code; default_quota = quota }) d in
    if_true (fits_int32 code && fits_int32 quota) (default_of code d1.semesters, d1) (err other, d)
      (ground arith)

add_accepted :
    (g : Grant) (d : Db)
    → fits_int32 g.semester_id ≡ true
    → (leb_ℤ (pos 0) g.amount && fits_int32 g.amount) ≡ true
    → any (str_eq g.user_id) d.users ≡ true
    → has_semester g.semester_id d ≡ true
    → (add_grant g d).1 ≡ insert_grant g d
unfolding add_grant accepts_grant
add_accepted g d f k known has =
    if_case {A = Result (Unit {0}) × Db} (λ p. p.1 ≡ insert_grant g d)
      (fits_int32 g.semester_id && fits_int32 g.amount && accepts_grant g d) (λ _. refl)
      (λ n. ground arith)

granted_one-IsStep :
    (q : ℤ) (u : String) (code : ℤ) (d : Db)
    → any (str_eq u) d.users ≡ true
    → Grantable d
    → IsOrdinary q code
    → IsStep u d (granted_one q u code d) × IsSettled u code (granted_one q u code d)
unfolding granted_one
granted_one-IsStep q u code d known grantable (fits, ok_quota) =
    let row : SemesterRow = record {
      id = code;
      name = name code;
      default_quota = quota_for q code;
    } in
    let d1 = insert_semester row d in
    let (s1, has1) = insert_semester-IsStep u d known grantable row ok_quota in
    let (a, f, k) = default_of_found code d1.semesters s1.grantable has1 in
    let (s2, has2) = insert_grant-IsStep u d1 s1.known s1.grantable (grant u code a) refl in
    let whole : granted_one q u code d ≡ insert_grant (grant u code a) d1 =
      ap (given u code)
        (upsert_fits code (quota_for q code) d fits (ground arith) ∙ ap (λ r. (r, d1)) f)
      ∙ add_accepted (grant u code a) d1 fits k s1.known has1 in
    rw whole (IsStep-then s1 s2, record { in_table = s2.keeps_semester code has1; in_hand = has2 })

-- Nothing changes where the semester and the grant are there.
upsert_settled :
    (code quota : ℤ) (d : Db) → has_semester code d ≡ true → (upsert_semester code quota d).1 ≡ d
unfolding upsert_semester insert_semester
upsert_settled code quota d h =
    if_case {A = Result ℤ × Db} (λ p. p.1 ≡ d) (fits_int32 code && fits_int32 quota)
      (λ _. rw h refl) (λ _. refl)

given_settled :
    (u : String) (code : ℤ) (r : Result ℤ) (d : Db)
    → has_grant u code d ≡ true
    → given u code (r, d) ≡ d
unfolding add_grant insert_grant
given_settled u code (err e) d h = refl
given_settled u code (ok a) d h =
    if_case {A = Result (Unit {0}) × Db} (λ p. p.1 ≡ d)
      (fits_int32 code && fits_int32 a && accepts_grant (grant u code a) d) (λ _. rw h refl)
      (λ _. refl)

granted_one_settled :
    (q : ℤ) (u : String) (code : ℤ) (d : Db) → IsSettled u code d → granted_one q u code d ≡ d
unfolding granted_one
granted_one_settled q u code d s =
    let r = upsert_semester code (quota_for q code) d in
    ap (λ x. given u code (r.0, x)) (upsert_settled code (quota_for q code) d s.in_table)
    ∙ given_settled u code r.0 d s.in_hand

pub granted_all-settled :
    (q : ℤ) (u : String) (codes : List ℤ) (d : Db)
    → ((c : ℤ) → Among c codes → IsSettled u c d)
    → granted_all q u codes d ≡ d
unfolding granted_all
granted_all-settled q u [] d h = refl
granted_all-settled q u (code ∷ codes) d h =
    ap (granted_all q u codes) (granted_one_settled q u code d (h code (inl refl)))
    ∙ granted_all-settled q u codes d (λ c i. h c (inr i))

pub granted_all-IsStep :
    (q : ℤ) (u : String) (codes : List ℤ) (d : Db)
    → any (str_eq u) d.users ≡ true
    → Grantable d
    → ((c : ℤ) → Among c codes → IsOrdinary q c)
    → IsStep u d (granted_all q u codes d)
      × ((c : ℤ) → Among c codes → IsSettled u c (granted_all q u codes d))
unfolding granted_all
granted_all-IsStep q u [] d known grantable h = (
  record {
    known = known;
    grantable = grantable;
    keeps_semester = λ c e. e;
    keeps_grant = λ c e. e;
  },
  (λ c i. elim i [ ]),
)
granted_all-IsStep q u (code ∷ codes) d known grantable h =
    let (s, settled) = granted_one-IsStep q u code d known grantable (h code (inl refl)) in
    let (t, rest) =
      granted_all-IsStep q u codes (granted_one q u code d) s.known s.grantable
        (λ c i. h c (inr i)) in
    (
      IsStep-then s t,
      (λ c i. elim i [
        | inl e ↦
            subst (λ k. IsSettled u k (granted_all q u codes (granted_one q u code d))) e
              (record {
                in_table = t.keeps_semester code settled.in_table;
                in_hand = t.keeps_grant code settled.in_hand;
              })
        | inr j ↦ rest c j
      ]),
    )
