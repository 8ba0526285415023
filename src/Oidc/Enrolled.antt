-- ===== src/Oidc/Enrolled.antt =====
-- The semesters of a user's courses.
use piping.Prelude.{
  ℕ, suc, ℤ, eq_ℤ, eq_ℤ_iff, Bool, false, ◌||◌, Option, List, [], ◌∷◌, any, if◌then◌else◌, ◌≡◌,
  refl, ap, arith, inl, inr, Bool-cases,
}
use piping.Error.{Result, ok, err}
use piping.Semester.{code}
use piping.Oidc.{Course, UserInfo}
use piping.Oidc.Users.{enrol, enrol_course, enrol_courses, to_user}

-- How often a code stands in a list.
abbrev pub times : ℤ → List ℤ → ℕ
times x [] = 0
times x (y ∷ ys) = if eq_ℤ x y then suc (times x ys) else times x ys

abbrev pub gives : ℤ → Result ℤ → Bool
gives x (ok y) = eq_ℤ x y
gives x (err e) = false

-- The semester of the course has this code.
abbrev pub is_in : ℤ → Course → Bool
is_in x c = gives x (code c.semester)

times-absent : (x : ℤ) (ys : List ℤ) → any (eq_ℤ x) ys ≡ false → times x ys ≡ 0
times-absent x [] h = refl
times-absent x (y ∷ ys) h = ground (arith, times-absent x ys)

-- Every code stands once or not at all.
abbrev Once : List ℤ → Type 0
Once ys = (x : ℤ) → times x ys ≡ (if any (eq_ℤ x) ys then 1 else 0)

times_cons :
    (x c : ℤ) (ys : List ℤ)
    → Once ys
    → any (eq_ℤ c) ys ≡ false
    → times x (c ∷ ys) ≡ (if any (eq_ℤ x) (c ∷ ys) then 1 else 0)
times_cons x c ys once new = elim (Bool-cases (eq_ℤ x c)) [
  | inl e ↦ rw e (ap suc (times-absent x ys (rw ((eq_ℤ_iff x c).0 e) new)))
  | inr e ↦ rw (e, once x) refl
]

Once-enrol : (c : ℤ) (ys : List ℤ) → Once ys → Once (enrol c ys)
Once-enrol c ys once x = elim (Bool-cases (any (eq_ℤ c) ys)) [
  | inl e ↦ rw e (once x)
  | inr e ↦ rw e (times_cons x c ys once e)
]

Once-enrol_course : (r : Result ℤ) (ys : List ℤ) → Once ys → Once (enrol_course r ys)
Once-enrol_course (ok c) ys once = Once-enrol c ys once
Once-enrol_course (err e) ys once = once

Once-enrol_courses : (cs : List Course) (ys : List ℤ) → Once ys → Once (enrol_courses cs ys)
unfolding enrol_courses
Once-enrol_courses [] ys once = once
Once-enrol_courses (c ∷ cs) ys once =
    Once-enrol_courses cs (enrol_course (code c.semester) ys)
      (Once-enrol_course (code c.semester) ys once)

any-enrol : (x c : ℤ) (ys : List ℤ) → any (eq_ℤ x) (enrol c ys) ≡ (eq_ℤ x c || any (eq_ℤ x) ys)
any-enrol x c ys = elim (Bool-cases (any (eq_ℤ c) ys)) [
  | inl e ↦ elim (Bool-cases (eq_ℤ x c)) [
    | inl same ↦ rw (e, same, (eq_ℤ_iff x c).0 same, e) refl
    | inr differ ↦ rw (e, differ) refl
  ]
  | inr e ↦ rw e refl
]

any-enrol_course :
    (x : ℤ) (r : Result ℤ) (ys : List ℤ)
    → any (eq_ℤ x) (enrol_course r ys) ≡ (gives x r || any (eq_ℤ x) ys)
any-enrol_course x (ok c) ys = any-enrol x c ys
any-enrol_course x (err e) ys = refl

any-enrol_courses :
    (x : ℤ) (cs : List Course) (ys : List ℤ)
    → any (eq_ℤ x) (enrol_courses cs ys) ≡ (any (is_in x) cs || any (eq_ℤ x) ys)
unfolding enrol_courses
any-enrol_courses x [] ys = refl
any-enrol_courses x (c ∷ cs) ys =
    rw
      (
        any-enrol_courses x cs (enrol_course (code c.semester) ys),
        any-enrol_course x (code c.semester) ys,
      )
      (ground arith)

-- A user is enrolled in a semester, once, exactly if one of the courses names that semester in a form
-- that can be parsed, whatever the order in which the map of the semesters is read.
pub times-enrolments :
    (first_rdn : List ℕ → Option (List ℕ)) (order : List ℤ → List ℤ)
    → ((x : ℤ) (ys : List ℤ) → times x (order ys) ≡ times x ys)
    → (u : UserInfo) (x : ℤ)
    → times x (to_user first_rdn order u).enrolments ≡ (if any (is_in x) u.courses then 1 else 0)
unfolding to_user
times-enrolments first_rdn order keeps u x =
    rw
      (
        keeps x (enrol_courses u.courses []),
        Once-enrol_courses u.courses [] (λ y. refl) x,
        any-enrol_courses x u.courses [],
      )
      (ground arith)
