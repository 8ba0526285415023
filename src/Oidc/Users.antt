-- ===== src/Oidc/Users.antt =====
-- internal/oidc/oidc.go: the user that the claims of the provider describe.
use piping.Prelude.{ℕ, ℤ, eq_ℤ, Option, none, some, List, [], ◌∷◌, any, if◌then◌else◌}
use piping.Error.{Result, ok, err}
use piping.Semester.{code}
use piping.User.{User, role_from_groups, eligible_for_quota}
use piping.Oidc.{Course, UserInfo}

-- `enrolled[code] = true`
abbrev pub enrol : ℤ → List ℤ → List ℤ
enrol c enrolled = if any (eq_ℤ c) enrolled then enrolled else c ∷ enrolled

abbrev pub enrol_course : Result ℤ → List ℤ → List ℤ
enrol_course (ok c) enrolled = enrol c enrolled
enrol_course (err e) enrolled = enrolled

unfoldable pub enrol_courses : List Course → List ℤ → List ℤ
enrol_courses [] enrolled = enrolled
enrol_courses (c ∷ cs) enrolled = enrol_courses cs (enrol_course (code c.semester) enrolled)

-- `first_rdn` reads the name of a group from its distinguished name, by the ldap package.
unfoldable pub group_names : (List ℕ → Option (List ℕ)) → List (List ℕ) → List (List ℕ)
group_names first_rdn [] = []
group_names first_rdn (dn ∷ dns) =
    let rest = group_names first_rdn dns in elim (first_rdn dn) [ none ↦ rest | some g ↦ g ∷ rest ]

-- `order` is the order in which the map of the enrolments is read.
unfoldable pub to_user : (List ℕ → Option (List ℕ)) → (List ℤ → List ℤ) → UserInfo → User
unfolding group_names enrol_courses
to_user first_rdn order u =
    let groups = group_names first_rdn u.groups in
    record {
      username = u.username;
      full_name = u.full_name;
      email = u.email;
      role = role_from_groups groups;
      quota_eligible = eligible_for_quota u.faculty groups;
      enrolments = order (enrol_courses u.courses []);
    }
