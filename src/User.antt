-- ===== src/User.antt =====
-- internal/user/user.go: users, their roles, and who is eligible for quota. A name of a group is the
-- list of its code points.
pub mod Roles
use piping.Prelude.{
  ℕ, ◌+◌, ℤ, String, Bool, true, false, ◌&&◌, ◌||◌, Option, none, some, List, [], ◌∷◌, leb, ◌==◌,
  str_eq, any, if◌then◌else◌,
}
use piping.Decimal.{codes}
use piping.Error.{Result, ok, err, other, ◌>>=◌}

pub data Role : Type 0 where
  role_none role_user role_staff role_admin : Role

unfoldable pub role_name : Role → String
role_name role_none = ""
role_name role_user = "user"
role_name role_staff = "staff"
role_name role_admin = "admin"

unfoldable pub role_from_name : String → Option Role
role_from_name s =
    if str_eq s "user"
    then some role_user
    else if str_eq s "staff"
    then some role_staff
    else if str_eq s "admin"
    then some role_admin
    else if str_eq s ""
    then some role_none
    else none

abbrev pub known_role : Option Role → Result Role
known_role (some r) = ok r
known_role none = err other

-- `MarshalJSON`, over `json.Marshal` for texts
unfoldable pub marshal_role : (String → Result (List ℕ)) → Role → Result (List ℕ)
unfolding role_name
marshal_role marshal r = marshal (role_name r)

-- `UnmarshalJSON`, over `json.Unmarshal` for texts. The role that was there stays if there is an error.
unfoldable pub unmarshal_role : (List ℕ → Result String) → List ℕ → Result Role
unfolding role_from_name
unmarshal_role unmarshal b = unmarshal b >>= λ s. known_role (role_from_name s)

pub record User : Type 0 where
  pub username : String
  pub full_name : String
  pub email : String
  pub role : Role
  pub quota_eligible : Bool
  pub enrolments : List ℤ

-- The simple case folding of Unicode, as far as it leads to ASCII: beside the capitals these are the
-- long s and the Kelvin sign.
unfoldable pub fold : ℕ → ℕ
fold c =
    if leb b'A' c && leb c b'Z'
    then c + 32
    else if c == 0x17F
    then b's'
    else if c == 0x212A
    then b'k'
    else c

-- `strings.EqualFold(s, t)` for an ASCII text `t`
unfoldable pub equal_fold : List ℕ → List ℕ → Bool
unfolding fold
equal_fold [] [] = true
equal_fold (c ∷ s) (d ∷ t) = (fold c == fold d) && equal_fold s t
equal_fold _ _ = false

unfoldable pub contains_fold : List (List ℕ) → List ℕ → Bool
contains_fold [] needle = false
contains_fold (h ∷ haystack) needle =
    let rest = contains_fold haystack needle in if equal_fold h needle then true else rest

abbrev pub admin_group : List ℕ
admin_group = codes "Org-Admins"

abbrev pub user_group : List ℕ
user_group = codes "Org-Users"

abbrev pub staff_groups : List (List ℕ)
staff_groups = codes "Org-Managers" ∷ codes "Org-Staff" ∷ []

abbrev pub group_all_students : List ℕ
group_all_students = codes "All-Students"

abbrev pub faculty_of_science : List ℕ
faculty_of_science = codes "Faculty of Science"

-- The loop over the groups of staff that are left, and what follows it.
role_from_staff : List (List ℕ) → List (List ℕ) → Role
role_from_staff groups [] = if contains_fold groups user_group then role_user else role_none
role_from_staff groups (g ∷ rest) =
    let next = role_from_staff groups rest in if contains_fold groups g then role_staff else next

unfoldable pub role_from_groups : List (List ℕ) → Role
unfolding role_from_staff
role_from_groups groups =
    if contains_fold groups admin_group then role_admin else role_from_staff groups staff_groups

unfoldable pub role_rank : Role → ℕ
role_rank role_none = 0
role_rank role_user = 1
role_rank role_staff = 2
role_rank role_admin = 3

abbrev pub is_role_none : Role → Bool
is_role_none role_none = true
is_role_none _ = false

unfoldable pub eligible_for_quota : List ℕ → List (List ℕ) → Bool
eligible_for_quota faculty groups =
    if equal_fold faculty faculty_of_science && contains_fold groups group_all_students
    then true
    else if is_role_none (role_from_groups groups)
    then false
    else true
