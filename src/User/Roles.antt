-- ===== src/User/Roles.antt =====
-- Which role the groups of a user give.
use piping.Prelude.{
  ℕ, String, Bool, true, some, List, [], ◌∷◌, ◌++◌, ◌≡◌, ◌≢◌, ◌↔◌, refl, arith, leb, ◌⊎◌,
  if◌then◌else◌,
}
use piping.Decimal.{codes}
use piping.Error.{Result, ok}
use piping.User.{
  unmarshal_role, marshal_role, Role, role_none, role_user, role_staff, role_admin, role_name,
  role_from_name, contains_fold, equal_fold, role_from_staff, role_from_groups, role_rank,
  eligible_for_quota, admin_group, user_group, group_all_students, faculty_of_science,
}

-- The name of a role is parsed back to the role.
role_from_name-role_name : (r : Role) → role_from_name (role_name r) ≡ some r
unfolding role_from_name role_name
role_from_name-role_name role_none = refl
role_from_name-role_name role_user = refl
role_from_name-role_name role_staff = refl
role_from_name-role_name role_admin = refl

-- A role is read back from JSON, if texts are.
unmarshal_role-marshal_role :
    (marshal : String → Result (List ℕ)) (unmarshal : List ℕ → Result String)
    → ((s : String) (b : List ℕ) → marshal s ≡ ok b → unmarshal b ≡ ok s)
    → (r : Role) (b : List ℕ) → marshal_role marshal r ≡ ok b
    → unmarshal_role unmarshal b ≡ ok r
unfolding marshal_role unmarshal_role
unmarshal_role-marshal_role marshal unmarshal texts r b h =
    rw (texts (role_name r) b h, role_from_name-role_name r) refl

contains_fold-append :
    (g : List ℕ) (xs ys : List (List ℕ))
    → contains_fold (xs ++ ys) g ≡ (if contains_fold xs g then true else contains_fold ys g)
unfolding contains_fold
contains_fold-append g [] ys = refl
contains_fold-append g (x ∷ xs) ys = ground (arith, contains_fold-append g xs ys)

-- The role by which of the four groups there is.
chosen : Bool → Bool → Bool → Bool → Role
chosen admin manager staff user =
    if admin
    then role_admin
    else if manager
    then role_staff
    else if staff
    then role_staff
    else if user
    then role_user
    else role_none

role_from_groups-chosen :
    (gs : List (List ℕ))
    → role_from_groups gs
      ≡ chosen
          (contains_fold gs admin_group)
          (contains_fold gs (codes "Org-Managers"))
          (contains_fold gs (codes "Org-Staff"))
          (contains_fold gs user_group)
unfolding role_from_groups role_from_staff chosen
role_from_groups-chosen gs = refl

abbrev greater : ℕ → ℕ → ℕ
greater a b = if leb a b then b else a

chosen-greater :
    (a b c d a' b' c' d' : Bool)
    → role_rank (
        chosen
          (if a then true else a')
          (if b then true else b')
          (if c then true else c')
          (if d then true else d'))
      ≡ greater (role_rank (chosen a b c d)) (role_rank (chosen a' b' c' d'))
unfolding chosen role_rank
chosen-greater a b c d a' b' c' d' = ground arith

-- The rank of the role of two lists of groups together is the greater of the ranks of the two.
role_rank-append :
    (xs ys : List (List ℕ))
    → role_rank (role_from_groups (xs ++ ys))
      ≡ greater (role_rank (role_from_groups xs)) (role_rank (role_from_groups ys))
role_rank-append xs ys =
    rw
      (
        role_from_groups-chosen (xs ++ ys),
        role_from_groups-chosen xs,
        role_from_groups-chosen ys,
        contains_fold-append admin_group xs ys,
        contains_fold-append user_group xs ys,
        contains_fold-append (codes "Org-Managers") xs ys,
        contains_fold-append (codes "Org-Staff") xs ys,
      )
      (chosen-greater _ _ _ _ _ _ _ _)

-- A user is eligible exactly if any role comes of the groups, or the user is a student of the faculty of
-- science.
eligible_for_quota_iff :
    (faculty : List ℕ) (groups : List (List ℕ))
    → (eligible_for_quota faculty groups ≡ true) ↔ (
        (role_from_groups groups ≢ role_none)
        ⊎ ((equal_fold faculty faculty_of_science ≡ true)
            × (contains_fold groups group_all_students ≡ true)))
unfolding eligible_for_quota
eligible_for_quota_iff faculty groups = ground arith
