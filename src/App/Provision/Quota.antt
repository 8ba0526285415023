-- ===== src/App/Provision/Quota.antt =====
-- What `QuotaFor` gives, and which semesters a user is entitled to.
use piping.Prelude.{
  ℤ, pos, rem_ℤ, eq_ℤ, eq_ℤ_iff, leb_ℤ, ◌≤ℤ◌, Bool, true, false, any, List, [], ◌∷◌, ◌≡◌, ◌⊎◌, ◌↔◌,
  inl, inr, refl, sym, subst, arith, Bool-cases, if◌then◌else◌, Among, any_found,
}
use piping.User.{User}
use piping.App.Provision.{quota_for, set_true, add_enrolments, entitled_codes}

-- The quota of a semester is not negative if the configured default is not.
quota_for_nonneg : (q code : ℤ) → pos 0 ≤ℤ q → pos 0 ≤ℤ quota_for q code
unfolding quota_for
quota_for_nonneg q code h = ground arith

quota_for_summer : (q code : ℤ) → rem_ℤ code 100 ≡ pos 5 → quota_for q code ≡ pos 0
unfolding quota_for
quota_for_summer q code h = rw ((eq_ℤ_iff (rem_ℤ code 100) (pos 5)).1 h) refl

set_true-Among : (c x : ℤ) (l : List ℤ) → Among c (set_true x l) ↔ (x ≡ c) ⊎ Among c l
set_true-Among c x l = elim (Bool-cases (any (eq_ℤ x) l)) [
  | inl e ↦
      let (a, i, q) = any_found (eq_ℤ x) l e in
      let there : Among x l = subst (λ y. Among y l) (sym ((eq_ℤ_iff x a).0 q)) i in
      rw e ((λ h. inr h), (λ h. elim h [ inl p ↦ subst (λ y. Among y l) p there | inr j ↦ j ]))
  | inr e ↦ rw e ((λ h. h), (λ h. h))
]

module _ {A B E T : Type 0} where
  taken : (E → T) → (E ⊎ A) ⊎ (B × T) → A ⊎ ((E ⊎ B) × T)
  taken t (inl (inl e)) = inr (inl e, t e)
  taken t (inl (inr a)) = inl a
  taken t (inr (b, u)) = inr (inr b, u)

  taken_back : A ⊎ ((E ⊎ B) × T) → (E ⊎ A) ⊎ (B × T)
  taken_back (inl a) = inl (inr a)
  taken_back (inr (inl e, u)) = inl (inl e)
  taken_back (inr (inr b, u)) = inr (b, u)

  skipped : A ⊎ (B × T) → A ⊎ ((E ⊎ B) × T)
  skipped (inl a) = inl a
  skipped (inr (b, u)) = inr (inr b, u)

  skipped_back : (E → T → ⊥) → A ⊎ ((E ⊎ B) × T) → A ⊎ (B × T)
  skipped_back n (inl a) = inl a
  skipped_back n (inr (inl e, u)) = absurd (n e u)
  skipped_back n (inr (inr b, u)) = inr (b, u)

module _ {A B C D : Type 0} where
  either : (A → C) → (B → D) → A ⊎ B → C ⊎ D
  either f g (inl a) = inl (f a)
  either f g (inr b) = inr (g b)

add_enrolments-Among :
    (now c : ℤ) (codes l : List ℤ)
    → Among c (add_enrolments now codes l) ↔ Among c l ⊎ (Among c codes × (leb_ℤ c now ≡ true))
unfolding add_enrolments
add_enrolments-Among now c [] l = ground arith
add_enrolments-Among now c (x ∷ codes) l = elim (Bool-cases (leb_ℤ x now)) [
  | inl e ↦
      let h = add_enrolments-Among now c codes (set_true x l) in
      let m = set_true-Among c x l in
      rw e (
        (λ i. taken (λ p. subst (λ y. leb_ℤ y now ≡ true) p e) (either m.0 (λ b. b) (h.0 i))),
        (λ i. h.1 (either m.1 (λ b. b) (taken_back i))),
      )
  | inr e ↦
      let h = add_enrolments-Among now c codes l in
      rw e (
        (λ i. skipped (h.0 i)),
        (λ i. h.1 (skipped_back (λ p u. no (subst (λ y. leb_ℤ y now ≡ false) p e) u) i)),
      )
]
  where
    no : {b : Bool} → b ≡ false → b ≡ true → ⊥
    no f t = cc

first-Among : (b : Bool) (now c : ℤ) → Among c (if b then now ∷ [] else []) ↔ (b ≡ true) × (now ≡ c)
first-Among true now c = ground arith
first-Among false now c = ground arith

-- A user is entitled to exactly the current semester, if eligible, and the semesters of the enrolments that
-- are not in the future.
pub entitled_codes-Among :
    (u : User) (now c : ℤ)
    → Among c (entitled_codes u now)
      ↔ (u.quota_eligible ≡ true) × (now ≡ c) ⊎ (Among c u.enrolments × (leb_ℤ c now ≡ true))
unfolding entitled_codes
entitled_codes-Among u now c =
    let h = add_enrolments-Among now c u.enrolments (if u.quota_eligible then now ∷ [] else []) in
    let f = first-Among u.quota_eligible now c in
    ((λ i. either f.0 (λ b. b) (h.0 i)), (λ i. h.1 (either f.1 (λ b. b) i)))
