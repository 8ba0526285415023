-- ===== src/Prelude/Lists.antt =====
-- Lists measured by native numbers, Boolean filters, and predicates on every element.
use Prim.Native.Nat.{ℕ, zero, suc, ◌+◌}
use mathlib.Core.Path.{◌≡◌, refl, subst}
use mathlib.Core.Logic.{◌⊎◌, inl, inr}
use mathlib.Core.Bool.{Bool, true, false, ◌||◌}
use mathlib.Core.List.{List, [], ◌∷◌, ◌++◌}
use mathlib.Core.Option.{Option, none, some}
use native.Mathlib.Omega.{arith}
use piping.Prelude.Tests.{if◌then◌else◌, Bool-cases}

-- A predicate by recursion computes to tuples, which the tactics read and build.
abbrev pub All {ℓ κ} : {A : Type ℓ} → (A → Type κ) → List A → Type κ
All P [] = Unit
All P (x ∷ xs) = P x × All P xs

-- `a` stands somewhere in the list.
abbrev pub Among : {A : Type 0} → A → List A → Type 0
Among a [] = ⊥
Among a (x ∷ xs) = (x ≡ a) ⊎ Among a xs

module _ {ℓ} {A : Type ℓ} where
  abbrev pub length : List A → ℕ
  length [] = 0
  length (x ∷ xs) = suc (length xs)

  abbrev pub get_elem? : List A → ℕ → Option A
  get_elem? [] i = none
  get_elem? (x ∷ xs) zero = some x
  get_elem? (x ∷ xs) (suc i) = get_elem? xs i

  abbrev pub take : ℕ → List A → List A
  take zero xs = []
  take (suc n) [] = []
  take (suc n) (x ∷ xs) = x ∷ take n xs

  abbrev pub drop : ℕ → List A → List A
  drop zero xs = xs
  drop (suc n) [] = []
  drop (suc n) (x ∷ xs) = drop n xs

  -- The rows that a Boolean test keeps, in their order.
  abbrev pub select : (A → Bool) → List A → List A
  select p [] = []
  select p (x ∷ xs) = let rest = select p xs in if p x then x ∷ rest else rest

  abbrev pub any : (A → Bool) → List A → Bool
  any p [] = false
  any p (x ∷ xs) = p x || any p xs

  pub length-append : (xs ys : List A) → length (xs ++ ys) ≡ length xs + length ys
  length-append [] ys = omega arith
  length-append (x ∷ xs) ys = omega (arith, length-append xs ys)

  pub select-append :
      (p : A → Bool) (xs ys : List A) → select p (xs ++ ys) ≡ select p xs ++ select p ys
  select-append p [] ys = refl
  select-append p (x ∷ xs) ys = ground (arith, select-append p xs ys)

  pub All-append {κ} : (P : A → Type κ) (xs ys : List A) → All P xs → All P ys → All P (xs ++ ys)
  All-append P [] ys hx hy = hy
  All-append P (x ∷ xs) ys hx hy = (hx.0, All-append P xs ys hx.1 hy)

  pub All-imp {κ} : (P Q : A → Type κ) (xs : List A) → ((x : A) → P x → Q x) → All P xs → All Q xs
  All-imp P Q [] f h = tt
  All-imp P Q (x ∷ xs) f h = (f x h.0, All-imp P Q xs f h.1)

  pub All-take {κ} : (P : A → Type κ) (n : ℕ) (xs : List A) → All P xs → All P (take n xs)
  All-take P zero xs h = tt
  All-take P (suc n) [] h = tt
  All-take P (suc n) (x ∷ xs) h = (h.0, All-take P n xs h.1)

module _ {A : Type 0} (p : A → Bool) (a : A) where
  -- What is selected stood in the list and passed the test, and what passes it is selected.
  pub Among-select : (xs : List A) → Among a (select p xs) → Among a xs × (p a ≡ true)
  Among-select [] h = elim h [ ]
  Among-select (x ∷ xs) h = ground (arith, Among-select xs)

  pub select-Among : (xs : List A) → Among a xs → p a ≡ true → Among a (select p xs)
  select-Among [] h e = h
  select-Among (x ∷ xs) h e = ground (arith, select-Among xs)

module _ {A : Type 0} (P : A → Type 0) where
  pub All-Among : (a : A) (xs : List A) → All P xs → Among a xs → P a
  All-Among a (x ∷ xs) h (inl e) = subst P e h.0
  All-Among a (x ∷ xs) h (inr i) = All-Among a xs h.1 i
  All-Among a [] h i = elim i [ ]

  pub All-by_Among : (xs : List A) → ((a : A) → Among a xs → P a) → All P xs
  All-by_Among [] f = tt
  All-by_Among (x ∷ xs) f = (f x (inl refl), All-by_Among xs (λ a i. f a (inr i)))

module _ {A : Type 0} (p : A → Bool) where
  pub any-Among : (a : A) (xs : List A) → Among a xs → p a ≡ true → any p xs ≡ true
  any-Among a [] h e = elim h [ ]
  any-Among a (x ∷ xs) h e = ground (arith, any-Among a xs)

  pub any_found : (xs : List A) → any p xs ≡ true → (a : A) × Among a xs × (p a ≡ true)
  any_found [] h = cc
  any_found (x ∷ xs) h = elim (Bool-cases (p x)) [
    | inl e ↦ (x, inl refl, e)
    | inr e ↦ let (a, i, q) = any_found xs (rw e at h) in (a, inr i, q)
  ]
