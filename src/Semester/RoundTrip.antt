-- ===== src/Semester/RoundTrip.antt =====
-- Names and codes of semesters, back and forth, and the code of a date.
use piping.Prelude.{
  ℕ, ◌+◌, ◌*◌, ◌/◌, ◌%◌, ◌^◌, ◌≤◌, ◌<◌, ℤ, pos, ◌+ℤ◌, ◌*ℤ◌, pos-+ℤ, pos-*ℤ, wrap64, wrap64-pos,
  quot_ℤ, rem_ℤ, leb, false, ◌&&◌, ◌⊎◌, inl, inr, List, [], ◌∷◌, ◌++◌, ◌≡◌, refl, sym, ap, subst,
  ◌∙◌, arith, All, if_case,
}
use piping.Error.{Result, ok}
use piping.Decimal.{codes, itoa, atoi, is_digit}
use piping.Decimal.RoundTrip.{Digit, format-Starts, format-Digit, atoi-itoa}
use piping.Semester.{
  current, is_space, trim_left, keep, trim_right, trim_space, cut, eq_text, month_of, with_month,
  with_year, code_of, code, name_of, name,
}

Digit-visible : (c : ℕ) → Digit c → is_space c ≡ false
unfolding is_space is_digit
Digit-visible c h = ground arith

trim_digits : (c : ℕ) (s : List ℕ) → All Digit (c ∷ s) → trim_right (c ∷ s) ≡ c ∷ s
unfolding trim_right keep
trim_digits c [] h = rw (Digit-visible c h.0) refl
trim_digits c (d ∷ s) h = rw (trim_digits d s h.1) refl

-- A text that ends in digits has nothing to trim on its right.
trim_right-append :
    (p : List ℕ) (c : ℕ) (s : List ℕ) → All Digit (c ∷ s) → trim_right (p ++ (c ∷ s)) ≡ p ++ (c ∷ s)
unfolding trim_right keep
trim_right-append [] c s h = trim_digits c s h
trim_right-append (x ∷ []) c s h = ap (keep x) (trim_digits c s h)
trim_right-append (x ∷ y ∷ p) c s h = ap (keep x) (trim_right-append (y ∷ p) c s h)

-- A season and a year are parsed apart, if the year is a text of digits.
module _ (c : ℕ) (s : List ℕ) (h : All Digit (c ∷ s)) where
  abbrev parts : List ℕ → Result ℤ
  parts season = with_year season (atoi (c ∷ s))

  winter_parts : code (codes "Winter " ++ (c ∷ s)) ≡ parts (codes "Winter")
  unfolding code code_of trim_space trim_left is_space cut
  winter_parts = ap (λ t. code_of (cut t)) (trim_right-append (codes "Winter ") c s h)

  summer_parts : code (codes "Summer " ++ (c ∷ s)) ≡ parts (codes "Summer")
  unfolding code code_of trim_space trim_left is_space cut
  summer_parts = ap (λ t. code_of (cut t)) (trim_right-append (codes "Summer ") c s h)

  fall_parts : code (codes "Fall " ++ (c ∷ s)) ≡ parts (codes "Fall")
  unfolding code code_of trim_space trim_left is_space cut
  fall_parts = ap (λ t. code_of (cut t)) (trim_right-append (codes "Fall ") c s h)

-- A month in which a semester starts.
abbrev pub IsStart : ℕ → Type 0
IsStart m = (m ≡ 1) ⊎ (m ≡ 5) ⊎ (m ≡ 9)

code_exact :
    (y m : ℕ)
    → y * 100 + m < 2 ^ 63
    → wrap64 (wrap64 (pos y *ℤ pos 100) +ℤ pos m) ≡ pos (y * 100 + m)
code_exact y m h =
    rw (pos-*ℤ, wrap64-pos (y * 100) (omega arith), pos-+ℤ) (wrap64-pos (y * 100 + m) h)

with_month_exact :
    (y m : ℕ) → y * 100 + m < 2 ^ 63 → with_month (pos y) (ok (pos m)) ≡ ok (pos (y * 100 + m))
unfolding with_month
with_month_exact y m h = ap ok (code_exact y m h)

joined :
    (p : List ℕ) (season : List ℕ) (y m : ℕ)
    → ((c : ℕ) (s : List ℕ)
        → All Digit (c ∷ s)
        → code (p ++ (c ∷ s)) ≡ with_year season (atoi (c ∷ s)))
    → month_of season ≡ ok (pos m)
    → y * 100 + m < 2 ^ 63
    → code (p ++ itoa (pos y)) ≡ ok (pos (y * 100 + m))
unfolding itoa with_year
joined p season y m f e h =
    let s = format-Starts y in
    ap (λ t. code (p ++ t)) s.split
    ∙ f s.first s.rest (subst (All Digit) s.split (format-Digit y))
    ∙ ap (λ t. with_year season (atoi t)) (sym s.split)
    ∙ ap (with_year season) (atoi-itoa (pos y) (omega arith, omega arith))
    ∙ ap (with_month (pos y)) e
    ∙ with_month_exact y m h

name-parts :
    (y m : ℕ) → m < 100 → name (pos (y * 100 + m)) ≡ name_of (pos (y * 100 + m)) (pos y) (pos m)
unfolding name quot_ℤ rem_ℤ
name-parts y m h =
    let year : (y * 100 + m) / 100 ≡ y = omega arith in
    let month : (y * 100 + m) % 100 ≡ m = omega arith in rw (year, month) refl

code-start :
    (y m : ℕ)
    → IsStart m
    → y * 100 + m < 2 ^ 63
    → code (name_of (pos (y * 100 + m)) (pos y) (pos m)) ≡ ok (pos (y * 100 + m))
unfolding name_of month_of eq_text
code-start y m (inl e) h =
    subst (λ k. code (name_of (pos (y * 100 + k)) (pos y) (pos k)) ≡ ok (pos (y * 100 + k))) (sym e)
      (joined (codes "Winter ") (codes "Winter") y 1 winter_parts refl (omega arith))
code-start y m (inr (inl e)) h =
    subst (λ k. code (name_of (pos (y * 100 + k)) (pos y) (pos k)) ≡ ok (pos (y * 100 + k))) (sym e)
      (joined (codes "Summer ") (codes "Summer") y 5 summer_parts refl (omega arith))
code-start y m (inr (inr e)) h =
    subst (λ k. code (name_of (pos (y * 100 + k)) (pos y) (pos k)) ≡ ok (pos (y * 100 + k))) (sym e)
      (joined (codes "Fall ") (codes "Fall") y 9 fall_parts refl (omega arith))

-- The code of a semester, `y * 100 + m` for a month `m` in which one starts, is read back from its name,
-- as long as it fits 64 bits.
pub code-name :
    (y m : ℕ)
    → IsStart m
    → y * 100 + m < 2 ^ 63
    → code (name (pos (y * 100 + m))) ≡ ok (pos (y * 100 + m))
code-name y m start h = ap code (name-parts y m (ground arith)) ∙ code-start y m start h

-- The code of a month (1 to 12) of a year that is not negative has the month of the last start of a
-- semester at or before it, if the code fits 64 bits.
pub current_exact :
    (y month : ℕ)
    → 1 ≤ month
    → month ≤ 12
    → y * 100 + 9 < 2 ^ 63
    → (m : ℕ) × IsStart m
      × (m ≤ month)
      × (month < m + 4)
      × (current (pos y) month ≡ pos (y * 100 + m))
unfolding current
current_exact y month low high h =
    if_case Exact (leb 1 month && leb month 4)
      (λ b. (1, inl refl, ground arith, ground arith, at 1 (omega arith)))
      (λ b.
        if_case Exact (leb 5 month && leb month 8)
          (λ b'. (5, inr (inl refl), ground arith, ground arith, at 5 (omega arith)))
          (λ b'. (9, inr (inr refl), ground arith, ground arith, at 9 (omega arith))))
  where
    Exact : ℤ → Type 0
    Exact v = (m : ℕ) × IsStart m × (m ≤ month) × (month < m + 4) × (v ≡ pos (y * 100 + m))

    at : (m : ℕ) → m ≤ 9 → wrap64 (wrap64 (pos y *ℤ pos 100) +ℤ pos m) ≡ pos (y * 100 + m)
    at m k = code_exact y m (omega arith)
