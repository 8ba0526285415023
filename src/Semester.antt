-- ===== src/Semester.antt =====
-- internal/semester/semester.go: the codes of semesters, `year * 100 + month`, and their names. A text
-- is the list of its code points.
pub mod RoundTrip
use piping.Prelude.{
  ℕ, ◌+◌, ℤ, pos, ◌+ℤ◌, ◌*ℤ◌, wrap64, quot_ℤ, rem_ℤ, eq_ℤ, leb, String, Bool, true, false, ◌&&◌,
  ◌||◌, Option, none, some, List, [], ◌∷◌, ◌++◌, ◌==◌, if◌then◌else◌,
}
use piping.Error.{Result, ok, err, other}
use piping.Decimal.{codes, itoa, atoi}

-- The code of the semester of a month, of the year `y`.
unfoldable pub current : ℤ → ℕ → ℤ
current y month =
    if leb 1 month && leb month 4
    then wrap64 (wrap64 (y *ℤ pos 100) +ℤ pos 1)
    else if leb 5 month && leb month 8
    then wrap64 (wrap64 (y *ℤ pos 100) +ℤ pos 5)
    else wrap64 (wrap64 (y *ℤ pos 100) +ℤ pos 9)

-- `unicode.IsSpace`
unfoldable pub is_space : ℕ → Bool
is_space c =
    (leb 9 c && leb c 13)
    || (c == 32)
    || (c == 0x85)
    || (c == 0xA0)
    || (c == 0x1680)
    || (leb 0x2000 c && leb c 0x200A)
    || (c == 0x2028)
    || (c == 0x2029)
    || (c == 0x202F)
    || (c == 0x205F)
    || (c == 0x3000)

unfoldable pub trim_left : List ℕ → List ℕ
trim_left [] = []
trim_left (c ∷ s) = if is_space c then trim_left s else c ∷ s

unfoldable pub keep : ℕ → List ℕ → List ℕ
keep c [] = if is_space c then [] else c ∷ []
keep c (d ∷ s) = c ∷ d ∷ s

unfoldable pub trim_right : List ℕ → List ℕ
unfolding keep
trim_right [] = []
trim_right (c ∷ s) = keep c (trim_right s)

-- `strings.TrimSpace`
unfoldable pub trim_space : List ℕ → List ℕ
unfolding trim_left trim_right
trim_space s = trim_right (trim_left s)

-- `strings.Cut` at the first space
unfoldable pub cut : List ℕ → Option (List ℕ × List ℕ)
cut [] = none
cut (c ∷ s) =
    let rest = cut s in
    if c == 32 then some ([], s) else (elim rest [ none ↦ none | some (a, b) ↦ some (c ∷ a, b) ])

unfoldable pub eq_text : List ℕ → List ℕ → Bool
eq_text [] [] = true
eq_text (c ∷ s) (d ∷ t) = (c == d) && eq_text s t
eq_text _ _ = false

-- The month that a season starts with.
unfoldable pub month_of : List ℕ → Result ℤ
unfolding eq_text
month_of season =
    if eq_text season (codes "Winter")
    then ok (pos 1)
    else if eq_text season (codes "Summer")
    then ok (pos 5)
    else if eq_text season (codes "Fall")
    then ok (pos 9)
    else err other

with_month : ℤ → Result ℤ → Result ℤ
with_month y (err e) = err e
with_month y (ok month) = ok (wrap64 (wrap64 (y *ℤ pos 100) +ℤ month))

with_year : List ℕ → Result ℤ → Result ℤ
unfolding with_month
with_year season (err e) = err e
with_year season (ok y) = with_month y (month_of season)

unfoldable pub code_of : Option (List ℕ × List ℕ) → Result ℤ
unfolding with_year
code_of none = err other
code_of (some (season, year)) = with_year season (atoi year)

unfoldable pub code : List ℕ → Result ℤ
unfolding code_of trim_space cut
code semester = code_of (cut (trim_space semester))

-- The name by what remains of the code after the year.
unfoldable pub name_of : ℤ → ℤ → ℤ → List ℕ
name_of c year month =
    if eq_ℤ month (pos 1)
    then codes "Winter " ++ itoa year
    else if eq_ℤ month (pos 5)
    then codes "Summer " ++ itoa year
    else if eq_ℤ month (pos 9)
    then codes "Fall " ++ itoa year
    else codes "Semester " ++ itoa c

unfoldable pub name : ℤ → List ℕ
unfolding name_of
name c = name_of c (quot_ℤ c 100) (rem_ℤ c 100)
