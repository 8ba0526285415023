-- ===== src/Decimal.antt =====
-- Decimal numbers in text: `strconv.Itoa` (also `%d`) and `strconv.Atoi`, as the program calls them.
-- A text is the list of its code points.
pub mod RoundTrip
use piping.Prelude.{
  ℕ, zero, suc, ◌+◌, ◌-◌, ◌*◌, ◌/◌, ◌%◌, ◌^◌, ℤ, pos, negsuc, ltb, leb, Bool, ◌&&◌, Option, none,
  ◌≡◌, refl, some, List, [], ◌∷◌, ◌==◌, String, code, if◌then◌else◌,
}
use piping.Error.{Result, ok, err, other}

-- The code points of a native text. `String` has its own `[]` and `∷`.
abbrev pub codes : String → List ℕ
codes String.[] = []
codes (String.◌∷◌ c s) = code c ∷ codes s

-- The digits of `n` before `out`. The fuel is more than their number.
digits : ℕ → ℕ → List ℕ → List ℕ
digits zero n out = out
digits (suc fuel) n out =
    let out' = (b'0' + n % 10) ∷ out in
    let more = digits fuel (n / 10) out' in if ltb n 10 then out' else more

unfoldable pub format : ℕ → List ℕ
unfolding digits
format n = digits (suc n) n []

unfoldable pub itoa : ℤ → List ℕ
itoa (pos n) = format n
itoa (negsuc n) = b'-' ∷ format (suc n)

unfoldable pub is_digit : ℕ → Bool
is_digit c = leb b'0' c && leb c b'9'

-- The value of digits behind `n`; there is no bound yet.
unfoldable pub value : ℕ → List ℕ → Option ℕ
unfolding is_digit
value n [] = some n
value n (c ∷ s) = let rest = value (n * 10 + (c - b'0')) s in if is_digit c then rest else none

-- Digits, one at least, of a number up to `limit`.
magnitude : ℕ → List ℕ → Result ℕ
magnitude limit [] = err other
magnitude limit (c ∷ s) = elim (value 0 (c ∷ s)) [
  | none ↦ err other
  | some n ↦ if leb n limit then ok n else err other
]

negated : Result ℕ → Result ℤ
negated (err e) = err e
negated (ok zero) = ok (pos 0)
negated (ok (suc n)) = ok (negsuc n)

positive : Result ℕ → Result ℤ
positive (err e) = err e
positive (ok n) = ok (pos n)

-- An optional sign, then digits, in the range of 64 bits.
unfoldable pub atoi : List ℕ → Result ℤ
unfolding magnitude negated positive value
atoi [] = err other
atoi (c ∷ s) =
    if c == b'-'
    then negated (magnitude (2 ^ 63) s)
    else if c == b'+'
    then positive (magnitude (2 ^ 63 - 1) s)
    else positive (magnitude (2 ^ 63 - 1) (c ∷ s))

itoa_test : itoa (negsuc 200) ≡ codes "-201"
unfolding itoa format
itoa_test = refl

atoi_test : atoi (codes "-201") ≡ ok (negsuc 200)
unfolding atoi
atoi_test = refl

atoi_overflow : atoi (codes "9223372036854775808") ≡ err other
unfolding atoi
atoi_overflow = refl
