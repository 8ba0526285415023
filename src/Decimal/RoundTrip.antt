-- ===== src/Decimal/RoundTrip.antt =====
-- Printing an integer and parsing it again.
use piping.Prelude.{
  ℕ, zero, suc, ◌+◌, ◌-◌, ◌*◌, ◌/◌, ◌%◌, ◌^◌, ◌≤◌, ◌<◌, ℤ, pos, negsuc, InInt64, ltb, true, some,
  List, [], ◌∷◌, ◌≡◌, refl, sym, ap, ◌∙◌, arith, All, if_case, Bool-cases, inl, inr,
}
use piping.Error.{ok}
use piping.Decimal.{digits, format, itoa, is_digit, value, magnitude, negated, positive, atoi}

abbrev pub Digit : ℕ → Type 0
Digit c = is_digit c ≡ true

digit : (n : ℕ) → Digit (b'0' + n % 10)
unfolding is_digit
digit n = ground arith

value_step :
    (a n : ℕ) (out : List ℕ) → value a ((b'0' + n % 10) ∷ out) ≡ value (a * 10 + n % 10) out
unfolding value
value_step a n out =
    let shown : is_digit (b'0' + n % 10) ≡ true = digit n in
    rw shown (ap (λ k. value k out) (omega arith))

-- Reading the digits of `n` gives `n`.
value-digits : (fuel n : ℕ) (out : List ℕ) → n < fuel → value 0 (digits fuel n out) ≡ value n out
unfolding digits
value-digits zero n out h = elim h [ ]
value-digits (suc fuel) n out h = elim (Bool-cases (ltb n 10)) [
  | inl b ↦ rw b (value_step 0 n out ∙ ap (λ k. value k out) (ground arith))
  | inr b ↦ rw b (
      value-digits fuel (n / 10) ((b'0' + n % 10) ∷ out) (ground arith)
      ∙ value_step (n / 10) n out
      ∙ ap (λ k. value k out) (omega arith))
]

digits-Digit : (fuel n : ℕ) (out : List ℕ) → All Digit out → All Digit (digits fuel n out)
unfolding digits
digits-Digit zero n out h = h
digits-Digit (suc fuel) n out h =
    if_case (All Digit) (ltb n 10) (λ _. (digit n, h))
      (λ _. digits-Digit fuel (n / 10) ((b'0' + n % 10) ∷ out) (digit n, h))

-- A number starts with a digit.
pub record Starts (s : List ℕ) : Type 0 where
  pub first : ℕ
  pub rest : List ℕ
  pub split : s ≡ first ∷ rest
  pub shown : Digit first

digits-Starts : (fuel n c : ℕ) (out : List ℕ) → Digit c → Starts (digits fuel n (c ∷ out))
unfolding digits
digits-Starts zero n c out h = record { first = c; rest = out; split = refl; shown = h }
digits-Starts (suc fuel) n c out h =
    if_case Starts (ltb n 10)
      (λ _. record { first = b'0' + n % 10; rest = c ∷ out; split = refl; shown = digit n })
      (λ _. digits-Starts fuel (n / 10) (b'0' + n % 10) (c ∷ out) (digit n))

pub format-Starts : (n : ℕ) → Starts (format n)
unfolding format digits
format-Starts n =
    if_case Starts (ltb n 10)
      (λ _. record { first = b'0' + n % 10; rest = []; split = refl; shown = digit n })
      (λ _. digits-Starts n (n / 10) (b'0' + n % 10) [] (digit n))

pub format-Digit : (n : ℕ) → All Digit (format n)
unfolding format
format-Digit n = digits-Digit (suc n) n [] tt

value-format : (n : ℕ) → value 0 (format n) ≡ some n
unfolding format
value-format n = value-digits (suc n) n [] (omega arith) ∙ (unfold value in refl)

magnitude_of :
    (limit n c : ℕ) (s : List ℕ)
    → n ≤ limit
    → value 0 (c ∷ s) ≡ some n
    → magnitude limit (c ∷ s) ≡ ok n
unfolding magnitude
magnitude_of limit n c s h e = rw (magnitude, e) (ground arith)

magnitude-format : (limit n : ℕ) → n ≤ limit → magnitude limit (format n) ≡ ok n
magnitude-format limit n h =
    let s = format-Starts n in
    ap (magnitude limit) s.split
    ∙ magnitude_of limit n s.first s.rest h (ap (value 0) (sym s.split) ∙ value-format n)

atoi_unsigned :
    (c : ℕ) (s : List ℕ) → Digit c → atoi (c ∷ s) ≡ positive (magnitude (2 ^ 63 - 1) (c ∷ s))
unfolding atoi is_digit
atoi_unsigned c s h = ground arith

-- Every integer of 64 bits is read back from its decimal digits.
pub atoi-itoa : (n : ℤ) → InInt64 n → atoi (itoa n) ≡ ok n
unfolding itoa
atoi-itoa (pos n) h =
    let s = format-Starts n in
    ap atoi s.split
    ∙ atoi_unsigned s.first s.rest s.shown
    ∙ ap (λ t. positive (magnitude (2 ^ 63 - 1) t)) (sym s.split)
    ∙ ap positive (magnitude-format (2 ^ 63 - 1) n (ground arith))
    ∙ (unfold positive in refl)
atoi-itoa (negsuc n) h =
    unfold atoi in
    (ap negated (magnitude-format (2 ^ 63) (suc n) (ground arith)) ∙ (unfold negated in refl))
