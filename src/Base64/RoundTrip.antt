-- ===== src/Base64/RoundTrip.antt =====
-- Encoding bytes and decoding them again.
use piping.Prelude.{
  ℕ, ◌+◌, ◌*◌, ◌/◌, ◌%◌, ◌<◌, not, true, ◌||◌, ◌==◌, List, [], ◌∷◌, ◌≡◌, refl, ap, arith, All,
  select,
}
use piping.Error.{Result, ok, ◌>>=◌}
use piping.Base64.{digit, encode, sextet, sextets, join, decode}

-- A byte.
abbrev pub IsByte : ℕ → Type 0
IsByte b = b < 256

sextet-digit : (n : ℕ) → n < 64 → sextet (digit n) ≡ ok n
unfolding sextet digit
sextet-digit n h = ground arith

-- A digit is not skipped.
digit_kept : (n : ℕ) → n < 64 → not ((digit n == 10) || (digit n == 13)) ≡ true
unfolding digit
digit_kept n h = ground arith

-- The six-bit numbers of some bytes.
numbers : List ℕ → List ℕ
numbers [] = []
numbers (a ∷ []) = (a / 4) ∷ (a % 4 * 16) ∷ []
numbers (a ∷ b ∷ []) = (a / 4) ∷ (a % 4 * 16 + b / 16) ∷ (b % 16 * 4) ∷ []
numbers (a ∷ b ∷ c ∷ s) =
    (a / 4) ∷ (a % 4 * 16 + b / 16) ∷ (b % 16 * 4 + c / 64) ∷ (c % 64) ∷ numbers s

-- Skipping and reading characters.
read : List ℕ → Result (List ℕ)
read s = sextets (select (λ c. not ((c == 10) || (c == 13))) s)

read-digit : (n : ℕ) (s : List ℕ) → n < 64 → read (digit n ∷ s) ≡ (read s >>= λ ns. ok (n ∷ ns))
unfolding read sextets
read-digit n s h = rw (digit_kept n h, sextet-digit n h) refl

abbrev pub Bytes : List ℕ → Type 0
Bytes = All IsByte

read-digit_ok :
    (n : ℕ) (s : List ℕ) {ns : List ℕ} → n < 64 → read s ≡ ok ns → read (digit n ∷ s) ≡ ok (n ∷ ns)
read-digit_ok n s h e = rw (read-digit n s h, e) refl

read-empty : read [] ≡ ok []
unfolding read sextets
read-empty = refl

read-encode : (s : List ℕ) → Bytes s → read (encode s) ≡ ok (numbers s)
unfolding encode numbers
read-encode [] h = read-empty
read-encode (a ∷ []) h =
    read-digit_ok _ _ (omega arith) (read-digit_ok _ _ (omega arith) read-empty)
read-encode (a ∷ b ∷ []) h =
    read-digit_ok _ _ (omega arith)
      (read-digit_ok _ _ (omega arith) (read-digit_ok _ _ (omega arith) read-empty))
read-encode (a ∷ b ∷ c ∷ s) h = read-digit_ok _ _ (omega arith) (
    read-digit_ok _ _ (omega arith)
      (read-digit_ok _ _ (omega arith) (read-digit_ok _ _ (omega arith) (read-encode s h.1.1.1))))

join-numbers : (s : List ℕ) → Bytes s → join (numbers s) ≡ ok s
unfolding join numbers
join-numbers [] h = refl
join-numbers (a ∷ []) h = ap (λ x. ok (x ∷ [])) (omega arith)
join-numbers (a ∷ b ∷ []) h = ground arith
join-numbers (a ∷ b ∷ c ∷ s) h = rw (join-numbers s h.1.1.1) (ground arith)

-- Bytes that are encoded in base64url are what the decoder gives back.
pub decode-encode : (s : List ℕ) → Bytes s → decode (encode s) ≡ ok s
unfolding decode read
decode-encode s h = rw (read-encode s h) (join-numbers s h)
