-- ===== src/Base64.antt =====
-- encoding/base64 as internal/seal/seal.go and internal/oidc/oidc.go use it: `RawURLEncoding`, without
-- padding. Bytes and characters are natural numbers.
pub mod RoundTrip
use piping.Prelude.{
  ℕ, ◌+◌, ◌-◌, ◌*◌, ◌/◌, ◌%◌, ltb, leb, Bool, not, ◌&&◌, ◌||◌, ◌==◌, Option, none, some, List, [],
  ◌∷◌, select, if◌then◌else◌,
}
use piping.Error.{Result, ok, err, other, ◌>>=◌}

-- The character of six bits.
unfoldable pub digit : ℕ → ℕ
digit n =
    if ltb n 26
    then b'A' + n
    else if ltb n 52
    then b'a' + (n - 26)
    else if ltb n 62
    then b'0' + (n - 52)
    else if n == 62
    then b'-'
    else b'_'

unfoldable pub encode : List ℕ → List ℕ
unfolding digit
encode [] = []
encode (a ∷ []) = digit (a / 4) ∷ digit (a % 4 * 16) ∷ []
encode (a ∷ b ∷ []) = digit (a / 4) ∷ digit (a % 4 * 16 + b / 16) ∷ digit (b % 16 * 4) ∷ []
encode (a ∷ b ∷ c ∷ s) =
    digit (a / 4)
    ∷ digit (a % 4 * 16 + b / 16)
    ∷ digit (b % 16 * 4 + c / 64)
    ∷ digit (c % 64)
    ∷ encode s

unfoldable pub sextet : ℕ → Result ℕ
sextet c =
    if leb b'A' c && leb c b'Z'
    then ok (c - b'A')
    else if leb b'a' c && leb c b'z'
    then ok (c - b'a' + 26)
    else if leb b'0' c && leb c b'9'
    then ok (c - b'0' + 52)
    else if c == b'-'
    then ok 62
    else if c == b'_'
    then ok 63
    else err other

unfoldable pub sextets : List ℕ → Result (List ℕ)
unfolding sextet
sextets [] = ok []
sextets (c ∷ s) = sextet c >>= λ n. sextets s >>= λ ns. ok (n ∷ ns)

-- The bits that remain of the last character are ignored, as the decoder is not strict.
unfoldable pub join : List ℕ → Result (List ℕ)
join [] = ok []
join (p ∷ []) = err other
join (p ∷ q ∷ []) = ok ((p * 4 + q / 16) ∷ [])
join (p ∷ q ∷ r ∷ []) = ok ((p * 4 + q / 16) ∷ (q % 16 * 16 + r / 4) ∷ [])
join (p ∷ q ∷ r ∷ t ∷ s) =
    join s >>= λ bs. ok ((p * 4 + q / 16) ∷ (q % 16 * 16 + r / 4) ∷ (r % 4 * 64 + t) ∷ bs)

-- The decoder skips line breaks.
unfoldable pub decode : List ℕ → Result (List ℕ)
unfolding sextets join
decode s = sextets (select (λ c. not ((c == 10) || (c == 13))) s) >>= join
