-- ===== src/Url.antt =====
-- net/url, as far as `safePath` of internal/web/handlers.go depends on it: `url.Parse` and `URL.RequestURI`.
-- A URL is the list of its bytes.
pub mod Local
use piping.Prelude.{
  ℕ, ◌+◌, ◌-◌, ◌*◌, ◌/◌, ◌%◌, ltb, leb, ◌==◌, Bool, true, false, not, ◌&&◌, ◌||◌, Option, none,
  some, List, [], ◌∷◌, ◌++◌, length, any, if◌then◌else◌,
}
use piping.Decimal.{codes}
use piping.Semester.{eq_text}
use piping.Error.{Error, Result, ok, err, other, ◌>>=◌, ◌>>◌, guard}

abbrev pub is_letter : ℕ → Bool
is_letter c = (leb b'a' c && leb c b'z') || (leb b'A' c && leb c b'Z')

abbrev pub is_number : ℕ → Bool
is_number c = leb b'0' c && leb c b'9'

abbrev pub one_of : List ℕ → ℕ → Bool
one_of s c = any (λ d. c == d) s

-- `strings.Cut` at a character: what is before and after it, or all and nothing.
unfoldable pub cut_at : ℕ → List ℕ → List ℕ × List ℕ
cut_at c [] = ([], [])
cut_at c (d ∷ s) = let (a, b) = cut_at c s in if d == c then ([], s) else (d ∷ a, b)

unfoldable pub starts : List ℕ → List ℕ → Bool
starts [] s = true
starts (c ∷ p) [] = false
starts (c ∷ p) (d ∷ s) = (d == c) && starts p s

-- A character that a scheme has after its first letter.
abbrev pub goes_on : ℕ → Bool
goes_on c = is_number c || one_of (codes "+-.") c

-- `getScheme`: whether there is a scheme, or an error. `first` says that nothing was read yet.
unfoldable pub has_scheme : Bool → List ℕ → Result Bool
has_scheme first [] = ok false
has_scheme first (c ∷ s) =
    let rest = has_scheme false s in
    if is_letter c
    then rest
    else if goes_on c
    then (if first then ok false else rest)
    else if c == b':'
    then (if first then err other else ok true)
    else ok false

abbrev pub is_hex : ℕ → Bool
is_hex c = is_number c || (leb b'a' c && leb c b'f') || (leb b'A' c && leb c b'F')

abbrev pub unhex : ℕ → ℕ
unhex c = if is_number c then c - b'0' else if leb b'a' c then c - b'a' + 10 else c - b'A' + 10

-- `unescape`, of a path, a fragment or a user
unfoldable pub unescape : List ℕ → Result (List ℕ)
unescape [] = ok []
unescape (c ∷ []) = if c == b'%' then err other else ok (c ∷ [])
unescape (c ∷ d ∷ []) =
    let rest = unescape (d ∷ []) in if c == b'%' then err other else (rest >>= λ t. ok (c ∷ t))
unescape (c ∷ d ∷ e ∷ s) =
    let escaped = unescape s in
    let rest = unescape (d ∷ e ∷ s) in
    if c == b'%'
    then (if is_hex d && is_hex e
        then (escaped >>= λ t. ok ((unhex d * 16 + unhex e) ∷ t))
        else err other)
    else (rest >>= λ t. ok (c ∷ t))

-- `shouldEscape`, of a path
abbrev pub should_escape : ℕ → Bool
should_escape c = not (is_letter c || is_number c || one_of (codes "-_.~$&+,/:;=@") c)

abbrev pub hex_digit : ℕ → ℕ
hex_digit n = if ltb n 10 then b'0' + n else b'A' + (n - 10)

unfoldable pub escape : List ℕ → List ℕ
escape [] = []
escape (c ∷ s) =
    let rest = escape s in
    if should_escape c then b'%' ∷ hex_digit (c / 16) ∷ hex_digit (c % 16) ∷ rest else c ∷ rest

-- `validEncoded`, of a path
unfoldable pub valid_encoded : List ℕ → Bool
valid_encoded [] = true
valid_encoded (c ∷ s) =
    (one_of (codes "!$&'()*+,;=:@[]%") c || not (should_escape c)) && valid_encoded s

-- What `safePath` asks of a URL. Where there is a scheme or a host, an error in what follows is not told
-- from none: the answer is the same.
pub data Parsed : Type 0 where
  absolute : Parsed
  hosted : Parsed
  bare : (path raw_path : List ℕ) (raw_query : List ℕ) (force_query : Bool) → Parsed

-- `setPath`: the path, and the text that it had if the escapes are not the usual ones
abbrev pub raw_of : List ℕ → List ℕ → List ℕ
raw_of p path = if eq_text p (escape path) then [] else p

abbrev pub with_path : List ℕ → List ℕ → Bool → Result Parsed
with_path p query force = unescape p >>= λ path. ok (bare path (raw_of p path) query force)

abbrev pub has_ctl : List ℕ → Bool
has_ctl = any (λ c. ltb c 0x20 || (c == 0x7F))

-- The last `@` of an authority: the user before it, and the host after it.
unfoldable pub at_last : List ℕ → Option (List ℕ × List ℕ)
at_last [] = none
at_last (c ∷ s) =
    let later = at_last s in
    elim later [ some (u, h) ↦ some (c ∷ u, h) | none ↦ if c == b'@' then some ([], s) else none ]

abbrev pub valid_userinfo : List ℕ → Bool
valid_userinfo u =
    not (any (λ c. not (is_letter c || is_number c || one_of (codes "-._:~!$&'()*+,;=%@") c)) u)

-- `parseAuthority`: whether there is a host. A host that cannot be parsed counts as one.
abbrev pub user_of : Option (List ℕ × List ℕ) → List ℕ → Result Bool
user_of none authority = ok (not (length authority == 0))
user_of (some (u, h)) authority =
    if not (length h == 0)
    then ok true
    else (guard (valid_userinfo u) other >> unescape u >>= λ _. ok false)

unfoldable pub has_host : List ℕ → Result Bool
unfolding at_last
has_host authority = user_of (at_last authority) authority

-- The path behind an authority, with its slash.
abbrev pub slash_before : List ℕ × List ℕ → List ℕ → List ℕ
slash_before (a, r) authority = if length a == length authority then [] else b'/' ∷ r

abbrev pub behind : List ℕ → List ℕ → Bool → Bool → Result Parsed
behind authority query force true = ok hosted
behind authority query force false =
    with_path (slash_before (cut_at b'/' authority) authority) query force

abbrev pub skip_two : List ℕ → List ℕ
skip_two (c ∷ d ∷ s) = s
skip_two s = []

-- `parse` after the scheme, where there is none: `rest` is what stands before the query.
unfoldable pub parse_rest : List ℕ → List ℕ → Bool → Result Parsed
unfolding cut_at starts
parse_rest rest query force =
    if not (starts (codes "/") rest) && any (λ c. c == b':') (cut_at b'/' rest).0
    then err other
    else if not (starts (codes "///") rest) && starts (codes "//") rest
    then (let authority = skip_two rest in
        has_host (cut_at b'/' authority).0 >>= behind authority query force)
    else with_path rest query force

abbrev pub parse_relative : List ℕ → Result Parsed
parse_relative u =
    let (rest, query) = cut_at b'?' u in parse_rest rest query ((length rest + 1) == length u)

abbrev pub by_scheme : List ℕ → Bool → Result Parsed
by_scheme u true = ok absolute
by_scheme u false = parse_relative u

-- `parse`, with `viaRequest` false
unfoldable pub parse_url : List ℕ → Result Parsed
unfolding has_scheme parse_rest
parse_url u =
    if has_ctl u
    then err other
    else if eq_text u (codes "*")
    then ok (bare (codes "*") [] [] false)
    else (has_scheme true u >>= by_scheme u)

-- `url.Parse`
unfoldable pub parse : List ℕ → Result Parsed
unfolding parse_url
parse raw = let (u, frag) = cut_at b'#' raw in parse_url u >>= λ p. unescape frag >>= λ _. ok p

-- `EscapedPath`
unfoldable pub escaped_path : List ℕ → List ℕ → List ℕ
unfolding valid_encoded
escaped_path path raw_path =
    if not (length raw_path == 0) && valid_encoded raw_path
    then raw_path
    else if eq_text path (codes "*")
    then codes "*"
    else escape path

abbrev pub or_slash : List ℕ → List ℕ
or_slash [] = codes "/"
or_slash (c ∷ s) = c ∷ s

-- `RequestURI`, of a URL without a scheme
unfoldable pub request_uri : List ℕ → List ℕ → List ℕ → Bool → List ℕ
unfolding escaped_path
request_uri path raw_path query force =
    or_slash (escaped_path path raw_path)
    ++ (if force || not (length query == 0) then b'?' ∷ query else [])
