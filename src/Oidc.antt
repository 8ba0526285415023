-- ===== src/Oidc.antt =====
-- internal/oidc/oidc.go: signing in with the identity provider. A text is the list of its code points.
pub mod Users
pub mod Flow
pub mod Answers
pub mod Enrolled
use piping.Prelude.{
  ℕ, ℤ, eq_ℤ, ◌==◌, String, Bool, true, false, not, ◌||◌, Option, none, some, List, [], ◌∷◌, ◌++◌,
  length, any, str_eq, if◌then◌else◌,
}
use piping.Decimal.{codes}
use piping.Error.{Error, Result, ok, err, other, ◌>>=◌}
use piping.Base64.{encode}
use piping.Seal.{Seals}
use piping.Semester.{code}
use piping.User.{User, role_from_groups, eligible_for_quota}

-- What a sign-in carries through the provider and back.
pub record State : Type 0 where
  pub original_url : List ℕ
  pub pkce_verifier : List ℕ
  pub scopes : List ℕ

abbrev pub state_label : List ℕ
state_label = codes "oidc_state"

-- `sealer` and `log` may be nil.
pub record ClientConfig : Type 0 where
  pub redirect_uri : List ℕ
  pub client_id : List ℕ
  pub client_secret : List ℕ
  pub scopes : List ℕ
  pub sealer : Option (Seals State)
  pub log : Bool

pub record Client : Type 0 where
  pub cfg : ClientConfig
  pub auth_endpoint : List ℕ
  pub token_endpoint : List ℕ
  pub user_info_endpoint : List ℕ

pub record OidcDiscovery : Type 0 where
  pub auth_endpoint : List ℕ
  pub token_endpoint : List ℕ
  pub user_info_endpoint : List ℕ

pub record TokenResponse : Type 0 where
  pub access_token : List ℕ
  pub scope : List ℕ

pub record Course : Type 0 where
  pub course_code : List ℕ
  pub section : List ℕ
  pub course_name : List ℕ
  pub semester : List ℕ

pub record UserInfo : Type 0 where
  pub username : String
  pub full_name : String
  pub email : String
  pub faculty : List ℕ
  pub groups : List (List ℕ)
  pub courses : List Course

pub data Method : Type 0 where
  get post : Method

-- A request to the provider; `form` is the body of a POST.
pub record HttpRequest : Type 0 where
  pub method : Method
  pub url : List ℕ
  pub form : List (String × List ℕ)
  pub authorization : List ℕ

pub record HttpResponse : Type 0 where
  pub status : ℕ
  pub body : List ℕ

-- Which URLs parse, and how each request of a call is answered, within the time that it has.
pub record Http : Type 0 where
  pub parses : List ℕ → Bool
  pub answer : HttpRequest → Result HttpResponse

-- encoding/json at the types that the provider answers with
pub record Json : Type 0 where
  pub discovery : List ℕ → Result OidcDiscovery
  pub token : List ℕ → Result TokenResponse
  pub user_info : List ℕ → Result UserInfo

abbrev pub is_empty : List ℕ → Bool
is_empty s = length s == 0

abbrev pub is_nil : {A : Type 0} → Option A → Bool
is_nil none = true
is_nil (some a) = false

-- The values of a configuration that both ways to make a client ask for.
abbrev pub is_missing : ClientConfig → Bool
is_missing cfg =
    is_nil cfg.sealer
    || is_empty cfg.client_id
    || is_empty cfg.client_secret
    || is_empty cfg.redirect_uri
    || is_empty cfg.scopes
    || not cfg.log

unfoldable pub new : ClientConfig → List ℕ → List ℕ → List ℕ → Result Client
new cfg auth_endpoint token_endpoint user_endpoint =
    if is_missing cfg || is_empty auth_endpoint || is_empty token_endpoint || is_empty user_endpoint
    then err other
    else ok (record {
      cfg = cfg;
      auth_endpoint = auth_endpoint;
      token_endpoint = token_endpoint;
      user_info_endpoint = user_endpoint;
    })

-- A request, and the body of its answer if the status is 200.
unfoldable pub exchange : Http → HttpRequest → Result (List ℕ)
exchange http req =
    if not (http.parses req.url)
    then err other
    else (http.answer req >>= λ res. if res.status == 200 then ok res.body else err other)

abbrev pub get_request : List ℕ → List ℕ → HttpRequest
get_request url authorization = record {
  method = get;
  url = url;
  form = [];
  authorization = authorization;
}

abbrev pub from_endpoints : ClientConfig → OidcDiscovery → Result Client
from_endpoints cfg d =
    if is_empty d.auth_endpoint || is_empty d.token_endpoint || is_empty d.user_info_endpoint
    then err other
    else ok (record {
      cfg = cfg;
      auth_endpoint = d.auth_endpoint;
      token_endpoint = d.token_endpoint;
      user_info_endpoint = d.user_info_endpoint;
    })

unfoldable pub new_from_discovery : Http → Json → ClientConfig → List ℕ → Result Client
unfolding exchange
new_from_discovery http json cfg discovery_url =
    if is_missing cfg
    then err other
    else (exchange http (get_request discovery_url []) >>= λ body.
        json.discovery body >>= from_endpoints cfg)

pub record PkceChallenge : Type 0 where
  pub verifier : List ℕ
  pub method : List ℕ
  pub challenge : List ℕ

-- `sha` is `sha256.Sum256`, and `key` the 32 bytes that crypto/rand gives.
unfoldable pub new_pkce_challenge : (List ℕ → List ℕ) → List ℕ → PkceChallenge
new_pkce_challenge sha key = record {
  verifier = encode key;
  method = codes "S256";
  challenge = encode (sha (encode key));
}

-- A URL by its endpoint and the values of its query, in the order of `url.Values.Encode`.
pub record AuthUrl : Type 0 where
  pub endpoint : List ℕ
  pub query : List (String × List ℕ)

-- `url.Values.Get`
unfoldable pub value_of : String → List (String × List ℕ) → List ℕ
value_of name [] = []
value_of name ((n, v) ∷ rest) = let next = value_of name rest in if str_eq n name then v else next

unfoldable pub auth_query : Client → PkceChallenge → List ℕ → List (String × List ℕ)
auth_query c pkce sealed =
    ("client_id", c.cfg.client_id)
    ∷ ("code_challenge", pkce.challenge)
    ∷ ("code_challenge_method", pkce.method)
    ∷ ("redirect_uri", c.cfg.redirect_uri)
    ∷ ("response_type", codes "code")
    ∷ ("scope", c.cfg.scopes)
    ∷ ("state", sealed)
    ∷ []

-- A call through a nil sealer would panic.
abbrev pub with_sealer : {A : Type 0} → Client → (Seals State → Result A) → Result A
with_sealer c f = elim c.cfg.sealer [ none ↦ err other | some s ↦ f s ]

-- `nonce` is what the sealer draws.
unfoldable pub get_auth_url :
    Client → (List ℕ → Bool) → (List ℕ → List ℕ) → List ℕ → List ℕ → List ℕ → Result AuthUrl
unfolding new_pkce_challenge auth_query
get_auth_url c parses sha key nonce original_url =
    let pkce = new_pkce_challenge sha key in
    with_sealer c (λ s.
      s.seal_json nonce state_label (record {
        original_url = original_url;
        pkce_verifier = pkce.verifier;
        scopes = c.cfg.scopes;
      })
      >>= λ sealed.
          if parses c.auth_endpoint
          then ok (record { endpoint = c.auth_endpoint; query = auth_query c pkce sealed })
          else err other)

unfoldable pub token_request : Client → List ℕ → List ℕ → HttpRequest
token_request c code verifier = record {
  method = post;
  url = c.token_endpoint;
  form =
      ("client_id", c.cfg.client_id)
      ∷ ("client_secret", c.cfg.client_secret)
      ∷ ("code", code)
      ∷ ("code_verifier", verifier)
      ∷ ("grant_type", codes "authorization_code")
      ∷ ("redirect_uri", c.cfg.redirect_uri)
      ∷ [];
  authorization = [];
}

unfoldable pub user_info_request : Client → TokenResponse → HttpRequest
user_info_request c token = get_request c.user_info_endpoint (codes "Bearer " ++ token.access_token)

-- The exchange of the code for a token, and of the token for the user.
unfoldable pub fetch_user_info : Client → Http → Json → List ℕ → List ℕ → Result UserInfo
unfolding exchange token_request user_info_request
fetch_user_info c http json code verifier =
    exchange http (token_request c code verifier) >>= λ body.
    json.token body >>= λ token. exchange http (user_info_request c token) >>= json.user_info

unfoldable pub get_user_info : Client → Http → Json → List ℕ → List ℕ → Result (UserInfo × List ℕ)
unfolding fetch_user_info
get_user_info c http json code state = with_sealer c (λ s. s.open_json state_label state >>= λ st.
    fetch_user_info c http json code st.pkce_verifier >>= λ u. ok (u, st.original_url))
