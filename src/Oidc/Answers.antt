-- ===== src/Oidc/Answers.antt =====
-- What the provider has answered where a sign-in succeeds, and what a client has that was made.
use piping.Prelude.{
  ℕ, ◌<◌, true, false, not, ◌||◌, Option, none, some, List, length, ◌==◌, ==_iff, ◌≡◌, refl, arith,
  subst, ◌⊎◌, inl, inr,
}
use piping.Error.{Result, ok, err, other}
use piping.Seal.{Seals}
use piping.Error.Inverse.{>>=-ok, ok_inj, err_ne, if_ok, if_not_ok}
use piping.Oidc.{
  State, state_label, Client, ClientConfig, Http, Json, HttpRequest, UserInfo, TokenResponse,
  get_user_info, fetch_user_info, exchange, token_request, user_info_request, new,
  new_from_discovery, is_missing, is_nil, is_empty, with_sealer,
}

-- A request that was answered with the status 200.
pub record Answered (http : Http) (req : HttpRequest) (body : List ℕ) : Type 0 where
  pub parsed : http.parses req.url ≡ true
  pub answered : http.answer req ≡ ok (record { status = 200; body = body })

exchange_ok :
    (http : Http) (req : HttpRequest) {body : List ℕ}
    → exchange http req ≡ ok body
    → Answered http req body
unfolding exchange
exchange_ok http req {body} h =
    let (p, m) = if_not_ok (not (http.parses req.url)) h in
    let (res, a, r) = >>=-ok (http.answer req) _ m in
    let (q, b) = if_ok (res.status == 200) r in
    record { parsed = ground arith; answered = rw (← (==_iff res.status 200).0 q, ← ok_inj b) a }

-- What a sign-in went through that gave a user.
pub record SignedIn (c : Client) (http : Http) (json : Json) (code sealed : List ℕ) (u : UserInfo)
    (url : List ℕ) : Type 0 where
  pub sealer : Seals State
  pub state : State
  pub has_sealer : c.cfg.sealer ≡ some sealer
  pub opened : sealer.open_json state_label sealed ≡ ok state
  pub leads_back : url ≡ state.original_url
  pub token_body : List ℕ
  pub token : TokenResponse
  pub token_answer : Answered http (token_request c code state.pkce_verifier) token_body
  pub token_read : json.token token_body ≡ ok token
  pub user_body : List ℕ
  pub user_answer : Answered http (user_info_request c token) user_body
  pub user_read : json.user_info user_body ≡ ok u

with_sealer_ok :
    {A : Type 0} (c : Client) (f : Seals State → Result A) {a : A}
    → with_sealer c f ≡ ok a
    → (s : Seals State) × (c.cfg.sealer ≡ some s) × (f s ≡ ok a)
with_sealer_ok {A} c f {a} h = split c.cfg.sealer refl h
  where
    split :
        (o : Option (Seals State))
        → c.cfg.sealer ≡ o
        → ◌≡◌ {A = Result A} (elim o [ none ↦ err other | some s ↦ f s ]) (ok a)
        → (s : Seals State) × (c.cfg.sealer ≡ some s) × (f s ≡ ok a)
    split none e g = absurd (err_ne g)
    split (some s) e g = (s, e, g)

-- A sign-in gives a user and a URL to go to only if the state it comes with was sealed for sign-ins, the
-- token endpoint answered the code and the verifier of that state with 200 and a token, the endpoint of
-- the user's data answered that token with 200 and that user, and the URL is the one of the state.
pub get_user_info-SignedIn :
    (c : Client) (http : Http) (json : Json) (code sealed : List ℕ) {u : UserInfo} {url : List ℕ}
    → get_user_info c http json code sealed ≡ ok (u, url)
    → SignedIn c http json code sealed u url
unfolding get_user_info fetch_user_info
get_user_info-SignedIn c http json code sealed {u} {url} h =
    let (s, e, a) = with_sealer_ok c _ h in
    let (st, o, b) = >>=-ok (s.open_json state_label sealed) _ a in
    let (i, f, r) = >>=-ok (fetch_user_info c http json code st.pkce_verifier) _ b in
    let (b1, x1, g) = >>=-ok (exchange http (token_request c code st.pkce_verifier)) _ f in
    let (t, j, k) = >>=-ok (json.token b1) _ g in
    let (b2, x2, l) = >>=-ok (exchange http (user_info_request c t)) _ k in
    let same = ok_inj r in
    record {
      sealer = s;
      state = st;
      has_sealer = e;
      opened = o;
      leads_back = cc;
      token_body = b1;
      token = t;
      token_answer = exchange_ok http _ x1;
      token_read = j;
      user_body = b2;
      user_answer = exchange_ok http _ x2;
      user_read = cc;
    }

-- Nothing is missing that the requests are made of.
pub record IsComplete (c : Client) : Type 0 where
  pub sealer : is_nil c.cfg.sealer ≡ false
  pub id : 0 < length c.cfg.client_id
  pub secret : 0 < length c.cfg.client_secret
  pub redirect : 0 < length c.cfg.redirect_uri
  pub scopes : 0 < length c.cfg.scopes
  pub auth : 0 < length c.auth_endpoint
  pub token : 0 < length c.token_endpoint
  pub user_info : 0 < length c.user_info_endpoint

made :
    (cfg : ClientConfig) (a t u : List ℕ)
    → is_missing cfg ≡ false
    → (is_empty a || is_empty t || is_empty u) ≡ false
    → IsComplete
        (record { cfg = cfg; auth_endpoint = a; token_endpoint = t; user_info_endpoint = u })
made cfg a t u m e = record {
  sealer = ground arith;
  id = ground arith;
  secret = ground arith;
  redirect = ground arith;
  scopes = ground arith;
  auth = ground arith;
  token = ground arith;
  user_info = ground arith;
}

new_IsComplete :
    (cfg : ClientConfig) (a t u : List ℕ) {c : Client} → new cfg a t u ≡ ok c → IsComplete c
unfolding new
new_IsComplete cfg a t u {c} h =
    let (e, m) = if_not_ok (is_missing cfg || is_empty a || is_empty t || is_empty u) h in
    subst IsComplete (ok_inj m) (made cfg a t u (ground arith) (ground arith))

discovered_IsComplete :
    (http : Http) (json : Json) (cfg : ClientConfig) (url : List ℕ) {c : Client}
    → new_from_discovery http json cfg url ≡ ok c
    → IsComplete c
unfolding new_from_discovery
discovered_IsComplete http json cfg url h =
    let (e, m) = if_not_ok (is_missing cfg) h in
    let (body, _, r) = >>=-ok (exchange http _) _ m in
    let (d, _, q) = >>=-ok (json.discovery body) _ r in
    let (f, n) = if_not_ok _ q in
    subst IsComplete (ok_inj n) (made cfg d.auth_endpoint d.token_endpoint d.user_info_endpoint e f)

-- A client, whether it is made of given endpoints or of those that the provider publishes, has a sealer, and
-- none of its credentials, scopes, redirect and endpoints is empty.
pub new-IsComplete :
    (http : Http) (json : Json) (cfg : ClientConfig) (a t u url : List ℕ) (c : Client)
    → (new cfg a t u ≡ ok c) ⊎ (new_from_discovery http json cfg url ≡ ok c)
    → IsComplete c
new-IsComplete http json cfg a t u url c (inl h) = new_IsComplete cfg a t u h
new-IsComplete http json cfg a t u url c (inr h) = discovered_IsComplete http json cfg url h
