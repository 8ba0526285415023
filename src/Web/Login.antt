-- ===== src/Web/Login.antt =====
-- A sign-in from the first request to the session.
use piping.Prelude.{
  ℕ, true, some, List, length, ◌≡◌, refl, ap, sym, none, pos, ◌⊎◌, inl, inr, subst, ◌∙◌,
}
use piping.Semester.{eq_text}
use piping.Error.{Result, err, ok, ◌>>=◌}
use piping.Base64.{encode}
use piping.Base64.RoundTrip.{Bytes}
use piping.Seal.{Codec, Sealer, seals}
use piping.Seal.Sealed.{IsAead, IsCodec}
use piping.Oidc.{State, AuthUrl, UserInfo, get_auth_url, get_user_info, fetch_user_info, value_of}
use piping.Oidc.Flow.{get_user_info-get_auth_url}
use piping.Session.{Cookie, issue}
use piping.Web.{Request, Response, Server, Moment, redirect, local_uri}
use piping.Oidc.Users.{to_user}
use piping.User.{User}
use piping.App.Provision.{provision}
use piping.Semester.{current}
use piping.Web.Auth.{
  has, safe_path, handle_auth_callback, with_user_info, with_cookie, after_provision,
}
use piping.Web.Routes.{is_get, at, routes}
use piping.Web.Gate.{at_other, starts_other}

-- The provider sends the browser back with a code and the state of this URL.
pub record ComesBack (u : AuthUrl) (r : Request) : Type 0 where
  pub by_get : is_get r ≡ true
  pub here : at "/auth/callback" r ≡ true
  pub has_code : has "code" r.query ≡ true
  pub has_state : has "state" r.query ≡ true
  pub state : value_of "state" r.query ≡ value_of "state" u.query

module _ {S : Type 0} (s : Server S) where
  callback :
      (m : Moment) (r : Request) (w : S) {u : AuthUrl}
      → ComesBack u r
      → routes s m r w
        ≡ with_user_info s m
            (get_user_info s.oidc s.outside.http s.outside.json
              (value_of "code" r.query)
              (value_of "state" u.query))
            w
  unfolding routes handle_auth_callback
  callback m r w b =
      rw
        (
          b.by_get,
          starts_other r.path "/auth/callback" "/static/" b.here (unfold eq_text in refl),
          at_other r.path "/auth/callback" "/static" b.here (unfold eq_text in refl),
          at_other r.path "/auth/callback" "/healthz" b.here (unfold eq_text in refl),
          at_other r.path "/auth/callback" "/readyz" b.here (unfold eq_text in refl),
          b.here,
          b.has_code,
          b.has_state,
          b.state,
        )
        refl

  -- There is no session, or the browser gets its cookie and is led to the URL.
  abbrev pub LedBack : List ℕ → Response × S → Type 0
  LedBack url p =
      (p.0.cookie ≡ none) ⊎ ((c : Cookie) × (p.0 ≡ redirect (local_uri (safe_path url)) (some c)))

  with_cookie-LedBack :
      (url : List ℕ) (c : Result Cookie) (w : S) → LedBack url (with_cookie s url c w)
  with_cookie-LedBack url (err e) w = inl refl
  with_cookie-LedBack url (ok c) w = inr (c, refl)

  after_provision-LedBack :
      (m : Moment) (u : User) (url : List ℕ) (r : Result (Unit {0}) × S)
      → LedBack url (after_provision s m u url r)
  after_provision-LedBack m u url (err e, w) = inl refl
  after_provision-LedBack m u url (ok _, w) =
      with_cookie-LedBack url (issue s.session m.nonce (pos m.now) u.username u.role) w

  with_user_info-LedBack :
      (m : Moment) (i : Result UserInfo) (url : List ℕ) (w : S)
      → LedBack url (with_user_info s m (i >>= λ x. ok (x, url)) w)
  unfolding to_user
  with_user_info-LedBack m (err e) url w = inl refl
  with_user_info-LedBack m (ok x) url w =
      let u = to_user s.outside.first_rdn s.outside.order x in
      after_provision-LedBack m u url (provision s.prov u (current m.year m.month) w)

  -- A browser that was sent to the provider from some URL, and comes back with the state it was sent
  -- with, goes on to be signed in as the user whom the provider names for the code and the verifier
  -- behind the challenge; either it gets no cookie, or the answer is the redirect to `safePath` of the
  -- URL that it had asked for, with the cookie.
  pub routes_sign_in :
      (state_json : Codec State) (sealer : Sealer)
      → IsAead sealer.aead
      → IsCodec state_json
      → s.oidc.cfg.sealer ≡ some (seals state_json sealer)
      → (m m' : Moment) (r r' : Request) (w' : S) {u : AuthUrl}
      → length m.nonce ≡ sealer.aead.nonce_size
      → Bytes m.nonce
      → get_auth_url s.oidc s.outside.http.parses s.outside.sha m.key m.nonce r.uri ≡ ok u
      → ComesBack u r'
      → (verifier : List ℕ) × (value_of "code_challenge" u.query ≡ encode (s.outside.sha verifier))
        × (routes s m' r' w'
            ≡ with_user_info s m'
                (fetch_user_info s.oidc s.outside.http s.outside.json
                    (value_of "code" r'.query)
                    verifier
                  >>= λ i. ok (i, r.uri))
                w')
        × LedBack r.uri (routes s m' r' w')
  routes_sign_in state_json sealer aead codec e m m' r r' w' l b a back =
      let (verifier, c, g) =
        get_user_info-get_auth_url s.outside.json state_json sealer aead codec s.oidc
          s.outside.http.parses s.outside.sha s.outside.http m.key m.nonce r.uri
          (value_of "code" r'.query) e l b a in
      let goes = callback m' r' w' back ∙ ap (λ x. with_user_info s m' x w') g in
      (
        verifier,
        c,
        goes,
        subst (LedBack r.uri) (sym goes) (
            with_user_info-LedBack m'
              (fetch_user_info s.oidc s.outside.http s.outside.json (value_of "code" r'.query)
                verifier)
              r.uri w'),
      )
