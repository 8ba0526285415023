-- ===== src/Web/Granted.antt =====
-- The session that a sign-in gives.
use piping.Prelude.{
  ℕ, ℤ, pos, ◌+ℤ◌, ltb_ℤ, String, not, ◌||◌, Option, none, some, List, length, if◌then◌else◌, ◌≡◌,
  refl, ap, ◌∙◌, Bool-cases, inl, inr,
}
use piping.Semester.{current}
use piping.Error.{Result, ok, err, expired}
use piping.Base64.RoundTrip.{Bytes}
use piping.Seal.{Codec, Sealer}
use piping.Seal.Sealed.{IsAead, IsCodec}
use piping.User.{User}
use piping.Session.{Session, Cookie, unix, issue, from_request, cookie_of, new_manager}
use piping.Session.Lasts.{from_request-issue}
use piping.Oidc.{UserInfo, get_user_info, value_of}
use piping.Oidc.Users.{to_user}
use piping.App.Provision.{provision}
use piping.Web.{Request, Response, Server, Moment, redirect, local_uri}
use piping.Web.Auth.{
  has, handle_auth_callback, with_user_info, after_provision, with_cookie, safe_path,
}

none_ne : {A : Type 0} {a : A} → ◌≡◌ {A = Option A} none (some a) → ⊥
none_ne h = cc

module _ {S : Type 0} (s : Server S) where
  -- What a sign-in has gone through that sets a cookie.
  pub record SetsCookie (m : Moment) (r : Request) (w : S) (c : Cookie) : Type 0 where
    pub info : UserInfo
    pub url : List ℕ
    pub named :
        get_user_info s.oidc s.outside.http s.outside.json
          (value_of "code" r.query)
          (value_of "state" r.query)
        ≡ ok (info, url)
    pub provisioned :
        (provision s.prov
          (to_user s.outside.first_rdn s.outside.order info)
          (current m.year m.month)
          w).0
        ≡ ok tt
    pub issued :
        issue s.session m.nonce
          (pos m.now)
          info.username
          (to_user s.outside.first_rdn s.outside.order info).role
        ≡ ok c
    pub answer : (handle_auth_callback s m r w).0 ≡ redirect (local_uri (safe_path url)) (some c)

  -- What follows the provider's answer, if it sets a cookie.
  record Goes (m : Moment) (u : User) (url : List ℕ) (r : Result (Unit {0}) × S) (c : Cookie)
      : Type 0 where
    done : r.0 ≡ ok tt
    gave : issue s.session m.nonce (pos m.now) u.username u.role ≡ ok c
    said : after_provision s m u url r ≡ (redirect (local_uri (safe_path url)) (some c), r.1)

  cookie_set :
      (url : List ℕ) (a : Result Cookie) (w : S) {c : Cookie}
      → (with_cookie s url a w).0.cookie ≡ some c
      → (a ≡ ok c) × (with_cookie s url a w ≡ (redirect (local_uri (safe_path url)) (some c), w))
  cookie_set url (err e) w h = cc
  cookie_set url (ok c) w h =
      (cc, ap (λ (d : Option Cookie). (redirect (local_uri (safe_path url)) d, w)) h)

  provision_set :
      (m : Moment) (u : User) (url : List ℕ) (r : Result (Unit {0}) × S) {c : Cookie}
      → (after_provision s m u url r).0.cookie ≡ some c
      → Goes m u url r c
  provision_set m u url (err e, w) h = cc
  provision_set m u url (ok _, w) h =
      let (i, a) = cookie_set url (issue s.session m.nonce (pos m.now) u.username u.role) w h in
      record { done = refl; gave = i; said = a }

  user_set :
      (m : Moment) (i : Result (UserInfo × List ℕ)) (w : S) {c : Cookie}
      → (with_user_info s m i w).0.cookie ≡ some c
      → (info : UserInfo) × (url : List ℕ) × (i ≡ ok (info, url))
        × (Goes m
            (to_user s.outside.first_rdn s.outside.order info)
            url
            (provision s.prov
              (to_user s.outside.first_rdn s.outside.order info)
              (current m.year m.month)
              w)
            c)
  user_set m (err e) w h = cc
  user_set m (ok (info, url)) w h = (info, url, refl, provision_set m _ url _ h)

  callback_set :
      (m : Moment) (r : Request) (w : S) {c : Cookie}
      → (handle_auth_callback s m r w).0.cookie ≡ some c
      → (handle_auth_callback s m r w
          ≡ with_user_info s m
              (get_user_info s.oidc s.outside.http s.outside.json
                (value_of "code" r.query)
                (value_of "state" r.query))
              w)
  unfolding handle_auth_callback
  callback_set m r w h = elim (Bool-cases (not (has "code" r.query) || not (has "state" r.query))) [
    | inl missing ↦ absurd (none_ne (rw missing at h))
    | inr there ↦ rw there refl
  ]

  handle_auth_callback-SetsCookie :
      (m : Moment) (r : Request) (w : S) {c : Cookie}
      → (handle_auth_callback s m r w).0.cookie ≡ some c
      → SetsCookie m r w c
  unfolding to_user
  handle_auth_callback-SetsCookie m r w {c} h =
      let e = callback_set m r w h in
      let (info, url, n, g) = user_set m _ w (rw e at h) in
      record {
        info = info;
        url = url;
        named = n;
        provisioned = g.done;
        issued = g.gave;
        answer = ap (λ (x : Response × S). x.0) (e ∙ ap (λ i. with_user_info s m i w) n ∙ g.said);
      }

  -- A cookie that a sign-in sets is that of the user whom the provider named, in the role that comes of the
  -- groups, after the user was provisioned: a request that carries it has this session until the ttl is
  -- over, counted in seconds, and is refused as expired from then on.
  pub from_request-handle_auth_callback :
      (json : Codec Session) (sealer : Sealer) (ttl : ℤ)
      → IsAead sealer.aead
      → IsCodec json
      → s.session ≡ new_manager json sealer ttl
      → (m : Moment) (r : Request) (w : S) {c : Cookie} → length m.nonce ≡ sealer.aead.nonce_size
      → Bytes m.nonce
      → (handle_auth_callback s m r w).0.cookie ≡ some c
      → (later : ℤ) (jar : List (String × List ℕ)) → cookie_of c.name jar ≡ ok c.value
      → (signed : SetsCookie m r w c) × (from_request s.session later jar ≡ (
          if ltb_ℤ (unix (pos m.now +ℤ ttl)) (unix later)
          then err expired
          else ok (record {
            sub = signed.info.username;
            role = (to_user s.outside.first_rdn s.outside.order signed.info).role;
            exp = unix (pos m.now +ℤ ttl);
          })))
  from_request-handle_auth_callback json sealer ttl aead codec e m r w l b h later jar held =
      let signed = handle_auth_callback-SetsCookie m r w h in
      (
        signed,
        rw e (
            from_request-issue json sealer aead ttl codec m.nonce (pos m.now) later
              signed.info.username (to_user s.outside.first_rdn s.outside.order signed.info).role
              jar l b (rw e at signed.issued) held),
      )
