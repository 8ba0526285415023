-- ===== src/Session/Lasts.antt =====
-- How long a session lasts that was issued, and what a request proves that has one.
use piping.Prelude.{
  ℕ, ℤ, ◌+ℤ◌, ltb_ℤ, String, false, List, ◌++◌, length, if◌then◌else◌, ◌≡◌, refl, subst, Bool-cases,
  inl, inr,
}
use piping.Error.Inverse.{>>=-ok, err_ne, ok_inj}
use piping.Error.{ok, err, expired}
use piping.User.{Role}
use piping.Seal.{Codec, Sealer, open_as_json}
use piping.Seal.Sealed.{IsAead, IsCodec, open_as_json-seal_as_json, open_as_json_authentic}
use piping.Base64.{decode}
use piping.Base64.RoundTrip.{Bytes}
use piping.Session.{
  Session, Manager, Cookie, session_label, cookie_name, cookie_of, unix, check_expiry, new_manager,
  from_request, issue, new_session,
}

-- The check of a value that the sealer gives back.
from_request_opened :
    (m : Manager) (later : ℤ) (jar : List (String × List ℕ)) {value : List ℕ} {v : Session}
    → cookie_of cookie_name jar ≡ ok value
    → m.seal.open_json session_label value ≡ ok v
    → from_request m later jar ≡ (if ltb_ℤ v.exp (unix later) then err expired else ok v)
unfolding from_request
from_request_opened m later jar c o = rw (c, o) refl

-- What a cookie is named and holds.
issue_ok :
    (m : Manager) (nonce : List ℕ) (now : ℤ) (sub : String) (role : Role) {c : Cookie}
    → issue m nonce now sub role ≡ ok c
    → (c.name ≡ cookie_name)
      × (m.seal.seal_json nonce session_label (new_session m now sub role) ≡ ok c.value)
unfolding issue
issue_ok m nonce now sub role {c} h =
    let (sealed, e, r) = >>=-ok _ _ h in
    subst
      (λ (d : Cookie).
        (d.name ≡ cookie_name)
        × (m.seal.seal_json nonce session_label (new_session m now sub role) ≡ ok d.value))
      (ok_inj r) (refl, e)

check_expiry_ok :
    (now : ℤ) (w : Session) {v : Session}
    → check_expiry now w ≡ ok v
    → (ltb_ℤ v.exp (unix now) ≡ false) × (w ≡ v)
check_expiry_ok now w h = elim (Bool-cases (ltb_ℤ w.exp (unix now))) [
  | inl late ↦ absurd (err_ne (rw late at h))
  | inr live ↦
      let same = ok_inj (rw live at h) in
      (subst (λ u. ltb_ℤ u.exp (unix now) ≡ false) same live, same)
]

module _ (json : Codec Session) (s : Sealer) (aead : IsAead s.aead) (ttl : ℤ) where
  -- A request that carries the cookie which a sign-in set has the session of that user and role as long as
  -- the second of the sign-in plus the ttl has not passed, and is refused as expired from then on.
  pub from_request-issue :
      IsCodec json
      → (nonce : List ℕ) (now later : ℤ) (sub : String) (role : Role) (jar : List (String × List ℕ))
        {c : Cookie}
      → length nonce ≡ s.aead.nonce_size
      → Bytes nonce
      → issue (new_manager json s ttl) nonce now sub role ≡ ok c
      → cookie_of c.name jar ≡ ok c.value
      → from_request (new_manager json s ttl) later jar ≡ (
          if ltb_ℤ (unix (now +ℤ ttl)) (unix later)
          then err expired
          else ok (record { sub = sub; role = role; exp = unix (now +ℤ ttl) }))
  unfolding new_manager new_session
  from_request-issue codec nonce now later sub role jar {c} e b i held =
      let (name, m) = issue_ok (new_manager json s ttl) nonce now sub role i in
      from_request_opened (new_manager json s ttl) later jar (rw name at held)
        (open_as_json-seal_as_json json s aead codec nonce session_label _ e b m)

  -- A request has no session but one that the key has sealed under the label of sessions, in the cookie
  -- that the request carries, and that has not expired.
  pub from_request_authentic :
      (now : ℤ) (jar : List (String × List ℕ)) {v : Session}
      → from_request (new_manager json s ttl) now jar ≡ ok v
      → (nonce : List ℕ) × (plain : List ℕ) × (value : List ℕ) × (cookie_of cookie_name jar
          ≡ ok value)
        × (decode value ≡ ok (nonce ++ s.aead.seal nonce plain session_label))
        × (json.unmarshal plain ≡ ok v)
        × (ltb_ℤ v.exp (unix now) ≡ false)
  unfolding from_request new_manager
  from_request_authentic now jar {v} h =
      let (value, c, r) = >>=-ok (cookie_of cookie_name jar) _ h in
      let (w, o, x) = >>=-ok (open_as_json json s session_label value) (check_expiry now) r in
      let (live, same) = check_expiry_ok now w x in
      let (nonce, plain, _, d, j) = open_as_json_authentic json s aead session_label value o in
      (nonce, plain, value, c, d, subst (λ u. json.unmarshal plain ≡ ok u) same j, live)
