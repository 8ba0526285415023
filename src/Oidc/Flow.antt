-- ===== src/Oidc/Flow.antt =====
-- A sign-in from the redirect to the provider up to the answer about the user.
use piping.Prelude.{ℕ, Bool, some, List, length, ◌≡◌, refl, subst, Bool-cases, inl, inr}
use piping.Error.Inverse.{>>=-ok, ok_inj, err_ne}
use piping.Error.{ok, ◌>>=◌}
use piping.Base64.{encode}
use piping.Base64.RoundTrip.{Bytes}
use piping.Seal.{Seals, Codec, Sealer, seals}
use piping.Seal.Sealed.{IsAead, IsCodec, open_as_json-seal_as_json}
use piping.Oidc.{
  State, state_label, Client, Http, Json, AuthUrl, get_auth_url, get_user_info, fetch_user_info,
  value_of, auth_query, new_pkce_challenge,
}

open_state :
    (c : Client) (http : Http) (json : Json) (code sealed : List ℕ) {s : Seals State} {st : State}
    → c.cfg.sealer ≡ some s
    → s.open_json state_label sealed ≡ ok st
    → get_user_info c http json code sealed
      ≡ (fetch_user_info c http json code st.pkce_verifier >>= λ u. ok (u, st.original_url))
unfolding get_user_info
open_state c http json code sealed e o = rw (e, o) refl

-- What the URL of a sign-in holds.
record Asks (c : Client) (sha : List ℕ → List ℕ) (key nonce original : List ℕ) (s : Seals State)
    (u : AuthUrl) : Type 0 where
  sealed :
      s.seal_json nonce state_label
        (record { original_url = original; pkce_verifier = encode key; scopes = c.cfg.scopes })
      ≡ ok (value_of "state" u.query)
  challenge : value_of "code_challenge" u.query ≡ encode (sha (encode key))

get_auth_url_ok :
    (c : Client) (parses : List ℕ → Bool) (sha : List ℕ → List ℕ) (key nonce original : List ℕ)
    (s : Seals State) {u : AuthUrl}
    → c.cfg.sealer ≡ some s
    → get_auth_url c parses sha key nonce original ≡ ok u
    → Asks c sha key nonce original s u
unfolding get_auth_url value_of auth_query new_pkce_challenge
get_auth_url_ok c parses sha key nonce original s {u} e h =
    let (sealed, q, r) = >>=-ok _ _ (rw e at h) in
    elim (Bool-cases (parses c.auth_endpoint)) [
      | inl p ↦
          subst (Asks c sha key nonce original s) (ok_inj (rw p at r))
            (record { sealed = q; challenge = refl })
      | inr p ↦ absurd (err_ne (rw p at r))
    ]

-- A sign-in that comes back with the state of its URL goes on to ask for the token with the verifier
-- whose hash the URL had as its challenge, and leads back to the URL that was asked for at first.
pub get_user_info-get_auth_url :
    (json : Json) (state_json : Codec State) (s : Sealer)
    → IsAead s.aead
    → IsCodec state_json
    → (c : Client) (parses : List ℕ → Bool) (sha : List ℕ → List ℕ) (http : Http)
      (key nonce original code : List ℕ) {u : AuthUrl}
    → c.cfg.sealer ≡ some (seals state_json s)
    → length nonce ≡ s.aead.nonce_size
    → Bytes nonce
    → get_auth_url c parses sha key nonce original ≡ ok u
    → (verifier : List ℕ) × (value_of "code_challenge" u.query ≡ encode (sha verifier))
      × (get_user_info c http json code (value_of "state" u.query)
          ≡ (fetch_user_info c http json code verifier >>= λ i. ok (i, original)))
unfolding seals
get_user_info-get_auth_url json state_json s aead codec c parses sha http key nonce original code
      {u} e l b h =
    let asks = get_auth_url_ok c parses sha key nonce original (seals state_json s) e h in
    (
      encode key,
      asks.challenge,
      open_state c http json code (value_of "state" u.query) e
          (open_as_json-seal_as_json state_json s aead codec nonce state_label _ l b asks.sealed),
    )
