-- ===== src/Examples/Cipher.antt =====
-- A cipher that adds one byte, and encodings of one session and one sign-in.
use piping.Prelude.{
  ℕ, ◌+◌, ◌%◌, pos, eq_ℤ, eq_ℤ_iff, eq_iff, str_eq, Bool, true, false, ◌&&◌, ◌==◌, List, [], ◌∷◌,
  if◌then◌else◌, ◌≡◌, refl, sym, arith,
}
use piping.Error.{Result, ok, err, other}
use piping.Error.Inverse.{ok_inj, if_ok}
use piping.Decimal.{codes}
use piping.User.{Role, role_none, role_user, role_staff, role_admin}
use piping.Semester.{eq_text}
use piping.Base64.{encode}
use piping.Seal.{Aead, Codec, Sealer}
use piping.Seal.Sealed.{IsAead, IsCodec}
use piping.Session.{Session}
use piping.Oidc.{State}

abbrev pub sum : List ℕ → ℕ
sum [] = 0
sum (c ∷ s) = c + sum s

abbrev pub tag : List ℕ → List ℕ → ℕ
tag nonce label = (sum nonce + sum label) % 256

abbrev pub open_tagged : ℕ → List ℕ → Result (List ℕ)
open_tagged t [] = err other
open_tagged t (c ∷ s) = if c == t then ok s else err other

abbrev pub cipher : Aead
cipher = record {
  nonce_size = 2;
  seal = λ nonce plain label. tag nonce label ∷ plain;
  unseal = λ nonce text label. open_tagged (tag nonce label) text;
}

tagged : (t : ℕ) (s : List ℕ) {p : List ℕ} → open_tagged t s ≡ ok p → s ≡ t ∷ p
tagged t [] h = cc
tagged t (c ∷ s) h = ground arith

opened : (t : ℕ) (p : List ℕ) → open_tagged t (t ∷ p) ≡ ok p
opened t p = ground arith

pub cipher-IsAead : IsAead cipher
cipher-IsAead = record {
  opens = λ nonce plain ad e. opened (tag nonce ad) plain;
  bytes = λ nonce plain ad h. (omega arith, h);
  authentic = λ nonce text ad h. tagged (tag nonce ad) text h;
}

abbrev pub sealer : Sealer
sealer = record { aead = cipher }

-- An encoding of a single value by the byte 7.
module _ {A : Type 0} (v : A) (is_v : A → Bool) where
  abbrev pub one_marshal : A → Result (List ℕ)
  one_marshal a = if is_v a then ok (7 ∷ []) else err other

  abbrev pub one_unmarshal : List ℕ → Result A
  one_unmarshal s = if eq_text s (7 ∷ []) then ok v else err other

  abbrev pub one_value : Codec A
  one_value = record { marshal = one_marshal; unmarshal = one_unmarshal }

  one_marshal_ok :
      (a : A) (s : List ℕ)
      → ((a : A) → is_v a ≡ true → a ≡ v)
      → one_marshal a ≡ ok s
      → (a ≡ v) × (s ≡ 7 ∷ [])
  one_marshal_ok a s same h = let (e, k) = if_ok (is_v a) h in (same a e, sym (ok_inj k))

  one_value-IsCodec : ((a : A) → is_v a ≡ true → a ≡ v) → IsCodec one_value
  unfolding eq_text
  one_value-IsCodec same = record {
    back = λ a s h. let (e, k) = one_marshal_ok a s same h in rw (k, e) refl;
    bytes = λ a s h. let (e, k) = one_marshal_ok a s same h in rw k (omega arith, tt);
  }

abbrev is_user : Role → Bool
is_user role_user = true
is_user _ = false

-- Alice's session, until an hour after the second 100.
abbrev pub session : Session
session = record { sub = "alice"; role = role_user; exp = pos 3700 }

abbrev pub is_session : Session → Bool
is_session s = str_eq s.sub "alice" && is_user s.role && eq_ℤ s.exp (pos 3700)

user_same : (r : Role) → is_user r ≡ true → r ≡ role_user
user_same role_user h = refl
user_same role_none h = cc
user_same role_staff h = cc
user_same role_admin h = cc

session_same : (s : Session) → is_session s ≡ true → s ≡ session
session_same s h = ground (arith, eq_iff s.sub "alice", eq_ℤ_iff s.exp (pos 3700), user_same s.role)

abbrev pub session_json : Codec Session
session_json = one_value session is_session

pub session_json-IsCodec : IsCodec session_json
session_json-IsCodec = one_value-IsCodec session is_session session_same

abbrev pub key : List ℕ
key = 1 ∷ 2 ∷ 3 ∷ []

-- A sign-in that began at the list of jobs.
abbrev pub state : State
unfolding encode
state = record { original_url = codes "/jobs"; pkce_verifier = encode key; scopes = codes "openid" }

abbrev pub is_state : State → Bool
is_state s =
    eq_text s.original_url state.original_url
    && eq_text s.pkce_verifier state.pkce_verifier
    && eq_text s.scopes state.scopes

text_same : (s t : List ℕ) → eq_text s t ≡ true → s ≡ t
unfolding eq_text
text_same [] [] h = refl
text_same [] (d ∷ t) h = cc
text_same (c ∷ s) [] h = cc
text_same (c ∷ s) (d ∷ t) h = ground (arith, text_same s t)

state_same : (s : State) → is_state s ≡ true → s ≡ state
state_same s h = ground (
  arith,
  text_same s.original_url state.original_url,
  text_same s.pkce_verifier state.pkce_verifier,
  text_same s.scopes state.scopes,
)

abbrev pub state_json : Codec State
state_json = one_value state is_state

pub state_json-IsCodec : IsCodec state_json
state_json-IsCodec = one_value-IsCodec state is_state state_same
