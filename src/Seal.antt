-- ===== src/Seal.antt =====
-- internal/seal/seal.go: values sealed as JSON under a key, for cookies and for the state of a sign-in.
-- Bytes and characters are natural numbers.
pub mod Sealed
use piping.Prelude.{
  ℕ, ◌+◌, ltb, ◌==◌, Bool, not, List, [], ◌∷◌, ◌++◌, length, take, drop, if◌then◌else◌,
}
use piping.Error.{Error, Result, ok, err, other, ◌>>=◌}
use piping.Base64.{encode, decode}

-- A `cipher.AEAD`: the nonce, then the text, then the additional data.
pub record Aead : Type 0 where
  pub nonce_size : ℕ
  pub seal : List ℕ → List ℕ → List ℕ → List ℕ
  pub unseal : List ℕ → List ℕ → List ℕ → Result (List ℕ)

-- encoding/json at one type
pub record Codec (A : Type 0) : Type 0 where
  pub marshal : A → Result (List ℕ)
  pub unmarshal : List ℕ → Result A

pub record Sealer : Type 0 where
  pub aead : Aead

-- `gcm` is `aes.NewCipher` and `cipher.NewGCM` of a key.
unfoldable pub new_sealer : (List ℕ → Result Aead) → List ℕ → Result Sealer
new_sealer gcm key =
    if not (length key == 32) then err other else (gcm key >>= λ a. ok (record { aead = a }))

module _ {A : Type 0} (json : Codec A) (s : Sealer) where
  -- `nonce` is what crypto/rand gives, `s.aead.nonce_size` bytes.
  unfoldable pub seal_as_json : List ℕ → List ℕ → A → Result (List ℕ)
  seal_as_json nonce label v =
      json.marshal v >>= λ plain. ok (encode (nonce ++ s.aead.seal nonce plain label))

  unfoldable pub open_raw : List ℕ → List ℕ → Result A
  open_raw label raw =
      let ns = s.aead.nonce_size in
      if ltb (length raw) ns
      then err other
      else (s.aead.unseal (take ns raw) (drop ns raw) label >>= json.unmarshal)

  unfoldable pub open_as_json : List ℕ → List ℕ → Result A
  unfolding open_raw
  open_as_json label sealed = decode sealed >>= open_raw label

-- The interface that sessions and sign-in take: `SealAsJSON` with the nonce that it draws, and `OpenAsJSON`.
pub record Seals (A : Type 0) : Type 0 where
  pub seal_json : List ℕ → List ℕ → A → Result (List ℕ)
  pub open_json : List ℕ → List ℕ → Result A

unfoldable pub seals : {A : Type 0} → Codec A → Sealer → Seals A
seals json s = record { seal_json = seal_as_json json s; open_json = open_as_json json s }
