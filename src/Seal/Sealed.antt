-- ===== src/Seal/Sealed.antt =====
-- Opening what was sealed, and what an opened value says of its text.
use piping.Prelude.{
  ℕ, zero, suc, ◌+◌, ltb, false, List, [], ◌∷◌, ◌++◌, length, take, drop, ◌≡◌, refl, ap, arith,
  Bool-cases, inl, inr, All-append, subst, length-append,
}
use piping.Error.{ok, ◌>>=◌}
use piping.Error.Inverse.{>>=-ok, ok_inj, err_ne}
use piping.Base64.{decode}
use piping.Base64.RoundTrip.{IsByte, Bytes, decode-encode}
use piping.Seal.{Aead, Codec, Sealer, seal_as_json, open_raw, open_as_json}

-- What an authenticated cipher promises: a sealed text opens under its nonce and data, it consists of
-- bytes, and what opens is the sealing of what comes out, under the same nonce and data.
pub record IsAead (a : Aead) : Type 0 where
  pub opens :
      (nonce plain ad : List ℕ)
      → length nonce ≡ a.nonce_size
      → a.unseal nonce (a.seal nonce plain ad) ad ≡ ok plain
  pub bytes : (nonce plain ad : List ℕ) → Bytes plain → Bytes (a.seal nonce plain ad)
  pub authentic :
      (nonce text ad : List ℕ) {plain : List ℕ}
      → a.unseal nonce text ad ≡ ok plain
      → text ≡ a.seal nonce plain ad

-- A value is marshalled to bytes, and they are unmarshalled to the value.
pub record IsCodec {A : Type 0} (json : Codec A) : Type 0 where
  pub back : (v : A) (s : List ℕ) → json.marshal v ≡ ok s → json.unmarshal s ≡ ok v
  pub bytes : (v : A) (s : List ℕ) → json.marshal v ≡ ok s → Bytes s

pub take_append : (s t : List ℕ) → take (length s) (s ++ t) ≡ s
take_append [] t = refl
take_append (x ∷ s) t = ap (λ r. x ∷ r) (take_append s t)

drop_append : (s t : List ℕ) → drop (length s) (s ++ t) ≡ t
drop_append [] t = refl
drop_append (x ∷ s) t = drop_append s t

take-drop : (n : ℕ) (s : List ℕ) → take n s ++ drop n s ≡ s
take-drop zero s = refl
take-drop (suc n) [] = refl
take-drop (suc n) (x ∷ s) = ap (λ r. x ∷ r) (take-drop n s)

length-take : (n : ℕ) (s : List ℕ) → ltb (length s) n ≡ false → length (take n s) ≡ n
length-take zero s h = refl
length-take (suc n) [] h = ground arith
length-take (suc n) (x ∷ s) h = ground (arith, length-take n s)

no_shorter : (m n : ℕ) → ltb (m + n) m ≡ false
no_shorter m n = ground arith

module _ {A : Type 0} (json : Codec A) (s : Sealer) where
  open_raw_append :
      (nonce text label : List ℕ)
      → length nonce ≡ s.aead.nonce_size
      → open_raw json s label (nonce ++ text) ≡ (s.aead.unseal nonce text label >>= json.unmarshal)
  unfolding open_raw
  open_raw_append nonce text label e =
      rw
        (
          ← e,
          length-append nonce text,
          no_shorter (length nonce) (length text),
          take_append nonce text,
          drop_append nonce text,
        )
        refl

  open_raw_ok :
      (label raw : List ℕ) {v : A}
      → open_raw json s label raw ≡ ok v
      → (plain : List ℕ) × (length (take s.aead.nonce_size raw) ≡ s.aead.nonce_size)
        × (s.aead.unseal (take s.aead.nonce_size raw) (drop s.aead.nonce_size raw) label ≡ ok plain)
        × (json.unmarshal plain ≡ ok v)
  unfolding open_raw
  open_raw_ok label raw h = elim (Bool-cases (ltb (length raw) s.aead.nonce_size)) [
    | inl short ↦ absurd (err_ne (rw short at h))
    | inr long ↦
        let (plain, u, j) = >>=-ok _ json.unmarshal (rw long at h) in
        (plain, length-take s.aead.nonce_size raw long, u, j)
  ]

  -- A value that is sealed with a fresh nonce of bytes is what opens again under the same label.
  pub open_as_json-seal_as_json :
      IsAead s.aead
      → IsCodec json
      → (nonce label : List ℕ) (v : A) {sealed : List ℕ} → length nonce ≡ s.aead.nonce_size
      → Bytes nonce
      → seal_as_json json s nonce label v ≡ ok sealed
      → open_as_json json s label sealed ≡ ok v
  unfolding seal_as_json open_as_json
  open_as_json-seal_as_json aead codec nonce label v e b h =
      let (plain, m, f) = >>=-ok (json.marshal v) _ h in
      let bs =
        All-append IsByte nonce (s.aead.seal nonce plain label) b
          (aead.bytes nonce plain label (codec.bytes v plain m)) in
      subst (λ t. open_as_json json s label t ≡ ok v) (ok_inj f)
        (rw
          (
            decode-encode _ bs,
            open_raw_append nonce (s.aead.seal nonce plain label) label e,
            aead.opens nonce plain label e,
            codec.back v plain m,
          )
          refl)

  -- What opens under a label is nothing but a text that the key sealed under that label: it is in base64
  -- a nonce and the sealing of a text that the value was read from.
  pub open_as_json_authentic :
      IsAead s.aead
      → (label sealed : List ℕ) {v : A} → open_as_json json s label sealed ≡ ok v
      → (nonce : List ℕ) × (plain : List ℕ) × (length nonce ≡ s.aead.nonce_size)
        × (decode sealed ≡ ok (nonce ++ s.aead.seal nonce plain label))
        × (json.unmarshal plain ≡ ok v)
  unfolding open_as_json
  open_as_json_authentic aead label sealed h =
      let (raw, d, r) = >>=-ok (decode sealed) _ h in
      let (plain, e, u, j) = open_raw_ok label raw r in
      (
        take s.aead.nonce_size raw,
        plain,
        e,
        rw
            (
              ← aead.authentic (take s.aead.nonce_size raw) (drop s.aead.nonce_size raw) label u,
              take-drop s.aead.nonce_size raw,
            )
            d,
        j,
      )
