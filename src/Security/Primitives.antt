-- ===== src/Security/Primitives.antt =====
-- What app/security takes from `cryptography`, `base64`, `json` and Python's bytes, with the
-- documented laws that it relies on: each decoding undoes its encoding.
use company_tax_and_accounti.Base.{ℕ, Bool, Option, some, String, ◌≡◌, ◌<◌}

-- The dict of `Envelope.to_dict`, as `json` writes it: a key that is missing is `none`.
pub record EnvelopeDict (Text : Type 0) : Type 0 where
  pub v : Option ℕ
  pub alg : Option String
  pub kek_id : Option String
  pub wrapped_dek : Option Text
  pub nonce : Option Text
  pub ct : Option Text
  pub aad : Option Text

pub record Primitives : Type 1 where
  pub Bytes : Type 0
  -- `len`, `not b`, `+`, and the bytes of a text in ASCII
  pub size : Bytes → ℕ
  pub is_blank : Bytes → Bool
  pub concat : Bytes → Bytes → Bytes
  pub ascii : String → Bytes
  -- `str(firm_id)` in ASCII
  pub firm_text : ℕ → Bytes
  -- HKDF-SHA256 of a secret, with the salt and the length of the provider
  pub hkdf : Bytes → Bytes → Bytes
  -- `aes_key_wrap` and `aes_key_unwrap`; `none` where they raise
  pub key_wrap : Bytes → Bytes → Option Bytes
  pub key_unwrap : Bytes → Bytes → Option Bytes
  -- `AESGCM(key).encrypt` and `decrypt`: key, nonce, content, associated data; `none` where they
  -- raise
  pub gcm_encrypt : Bytes → Bytes → Bytes → Bytes → Option Bytes
  pub gcm_decrypt : Bytes → Bytes → Bytes → Bytes → Option Bytes
  -- `base64`, in the texts of JSON
  pub Text : Type 0
  pub b64 : Bytes → Text
  pub unb64 : Text → Option Bytes
  -- `json` and UTF-8
  pub dumps : EnvelopeDict Text → Bytes
  pub loads : Bytes → Option (EnvelopeDict Text)
  -- HKDF gives 32 bytes, AES key wrap takes keys of 256 bits, and AES-GCM takes such a key, a nonce
  -- of 96 bits, and less than 2 ** 31 bytes of content and of associated data.
  pub hkdf-size : (secret info : Bytes) → size (hkdf secret info) ≡ 32
  pub unwrap-wrap :
      (kek dek : Bytes)
      → size kek ≡ 32
      → size dek ≡ 32
      → (wrapped : Bytes) × (key_wrap kek dek ≡ some wrapped) × (key_unwrap kek wrapped ≡ some dek)
  pub decrypt-encrypt :
      (key nonce content aad : Bytes)
      → size key ≡ 32
      → size nonce ≡ 12
      → size content < 2147483648
      → size aad < 2147483648
      → (ct : Bytes) × (gcm_encrypt key nonce content aad ≡ some ct)
        × (gcm_decrypt key nonce ct aad ≡ some content)
  pub unb64-b64 : (b : Bytes) → unb64 (b64 b) ≡ some b
  pub loads-dumps : (d : EnvelopeDict Text) → loads (dumps d) ≡ some d
