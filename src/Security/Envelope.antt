-- ===== src/Security/Envelope.antt =====
-- Envelope encryption (app/security/envelope.py). The random key and nonce are arguments.
use company_tax_and_accounti.Base.{ℕ, not, Option, none, some, String, ◌==◌, if◌then◌else◌}
use text.Mathlib.Text.{◌==◌ as str_eq}
use company_tax_and_accounti.Security.Primitives.{EnvelopeDict, Primitives}
use company_tax_and_accounti.Security.Keys.{
  Attempt, returns, raises, decryption, value_error, ◌and_then◌, or_raises, LocalKeyProvider,
  firm_info, wrap_data_key, unwrap_data_key,
}

abbrev pub alg_aes_256_gcm : String
alg_aes_256_gcm = "AES-256-GCM"

-- Every failure becomes a `DecryptionError`.
abbrev pub masked : {A : Type 0} → Attempt A → Attempt A
masked (returns a) = returns a
masked (raises e) = raises decryption

module _ (c : Primitives) where
  pub record Envelope : Type 0 where
    pub alg : String
    pub kek_id : String
    pub wrapped_dek : c.Bytes
    pub nonce : c.Bytes
    pub ciphertext : c.Bytes
    pub aad : Option c.Bytes
    pub v : ℕ

  abbrev pub optional_b64 : Option c.Bytes → Option c.Text
  optional_b64 none = none
  optional_b64 (some b) = some (c.b64 b)

  -- `Envelope.to_dict`
  unfoldable pub to_dict : Envelope → EnvelopeDict c.Text
  to_dict e = record {
    v = some e.v;
    alg = some e.alg;
    kek_id = some e.kek_id;
    wrapped_dek = some (c.b64 e.wrapped_dek);
    nonce = some (c.b64 e.nonce);
    ct = some (c.b64 e.ciphertext);
    aad = optional_b64 e.aad;
  }

  -- `_unb64(d[key])`: a key that is missing or a text that is not base64.
  abbrev pub bytes_of : Option c.Text → Attempt c.Bytes
  bytes_of none = raises decryption
  bytes_of (some t) = or_raises (c.unb64 t) decryption

  abbrev pub optional_bytes : Option c.Text → Attempt (Option c.Bytes)
  optional_bytes none = returns none
  optional_bytes (some t) = or_raises (c.unb64 t) decryption and_then (λ b. returns (some b))

  abbrev pub version_of : Option ℕ → ℕ
  version_of none = 1
  version_of (some n) = n

  abbrev pub alg_of : Option String → String
  alg_of none = ""
  alg_of (some a) = a

  -- The constructor's arguments.
  abbrev pub fields_of : EnvelopeDict c.Text → Attempt Envelope
  fields_of d = or_raises d.kek_id decryption and_then λ kek_id.
      bytes_of d.wrapped_dek and_then λ wrapped_dek. bytes_of d.nonce and_then λ nonce.
      bytes_of d.ct and_then λ ciphertext. optional_bytes d.aad and_then λ aad. returns (record {
        alg = alg_of d.alg;
        kek_id = kek_id;
        wrapped_dek = wrapped_dek;
        nonce = nonce;
        ciphertext = ciphertext;
        aad = aad;
        v = version_of d.v;
      })

  -- `Envelope.from_dict`
  unfoldable pub from_dict : EnvelopeDict c.Text → Attempt Envelope
  from_dict d =
      if not (version_of d.v == 1)
      then raises decryption
      else if not (str_eq (alg_of d.alg) alg_aes_256_gcm)
      then raises decryption
      else fields_of d

  unfoldable pub to_bytes : Envelope → c.Bytes
  to_bytes e = c.dumps (to_dict e)

  unfoldable pub from_bytes : c.Bytes → Attempt Envelope
  from_bytes b = or_raises (c.loads b) decryption and_then from_dict

  -- `_bind_aad`: the extra data is appended where there is some.
  abbrev pub bind_aad : ℕ → Option c.Bytes → c.Bytes
  bind_aad firm_id none = firm_info c firm_id
  bind_aad firm_id (some extra) =
      if c.is_blank extra
      then firm_info c firm_id
      else c.concat (firm_info c firm_id) (c.concat (c.ascii "|") extra)

  -- `encrypt`, with the random data key and nonce.
  unfoldable pub encrypt :
      c.Bytes → c.Bytes → c.Bytes → ℕ → LocalKeyProvider c → Option c.Bytes → Attempt Envelope
  encrypt dek nonce plaintext firm_id p aad =
      or_raises (c.gcm_encrypt dek nonce plaintext (bind_aad firm_id aad)) value_error
      and_then λ ct. wrap_data_key c p firm_id dek and_then λ wrapped. returns (record {
        alg = alg_aes_256_gcm;
        kek_id = p.kek_id;
        wrapped_dek = wrapped;
        nonce = nonce;
        ciphertext = ct;
        aad = aad;
        v = 1;
      })

  -- `decrypt`
  unfoldable pub decrypt : Envelope → ℕ → LocalKeyProvider c → Attempt c.Bytes
  decrypt e firm_id p = masked (unwrap_data_key c p firm_id e.wrapped_dek) and_then λ dek.
      or_raises (c.gcm_decrypt dek e.nonce e.ciphertext (bind_aad firm_id e.aad)) decryption
