-- ===== src/Tests/Security.antt =====
-- Encrypted storage over primitives that hide nothing: they show that the laws can hold.
use company_tax_and_accounti.Base.{
  true, ℕ, false, if◌then◌else◌, arith, Option, none, some, String, [], ◌∷◌, ◌≡◌, refl,
}
use text.Mathlib.Text.{◌==◌ as str_eq}
use company_tax_and_accounti.Security.Primitives.{EnvelopeDict, Primitives}
use company_tax_and_accounti.Security.Keys.{
  returns, raises, decryption, value_error, firm_kek, wrap_data_key, LocalKeyProvider,
  destroy_tenant_keys,
}
use company_tax_and_accounti.Security.Envelope.{Envelope, alg_aes_256_gcm, encrypt, decrypt}
use company_tax_and_accounti.Security.Storage.{
  Platform, StoredObject, tenant_path, put_file, put, get,
}
use company_tax_and_accounti.Security.RoundTrip.{put-get, destroy_tenant_keys-decrypt}

data Blob : Type 0 where
  named : String → Blob
  joined : Blob → Blob → Blob
  missing : Blob
  given : Blob → Blob
  packed : Option ℕ → Option String → Option String → Blob → Blob → Blob → Blob → Blob

abbrev pack : Option Blob → Blob
pack none = missing
pack (some b) = given b

abbrev unpack : Blob → Option Blob
unpack (given b) = some b
unpack _ = none

unpack-pack : (o : Option Blob) → unpack (pack o) ≡ o
unpack-pack none = refl
unpack-pack (some b) = refl

abbrev dumps : EnvelopeDict Blob → Blob
dumps d = packed d.v d.alg d.kek_id (pack d.wrapped_dek) (pack d.nonce) (pack d.ct) (pack d.aad)

abbrev loads : Blob → Option (EnvelopeDict Blob)
loads (packed v alg kek_id wrapped_dek nonce ct aad) = some (record {
  v = v;
  alg = alg;
  kek_id = kek_id;
  wrapped_dek = unpack wrapped_dek;
  nonce = unpack nonce;
  ct = unpack ct;
  aad = unpack aad;
})
loads _ = none

loads-dumps : (d : EnvelopeDict Blob) → loads (dumps d) ≡ some d
loads-dumps d =
    simp (unpack-pack d.wrapped_dek, unpack-pack d.nonce, unpack-pack d.ct, unpack-pack d.aad) refl

abbrev size : Blob → ℕ
size (named t) = if str_eq t "nonce" then 12 else 32
size _ = 32

abbrev plain_primitives : Primitives
plain_primitives = record {
  Bytes = Blob;
  size = size;
  is_blank = λ b. false;
  concat = joined;
  ascii = named;
  firm_text = λ n. named "firm";
  hkdf = joined;
  key_wrap = λ kek dek. some dek;
  key_unwrap = λ kek wrapped. some wrapped;
  gcm_encrypt = λ key nonce content aad. some content;
  gcm_decrypt = λ key nonce ct aad. some ct;
  Text = Blob;
  b64 = λ b. b;
  unb64 = λ t. some t;
  dumps = dumps;
  loads = loads;
  hkdf-size = λ secret info. refl;
  unwrap-wrap = λ kek dek h k. (dek, refl, refl);
  decrypt-encrypt = λ key nonce content aad h k l m. (content, refl, refl);
  unb64-b64 = λ b. refl;
  loads-dumps = loads-dumps;
}

-- One file, on which extensions stay as they are.
abbrev one_file : Platform Blob
one_file = record {
  uuid_text = λ id. "1";
  doc_type_re = λ t. str_eq t "invoice";
  safe_ext_re = λ ext. true;
  splitext = λ name. "";
  mime_extension = λ mime. some ".bin";
  lower = λ t. t;
  sha256_hex = λ b. "";
  size = size;
  Files = Blob;
  is_below_root = λ path. true;
  write = λ path b fs. b;
  read = λ path fs. some fs;
  is_file = λ path fs. true;
  read-write = λ path b fs. refl;
  bin_is_safe = refl;
  lower_is_safe = λ ext h. refl;
}

abbrev provider : LocalKeyProvider plain_primitives
provider = record { master = named "secret"; destroyed = 2 ∷ []; kek_id = "local:hkdf:v1" }

put-get_example :
    (o : StoredObject) × (fs : Blob) × (put plain_primitives one_file provider
        (named "dek")
        (named "nonce")
        1
        1
        "invoice"
        (named "content")
        none
        4
        "2025"
        missing
      ≡ returns (o, fs))
    × (get plain_primitives one_file provider 1 1 o.storage_uri fs ≡ returns (named "content"))
put-get_example =
    put-get plain_primitives one_file provider (named "dek") (named "nonce") 1 1 "invoice"
      (named "content") none 4 "2025" missing refl refl refl (omega arith) (omega arith) refl refl

-- The document type has to be a slug.
refuses_other_types :
    put plain_primitives one_file provider
      (named "dek")
      (named "nonce")
      1
      1
      "Bank invoice"
      (named "content")
      none
      4
      "2025"
      missing
    ≡ raises value_error
unfolding put put_file tenant_path encrypt wrap_data_key firm_kek
refuses_other_types = refl

abbrev envelope : Envelope plain_primitives
envelope = record {
  alg = alg_aes_256_gcm;
  kek_id = "local:hkdf:v1";
  wrapped_dek = named "dek";
  nonce = named "nonce";
  ciphertext = named "content";
  aad = none;
  v = 1;
}

destroy_tenant_keys-decrypt_example :
    (decrypt plain_primitives envelope 1 (destroy_tenant_keys plain_primitives 1 provider)
      ≡ raises decryption)
    × (decrypt plain_primitives envelope 3 (destroy_tenant_keys plain_primitives 1 provider)
        ≡ decrypt plain_primitives envelope 3 provider)
destroy_tenant_keys-decrypt_example =
    destroy_tenant_keys-decrypt plain_primitives provider envelope 1 3 refl
