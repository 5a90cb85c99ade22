-- ===== src/Security/RoundTrip.antt =====
-- What is stored encrypted is read back, and is lost with the firm's key (app/security).
use company_tax_and_accounti.Base.{
  ℕ, true, false, Bool-cases, inl, inr, arith, ◌<◌, Option, none, some, String, ◌==◌, ◌≡◌, refl,
  ==-refl,
}
use company_tax_and_accounti.Security.Primitives.{Primitives}
use company_tax_and_accounti.Security.Keys.{
  returns, raises, decryption, LocalKeyProvider, is_destroyed, destroy_tenant_keys, firm_kek,
  firm_info, wrap_data_key, unwrap_data_key,
}
use company_tax_and_accounti.Security.Envelope.{
  Envelope, alg_aes_256_gcm, to_dict, from_dict, optional_b64, optional_bytes, to_bytes, from_bytes,
  bind_aad, encrypt, decrypt,
}
use company_tax_and_accounti.Security.Storage.{
  StoredObject, Platform, is_safe, or_text, extension_of_mime, prefix, object_key, tenant_path,
  check_prefix, full, stored, put_file, get_file, put, get,
}
use company_tax_and_accounti.Base.Text.{is_empty}
use text.Mathlib.Text.{starts_with}
use text.Mathlib.TextPositions.{starts_with-append}

module _ (c : Primitives) where
  optional_bytes-b64 : (o : Option c.Bytes) → optional_bytes c (optional_b64 c o) ≡ returns o
  optional_bytes-b64 none = refl
  optional_bytes-b64 (some b) = rw (c.unb64-b64 b) refl

  firm_kek-live :
      (p : LocalKeyProvider c) (f : ℕ)
      → is_destroyed c p f ≡ false
      → firm_kek c p f ≡ returns (c.hkdf p.master (firm_info c f))
  unfolding firm_kek
  firm_kek-live p f live = rw live refl

  -- The envelope of a wrapped key and a ciphertext.
  sealed : c.Bytes → c.Bytes → c.Bytes → LocalKeyProvider c → Option c.Bytes → Envelope c
  sealed wrapped nonce ct p aad = record {
    alg = alg_aes_256_gcm;
    kek_id = p.kek_id;
    wrapped_dek = wrapped;
    nonce = nonce;
    ciphertext = ct;
    aad = aad;
    v = 1;
  }

  -- An envelope survives its serialisation.
  from_bytes-to_bytes :
      (wrapped nonce ct : c.Bytes) (p : LocalKeyProvider c) (aad : Option c.Bytes)
      → from_bytes c (to_bytes c (sealed wrapped nonce ct p aad))
        ≡ returns (sealed wrapped nonce ct p aad)
  unfolding from_bytes to_bytes from_dict to_dict sealed
  from_bytes-to_bytes wrapped nonce ct p aad =
      let e = sealed wrapped nonce ct p aad in
      rw
        (
          c.loads-dumps (to_dict c e),
          c.unb64-b64 wrapped,
          c.unb64-b64 nonce,
          c.unb64-b64 ct,
          optional_bytes-b64 aad,
        )
        refl

  -- With lengths that the primitives take, encryption succeeds, and its envelope is decrypted.
  encrypt-decrypt :
      (p : LocalKeyProvider c) (dek nonce plaintext : c.Bytes) (f : ℕ) (aad : Option c.Bytes)
      → is_destroyed c p f ≡ false
      → c.size dek ≡ 32
      → c.size nonce ≡ 12
      → c.size plaintext < 2147483648
      → c.size (bind_aad c f aad) < 2147483648
      → (wrapped : c.Bytes) × (ct : c.Bytes) × (encrypt c dek nonce plaintext f p aad
          ≡ returns (sealed wrapped nonce ct p aad))
        × (decrypt c (sealed wrapped nonce ct p aad) f p ≡ returns plaintext)
  unfolding encrypt wrap_data_key decrypt unwrap_data_key sealed
  encrypt-decrypt p dek nonce plaintext f aad live dek_size nonce_size short short_aad =
      let kek = c.hkdf p.master (firm_info c f) in
      let (wrapped, wraps, unwraps) =
        c.unwrap-wrap kek dek (c.hkdf-size p.master (firm_info c f)) dek_size in
      let (ct, encrypts, decrypts) =
        c.decrypt-encrypt dek nonce plaintext (bind_aad c f aad) dek_size nonce_size short
          short_aad in
      (
        wrapped,
        ct,
        rw (encrypts, dek_size, firm_kek-live p f live, wraps) refl,
        rw (firm_kek-live p f live, unwraps, decrypts) refl,
      )

  module _ (os : Platform c.Bytes) where
    extension_is_safe :
        (mime : Option String) → os.safe_ext_re (extension_of_mime c.Bytes os mime) ≡ true
    extension_is_safe none = os.bin_is_safe
    extension_is_safe (some mime) = elim (Bool-cases (is_empty mime)) [
      | inl blank ↦ rw blank os.bin_is_safe
      | inr given ↦
          elim (Bool-cases (is_safe c.Bytes os (or_text c.Bytes os (os.mime_extension mime)))) [
            | inl safe ↦ rw (given, safe) (os.lower_is_safe _ (ground arith))
            | inr other ↦ rw (given, other) os.bin_is_safe
          ]
    ]

    -- An object that is put under a key below the root is got from it.
    put_file-get_file :
        (firm_id client_id : ℕ) (doc_type : String) (content : c.Bytes)
        (content_type : Option String) (obj_id : ℕ) (year : String) (fs : os.Files)
        → os.doc_type_re doc_type ≡ true
        → os.is_below_root (
            object_key c.Bytes os firm_id client_id doc_type obj_id
              (extension_of_mime c.Bytes os content_type)
              year)
          ≡ true
        → let key =
            object_key c.Bytes os firm_id client_id doc_type obj_id
              (extension_of_mime c.Bytes os content_type)
              year in
          (put_file c.Bytes os firm_id client_id doc_type content none content_type obj_id year fs
            ≡ returns (stored c.Bytes os content content_type key, os.write key content fs))
          × (get_file c.Bytes os firm_id client_id key (os.write key content fs) ≡ returns content)
    unfolding put_file get_file tenant_path check_prefix full
    put_file-get_file firm_id client_id doc_type content content_type obj_id year fs slug below =
        let ext = extension_of_mime c.Bytes os content_type in
        let key = object_key c.Bytes os firm_id client_id doc_type obj_id ext year in
        let starts : starts_with key (prefix c.Bytes os firm_id client_id) ≡ true =
          starts_with-append (prefix c.Bytes os firm_id client_id) _ in
        (
          rw (slug, extension_is_safe content_type, below) refl,
          rw (starts, below, os.read-write key content fs) refl,
        )

  -- With a data key of 32 bytes, a nonce of 12, content and the firm's text shorter than 2 GB, a
  -- firm whose key is not destroyed, a document type that is a slug, and a key below the root,
  -- storing data encrypted succeeds, and what is read back from its uri, for the same firm and
  -- client, is the data.
  pub put-get :
      (os : Platform c.Bytes) (p : LocalKeyProvider c) (dek nonce : c.Bytes) (firm_id client_id : ℕ)
      (doc_type : String) (content : c.Bytes) (content_type : Option String) (obj_id : ℕ)
      (year : String) (fs : os.Files)
      → is_destroyed c p firm_id ≡ false
      → c.size dek ≡ 32
      → c.size nonce ≡ 12
      → c.size content < 2147483648
      → c.size (firm_info c firm_id) < 2147483648
      → os.doc_type_re doc_type ≡ true
      → os.is_below_root (
          object_key c.Bytes os firm_id client_id doc_type obj_id
            (extension_of_mime c.Bytes os (some "application/octet-stream"))
            year)
        ≡ true
      → (o : StoredObject) × (fs' : os.Files) × (put c os p dek nonce firm_id client_id doc_type
            content content_type obj_id year fs
          ≡ returns (o, fs'))
        × (get c os p firm_id client_id o.storage_uri fs' ≡ returns content)
  unfolding put get
  put-get os p dek nonce firm_id client_id doc_type content content_type obj_id year fs live
        dek_size nonce_size short short_info slug below =
      let (wrapped, ct, encrypts, decrypts) =
        encrypt-decrypt p dek nonce content firm_id none live dek_size nonce_size short
          short_info in
      let raw = to_bytes c (sealed wrapped nonce ct p none) in
      let mime = some "application/octet-stream" in
      let ext = extension_of_mime c.Bytes os mime in
      let key = object_key c.Bytes os firm_id client_id doc_type obj_id ext year in
      let (puts, gets) =
        put_file-get_file os firm_id client_id doc_type raw mime obj_id year fs slug below in
      (
        stored c.Bytes os raw content_type key,
        os.write key raw fs,
        rw (encrypts, puts) refl,
        rw (gets, from_bytes-to_bytes wrapped nonce ct p none) decrypts,
      )

  -- When a firm's key is destroyed nothing of it is decrypted any more, whatever the envelope, and
  -- for any other firm nothing changes.
  pub destroy_tenant_keys-decrypt :
      (p : LocalKeyProvider c) (e : Envelope c) (firm_id other : ℕ)
      → (firm_id == other) ≡ false
      → (decrypt c e firm_id (destroy_tenant_keys c firm_id p) ≡ raises decryption)
        × (decrypt c e other (destroy_tenant_keys c firm_id p) ≡ decrypt c e other p)
  unfolding decrypt unwrap_data_key firm_kek destroy_tenant_keys
  destroy_tenant_keys-decrypt p e firm_id other apart = (rw (==-refl firm_id) refl, rw apart refl)
