-- ===== src/Security/Storage.antt =====
-- The storage of objects under keys of the tenants, in files (app/integrations/storage.py), and the
-- storage that encrypts what it is given (app/security/encrypted_storage.py).
use Prim.Native.String.{◌++◌}
use company_tax_and_accounti.Base.{
  ℕ, Bool, true, not, ◌&&◌, Option, none, some, String, ◌≡◌, if◌then◌else◌,
}
use company_tax_and_accounti.Base.Text.{is_empty}
use text.Mathlib.Text.{starts_with}
use company_tax_and_accounti.Security.Primitives.{Primitives}
use company_tax_and_accounti.Security.Keys.{
  Attempt, returns, raises, not_stored, value_error, permission_error, ◌and_then◌, or_raises,
  LocalKeyProvider,
}
use company_tax_and_accounti.Security.Envelope.{encrypt, decrypt, to_bytes, from_bytes}

pub record StoredObject : Type 0 where
  pub storage_uri : String
  pub sha256 : String
  pub size : ℕ
  pub content_type : Option String

-- What storage.py takes from `re`, `os`, `mimetypes`, `uuid`, `pathlib` and `hashlib`, with what it
-- relies on: what is written to a path is read from it, and `.bin` and lower-case forms of safe
-- extensions match the pattern.
pub record Platform (Bytes : Type 0) : Type 1 where
  pub uuid_text : ℕ → String
  pub doc_type_re : String → Bool
  pub safe_ext_re : String → Bool
  pub splitext : String → String
  pub mime_extension : String → Option String
  pub lower : String → String
  pub sha256_hex : Bytes → String
  pub size : Bytes → ℕ
  -- the files below the root, and whether a resolved path is below it
  pub Files : Type 0
  pub is_below_root : String → Bool
  pub write : String → Bytes → Files → Files
  pub read : String → Files → Option Bytes
  pub is_file : String → Files → Bool
  pub read-write : (path : String) (b : Bytes) (fs : Files) → read path (write path b fs) ≡ some b
  pub bin_is_safe : safe_ext_re ".bin" ≡ true
  pub lower_is_safe : (ext : String) → safe_ext_re ext ≡ true → safe_ext_re (lower ext) ≡ true

module _ (Bytes : Type 0) (os : Platform Bytes) where
  abbrev pub is_safe : String → Bool
  is_safe ext = not (is_empty ext) && os.safe_ext_re ext

  abbrev pub or_text : Option String → String
  or_text none = ""
  or_text (some t) = t

  -- The second test of `guess_extension`; an empty text is false.
  abbrev pub extension_of_mime : Option String → String
  extension_of_mime none = ".bin"
  extension_of_mime (some mime) =
      if is_empty mime
      then ".bin"
      else if is_safe (or_text (os.mime_extension mime))
      then os.lower (or_text (os.mime_extension mime))
      else ".bin"

  -- `guess_extension`
  abbrev pub guess_extension : Option String → Option String → String
  guess_extension none mime = extension_of_mime mime
  guess_extension (some filename) mime =
      if not (is_empty filename) && is_safe (os.splitext filename)
      then os.lower (os.splitext filename)
      else extension_of_mime mime

  abbrev pub prefix : ℕ → ℕ → String
  prefix firm_id client_id =
      "firm-" ++ os.uuid_text firm_id ++ "/client-" ++ os.uuid_text client_id ++ "/"

  -- The key that `tenant_path` gives an object.
  abbrev pub object_key : ℕ → ℕ → String → ℕ → String → String → String
  object_key firm_id client_id doc_type obj_id ext year =
      prefix firm_id client_id ++ year ++ "/" ++ doc_type ++ "/" ++ os.uuid_text obj_id ++ ext

  -- `tenant_path`, with the year of the clock.
  unfoldable pub tenant_path : ℕ → ℕ → String → ℕ → String → String → Attempt String
  tenant_path firm_id client_id doc_type obj_id ext year =
      if not (os.doc_type_re doc_type)
      then raises value_error
      else if not (os.safe_ext_re ext)
      then raises value_error
      else returns (object_key firm_id client_id doc_type obj_id ext year)

  -- `_check_prefix`
  unfoldable pub check_prefix : String → ℕ → ℕ → Attempt String
  check_prefix storage_uri firm_id client_id =
      if starts_with storage_uri (prefix firm_id client_id)
      then returns storage_uri
      else raises permission_error

  -- `_full`
  unfoldable pub full : String → Attempt String
  full storage_uri =
      if os.is_below_root storage_uri then returns storage_uri else raises permission_error

  abbrev pub stored : Bytes → Option String → String → StoredObject
  stored raw content_type uri = record {
    storage_uri = uri;
    sha256 = os.sha256_hex raw;
    size = os.size raw;
    content_type = content_type;
  }

  -- `LocalFilesystemStorage.put`, with the random id and the year.
  unfoldable pub put_file :
      ℕ
      → ℕ
      → String
      → Bytes
      → Option String
      → Option String
      → ℕ
      → String
      → os.Files
      → Attempt (StoredObject × os.Files)
  put_file firm_id client_id doc_type content filename content_type obj_id year fs =
      tenant_path firm_id client_id doc_type obj_id (guess_extension filename content_type) year
      and_then λ key. full key and_then λ path.
          returns (stored content content_type key, os.write path content fs)

  -- `LocalFilesystemStorage.get`
  unfoldable pub get_file : ℕ → ℕ → String → os.Files → Attempt Bytes
  get_file firm_id client_id storage_uri fs =
      check_prefix storage_uri firm_id client_id and_then full and_then λ path.
      or_raises (os.read path fs) not_stored

  -- `LocalFilesystemStorage.exists`
  unfoldable pub file_exists : ℕ → ℕ → String → os.Files → Attempt Bool
  file_exists firm_id client_id storage_uri fs =
      check_prefix storage_uri firm_id client_id and_then full and_then λ path.
      returns (os.is_file path fs)

module _ (c : Primitives) (os : Platform c.Bytes) where
  -- `EncryptedStorage.put` over the file storage.
  unfoldable pub put :
      LocalKeyProvider c
      → c.Bytes
      → c.Bytes
      → ℕ
      → ℕ
      → String
      → c.Bytes
      → Option String
      → ℕ
      → String
      → os.Files
      → Attempt (StoredObject × os.Files)
  put p dek nonce firm_id client_id doc_type content content_type obj_id year fs =
      encrypt c dek nonce content firm_id p none and_then λ e.
      put_file c.Bytes os firm_id client_id doc_type (to_bytes c e) none
        (some "application/octet-stream") obj_id year fs
      and_then λ r. returns (stored c.Bytes os (to_bytes c e) content_type r.0.storage_uri, r.1)

  -- `EncryptedStorage.get`
  unfoldable pub get : LocalKeyProvider c → ℕ → ℕ → String → os.Files → Attempt c.Bytes
  get p firm_id client_id storage_uri fs =
      get_file c.Bytes os firm_id client_id storage_uri fs and_then λ raw.
      from_bytes c raw and_then λ e. decrypt c e firm_id p

  -- `EncryptedStorage.exists`
  unfoldable pub exists : ℕ → ℕ → String → os.Files → Attempt Bool
  exists firm_id client_id storage_uri fs = file_exists c.Bytes os firm_id client_id storage_uri fs
