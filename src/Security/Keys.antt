-- ===== src/Security/Keys.antt =====
-- The keys of the firms (app/integrations/keys.py): a key-encryption key per firm, derived from a
-- master secret, and the register of destroyed ones.
use company_tax_and_accounti.Base.{
  ℕ, ltb, Bool, ◌||◌, Option, none, some, String, List, [], ◌∷◌, ◌==◌, if◌then◌else◌, any,
}
use company_tax_and_accounti.Security.Primitives.{Primitives}

-- What a call raises.
pub data Failure : Type 0 where
  key_destroyed value_error decryption not_stored permission_error : Failure

pub data Attempt {ℓ} (A : Type ℓ) : Type ℓ where
  returns : A → Attempt A
  raises : Failure → Attempt A

infixl 5 ◌and_then◌
abbrev pub ◌and_then◌ : {A B : Type 0} → Attempt A → (A → Attempt B) → Attempt B
returns a and_then f = f a
raises e and_then f = raises e

abbrev pub or_raises : {A : Type 0} → Option A → Failure → Attempt A
or_raises none e = raises e
or_raises (some a) e = returns a

module _ (c : Primitives) where
  -- `LocalKeyProvider` with `InMemoryDestroyedKeyRegistry`.
  pub record LocalKeyProvider : Type 0 where
    pub master : c.Bytes
    pub destroyed : List ℕ
    pub kek_id : String

  -- `LocalKeyProvider.__init__`
  unfoldable pub local_key_provider : c.Bytes → String → Attempt LocalKeyProvider
  local_key_provider master kek_id =
      if ltb (c.size master) 16
      then raises value_error
      else returns (record { master = master; destroyed = []; kek_id = kek_id })

  abbrev pub is_destroyed : LocalKeyProvider → ℕ → Bool
  is_destroyed p firm_id = any (λ f. f == firm_id) p.destroyed

  -- `destroy_tenant_keys`
  unfoldable pub destroy_tenant_keys : ℕ → LocalKeyProvider → LocalKeyProvider
  destroy_tenant_keys firm_id p = record p { destroyed = firm_id ∷ p.destroyed }

  abbrev pub firm_info : ℕ → c.Bytes
  firm_info firm_id = c.concat (c.ascii "firm:") (c.firm_text firm_id)

  -- `_firm_kek`
  unfoldable pub firm_kek : LocalKeyProvider → ℕ → Attempt c.Bytes
  firm_kek p firm_id =
      if is_destroyed p firm_id
      then raises key_destroyed
      else returns (c.hkdf p.master (firm_info firm_id))

  abbrev pub is_key_length : ℕ → Bool
  is_key_length n = n == 16 || (n == 24 || n == 32)

  unfoldable pub wrap_data_key : LocalKeyProvider → ℕ → c.Bytes → Attempt c.Bytes
  wrap_data_key p firm_id dek =
      if is_key_length (c.size dek)
      then firm_kek p firm_id and_then (λ kek. or_raises (c.key_wrap kek dek) value_error)
      else raises value_error

  unfoldable pub unwrap_data_key : LocalKeyProvider → ℕ → c.Bytes → Attempt c.Bytes
  unwrap_data_key p firm_id wrapped =
      firm_kek p firm_id and_then (λ kek. or_raises (c.key_unwrap kek wrapped) value_error)
