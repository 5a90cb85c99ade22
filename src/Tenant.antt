-- ===== src/Tenant.antt =====
-- Tenant isolation: the context of a request (app/db/tenant.py), the settings that a transaction
-- carries (app/db/session.py) and the row-level policy (migrations/versions/0001_initial.py).
use company_tax_and_accounti.Base.{
  ℕ, Bool, true, false, ◌&&◌, ◌||◌, Option, none, some, ◌==◌, if◌then◌else◌,
}
use company_tax_and_accounti.Model.{AccessScope, is_firm}
pub mod Isolation

pub record TenantContext : Type 0 where
  pub firm_id : ℕ
  pub scope : AccessScope
  pub client_id : Option ℕ

-- `__post_init__`: a portal user's context names its client; `none` is the ValueError.
unfoldable pub tenant_context : ℕ → AccessScope → Option ℕ → Option TenantContext
tenant_context f AccessScope.client none = none
tenant_context f sc c = some (record { firm_id = f; scope = sc; client_id = c })

-- The three transaction-local settings; `none` is NULL, a setting that is unset or empty.
pub record Guc : Type 0 where
  pub current_firm : Option ℕ
  pub current_client : Option ℕ
  pub access_scope : Option AccessScope

-- The `set_config` calls of `tenant_session`.
unfoldable pub set_local : TenantContext → Guc
set_local ctx = record {
  current_firm = some ctx.firm_id;
  current_client = ctx.client_id;
  access_scope = some ctx.scope;
}

-- `column = NULL` does not hold.
abbrev pub sql_eq : ℕ → Option ℕ → Bool
sql_eq x none = false
sql_eq x (some y) = x == y

abbrev pub scope_allows : Option AccessScope → Option ℕ → ℕ → Bool
scope_allows none client row = false
scope_allows (some AccessScope.firm) none row = true
scope_allows (some AccessScope.firm) (some c) row = row == c
scope_allows (some AccessScope.client) client row = sql_eq row client

-- The predicate of `p_isolation` on a row with `firm_id` and `client_id`, both for reading
-- (USING) and for writing (WITH CHECK).
unfoldable pub visible : Guc → ℕ → ℕ → Bool
visible g firm_id client_id =
    sql_eq firm_id g.current_firm && scope_allows g.access_scope g.current_client client_id
