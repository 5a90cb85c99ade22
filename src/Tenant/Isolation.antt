-- ===== src/Tenant/Isolation.antt =====
-- What the row-level policy lets a request see.
use company_tax_and_accounti.Base.{ℕ, ◌≡◌, ◌↔◌, ◌⊎◌, true, Option, none, some, arith}
use company_tax_and_accounti.Model.{AccessScope}
use company_tax_and_accounti.Tenant.{TenantContext, tenant_context, set_local, visible}

-- A request whose context passes the constructor's check sees exactly the rows of its firm that,
-- if the context names a client (as a portal user's always does), belong to that client.
pub visible_iff :
    (f : ℕ) (sc : AccessScope) (c : Option ℕ) {ctx : TenantContext} (rf rc : ℕ)
    → tenant_context f sc c ≡ some ctx
    → (visible (set_local ctx) rf rc ≡ true) ↔ ((rf ≡ f) × ((c ≡ none) ⊎ (c ≡ some rc)))
unfolding visible set_local tenant_context
visible_iff f AccessScope.firm none rf rc h = (λ k. ground arith, λ k. ground arith)
visible_iff f AccessScope.firm (some k) rf rc h = (λ k. ground arith, λ k. ground arith)
visible_iff f AccessScope.client none rf rc h = (λ k. ground arith, λ k. ground arith)
visible_iff f AccessScope.client (some k) rf rc h = (λ k. ground arith, λ k. ground arith)
