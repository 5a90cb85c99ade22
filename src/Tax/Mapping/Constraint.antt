-- ===== src/Tax/Mapping/Constraint.antt =====
-- What the key of the mapping table blocks (app/domain/tax_service.py and the constraint in
-- app/models/accounting.py).
use mathlib.Core.Path.{subst}
use company_tax_and_accounti.Base.{
  ℕ, Bool, true, false, ◌&&◌, List, [], ◌∷◌, Option, some, String, ◌≡◌, ◌∙◌, sym, ap, any, find,
  update_if, refl, arith, ◌==◌, ==-refl, Bool-cases, inl, inr,
}
use company_tax_and_accounti.Model.{
  TaxAccountMapping, TaxMappingStatus, AuditAction, reason_details,
}
use company_tax_and_accounti.Tenant.{visible}
use company_tax_and_accounti.Session.{Session, ok, ◌>>◌, pure}
use company_tax_and_accounti.Session.Binds.{>>=-ok, >>-ok, write_audit-ok}
use company_tax_and_accounti.Tax.Mapping.{
  Caller, conflicts, review_row, reviewable, reject_mapping, reject_found, log_reject, reviewed,
}
use company_tax_and_accounti.Tax.Mapping.Review.{review_row-ok, reviewable-ok}

-- A row that was found and updated passes a test that its new form passes.
any-updated :
    (q p : TaxAccountMapping → Bool) (f : TaxAccountMapping → TaxAccountMapping)
    (m : TaxAccountMapping) (rows : List TaxAccountMapping)
    → find q rows ≡ some m
    → p (f m) ≡ true
    → any p (update_if (λ x. x.id == m.id) f rows) ≡ true
any-updated q p f m [] h k = absurd (cc)
any-updated q p f m (x ∷ rows) h k = elim (Bool-cases (q x)) [
  | inl passes ↦
      let same : m ≡ x = ground arith in
      let self : x.id == m.id ≡ true = subst (λ y. x.id == y.id ≡ true) (sym same) (==-refl x.id) in
      let is : p (f x) ≡ true = subst (λ y. p (f y) ≡ true) same k in rw (self, is) refl
  | inr fails ↦ let ih = any-updated q p f m rows (ground arith) k in rw ih (ground arith)
]

-- A rejection that succeeds: the row, which was found, and the table after.
reject_mapping-ok :
    (caller : Caller) (id : ℕ) (reason : Option String) (now : ℕ) (s : Session)
    (r : TaxAccountMapping)
    → (reject_mapping caller id reason now s).0 ≡ ok r
    → (m : TaxAccountMapping) × (find
          (λ x. x.id == id && visible s.guc x.firm_id x.client_id)
          s.mappings
        ≡ some m)
      × (reviewed TaxMappingStatus.rejected caller.actor now m ≡ r)
      × (any (conflicts TaxMappingStatus.rejected m) s.mappings ≡ false)
      × ((reject_mapping caller id reason now s).1.mappings
          ≡ update_if
              (λ x. x.id == m.id)
              (reviewed TaxMappingStatus.rejected caller.actor now)
              s.mappings)
unfolding reject_mapping
reject_mapping-ok caller id reason now s r h =
    let (m, h₁, k₁, e₁) = >>=-ok (reviewable caller id) (reject_found caller reason now) s h in
    let (found, _, _, _, same) = reviewable-ok caller id s m h₁ in
    let row = reviewed TaxMappingStatus.rejected caller.actor now m in
    let s₁ = (reviewable caller id s).1 in
    let review = review_row TaxMappingStatus.rejected caller.actor now m in
    let (h₂, k₂, e₂) = >>-ok review (log_reject caller reason m >> pure row) s₁ k₁ in
    let (clear, i₂) = review_row-ok TaxMappingStatus.rejected caller.actor now m s₁ h₂ in
    let (h₃, k₃, e₃) = >>-ok (log_reject caller reason m) (pure row) (review s₁).1 k₂ in
    let (_, i₃) =
      write_audit-ok caller.firm_id caller.client_id caller.actor AuditAction.tax_map_reject
        "tax_account_mapping" (some m.id) (reason_details reason) (review s₁).1 h₃ in
    (
      m,
      found,
      ground arith,
      ap (λ (t : Session). any (conflicts TaxMappingStatus.rejected m) t.mappings) (sym same)
          ∙ clear,
      ap (λ (t : Session). t.mappings) (e₁ ∙ e₂ ∙ e₃ ∙ i₃)
          ∙ ap (λ (t : Session). t.mappings) i₂
          ∙ ap
              (λ (t : Session).
                update_if (λ x. x.id == m.id) (reviewed TaxMappingStatus.rejected caller.actor now)
                  t.mappings)
              same,
    )

-- After a rejection that succeeded, no other mapping of the same client, form and account can be
-- rejected any more, by any caller, for any reason.
pub reject_mapping-once :
    (caller other : Caller) (id id' : ℕ) (reason reason' : Option String) (now now' : ℕ)
    (s : Session) (r m : TaxAccountMapping)
    → (reject_mapping caller id reason now s).0 ≡ ok r
    → find
        (λ x.
          x.id == id'
          && visible (reject_mapping caller id reason now s).1.guc x.firm_id x.client_id)
        (reject_mapping caller id reason now s).1.mappings
      ≡ some m
    → r.id == m.id ≡ false
    → r.client_id ≡ m.client_id
    → r.form_id ≡ m.form_id
    → r.account_id ≡ m.account_id
    → (r' : TaxAccountMapping)
    → ¬ (
        (reject_mapping other id' reason' now' (reject_mapping caller id reason now s).1).0 ≡ ok r')
reject_mapping-once caller other id id' reason reason' now now' s r m h found apart c f a r' again =
    let (d, found_d, is, _, table) = reject_mapping-ok caller id reason now s r h in
    let t = (reject_mapping caller id reason now s).1 in
    let (m', found_m, _, clear, _) = reject_mapping-ok other id' reason' now' t r' again in
    let same : m ≡ m' = ground arith in
    let passes : conflicts TaxMappingStatus.rejected m
          (reviewed TaxMappingStatus.rejected caller.actor now d)
        ≡ true =
      rw (is, apart, c, f, a, ==-refl m.client_id, ==-refl m.form_id, ==-refl m.account_id) refl in
    let blocked : any (conflicts TaxMappingStatus.rejected m) t.mappings ≡ true = rw table (
      any-updated _ (conflicts TaxMappingStatus.rejected m)
        (reviewed TaxMappingStatus.rejected caller.actor now) d s.mappings found_d passes) in
    let free : any (conflicts TaxMappingStatus.rejected m) t.mappings ≡ false = rw same clear in
    absurd (cc)
