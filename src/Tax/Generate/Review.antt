-- ===== src/Tax/Generate/Review.antt =====
-- The review of worksheets (app/domain/tax_service.py).
use company_tax_and_accounti.Base.{
  ℕ, true, false, ◌&&◌, Option, some, ◌≡◌, ◌==◌, find, arith, update_if, Option-cases, inl, inr,
  String,
}
use company_tax_and_accounti.Model.{
  TaxWorksheet, TaxWorksheetStatus, AuditAction, is_firm, is_computed,
}
use company_tax_and_accounti.Tenant.{visible}
use company_tax_and_accounti.Session.{Session, ok, write_audit}
use company_tax_and_accounti.Tax.Mapping.{Caller}
use company_tax_and_accounti.Tax.Generate.{reviewable_worksheet, sign_off, signed_off}

-- A review of a worksheet that is not COMPUTED, or of none, is refused and writes nothing.
pub sign_off_refused :
    (st : TaxWorksheetStatus) (action : AuditAction) (reason : Option String) (caller : Caller)
    (id now : ℕ) (s : Session)
    → ((w : TaxWorksheet)
        → find (λ w. w.id == id && visible s.guc w.firm_id w.client_id) s.worksheets ≡ some w
        → is_computed w.status ≡ false)
    → (sign_off st action reason caller id now s).1 ≡ s
unfolding sign_off reviewable_worksheet
sign_off_refused st action reason caller id now s h =
    elim (Option-cases
      (find (λ w. w.id == id && visible s.guc w.firm_id w.client_id) s.worksheets)) [
        | inl missing ↦ ground arith
        | inr (w, found) ↦ let no = h w found in ground arith
      ]

-- A review that succeeds: the reviewer is of the firm scope and the tenant is the worksheet's, the
-- worksheet was COMPUTED, and the row gets the new status, the reviewer and the time; no other row
-- changes.
pub sign_off-ok :
    (st : TaxWorksheetStatus) (action : AuditAction) (reason : Option String) (caller : Caller)
    (id now : ℕ) (s : Session) (r : TaxWorksheet)
    → (sign_off st action reason caller id now s).0 ≡ ok r
    → (w : TaxWorksheet) × (find
          (λ w. w.id == id && visible s.guc w.firm_id w.client_id)
          s.worksheets
        ≡ some w)
      × (is_firm caller.scope ≡ true)
      × (w.firm_id ≡ caller.firm_id)
      × (w.client_id ≡ caller.client_id)
      × (is_computed w.status ≡ true)
      × (r ≡ signed_off st caller.actor now w)
      × ((sign_off st action reason caller id now s).1.worksheets
          ≡ update_if (λ x. x.id == id) (signed_off st caller.actor now) s.worksheets)
unfolding sign_off reviewable_worksheet write_audit
sign_off-ok st action reason caller id now s r h =
    elim (Option-cases
      (find (λ w. w.id == id && visible s.guc w.firm_id w.client_id) s.worksheets)) [
        | inl missing ↦ absurd (ground arith)
        | inr (w, found) ↦ (
          w,
          found,
          ground arith,
          ground arith,
          ground arith,
          ground arith,
          ground arith,
          ground arith,
        )
      ]
