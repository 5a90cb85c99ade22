-- ===== src/Tax/Generate/Rows.antt =====
-- What the writes of `generate_worksheet` (app/domain/tax_service.py) do to the table of
-- worksheets.
use company_tax_and_accounti.Base.{
  ℕ, ℤ, Bool, false, not, ◌&&◌, Option, Option-cases, List, [], ◌∷◌, ◌++◌, ◌≡◌, refl, ◌==◌, inl,
  inr, String, arith, any, update_if,
}
use company_tax_and_accounti.Model.{
  TaxFormCode, TaxFormLine, TaxWorksheet, TaxWorksheetStatus, AuditAction, AuditDetails,
}
use company_tax_and_accounti.Session.{Session, ok, write_audit}
use company_tax_and_accounti.Tax.Mapping.{Caller}
use company_tax_and_accounti.Tax.Worksheet.{Contribution, amount_of, Figures}
use company_tax_and_accounti.Tax.Generate.{
  competes, set_worksheet_status, supersede_prior, log_supersede, insert_worksheet,
  insert_worksheet_lines, new_worksheet, Inputs,
}

pub write_audit-worksheets :
    (f c : ℕ) (actor : String) (act : AuditAction) (ty : String) (id : Option ℕ)
    (details : AuditDetails) (s : Session)
    → (write_audit f c actor act ty id details s).1.worksheets ≡ s.worksheets
unfolding write_audit
write_audit-worksheets f c actor act ty id details s = ground arith

-- The rows after the supersession.
abbrev pub superseded_rows : Caller → ℕ → ℕ → Session → List TaxWorksheet
superseded_rows caller period_id form_id s =
    update_if (competes s caller.client_id period_id form_id)
      (set_worksheet_status TaxWorksheetStatus.superseded) s.worksheets

log_supersede-worksheets :
    (caller : Caller) (code : TaxFormCode) (period_id : ℕ) (prior : List TaxWorksheet) (s : Session)
    → (log_supersede caller code period_id prior s).1.worksheets ≡ s.worksheets
unfolding log_supersede
log_supersede-worksheets caller code period_id [] s = refl
log_supersede-worksheets caller code period_id (w ∷ rest) s = write_audit-worksheets _ _ _ _ _ _ _ s

pub supersede_prior-worksheets :
    (caller : Caller) (code : TaxFormCode) (period_id form_id : ℕ) (s : Session)
    → (supersede_prior caller code period_id form_id s).1.worksheets
      ≡ superseded_rows caller period_id form_id s
unfolding supersede_prior
supersede_prior-worksheets caller code period_id form_id s =
    log_supersede-worksheets caller code period_id _ _

pub insert_worksheet-ok :
    (w : TaxWorksheet) (s : Session)
    → (insert_worksheet w s).0 ≡ ok tt
    → (insert_worksheet w s).1.worksheets ≡ s.worksheets ++ (w ∷ [])
unfolding insert_worksheet
insert_worksheet-ok w s h = ground arith

pub insert_worksheet_lines-worksheets :
    (numeric : ℤ → Option ℤ) (digest : List (String × ℤ) → String) (caller : Caller) (id : ℕ)
    (ks : List Contribution) (fls : List TaxFormLine) (s : Session)
    → (insert_worksheet_lines numeric digest caller id ks fls s).1.worksheets ≡ s.worksheets
unfolding insert_worksheet_lines
insert_worksheet_lines-worksheets numeric digest caller id ks [] s = refl
insert_worksheet_lines-worksheets numeric digest caller id ks (fl ∷ rest) s =
    elim (Option-cases (numeric (amount_of ks fl))) [
      | inl bad ↦ rw bad refl
      | inr (amount, e) ↦
          rw e (insert_worksheet_lines-worksheets numeric digest caller id ks rest _)
    ]

-- A row that competed and was superseded competes no more.
any-superseded :
    (s : Session) (client_id period_id form_id : ℕ) (rows : List TaxWorksheet)
    → any (competes s client_id period_id form_id) (
        update_if
          (competes s client_id period_id form_id)
          (set_worksheet_status TaxWorksheetStatus.superseded)
          rows)
      ≡ false
any-superseded s client_id period_id form_id [] = refl
any-superseded s client_id period_id form_id (w ∷ rows) =
    ground (arith, any-superseded s client_id period_id form_id rows)

-- Among rows of which none competes and a new one, no other row competes.
pub any-others :
    (p : TaxWorksheet → Bool) (rows : List TaxWorksheet) (w : TaxWorksheet)
    → any p rows ≡ false
    → any (λ x. not (x.id == w.id) && p x) (rows ++ (w ∷ [])) ≡ false
any-others p [] w h = ground arith
any-others p (x ∷ rows) w h = let rest = any-others p rows w (ground arith) in ground arith

pub superseded_rows-others :
    (caller : Caller) (period_id form_id : ℕ) (s : Session) (w : TaxWorksheet)
    → any
        (λ x. not (x.id == w.id) && competes s caller.client_id period_id form_id x)
        (superseded_rows caller period_id form_id s ++ (w ∷ []))
      ≡ false
superseded_rows-others caller period_id form_id s w =
    any-others (competes s caller.client_id period_id form_id)
      (superseded_rows caller period_id form_id s) w
      (any-superseded s caller.client_id period_id form_id s.worksheets)

pub new_worksheet-reads :
    (numeric : ℤ → Option ℤ) (digest : List (String × ℤ) → String) (caller : Caller) (i : Inputs)
    (new_id : ℕ) (sha : String) (f : Figures) (s : Session)
    → (new_worksheet numeric digest caller i new_id sha f s).1 ≡ s
unfolding new_worksheet
new_worksheet-reads numeric digest caller i new_id sha f s = ground arith
