-- ===== src/Tax/Generate/Current.antt =====
-- Which worksheet of a client, period and form is current after a generation
-- (app/domain/tax_service.py).
use company_tax_and_accounti.Base.{
  ℕ, ℤ, Option, List, [], ◌∷◌, ◌++◌, ◌≡◌, ap, ◌∙◌, String, false, not, ◌&&◌, ◌==◌, any,
}
use company_tax_and_accounti.Model.{TaxFormCode, TaxWorksheet}
use company_tax_and_accounti.Session.{Session, ok}
use company_tax_and_accounti.Session.Binds.{>>=-ok}
use company_tax_and_accounti.Tax.Mapping.{Caller}
use company_tax_and_accounti.Tax.Generate.{Inputs, competes, gates, compute, generate_worksheet}
use company_tax_and_accounti.Tax.Generate.Rows.{superseded_rows, superseded_rows-others}
use company_tax_and_accounti.Tax.Generate.Stages.{compute-stages}
use company_tax_and_accounti.Tax.Generate.Gates.{gates-session}

-- After a generation that succeeds the table has the earlier rows, of which those that were
-- COMPUTED or APPROVED for the same client, period and form are SUPERSEDED, and then the new
-- worksheet; apart from it no row is COMPUTED or APPROVED for its client, period and form.
pub generate_worksheet-current :
    (numeric : ℤ → Option ℤ) (digest : List (String × ℤ) → String) (caller : Caller) (period_id : ℕ)
    (code : TaxFormCode) (new_id : ℕ) (s : Session) (ws : TaxWorksheet)
    → (generate_worksheet numeric digest caller period_id code new_id s).0 ≡ ok ws
    → let t = (generate_worksheet numeric digest caller period_id code new_id s).1 in
      (i : Inputs) × ((gates caller period_id code s).0 ≡ ok i)
      × (t.worksheets ≡ superseded_rows caller i.period.id i.form.id s ++ (ws ∷ []))
      × (any
            (λ x. not (x.id == ws.id) && competes s caller.client_id i.period.id i.form.id x)
            t.worksheets
          ≡ false)
unfolding generate_worksheet
generate_worksheet-current numeric digest caller period_id code new_id s ws h =
    let (i, h₁, k₁, e₁) =
      >>=-ok (gates caller period_id code) (compute numeric digest caller code new_id) s h in
    let same = gates-session caller period_id code s in
    let t = (gates caller period_id code s).1 in
    let rows =
      ap (λ (x : Session). x.worksheets) e₁
      ∙ (compute-stages numeric digest caller code new_id i t ws k₁).1
      ∙ ap (λ (x : Session). superseded_rows caller i.period.id i.form.id x ++ (ws ∷ [])) same in
    (
      i,
      h₁,
      rows,
      ap (any (λ x. not (x.id == ws.id) && competes s caller.client_id i.period.id i.form.id x))
            rows
          ∙ superseded_rows-others caller i.period.id i.form.id s ws,
    )
