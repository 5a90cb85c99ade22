-- ===== src/Tax/Generate/Stages.antt =====
-- The writes of `compute` in order (app/domain/tax_service.py, `generate_worksheet`).
use mathlib.Core.Path.{ap₂}
use company_tax_and_accounti.Base.{
  ℕ, ℤ, Option, List, [], ◌∷◌, ◌++◌, ◌≡◌, ap, ◌∙◌, String, map, arith,
}
use company_tax_and_accounti.Model.{TaxFormCode, TaxWorksheet}
use company_tax_and_accounti.Session.{Session, ok, ◌>>=◌, ◌>>◌, pure}
use company_tax_and_accounti.Session.Binds.{>>=-ok, >>-ok}
use company_tax_and_accounti.Tax.Mapping.{Caller}
use company_tax_and_accounti.Tax.Worksheet.{lines_of_form, contributions, figures, amount_of}
use company_tax_and_accounti.Tax.Generate.{
  Inputs, compute, new_worksheet, supersede_prior, insert_worksheet, insert_worksheet_lines,
  log_generate,
}
use company_tax_and_accounti.Tax.Generate.Rows.{
  write_audit-worksheets, superseded_rows, supersede_prior-worksheets, insert_worksheet-ok,
  insert_worksheet_lines-worksheets, new_worksheet-reads,
}

ok-injective : {x y : TaxWorksheet} → ok x ≡ ok y → x ≡ y
ok-injective {x = x} {y = y} h = ground arith

pub compute-stages :
    (numeric : ℤ → Option ℤ) (digest : List (String × ℤ) → String) (caller : Caller)
    (code : TaxFormCode) (new_id : ℕ) (i : Inputs) (s : Session) (ws : TaxWorksheet)
    → (compute numeric digest caller code new_id i s).0 ≡ ok ws
    → let ks = contributions i.activity i.mappings in
      let fls = lines_of_form s i.form.id in
      let sha = digest (map (λ fl. (fl.code, amount_of ks fl)) fls) in
      let s₁ = (supersede_prior caller code i.period.id i.form.id s).1 in
      ((new_worksheet numeric digest caller i new_id sha (figures ks fls) s₁).0 ≡ ok ws)
      × ((compute numeric digest caller code new_id i s).1.worksheets
          ≡ superseded_rows caller i.period.id i.form.id s ++ (ws ∷ []))
unfolding compute
compute-stages numeric digest caller code new_id i s ws h =
    let fls = lines_of_form s i.form.id in
    let ks = contributions i.activity i.mappings in
    let f = figures ks fls in
    let sha = digest (map (λ fl. (fl.code, amount_of ks fl)) fls) in
    let write = λ (w : TaxWorksheet).
      insert_worksheet w
      >> (insert_worksheet_lines numeric digest caller new_id ks fls
          >> (log_generate numeric digest caller code i new_id sha f >> pure w)) in
    let (h₁, k₁, e₁) =
      >>-ok (supersede_prior caller code i.period.id i.form.id)
        (new_worksheet numeric digest caller i new_id sha f >>= write) s h in
    let s₁ = (supersede_prior caller code i.period.id i.form.id s).1 in
    let (w, h₂, k₂, e₂) = >>=-ok (new_worksheet numeric digest caller i new_id sha f) write s₁ k₁ in
    let s₂ = (new_worksheet numeric digest caller i new_id sha f s₁).1 in
    let (h₃, k₃, e₃) =
      >>-ok (insert_worksheet w)
        (insert_worksheet_lines numeric digest caller new_id ks fls
          >> (log_generate numeric digest caller code i new_id sha f >> pure w))
        s₂ k₂ in
    let s₃ = (insert_worksheet w s₂).1 in
    let (h₄, k₄, e₄) =
      >>-ok (insert_worksheet_lines numeric digest caller new_id ks fls)
        (log_generate numeric digest caller code i new_id sha f >> pure w) s₃ k₃ in
    let s₄ = (insert_worksheet_lines numeric digest caller new_id ks fls s₃).1 in
    let (h₅, k₅, e₅) =
      >>-ok (log_generate numeric digest caller code i new_id sha f) (pure w) s₄ k₄ in
    let rows = λ (t : Session). t.worksheets in
    (
      h₂ ∙ k₅,
      ap rows (e₁ ∙ e₂ ∙ e₃ ∙ e₄ ∙ e₅)
          ∙ write_audit-worksheets _ _ _ _ _ _ _ s₄
          ∙ insert_worksheet_lines-worksheets numeric digest caller new_id ks fls s₃
          ∙ insert_worksheet-ok w s₂ h₃
          ∙ ap₂ (λ (x : List TaxWorksheet) (y : TaxWorksheet). x ++ (y ∷ []))
              (ap rows (new_worksheet-reads numeric digest caller i new_id sha f s₁)
                ∙ supersede_prior-worksheets caller code i.period.id i.form.id s)
              (ok-injective k₅),
    )
