-- ===== src/Tax/Bulk.antt =====
-- The operations on all the mappings of a form (app/domain/tax_service.py):
-- `auto_propose_for_form`, `approve_all_drafts_for_form` and `auto_fill_worksheet`. The identifiers
-- of the new rows are given by the account that each is for.
use company_tax_and_accounti.Base.{
  ℕ, ℤ, Bool, true, false, not, ◌&&◌, ◌||◌, Option, none, some, List, [], ◌∷◌, String, ◌==◌, find,
  select,
}
use company_tax_and_accounti.Model.{
  ChartOfAccounts, TaxAccountMapping, TaxFormCode, TaxMappingStatus, TaxWorksheet, is_firm,
  same_mapping_status,
}
use company_tax_and_accounti.Session.{
  Session, Action, ok, err, ◌>>=◌, ◌>>◌, pure, raise_if, gets, tax_forbidden,
}
use company_tax_and_accounti.Statements.{accounts_of}
use company_tax_and_accounti.Tax.Mapping.{
  Caller, MappingProposal, get_form_by_code, shown, propose_mapping, approve_mapping,
}
use company_tax_and_accounti.Tax.Worksheet.{by_account}
use company_tax_and_accounti.Tax.Generate.{generate_worksheet}
use company_tax_and_accounti.Tax.Automap.{AutoMapResult, auto_propose_mappings}
pub mod Runs

-- `AutoProposeSummary`
pub record AutoProposeSummary : Type 0 where
  pub form_code : TaxFormCode
  pub proposed : List ℕ
  pub skipped : List (String × String × String)
  pub already_existed : List (String × String × TaxMappingStatus)

-- `AutoFillResult`
pub record AutoFillResult : Type 0 where
  pub auto_propose : AutoProposeSummary
  pub approved_mapping_ids : List ℕ
  pub worksheet : TaxWorksheet

-- The rows of a client and form with one of the statuses that a test names.
abbrev pub rows_of : Session → ℕ → ℕ → (TaxMappingStatus → Bool) → List TaxAccountMapping
rows_of s client_id form_id q =
    select (λ m. shown s m && (m.client_id == client_id && (m.form_id == form_id && q m.status)))
      s.mappings

abbrev pub is_draft : TaxMappingStatus → Bool
is_draft st = same_mapping_status st TaxMappingStatus.draft

abbrev pub is_open : TaxMappingStatus → Bool
is_open st = is_draft st || same_mapping_status st TaxMappingStatus.approved

-- The code, the name and the status of a mapping that is there already.
abbrev pub existing_row :
    List ChartOfAccounts → TaxAccountMapping → String × String × TaxMappingStatus
existing_row accounts m = elim (find (λ a. a.id == m.account_id) accounts) [
  | none ↦ ("", "", m.status)
  | some a ↦ (a.code, a.name, m.status)
]

-- The loop over the proposals: the ids of the new rows, and the rows that were there.
unfoldable pub propose_each :
    Caller
    → ℕ
    → (ℕ → ℕ)
    → List ChartOfAccounts
    → List TaxAccountMapping
    → List MappingProposal
    → Action (List ℕ × List (String × String × TaxMappingStatus))
propose_each caller form_id new_id accounts existing [] = pure ([], [])
propose_each caller form_id new_id accounts existing (p ∷ rest) =
    elim (find (λ m. m.account_id == p.account_id) existing) [
      | some m ↦ propose_each caller form_id new_id accounts existing rest >>= λ r.
          pure (r.0, existing_row accounts m ∷ r.1)
      | none ↦ propose_mapping caller form_id p (new_id p.account_id) >>= λ row.
          propose_each caller form_id new_id accounts existing rest >>= λ r.
          pure (row.id ∷ r.0, r.1)
    ]

module _ (lower : String → String) (is_word : ℕ → Bool) (isdigit : List ℕ → Bool) where
  -- What the mapper proposes for the client's chart and the form's lines.
  abbrev pub proposed_for : Caller → TaxFormCode → ℕ → Session → AutoMapResult
  proposed_for caller form_code form_id s =
      auto_propose_mappings lower is_word isdigit form_code
        (accounts_of s caller.firm_id caller.client_id)
        (select (λ l. l.form_id == form_id) s.form_lines)

  abbrev pub existing_for : Caller → ℕ → Session → List TaxAccountMapping
  existing_for caller form_id s = by_account [] (rows_of s caller.client_id form_id is_open)

  abbrev pub propose_found : Caller → TaxFormCode → (ℕ → ℕ) → ℕ → Action AutoProposeSummary
  propose_found caller form_code new_id form_id s =
      (propose_each caller form_id new_id (accounts_of s caller.firm_id caller.client_id)
            (existing_for caller form_id s) (proposed_for caller form_code form_id s).proposals
          >>= λ r. pure (record {
            form_code = form_code;
            proposed = r.0;
            skipped = (proposed_for caller form_code form_id s).skipped;
            already_existed = r.1;
          }))
        s

  -- `auto_propose_for_form`
  unfoldable pub auto_propose_for_form : Caller → TaxFormCode → (ℕ → ℕ) → Action AutoProposeSummary
  auto_propose_for_form caller form_code new_id =
      raise_if (not (is_firm caller.scope)) tax_forbidden
      >> (get_form_by_code form_code >>= λ form. propose_found caller form_code new_id form.id)

-- The loop of `approve_all_drafts_for_form`.
unfoldable pub approve_each : Caller → ℕ → List TaxAccountMapping → Action (List ℕ)
approve_each caller now [] = pure []
approve_each caller now (m ∷ rest) = approve_mapping caller m.id now >>= λ row.
    approve_each caller now rest >>= λ ids. pure (m.id ∷ ids)

-- `approve_all_drafts_for_form`
unfoldable pub approve_all_drafts_for_form : Caller → TaxFormCode → ℕ → Action (List ℕ)
approve_all_drafts_for_form caller form_code now =
    raise_if (not (is_firm caller.scope)) tax_forbidden
    >> (get_form_by_code form_code >>= λ form.
        gets (λ s. rows_of s caller.client_id form.id is_draft) >>= approve_each caller now)

module _ (numeric : ℤ → Option ℤ) (digest : List (String × ℤ) → String) (lower : String → String)
    (is_word : ℕ → Bool) (isdigit : List ℕ → Bool) where
  -- `auto_fill_worksheet`
  unfoldable pub auto_fill_worksheet :
      Caller → ℕ → TaxFormCode → (ℕ → ℕ) → ℕ → ℕ → Action AutoFillResult
  auto_fill_worksheet caller period_id form_code new_id worksheet_id now =
      raise_if (not (is_firm caller.scope)) tax_forbidden
      >> (auto_propose_for_form lower is_word isdigit caller form_code new_id >>= λ summary.
          approve_all_drafts_for_form caller form_code now >>= λ approved.
          generate_worksheet numeric digest caller period_id form_code worksheet_id >>= λ ws.
          pure (record { auto_propose = summary; approved_mapping_ids = approved; worksheet = ws }))
