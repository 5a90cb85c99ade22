-- ===== src/Tax/Mapping.antt =====
-- The review of account mappings (app/domain/tax_service.py), with the table's constraint
-- `uq_tax_map_client_form_acct_status` (app/models/accounting.py), which the database checks at
-- each update.
use company_tax_and_accounti.Base.{
  ℕ, Bool, true, false, not, ◌&&◌, Option, none, some, List, [], ◌∷◌, ◌++◌, String, ◌==◌,
  if◌then◌else◌, any, find, select, map, update_if,
}
use company_tax_and_accounti.Model.{
  TaxAccountMapping, TaxMappingStatus, TaxLineSign, AuditAction, AccessScope, TaxForm, TaxFormCode,
  same_mapping_status, same_form, is_firm, reason_details, proposed_details, approved_details,
}
use company_tax_and_accounti.Tenant.{visible}
use company_tax_and_accounti.Session.{
  Session, Action, ok, err, ◌>>=◌, ◌>>◌, pure, raise_if, gets, or_raise, write_audit, tax_forbidden,
  tax_mapping, integrity_error, row_security,
}
pub mod Constraint
pub mod Review

-- The keyword arguments that the functions of the module share.
pub record Caller : Type 0 where
  pub firm_id : ℕ
  pub client_id : ℕ
  pub actor : String
  pub scope : AccessScope

pub record MappingProposal : Type 0 where
  pub account_id : ℕ
  pub line_id : ℕ
  pub sign : TaxLineSign
  pub notes : Option String

-- `get_form_by_code`; forms are shared data without a policy.
unfoldable pub get_form_by_code : TaxFormCode → Action TaxForm
get_form_by_code code = do
  or_raise (← gets (λ s. find (λ f. same_form f.code code) s.forms)) tax_mapping

-- The rows for one client, form and account.
abbrev pub for_account : ℕ → ℕ → ℕ → TaxAccountMapping → Bool
for_account client_id form_id account_id m =
    m.client_id == client_id && (m.form_id == form_id && m.account_id == account_id)

abbrev pub with_status : TaxMappingStatus → (TaxAccountMapping → Bool) → TaxAccountMapping → Bool
with_status st p m = same_mapping_status m.status st && p m

-- Another row has the key that row `m` would have with the status `st`.
abbrev pub conflicts : TaxMappingStatus → TaxAccountMapping → TaxAccountMapping → Bool
conflicts st m x =
    not (x.id == m.id) && with_status st (for_account m.client_id m.form_id m.account_id) x

unfoldable pub insert_mapping : TaxAccountMapping → Action (Unit {0})
insert_mapping m s =
    if visible s.guc m.firm_id m.client_id
    then if any (λ x. x.id == m.id) s.mappings
      then (err integrity_error, s)
      else if any (conflicts m.status m) s.mappings
      then (err integrity_error, s)
      else (ok tt, record s { mappings = s.mappings ++ (m ∷ []) })
    else (err row_security, s)

-- The update of a reviewed row.
abbrev pub reviewed : TaxMappingStatus → String → ℕ → TaxAccountMapping → TaxAccountMapping
reviewed st actor now m = record m { status = st; reviewed_by = some actor; reviewed_at = some now }

-- `UPDATE tax_account_mapping` of one row, with the check of the constraint.
unfoldable pub review_row : TaxMappingStatus → String → ℕ → TaxAccountMapping → Action (Unit {0})
review_row st actor now m s =
    if any (conflicts st m) s.mappings then (err integrity_error, s) else (
      ok tt,
      record s { mappings = update_if (λ x. x.id == m.id) (reviewed st actor now) s.mappings },
    )

-- The flush of the superseded rows.
unfoldable pub supersede_rows : String → ℕ → List TaxAccountMapping → Action (Unit {0})
supersede_rows actor now [] = pure tt
supersede_rows actor now (m ∷ rest) =
    review_row TaxMappingStatus.superseded actor now m >> supersede_rows actor now rest

-- A row of `tax_account_mapping` that the policy shows.
abbrev pub shown : Session → TaxAccountMapping → Bool
shown s m = visible s.guc m.firm_id m.client_id

abbrev pub proposed_row : Caller → ℕ → MappingProposal → ℕ → TaxAccountMapping
proposed_row caller form_id p new_id = record {
  id = new_id;
  firm_id = caller.firm_id;
  client_id = caller.client_id;
  form_id = form_id;
  account_id = p.account_id;
  line_id = p.line_id;
  sign = p.sign;
  status = TaxMappingStatus.draft;
  notes = p.notes;
  proposed_by = caller.actor;
  reviewed_by = none;
  reviewed_at = none;
}

-- `propose_mapping`
unfoldable pub propose_mapping : Caller → ℕ → MappingProposal → ℕ → Action TaxAccountMapping
propose_mapping caller form_id p new_id = do
  raise_if (not (is_firm caller.scope)) tax_forbidden
  open_draft ← gets λ s.
      any
        (λ m.
          shown s m
          && with_status TaxMappingStatus.draft (for_account caller.client_id form_id p.account_id)
              m)
        s.mappings
  raise_if open_draft tax_mapping
  insert_mapping (proposed_row caller form_id p new_id)
  write_audit caller.firm_id caller.client_id caller.actor AuditAction.tax_map_propose
      "tax_account_mapping" (some new_id) (proposed_details form_id p.account_id p.line_id p.sign)
  pure (proposed_row caller form_id p new_id)

-- The row that a review is of: found, of the caller's tenant, and still a draft.
unfoldable pub reviewable : Caller → ℕ → Action TaxAccountMapping
reviewable caller mapping_id = do
  raise_if (not (is_firm caller.scope)) tax_forbidden
  m ← or_raise (← gets (λ s. find (λ m. m.id == mapping_id && shown s m) s.mappings)) tax_mapping
  raise_if (not (m.firm_id == caller.firm_id && m.client_id == caller.client_id)) tax_mapping
  raise_if (not (same_mapping_status m.status TaxMappingStatus.draft)) tax_mapping
  pure m

-- The earlier approved rows for the account of `m`.
abbrev pub prior_rows : Caller → TaxAccountMapping → Session → List TaxAccountMapping
prior_rows caller m s =
    select
      (λ x.
        shown s x
        && (not (x.id == m.id)
            && with_status TaxMappingStatus.approved
                (for_account caller.client_id m.form_id m.account_id) x))
      s.mappings

abbrev pub log_approve : Caller → TaxAccountMapping → List TaxAccountMapping → Action (Unit {0})
log_approve caller m prior =
    write_audit caller.firm_id caller.client_id caller.actor AuditAction.tax_map_approve
      "tax_account_mapping" (some m.id)
      (approved_details m.form_id m.account_id m.line_id (map (λ x. x.id) prior))

-- The writes of an approval that supersedes `prior`.
abbrev pub approve_over :
    Caller → ℕ → TaxAccountMapping → List TaxAccountMapping → Action TaxAccountMapping
approve_over caller now m prior =
    supersede_rows caller.actor now prior
    >> (review_row TaxMappingStatus.approved caller.actor now m
        >> (log_approve caller m prior
            >> pure (reviewed TaxMappingStatus.approved caller.actor now m)))

abbrev pub approve_found : Caller → ℕ → TaxAccountMapping → Action TaxAccountMapping
approve_found caller now m = gets (prior_rows caller m) >>= approve_over caller now m

-- `approve_mapping`
unfoldable pub approve_mapping : Caller → ℕ → ℕ → Action TaxAccountMapping
approve_mapping caller mapping_id now = reviewable caller mapping_id >>= approve_found caller now

abbrev pub log_reject : Caller → Option String → TaxAccountMapping → Action (Unit {0})
log_reject caller reason m =
    write_audit caller.firm_id caller.client_id caller.actor AuditAction.tax_map_reject
      "tax_account_mapping" (some m.id) (reason_details reason)

abbrev pub reject_found : Caller → Option String → ℕ → TaxAccountMapping → Action TaxAccountMapping
reject_found caller reason now m =
    review_row TaxMappingStatus.rejected caller.actor now m
    >> (log_reject caller reason m >> pure (reviewed TaxMappingStatus.rejected caller.actor now m))

-- `reject_mapping`
unfoldable pub reject_mapping : Caller → ℕ → Option String → ℕ → Action TaxAccountMapping
reject_mapping caller mapping_id reason now =
    reviewable caller mapping_id >>= reject_found caller reason now
