-- ===== src/Tax/Mapping/Review.antt =====
-- What an approval leaves in the table of mappings (app/domain/tax_service.py).
use company_tax_and_accounti.Base.{
  ℕ, true, false, not, ◌&&◌, Bool-cases, Option-cases, inl, inr, find, select, List, [], ◌∷◌,
  String, ◌==◌, ◌≡◌, refl, sym, ap, ◌∙◌, any, update_if, arith, some, map,
}
use company_tax_and_accounti.Model.{
  TaxAccountMapping, TaxMappingStatus, same_mapping_status, AuditAction, approved_details,
}
use company_tax_and_accounti.Tenant.{visible}
use company_tax_and_accounti.Session.{Session, ok, ◌>>◌, pure}
use company_tax_and_accounti.Session.Binds.{>>=-ok, >>-ok, write_audit-ok}
use company_tax_and_accounti.Tax.Mapping.{
  Caller, conflicts, review_row, supersede_rows, reviewable, prior_rows, approve_mapping,
  approve_found, log_approve, reviewed,
}

pub review_row-ok :
    (st : TaxMappingStatus) (actor : String) (now : ℕ) (m : TaxAccountMapping) (s : Session)
    → (review_row st actor now m s).0 ≡ ok tt
    → (any (conflicts st m) s.mappings ≡ false)
      × ((review_row st actor now m s).1 ≡ record s {
        mappings = update_if (λ x. x.id == m.id) (reviewed st actor now) s.mappings;
      })
unfolding review_row
review_row-ok st actor now m s h = ground arith

-- The update of a row does not touch what conflicts with it.
conflicts-update :
    (st : TaxMappingStatus) (actor : String) (now : ℕ) (m : TaxAccountMapping)
    (rows : List TaxAccountMapping)
    → any (conflicts st m) (update_if (λ x. x.id == m.id) (reviewed st actor now) rows)
      ≡ any (conflicts st m) rows
conflicts-update st actor now m [] = refl
conflicts-update st actor now m (x ∷ rows) = ground (arith, conflicts-update st actor now m rows)

pub reviewable-ok :
    (caller : Caller) (id : ℕ) (s : Session) (m : TaxAccountMapping)
    → (reviewable caller id s).0 ≡ ok m
    → (find (λ x. x.id == id && visible s.guc x.firm_id x.client_id) s.mappings ≡ some m)
      × (m.firm_id ≡ caller.firm_id)
      × (m.client_id ≡ caller.client_id)
      × (same_mapping_status m.status TaxMappingStatus.draft ≡ true)
      × ((reviewable caller id s).1 ≡ s)
unfolding reviewable
reviewable-ok caller id s m h =
    elim (Option-cases (find (λ x. x.id == id && visible s.guc x.firm_id x.client_id) s.mappings)) [
      | inl missing ↦ absurd (ground arith)
      | inr (x, found) ↦ (ground arith, ground arith, ground arith, ground arith, ground arith)
    ]

draft→eq :
    (st : TaxMappingStatus)
    → same_mapping_status st TaxMappingStatus.draft ≡ true
    → st ≡ TaxMappingStatus.draft
draft→eq TaxMappingStatus.draft h = refl
draft→eq TaxMappingStatus.approved h = absurd (cc)
draft→eq TaxMappingStatus.rejected h = absurd (cc)
draft→eq TaxMappingStatus.superseded h = absurd (cc)

-- The update of all rows of which the id is one of these.
abbrev pub superseded_rows :
    String → ℕ → List TaxAccountMapping → List TaxAccountMapping → List TaxAccountMapping
superseded_rows actor now prior rows =
    update_if (λ x. any (λ p. x.id == p.id) prior)
      (λ x. record x {
        status = TaxMappingStatus.superseded;
        reviewed_by = some actor;
        reviewed_at = some now;
      })
      rows

superseded_rows-none :
    (actor : String) (now : ℕ) (rows : List TaxAccountMapping)
    → superseded_rows actor now [] rows ≡ rows
superseded_rows-none actor now [] = refl
superseded_rows-none actor now (x ∷ rows) = ap (λ l. x ∷ l) (superseded_rows-none actor now rows)

superseded_rows-more :
    (actor : String) (now : ℕ) (p : TaxAccountMapping) (prior rows : List TaxAccountMapping)
    → superseded_rows actor now prior
        (update_if (λ x. x.id == p.id) (reviewed TaxMappingStatus.superseded actor now) rows)
      ≡ superseded_rows actor now (p ∷ prior) rows
superseded_rows-more actor now p prior [] = refl
superseded_rows-more actor now p prior (x ∷ rows) =
    let ih = superseded_rows-more actor now p prior rows in
    elim (Bool-cases (x.id == p.id)) [
      | inl same ↦ elim (Bool-cases (any (λ q. x.id == q.id) prior)) [
        | inl again ↦ rw (same, again, ih) refl
        | inr once ↦ rw (same, once, ih) refl
      ]
      | inr other ↦ rw (other, ih) refl
    ]

supersede_rows-ok :
    (actor : String) (now : ℕ) (prior : List TaxAccountMapping) (s : Session)
    → (supersede_rows actor now prior s).0 ≡ ok tt
    → (supersede_rows actor now prior s).1.mappings ≡ superseded_rows actor now prior s.mappings
unfolding supersede_rows
supersede_rows-ok actor now [] s h = sym (superseded_rows-none actor now s.mappings)
supersede_rows-ok actor now (p ∷ prior) s h =
    let review = review_row TaxMappingStatus.superseded actor now p in
    let (h₁, k₁, e₁) = >>-ok review (supersede_rows actor now prior) s h in
    let (_, i₁) = review_row-ok TaxMappingStatus.superseded actor now p s h₁ in
    ap (λ (t : Session). t.mappings) e₁
    ∙ supersede_rows-ok actor now prior (review s).1 k₁
    ∙ ap (λ (t : Session). superseded_rows actor now prior t.mappings) i₁
    ∙ superseded_rows-more actor now p prior s.mappings

-- What an approval that succeeds has done to the table of mappings.
pub record Approved (caller : Caller) (id now : ℕ) (s : Session) (r : TaxAccountMapping)
    (rows : List TaxAccountMapping) : Type 0 where
  pub draft : TaxAccountMapping
  pub found : find (λ x. x.id == id && visible s.guc x.firm_id x.client_id) s.mappings ≡ some draft
  pub of_firm : draft.firm_id ≡ caller.firm_id
  pub of_client : draft.client_id ≡ caller.client_id
  pub was_draft : draft.status ≡ TaxMappingStatus.draft
  pub returned : r ≡ record draft {
    status = TaxMappingStatus.approved;
    reviewed_by = some caller.actor;
    reviewed_at = some now;
  }
  pub table :
      rows
      ≡ update_if
          (λ x. x.id == draft.id)
          (λ x. record x {
            status = TaxMappingStatus.approved;
            reviewed_by = some caller.actor;
            reviewed_at = some now;
          })
          (superseded_rows caller.actor now
            (select
              (λ x.
                visible s.guc x.firm_id x.client_id
                && (not (x.id == draft.id)
                    && (same_mapping_status x.status TaxMappingStatus.approved
                        && (x.client_id == caller.client_id
                            && (x.form_id == draft.form_id && x.account_id == draft.account_id)))))
              s.mappings)
            s.mappings)
  pub sole :
      any
        (λ x.
          not (x.id == draft.id)
          && (same_mapping_status x.status TaxMappingStatus.approved
              && (x.client_id == draft.client_id
                  && (x.form_id == draft.form_id && x.account_id == draft.account_id))))
        rows
      ≡ false

-- An approval that succeeds was of the row with the id, of the caller's tenant, that was a DRAFT.
-- Afterwards that row is APPROVED by the caller, the rows of its client, form and account that the
-- policy shows and that were APPROVED before are SUPERSEDED, the other rows are as they were, and
-- no other row of the client, form and account is APPROVED. The row is returned as it is now.
pub approve_mapping_sole :
    (caller : Caller) (id now : ℕ) (s : Session) (r : TaxAccountMapping)
    → (approve_mapping caller id now s).0 ≡ ok r
    → Approved caller id now s r (approve_mapping caller id now s).1.mappings
unfolding approve_mapping
approve_mapping_sole caller id now s r h =
    let (m, h₁, k₁, e₁) = >>=-ok (reviewable caller id) (approve_found caller now) s h in
    let s₁ = (reviewable caller id s).1 in
    let prior = prior_rows caller m s₁ in
    let last =
      log_approve caller m prior >> pure (reviewed TaxMappingStatus.approved caller.actor now m) in
    let approve = review_row TaxMappingStatus.approved caller.actor now m in
    let (h₂, k₂, e₂) = >>-ok (supersede_rows caller.actor now prior) (approve >> last) s₁ k₁ in
    let s₂ = (supersede_rows caller.actor now prior s₁).1 in
    let (h₃, k₃, e₃) = >>-ok approve last s₂ k₂ in
    let (clear, i₃) = review_row-ok TaxMappingStatus.approved caller.actor now m s₂ h₃ in
    let s₃ = (approve s₂).1 in
    let done = pure (reviewed TaxMappingStatus.approved caller.actor now m) in
    let (h₄, k₄, e₄) = >>-ok (log_approve caller m prior) done s₃ k₃ in
    let (_, i₄) =
      write_audit-ok caller.firm_id caller.client_id caller.actor AuditAction.tax_map_approve
        "tax_account_mapping" (some m.id)
        (approved_details m.form_id m.account_id m.line_id (map (λ x. x.id) prior)) s₃ h₄ in
    let is : reviewed TaxMappingStatus.approved caller.actor now m ≡ r = ground arith in
    let rows : (approve_mapping caller id now s).1.mappings
        ≡ update_if (λ x. x.id == m.id) (reviewed TaxMappingStatus.approved caller.actor now)
            s₂.mappings =
      ap (λ (t : Session). t.mappings) (e₁ ∙ e₂ ∙ e₃ ∙ e₄ ∙ i₄)
      ∙ ap (λ (t : Session). t.mappings) i₃ in
    let (found, of_firm, of_client, was, same) = reviewable-ok caller id s m h₁ in
    record {
      draft = m;
      found = found;
      of_firm = of_firm;
      of_client = of_client;
      was_draft = draft→eq m.status was;
      returned = sym is;
      table =
          rows
          ∙ ap (update_if (λ x. x.id == m.id) (reviewed TaxMappingStatus.approved caller.actor now))
              (supersede_rows-ok caller.actor now prior s₁ h₂)
          ∙ ap
              (λ (t : Session).
                update_if (λ x. x.id == m.id) (reviewed TaxMappingStatus.approved caller.actor now)
                  (superseded_rows caller.actor now (prior_rows caller m t) t.mappings))
              same;
      sole =
          ap (any (conflicts TaxMappingStatus.approved m)) rows
          ∙ conflicts-update TaxMappingStatus.approved caller.actor now m s₂.mappings
          ∙ clear;
    }
