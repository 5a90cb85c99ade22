-- ===== src/Tax/Bulk/Runs.antt =====
-- What the bulk operations (app/domain/tax_service.py) return.
use company_tax_and_accounti.Base.{
  ℕ, Bool, false, Option-cases, inl, inr, List, [], ◌∷◌, String, ◌≡◌, ap, sym, ◌∙◌, ◌==◌, refl,
  true, some, none, any, select, map, count_if, ◌++◌, Bool-cases, ◌&&◌, ◌||◌, find, length, arith,
  not,
}
use mathlib.Core.Path.{subst, fun_ext}
use company_tax_and_accounti.Tenant.{visible}
use company_tax_and_accounti.Tax.Automap.{AutoMapResult, auto_propose_mappings}
use mathlib.Core.List.{append-nil, append_assoc}
use company_tax_and_accounti.Model.{
  TaxForm, ChartOfAccounts, TaxAccountMapping, TaxFormCode, TaxMappingStatus, is_firm, same_form,
  same_mapping_status,
}
use company_tax_and_accounti.Session.{
  Session, ok, ◌>>=◌, pure, raise_if, write_audit, tax_forbidden,
}
use company_tax_and_accounti.Session.Binds.{>>=-ok, >>-ok}
use company_tax_and_accounti.Tax.Mapping.{
  Caller, get_form_by_code, MappingProposal, propose_mapping, insert_mapping, proposed_row,
}
use company_tax_and_accounti.Tax.Generate.Mapped.{any-by_account, any-select}
use company_tax_and_accounti.Statements.{accounts_of}
use company_tax_and_accounti.Tax.Bulk.{
  rows_of, is_open, proposed_for, existing_for, propose_found, AutoProposeSummary, propose_each,
  existing_row, auto_propose_for_form,
}

abbrev Pair : Type 0
Pair = List ℕ × List (String × String × TaxMappingStatus)

propose_mapping-ok :
    (caller : Caller) (form_id : ℕ) (p : MappingProposal) (new_id : ℕ) (s : Session)
    (row : TaxAccountMapping)
    → (propose_mapping caller form_id p new_id s).0 ≡ ok row
    → (row.id ≡ new_id)
      × ((propose_mapping caller form_id p new_id s).1.mappings
          ≡ s.mappings ++ (proposed_row caller form_id p new_id ∷ []))
unfolding propose_mapping insert_mapping write_audit
propose_mapping-ok caller form_id p new_id s row h = (ground arith, ground arith)

-- Whether one of these mappings is for the account.
abbrev taken_by : List TaxAccountMapping → MappingProposal → Bool
taken_by rows p = any (λ m. m.account_id == p.account_id) rows

found_taken :
    (rows : List TaxAccountMapping) (p : MappingProposal) (m : TaxAccountMapping)
    → find (λ m. m.account_id == p.account_id) rows ≡ some m
    → taken_by rows p ≡ true
found_taken [] p m h = absurd (cc)
found_taken (x ∷ rows) p m h = elim (Bool-cases (x.account_id == p.account_id)) [
  | inl is ↦ rw is refl
  | inr other ↦ let ih = found_taken rows p m (ground arith) in ground arith
]

missing_free :
    (rows : List TaxAccountMapping) (p : MappingProposal)
    → find (λ m. m.account_id == p.account_id) rows ≡ none
    → taken_by rows p ≡ false
missing_free [] p h = refl
missing_free (x ∷ rows) p h = elim (Bool-cases (x.account_id == p.account_id)) [
  | inl is ↦ absurd (ground arith)
  | inr other ↦ let ih = missing_free rows p (ground arith) in ground arith
]

-- What a run over proposals has done.
record Ran (caller : Caller) (form_id : ℕ) (new_id : ℕ → ℕ) (taken : MappingProposal → Bool)
    (ps : List MappingProposal) (s t : Session) (r : Pair) : Type 0 where
  ids : r.0 ≡ map (λ p. new_id p.account_id) (select (λ p. not (taken p)) ps)
  existed : length r.1 ≡ count_if taken ps
  table :
      t.mappings
      ≡ s.mappings
        ++ map
            (λ p. proposed_row caller form_id p (new_id p.account_id))
            (select (λ p. not (taken p)) ps)

propose_each-Ran :
    (caller : Caller) (form_id : ℕ) (new_id : ℕ → ℕ) (accounts : List ChartOfAccounts)
    (existing : List TaxAccountMapping) (ps : List MappingProposal) (s : Session) (r : Pair)
    → (propose_each caller form_id new_id accounts existing ps s).0 ≡ ok r
    → Ran caller form_id new_id
        (taken_by existing)
        ps
        s
        (propose_each caller form_id new_id accounts existing ps s).1
        r
unfolding propose_each
propose_each-Ran caller form_id new_id accounts existing [] s r h =
    let same : ([], []) ≡ r = ground arith in
    subst (λ q. Ran caller form_id new_id (taken_by existing) [] s s q) same
      (record { ids = refl; existed = refl; table = sym (append-nil s.mappings) })
propose_each-Ran caller form_id new_id accounts existing (p ∷ rest) s r h =
    let more = propose_each caller form_id new_id accounts existing rest in
    elim (Option-cases (find (λ m. m.account_id == p.account_id) existing)) [
      | inr (m, e) ↦
          let last = λ (q : Pair). pure (q.0, existing_row accounts m ∷ q.1) in
          let (q, h₁, k₁, e₁) = >>=-ok more last s (rw (propose_each, e) at h) in
          let ih = propose_each-Ran caller form_id new_id accounts existing rest s q h₁ in
          let is = found_taken existing p m e in
          let same : (q.0, existing_row accounts m ∷ q.1) ≡ r = ground arith in
          rw (propose_each, e, e₁)
            (subst (λ q. Ran caller form_id new_id (taken_by existing) (p ∷ rest) s (more s).1 q)
              same
              (record {
                ids = rw is ih.ids;
                existed = let n = ih.existed in rw is (omega arith);
                table = rw is ih.table;
              }))
      | inl e ↦
          let first = propose_mapping caller form_id p (new_id p.account_id) in
          let last = λ (row : TaxAccountMapping) (q : Pair). pure (row.id ∷ q.0, q.1) in
          let (row, h₁, k₁, e₁) =
            >>=-ok first (λ row. more >>= last row) s (rw (propose_each, e) at h) in
          let (q, h₂, k₂, e₂) = >>=-ok more (last row) (first s).1 k₁ in
          let ih = propose_each-Ran caller form_id new_id accounts existing rest (first s).1 q h₂ in
          let (id_of, written) =
            propose_mapping-ok caller form_id p (new_id p.account_id) s row h₁ in
          let free = missing_free existing p e in
          let same : (row.id ∷ q.0, q.1) ≡ r = ground arith in
          rw (propose_each, e, e₁, e₂)
            (subst
              (λ q.
                Ran caller form_id new_id (taken_by existing) (p ∷ rest) s (more (first s).1).1 q)
              same
              (record {
                ids = rw (free, id_of, ih.ids) refl;
                existed = let n = ih.existed in rw free (omega arith);
                table = rw free (
                    ih.table
                    ∙ ap
                        (λ l.
                          l
                          ++ map (λ p. proposed_row caller form_id p (new_id p.account_id))
                              (select (λ p. not (taken_by existing p)) rest))
                        written
                    ∙ append_assoc s.mappings
                        (proposed_row caller form_id p (new_id p.account_id) ∷ []) _);
              }))
    ]

get_form_by_code-reads : (code : TaxFormCode) (s : Session) → (get_form_by_code code s).1 ≡ s
unfolding get_form_by_code
get_form_by_code-reads code s = ground arith

raise_if-ok : (b : Bool) (s : Session) → (raise_if b tax_forbidden s).0 ≡ ok tt → b ≡ false
raise_if-ok b s h = ground arith

-- Whether a client has a DRAFT or APPROVED mapping, that the policy shows, for a proposal's account.
abbrev pub taken : Session → ℕ → ℕ → MappingProposal → Bool
taken s client_id form_id p =
    any
      (λ m.
        (visible s.guc m.firm_id m.client_id
          && (m.client_id == client_id
              && (m.form_id == form_id
                  && (same_mapping_status m.status TaxMappingStatus.draft
                      || same_mapping_status m.status TaxMappingStatus.approved))))
        && m.account_id == p.account_id)
      s.mappings

-- What a bulk proposal has done, of which the mapper gave `result`.
pub record Proposed (caller : Caller) (code : TaxFormCode) (new_id : ℕ → ℕ) (s t : Session)
    (r : AutoProposeSummary) (form : TaxForm) (result : AutoMapResult) : Type 0 where
  pub of_code : find (λ f. same_form f.code code) s.forms ≡ some form
  pub scope : is_firm caller.scope ≡ true
  pub skipped : r.skipped ≡ result.skipped
  pub ids :
      r.proposed
      ≡ map
          (λ p. new_id p.account_id)
          (select (λ p. not (taken s caller.client_id form.id p)) result.proposals)
  pub existed :
      length r.already_existed ≡ count_if (taken s caller.client_id form.id) result.proposals
  pub table :
      t.mappings
      ≡ s.mappings
        ++ map
            (λ p. record {
              id = new_id p.account_id;
              firm_id = caller.firm_id;
              client_id = caller.client_id;
              form_id = form.id;
              account_id = p.account_id;
              line_id = p.line_id;
              sign = p.sign;
              status = TaxMappingStatus.draft;
              notes = p.notes;
              proposed_by = caller.actor;
              reviewed_by = none;
              reviewed_at = none;
            })
            (select (λ p. not (taken s caller.client_id form.id p)) result.proposals)

get_form_by_code-ok :
    (code : TaxFormCode) (s : Session) (form : TaxForm)
    → (get_form_by_code code s).0 ≡ ok form
    → find (λ f. same_form f.code code) s.forms ≡ some form
unfolding get_form_by_code
get_form_by_code-ok code s form h =
    elim (Option-cases (find (λ f. same_form f.code code) s.forms)) [
      | inl missing ↦ absurd (ground arith)
      | inr (f, found) ↦ ground arith
    ]

-- After a bulk proposal that succeeds, the caller has the firm scope, what the mapper skipped is
-- reported, and the table has one new DRAFT row, by the caller, for each proposal of the mapper for
-- the form of which the account has no DRAFT or APPROVED mapping, in order, with the proposal's
-- line and sign, and no other new row. The ids of these rows are returned, and as many mappings
-- that were there as there are other proposals.
pub auto_propose_for_form-Proposed :
    (lower : String → String) (is_word : ℕ → Bool) (isdigit : List ℕ → Bool) (caller : Caller)
    (code : TaxFormCode) (new_id : ℕ → ℕ) (s : Session) (r : AutoProposeSummary)
    → (auto_propose_for_form lower is_word isdigit caller code new_id s).0 ≡ ok r
    → (form : TaxForm) × Proposed caller code new_id s
        (auto_propose_for_form lower is_word isdigit caller code new_id s).1
        r
        form
        (auto_propose_mappings lower is_word isdigit code
          (accounts_of s caller.firm_id caller.client_id)
          (select (λ l. l.form_id == form.id) s.form_lines))
unfolding auto_propose_for_form
auto_propose_for_form-Proposed lower is_word isdigit caller code new_id s r h =
    let found =
      λ (form : TaxForm). propose_found lower is_word isdigit caller code new_id form.id in
    let (h₁, k₁, e₁) =
      >>-ok (raise_if (not (is_firm caller.scope)) tax_forbidden) (get_form_by_code code >>= found)
        s h in
    let (form, h₂, k₂, e₂) = >>=-ok (get_form_by_code code) found s k₁ in
    let same = get_form_by_code-reads code s in
    let k : (found form s).0 ≡ ok r = subst (λ t. (found form t).0 ≡ ok r) same k₂ in
    let accounts = accounts_of s caller.firm_id caller.client_id in
    let result = proposed_for lower is_word isdigit caller code form.id s in
    let existing = existing_for lower is_word isdigit caller form.id s in
    let each = propose_each caller form.id new_id accounts existing result.proposals in
    let summary : Pair → AutoProposeSummary = λ q. record {
      form_code = code;
      proposed = q.0;
      skipped = result.skipped;
      already_existed = q.1;
    } in
    let (q, h₃, k₃, e₃) = >>=-ok each (λ q. pure (summary q)) s k in
    let is : summary q ≡ r = ground arith in
    let firm = raise_if-ok _ s h₁ in
    let end : (auto_propose_for_form lower is_word isdigit caller code new_id s).1 ≡ (each s).1 =
      e₁ ∙ e₂ ∙ ap (λ t. (found form t).1) same ∙ e₃ in
    let ran : Ran caller form.id new_id (taken s caller.client_id form.id) result.proposals s
        (each s).1 q =
      subst (λ tk. Ran caller form.id new_id tk result.proposals s (each s).1 q)
        (fun_ext λ p.
          any-by_account p.account_id [] (rows_of s caller.client_id form.id is_open)
          ∙ any-select _ _ s.mappings)
        (propose_each-Ran caller form.id new_id accounts existing result.proposals s q h₃) in
    (
      form,
      rw (← is) (record {
        of_code = get_form_by_code-ok code s form h₂;
        scope = ground arith;
        skipped = refl;
        ids = ran.ids;
        existed = ran.existed;
        table = ap (λ (t : Session). t.mappings) end ∙ ran.table;
      }),
    )
