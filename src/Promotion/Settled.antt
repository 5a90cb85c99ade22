-- ===== src/Promotion/Settled.antt =====
-- A draft is promoted or rejected once (app/domain/promotion.py).
use mathlib.Core.Path.{subst}
use company_tax_and_accounti.Base.{
  ℕ, true, false, Option, Option-cases, some, List, [], ◌∷◌, String, ◌==◌, ◌≡◌, refl, sym, ap, ◌∙◌,
  ◌&&◌, ◌⊎◌, inl, inr, arith, find, update_if, All, Bool-cases,
}
use company_tax_and_accounti.Model.{
  DraftClassification, AuditAction, AuditDetails, is_firm, is_pending,
}
use company_tax_and_accounti.Tenant.{visible}
use company_tax_and_accounti.Session.{Session, ok, err, Action, already_promoted, ◌>>=◌, ◌>>◌}
use company_tax_and_accounti.Session.Binds.{>>=-ok, >>=-stop, >>-ok, write_audit-ok}
use company_tax_and_accounti.Registry.{find_passes, All-find}
use company_tax_and_accounti.Tax.Mapping.{Caller}
use company_tax_and_accounti.Promotion.{
  promotable, reject_draft, reject_pending, set_draft, log_draft, rejected,
}

abbrev pub Settled : ℕ → Session → Type 0
Settled id s = All (λ d. (d.id == id ≡ false) ⊎ (is_pending d.status ≡ false)) s.drafts

pub promotable-ok :
    (caller : Caller) (id : ℕ) (s : Session) (d : DraftClassification)
    → (promotable caller id s).0 ≡ ok d
    → (d.id ≡ id)
      × (d.firm_id ≡ caller.firm_id)
      × (d.client_id ≡ caller.client_id)
      × (is_pending d.status ≡ true)
      × ((promotable caller id s).1 ≡ s)
unfolding promotable
promotable-ok caller id s d h =
    elim (Option-cases (find (λ x. x.id == id && visible s.guc x.firm_id x.client_id) s.drafts)) [
      | inl missing ↦ absurd (ground arith)
      | inr (x, found) ↦
          let passes = find_passes _ s.drafts x found in
          let same : x ≡ d = ground arith in
          (
            subst (λ (y : DraftClassification). y.id ≡ id) same (ground arith),
            ground arith,
            ground arith,
            ground arith,
            ground arith,
          )
    ]

-- Where every draft of an id is decided, it is refused.
pub promotable-Settled :
    (caller : Caller) (id : ℕ) (s : Session)
    → is_firm caller.scope ≡ true
    → Settled id s
    → (promotable caller id s).0 ≡ err already_promoted
unfolding promotable
promotable-Settled caller id s firm settled =
    elim (Option-cases (find (λ x. x.id == id && visible s.guc x.firm_id x.client_id) s.drafts)) [
      | inl missing ↦ ground arith
      | inr (x, found) ↦
          let passes = find_passes _ s.drafts x found in
          let decided : is_pending x.status ≡ false =
            elim (All-find (λ d. (d.id == id ≡ false) ⊎ (is_pending d.status ≡ false)) _ s.drafts x
              settled found) [ inl other ↦ absurd (ground arith) | inr is ↦ is ] in
          ground arith
    ]

pub set_draft-Settled :
    (id : ℕ) (f : DraftClassification → DraftClassification) (s : Session)
    → ((d : DraftClassification) → is_pending (f d).status ≡ false)
    → Settled id (set_draft id f s)
set_draft-Settled id f s h = go s.drafts
  where
    go :
        (ds : List DraftClassification)
        → All
            (λ d. (d.id == id ≡ false) ⊎ (is_pending d.status ≡ false))
            (update_if (λ d. d.id == id) f ds)
    go [] = tt
    go (d ∷ ds) = elim (Bool-cases (d.id == id)) [
      | inl is ↦ (rw is (inr (h d)), go ds)
      | inr other ↦ (rw other (inl other), go ds)
    ]

-- The audit event behind a decision leaves the decision and the books.
pub decided-ok :
    {A : Type 0} (caller : Caller) (act : AuditAction) (id : ℕ) (details : AuditDetails)
    (k : Action A) (s : Session) {r : A}
    → ((log_draft caller act id details >> k) s).0 ≡ ok r
    → (t : Session) × ((k t).0 ≡ ok r)
      × (((log_draft caller act id details >> k) s).1 ≡ (k t).1)
      × (t.drafts ≡ s.drafts)
      × (t.entries ≡ s.entries)
      × (t.lines ≡ s.lines)
      × (t.accounts ≡ s.accounts)
decided-ok caller act id details k s h =
    let log = log_draft caller act id details in
    let (h₁, k₁, e₁) = >>-ok log k s h in
    let (_, i) =
      write_audit-ok caller.firm_id caller.client_id caller.actor act "draft_classification"
        (some id) details s h₁ in
    (
      (log s).1,
      k₁,
      e₁,
      ap (λ (t : Session). t.drafts) i,
      ap (λ (t : Session). t.entries) i,
      ap (λ (t : Session). t.lines) i,
      ap (λ (t : Session). t.accounts) i,
    )

-- An action refused by its first check is refused with the same error.
pub refused :
    {B : Type 0} (caller : Caller) (id : ℕ) (k : DraftClassification → Action B) (s : Session)
    → (promotable caller id s).0 ≡ err already_promoted
    → ((promotable caller id >>= k) s).0 ≡ err already_promoted
refused caller id k s h =
    ap (λ p. p.0)
      (>>=-stop (promotable caller id) k s (promotable caller id s).1 already_promoted
        (ap (λ r. (r, (promotable caller id s).1)) h))

pub reject_draft-Settled :
    (caller : Caller) (id now : ℕ) (reason : Option String) (s : Session)
    → (reject_draft caller id reason now s).0 ≡ ok tt
    → Settled id (reject_draft caller id reason now s).1
unfolding reject_draft reject_pending
reject_draft-Settled caller id now reason s h =
    let (d, h₁, k₁, e₁) = >>=-ok (promotable caller id) (reject_pending caller reason now) s h in
    let (same, _, _, _, _) = promotable-ok caller id s d h₁ in
    let s' = set_draft d.id (rejected caller now) (promotable caller id s).1 in
    let (_, i) =
      write_audit-ok caller.firm_id caller.client_id caller.actor AuditAction.reject
        "draft_classification" (some d.id) _ s' k₁ in
    subst (λ n. Settled n (reject_draft caller id reason now s).1) same
      (subst (Settled d.id) (sym (e₁ ∙ i))
        (set_draft-Settled d.id (rejected caller now) (promotable caller id s).1 (λ x. refl)))
