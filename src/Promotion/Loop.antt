-- ===== src/Promotion/Loop.antt =====
-- The loop of `promote_statement_draft` (app/domain/promotion.py): what it posts and what it skips.
use mathlib.Core.Path.{subst}
use Prim.Native.Char.{Char}
use company_tax_and_accounti.Base.{
  ℕ, suc, ℤ, ◌+◌, Bool, Option, List, [], ◌∷◌, String, ◌≡◌, sym, ap, ◌∙◌, arith, length,
}
use company_tax_and_accounti.Model.{JournalEntry, Txn, SkipReason}
use company_tax_and_accounti.Session.{Session, Result, ok, Action, ◌>>=◌, lift_result}
use company_tax_and_accounti.Session.Binds.{>>=-ok}
use company_tax_and_accounti.Ledger.{LedgerService, post}
use company_tax_and_accounti.Ledger.Books.{IsBook, post-IsBook}
use company_tax_and_accounti.Promotion.Plans.{Decimal, Plan, skipping, posting, Statement, plan_of}
use company_tax_and_accounti.Promotion.Statement.{promote_each, carry_out, add_posted, add_skipped}

abbrev pub Outcome : Type 0
Outcome = List ℕ × List (ℕ × SkipReason)

abbrev pub handled : Outcome → ℕ
handled r = length r.0 + length r.1

ok-handled : (x r : Outcome) → ◌≡◌ {A = Result Outcome} (ok x) (ok r) → handled r ≡ handled x
ok-handled x r h = let e : x ≡ r = ground arith in ap handled (sym e)

module _ (is_space : Char → Bool) (lower : String → String) (decimal : String → Decimal)
    (fromisoformat : String → Option ℕ) (numeric : ℤ → Option ℤ) (svc : LedgerService) where
  -- One transaction: the rest of the loop starts from books again, and one more is handled.
  carry_out-ok :
      (idx new_id now : ℕ) (plan : Plan) (rest : Action Outcome) (s : Session) (r : Outcome)
      → IsBook s
      → (carry_out is_space lower decimal fromisoformat numeric svc idx new_id now plan rest s).0
        ≡ ok r
      → (u : Session) × (x : Outcome) × IsBook u
        × ((rest u).0 ≡ ok x)
        × ((carry_out is_space lower decimal fromisoformat numeric svc idx new_id now plan rest s).1
            ≡ (rest u).1)
        × (handled r ≡ suc (handled x))
  carry_out-ok idx new_id now (skipping reason) rest s r b h =
      let add = add_skipped is_space lower decimal fromisoformat numeric idx reason in
      let (x, h₁, k₁, e₁) = >>=-ok rest add s h in
      (s, x, b, h₁, e₁, ok-handled (x.0, (idx, reason) ∷ x.1) r k₁ ∙ ground arith)
  carry_out-ok idx new_id now (posting args) rest s r b h =
      let add = add_posted is_space lower decimal fromisoformat numeric in
      let then_rest = λ (e : JournalEntry). rest >>= add e.id in
      let (e, h₁, k₁, e₁) = >>=-ok (post numeric svc args new_id now) then_rest s h in
      let s' = (post numeric svc args new_id now s).1 in
      let (x, h₂, k₂, e₂) = >>=-ok rest (add e.id) s' k₁ in
      (
        s',
        x,
        post-IsBook numeric svc args new_id now s b h₁,
        h₂,
        e₁ ∙ e₂,
        ok-handled (e.id ∷ x.0, x.1) r k₂ ∙ ground arith,
      )

  module _ (st : Statement) (overrides : List (ℕ × String)) (ids : ℕ → ℕ) (now : ℕ) where
    -- The loop keeps the books, and every transaction is posted or skipped.
    pub promote_each-handled :
        (idx : ℕ) (txns : List Txn) (s : Session) (r : Outcome)
        → IsBook s
        → (promote_each is_space lower decimal fromisoformat numeric svc st overrides ids now idx
            txns s).0
          ≡ ok r
        → IsBook
            (promote_each is_space lower decimal fromisoformat numeric svc st overrides ids now idx
              txns s).1
          × (handled r ≡ length txns)
    unfolding promote_each
    promote_each-handled idx [] s r b h = (b, ok-handled ([], []) r h)
    promote_each-handled idx (txn ∷ txns) s r b h =
        let rest =
          promote_each is_space lower decimal fromisoformat numeric svc st overrides ids now
            (suc idx) txns in
        let plan = plan_of is_space lower decimal fromisoformat st overrides idx txn in
        let carry = λ (p : Plan).
          carry_out is_space lower decimal fromisoformat numeric svc idx (ids idx) now p rest in
        let (p, h₁, k₁, e₁) = >>=-ok (lift_result plan) carry s h in
        let (u, x, b', h₂, e₂, n) = carry_out-ok idx (ids idx) now p rest s r b k₁ in
        let (kept, m) = promote_each-handled (suc idx) txns u x b' h₂ in
        (subst IsBook (sym (e₁ ∙ e₂)) kept, n ∙ ap suc m)
