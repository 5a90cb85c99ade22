-- ===== src/Ledger/Accounts.antt =====
-- The account check of `post` (app/domain/ledger.py): as many rows as distinct ids, and every row
-- of the caller's tenant, active and a leaf, mean one such row for each line.
use company_tax_and_accounti.Base.{
  ℕ, ◌+◌, ◌≤◌, List, [], ◌∷◌, ◌≡◌, refl, sym, ◌∙◌, Bool, true, false, ◌&&◌, arith, ◌==◌, ==→eq,
  ==-refl, length, count_if, select, All, All-map, Bool-cases, inl, inr, map, length-select,
}
use mathlib.Core.Path.{subst}
use company_tax_and_accounti.Model.{ChartOfAccounts}
use company_tax_and_accounti.Tenant.{visible}
use company_tax_and_accounti.Session.{Session, ok}
use company_tax_and_accounti.Ledger.{
  LedgerService, LineInput, contains, distinct, account_ids, account_rows, check_accounts,
}

-- The account `id` on the chart of a tenant.
abbrev pub on_chart : ℕ → ℕ → ℕ → ChartOfAccounts → Bool
on_chart f c id a = a.id == id && (a.firm_id == f && a.client_id == c)

-- An account that a line may be posted to.
abbrev pub is_postable : ℕ → ℕ → ℕ → ChartOfAccounts → Bool
is_postable f c id a = on_chart f c id a && (a.is_active && a.is_leaf)

abbrev IsDistinct : List ℕ → Type 0
IsDistinct [] = Unit
IsDistinct (x ∷ xs) = (contains x xs ≡ false) × IsDistinct xs

contains-distinct : (n : ℕ) (xs : List ℕ) → contains n (distinct xs) ≡ contains n xs
contains-distinct n [] = refl
contains-distinct n (x ∷ xs) = elim (Bool-cases (contains x xs)) [
  | inl old ↦ elim (Bool-cases (x == n)) [
    | inl e ↦
        rw (old, e, contains-distinct n xs) (subst (λ k. contains k xs ≡ true) (==→eq x n e) old)
    | inr e ↦ rw (old, e, contains-distinct n xs) refl
  ]
  | inr new ↦ rw (new, contains-distinct n xs) refl
]

distinct-IsDistinct : (xs : List ℕ) → IsDistinct (distinct xs)
distinct-IsDistinct [] = tt
distinct-IsDistinct (x ∷ xs) = elim (Bool-cases (contains x xs)) [
  | inl old ↦ rw old (distinct-IsDistinct xs)
  | inr new ↦ rw new (contains-distinct x xs ∙ new, distinct-IsDistinct xs)
]

All-contains : (Q : ℕ → Type 0) (n : ℕ) (xs : List ℕ) → All Q xs → contains n xs ≡ true → Q n
All-contains Q n [] h e = cc
All-contains Q n (x ∷ xs) h e = elim (Bool-cases (x == n)) [
  | inl same ↦ subst Q (==→eq x n same) h.0
  | inr other ↦ All-contains Q n xs h.1 (ground arith)
]

-- A test on accounts that also asks for an id.
abbrev with_id : (ChartOfAccounts → Bool) → ℕ → ChartOfAccounts → Bool
with_id v id a = a.id == id && v a

abbrev with_ids : (ChartOfAccounts → Bool) → List ℕ → ChartOfAccounts → Bool
with_ids v ids a = contains a.id ids && v a

contains_eq :
    (a x : ℕ) (xs : List ℕ) → contains x xs ≡ false → a == x ≡ true → contains a xs ≡ false
contains_eq a x xs h e = subst (λ k. contains k xs ≡ false) (sym (==→eq a x e)) h

count_ids-cons :
    (v : ChartOfAccounts → Bool) (x : ℕ) (xs : List ℕ) (rows : List ChartOfAccounts)
    → contains x xs ≡ false
    → count_if (with_ids v (x ∷ xs)) rows
      ≡ count_if (with_id v x) rows + count_if (with_ids v xs) rows
count_ids-cons v x xs [] h = omega arith
count_ids-cons v x xs (a ∷ rows) h =
    ground (arith, count_ids-cons v x xs rows h, contains_eq a.id x xs h)

count_ids-le :
    (v : ChartOfAccounts → Bool) (rows : List ChartOfAccounts) (ids : List ℕ)
    → IsDistinct ids
    → ((id : ℕ) → count_if (with_id v id) rows ≤ 1)
    → count_if (with_ids v ids) rows ≤ length ids
count_ids-le v rows [] d once = none_counted rows
  where
    none_counted : (others : List ChartOfAccounts) → count_if (with_ids v []) others ≤ 0
    none_counted [] = omega arith
    none_counted (a ∷ others) = omega (arith, none_counted others)
count_ids-le v rows (x ∷ xs) d once =
    omega (arith, count_ids-cons v x xs rows d.0, once x, count_ids-le v rows xs d.1 once)

All-once :
    (v : ChartOfAccounts → Bool) (rows : List ChartOfAccounts) (ids : List ℕ)
    → IsDistinct ids
    → ((id : ℕ) → count_if (with_id v id) rows ≤ 1)
    → count_if (with_ids v ids) rows ≡ length ids
    → All (λ id. count_if (with_id v id) rows ≡ 1) ids
All-once v rows [] d once e = tt
All-once v rows (x ∷ xs) d once e =
    let one = count_ids-cons v x xs rows d.0 in
    let rest = count_ids-le v rows xs d.1 once in
    (
      omega (arith, one, once x, rest),
      All-once v rows xs d.1 once (omega (arith, one, once x, rest)),
    )

-- A row among those checked is postable, so a count over them is a count of postable rows.
checked_count :
    (svc : LedgerService) (v : ChartOfAccounts → Bool) (ids : List ℕ) (id : ℕ)
    (rows : List ChartOfAccounts)
    → contains id ids ≡ true
    → check_accounts svc (select (with_ids v ids) rows) ≡ ok tt
    → count_if (with_id v id) rows ≤ count_if (is_postable svc.firm_id svc.client_id id) rows
unfolding check_accounts
checked_count svc v ids id [] h c = omega arith
checked_count svc v ids id (a ∷ rows) h c = elim (Bool-cases (with_ids v ids a)) [
  | inl kept ↦ ground (arith, checked_count svc v ids id rows h)
  | inr dropped ↦ ground (
    arith,
    checked_count svc v ids id rows h,
    λ (e : a.id == id ≡ true). subst (λ k. contains k ids ≡ true) (sym (==→eq a.id id e)) h,
  )
]

count-le {ℓ} :
    {A : Type ℓ} (p q : A → Bool) (xs : List A)
    → ((x : A) → p x ≡ true → q x ≡ true)
    → count_if p xs ≤ count_if q xs
count-le p q [] h = omega arith
count-le p q (x ∷ xs) h = ground (arith, h x, count-le p q xs h)

contains_each :
    (ids : List ℕ) (ls : List LineInput)
    → ((n : ℕ) → contains n (map (λ l. l.account_id) ls) ≡ true → contains n ids ≡ true)
    → All (λ l. contains l.account_id ids ≡ true) ls
contains_each ids [] h = tt
contains_each ids (l ∷ ls) h = (
  h l.account_id (rw (==-refl l.account_id) refl),
  contains_each ids ls (λ n e. h n (ground arith)),
)

contains_account :
    (ls : List LineInput) → All (λ l. contains l.account_id (account_ids ls) ≡ true) ls
contains_account ls =
    contains_each (account_ids ls) ls (λ n e. contains-distinct n (map (λ l. l.account_id) ls) ∙ e)

-- After the account check, each line's account is on the tenant's chart exactly once, and there it
-- is active and a leaf.
pub checked-Postable :
    (svc : LedgerService) (ls : List LineInput) (s : Session)
    → ((id : ℕ) → count_if (λ a. a.id == id) s.accounts ≤ 1)
    → (length (account_rows (account_ids ls) s) == length (account_ids ls)) ≡ true
    → check_accounts svc (account_rows (account_ids ls) s) ≡ ok tt
    → All
        (λ l.
          (count_if (on_chart svc.firm_id svc.client_id l.account_id) s.accounts ≡ 1)
          × (count_if (is_postable svc.firm_id svc.client_id l.account_id) s.accounts ≡ 1))
        ls
checked-Postable svc ls s keyed counted checked =
    All-map (λ l. contains l.account_id ids ≡ true) _ ls each (contains_account ls)
  where
    ids : List ℕ
    ids = account_ids ls

    shown : ChartOfAccounts → Bool
    shown a = visible s.guc a.firm_id a.client_id

    found : All (λ id. count_if (with_id shown id) s.accounts ≡ 1) ids
    found =
        All-once shown s.accounts ids (distinct-IsDistinct (map (λ l. l.account_id) ls))
          (λ id. omega (
            arith,
            keyed id,
            count-le (with_id shown id) (λ a. a.id == id) s.accounts (λ a h. ground arith),
          ))
          (sym (length-select (with_ids shown ids) s.accounts) ∙ ==→eq _ _ counted)

    each :
        (l : LineInput)
        → contains l.account_id ids ≡ true
        → (count_if (on_chart svc.firm_id svc.client_id l.account_id) s.accounts ≡ 1)
          × (count_if (is_postable svc.firm_id svc.client_id l.account_id) s.accounts ≡ 1)
    each l h =
        let id = l.account_id in
        let one = All-contains (λ id. count_if (with_id shown id) s.accounts ≡ 1) id ids found h in
        let low = checked_count svc shown ids id s.accounts h checked in
        let mid =
          count-le (is_postable svc.firm_id svc.client_id id)
            (on_chart svc.firm_id svc.client_id id) s.accounts (λ a h. ground arith) in
        let high =
          count-le (on_chart svc.firm_id svc.client_id id) (λ a. a.id == id) s.accounts
            (λ a h. ground arith) in
        (omega (arith, one, low, mid, high, keyed id), omega (arith, one, low, mid, high, keyed id))
