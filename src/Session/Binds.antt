-- ===== src/Session/Binds.antt =====
-- Inversion of a sequence of actions that succeeds.
use company_tax_and_accounti.Base.{
  ℕ, ◌≡◌, refl, ap, true, false, Option, String, ◌++◌, [], ◌∷◌, arith, any, ◌==◌,
}
use company_tax_and_accounti.Model.{AuditAction, AuditDetails, JournalEntry}
use company_tax_and_accounti.Tenant.{visible}
use company_tax_and_accounti.Session.{
  Action, Error, Result, Session, ok, err, ◌>>=◌, ◌>>◌, insert_entry, write_audit,
}

module _ {A B : Type 0} where
  next : (A → Action B) → Result A → Session → Result B × Session
  next f r s = elim r [ ok a ↦ f a s | err e ↦ (err e, s) ]

  next-ok :
      (f : A → Action B) (r : Result A) (s : Session) {b : B}
      → (next f r s).0 ≡ ok b
      → (a : A) × (r ≡ ok a) × ((f a s).0 ≡ ok b) × ((next f r s).1 ≡ (f a s).1)
  unfolding next
  next-ok f (ok a) s h = (a, refl, h, refl)
  next-ok f (err e) s h = cc

  pub >>=-ok :
      (m : Action A) (f : A → Action B) (s : Session) {b : B}
      → ((m >>= f) s).0 ≡ ok b
      → (a : A) × ((m s).0 ≡ ok a) × ((f a (m s).1).0 ≡ ok b) × (((m >>= f) s).1 ≡ (f a (m s).1).1)
  unfolding next
  >>=-ok m f s h = next-ok f (m s).0 (m s).1 h

  pub >>=-step :
      (m : Action A) (f : A → Action B) (s s' : Session) (a : A)
      → m s ≡ (ok a, s')
      → (m >>= f) s ≡ f a s'
  unfolding next
  >>=-step m f s s' a e = ap (λ (p : Result A × Session). next f p.0 p.1) e

  pub >>=-stop :
      (m : Action A) (f : A → Action B) (s s' : Session) (x : Error)
      → m s ≡ (err x, s')
      → (m >>= f) s ≡ (err x, s')
  unfolding next
  >>=-stop m f s s' x e = ap (λ (p : Result A × Session). next f p.0 p.1) e

module _ {B : Type 0} where
  pub >>-step :
      (m : Action (Unit {0})) (k : Action B) (s s' : Session)
      → m s ≡ (ok tt, s')
      → (m >> k) s ≡ k s'
  >>-step m k s s' e = >>=-step m (λ _. k) s s' tt e

  pub >>-ok :
      (m : Action (Unit {0})) (k : Action B) (s : Session) {b : B}
      → ((m >> k) s).0 ≡ ok b
      → ((m s).0 ≡ ok tt) × ((k (m s).1).0 ≡ ok b) × (((m >> k) s).1 ≡ (k (m s).1).1)
  >>-ok m k s h = let (a, e, h', e') = >>=-ok m (λ _. k) s h in (e, h', e')

-- A write of the audit log succeeds exactly where the policy shows the tenant's rows, and appends
-- one event.
pub write_audit-ok :
    (f c : ℕ) (actor : String) (act : AuditAction) (ty : String) (id : Option ℕ)
    (details : AuditDetails) (s : Session)
    → (write_audit f c actor act ty id details s).0 ≡ ok tt
    → (visible s.guc f c ≡ true)
      × ((write_audit f c actor act ty id details s).1 ≡ record s {
        audit =
            s.audit
            ++ (record {
              firm_id = f;
              client_id = c;
              actor = actor;
              action = act;
              entity_type = ty;
              entity_id = id;
              details = details;
            }
                ∷ []);
      })
unfolding write_audit
write_audit-ok f c actor act ty id details s h = ground arith

pub insert_entry-ok :
    (e : JournalEntry) (s : Session)
    → (insert_entry e s).0 ≡ ok tt
    → (visible s.guc e.firm_id e.client_id ≡ true)
      × (any (λ x. x.id == e.id) s.entries ≡ false)
      × ((insert_entry e s).1 ≡ record s { entries = s.entries ++ (e ∷ []) })
insert_entry-ok e s h = ground arith

pub write_audit-step :
    (f c : ℕ) (actor : String) (act : AuditAction) (ty : String) (id : Option ℕ)
    (details : AuditDetails) (s : Session)
    → visible s.guc f c ≡ true
    → write_audit f c actor act ty id details s ≡ (
      ok tt,
      record s {
        audit =
            s.audit
            ++ (record {
              firm_id = f;
              client_id = c;
              actor = actor;
              action = act;
              entity_type = ty;
              entity_id = id;
              details = details;
            }
                ∷ []);
      },
    )
unfolding write_audit
write_audit-step f c actor act ty id details s shown = rw shown refl
