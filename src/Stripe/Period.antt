-- ===== src/Stripe/Period.antt =====
-- gateway/app/billing.py: the credits that a period includes are granted once.
use mathlib.Core.Option
use mathlib.Core.Path.{subst}
use magistrate.Prelude.{
  ℕ, String, ◌≡◌, refl, Bool, true, Option, some, List, eq_refl, Bool-cases, inl, inr, ap,
}
use magistrate.Prelude.Int.{ℤ, int_laws}
use magistrate.Prelude.Tables.{lookup, lookup-update_self}
use magistrate.Billing.Catalog.{Env, Plan}
use magistrate.Billing.Db.{
  Account, Db, Entry, EntryType, Metadata, conflicts, insert_ledger, ledger_id,
}
use magistrate.Stripe.Json.{Json}
use magistrate.Stripe.Invoice.{invoice_paid, period_start, grant_key}

-- After an entry was inserted or ignored, its key is taken.
conflicts-insert_ledger :
    (env : Env) (owner key : String) (type : EntryType) (amount balance : ℤ) (source : String)
    (now : ℕ) (rid objective : Option String) (meta : Metadata) (ledger : List Entry)
    → conflicts
        (ledger_id env owner key)
        owner
        key
        (insert_ledger env owner key type amount balance source now rid objective meta ledger).0
      ≡ true
unfolding insert_ledger conflicts
conflicts-insert_ledger env owner key type amount balance source now rid objective meta ledger =
    elim (Bool-cases (conflicts (ledger_id env owner key) owner key ledger)) [
      | inl taken ↦ rw (taken, insert_ledger) taken
      | inr free ↦ rw (free, insert_ledger, eq_refl (ledger_id env owner key)) refl
    ]

-- Whether the grant of an owner's period is on the ledger.
abbrev pub is_granted : Env → (ℤ → String) → (owner subscription_id : String) → ℤ → Db → Bool
is_granted env show owner id start db =
    conflicts (ledger_id env owner (grant_key show id start)) owner (grant_key show id start)
      db.ledger

invoice_paid-is_granted :
    (env : Env) (show : ℤ → String) (event_id id : String) (body : Json) (now created : ℕ)
    (owner : String) (a : Account) (plan : Plan) (db : Db)
    → is_granted env show owner id
        (period_start body now)
        (invoice_paid env show event_id id body now created owner a plan db)
      ≡ true
unfolding invoice_paid
invoice_paid-is_granted env show event_id id body now created owner a plan db =
    conflicts-insert_ledger env owner (grant_key show id (period_start body now)) _ _ _ _ _ _ _ _
      db.ledger

-- The balance of an owner.
abbrev pub available_of : String → Db → Option ℤ
available_of owner db = Option.map (λ (a : Account). a.available) (lookup owner db.accounts)

invoice_paid-available :
    (env : Env) (show : ℤ → String) (event_id id : String) (body : Json) (now created : ℕ)
    (owner : String) (a : Account) (plan : Plan) (db : Db) {b : Account}
    → is_granted env show owner id (period_start body now) db ≡ true
    → lookup owner db.accounts ≡ some b
    → available_of owner (invoice_paid env show event_id id body now created owner a plan db)
      ≡ some b.available
unfolding invoice_paid insert_ledger
invoice_paid-available env show event_id id body now created owner a plan db {b} taken found =
    rw (invoice_paid, insert_ledger, taken, lookup-update_self owner _ db.accounts found)
      (ap some (omega int_laws))

-- After a paid invoice of a subscription and a period, the next paid invoice of the same
-- subscription, period and owner leaves the balance as it is: the included credits are granted once.
pub invoice_paid-twice :
    (env : Env) (show : ℤ → String) (event_id event_id' id : String) (body body' : Json)
    (now now' created created' : ℕ) (owner : String) (a a' : Account) (plan plan' : Plan) (db : Db)
    {b : Account}
    → period_start body now ≡ period_start body' now'
    → lookup owner (invoice_paid env show event_id id body now created owner a plan db).accounts
      ≡ some b
    → available_of owner (
        invoice_paid env show event_id' id body' now' created' owner a' plan'
          (invoice_paid env show event_id id body now created owner a plan db))
      ≡ some b.available
invoice_paid-twice env show event_id event_id' id body body' now now' created created' owner a a'
      plan plan' db same found =
    invoice_paid-available env show event_id' id body' now' created' owner a' plan' _
      (subst
        (λ start.
          is_granted env show owner id start
            (invoice_paid env show event_id id body now created owner a plan db)
          ≡ true)
        same (invoice_paid-is_granted env show event_id id body now created owner a plan db))
      found
