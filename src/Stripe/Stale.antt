-- ===== src/Stripe/Stale.antt =====
-- gateway/app/billing.py: the provider's events move an account forwards only.
use mathlib.Core.Path.{subst}
use magistrate.Prelude.{
  ℕ, ◌≤◌, String, ◌≡◌, false, Option, none, some, ◌==◌, eq_iff, arith, Bool-cases, Option-cases,
  inl, inr,
}
use magistrate.Prelude.Int.{ℤ}
use magistrate.Prelude.Tables.{
  Table, lookup, update, find_row, lookup-update, Distinct, lookup-find_row,
}
use magistrate.Billing.Catalog.{Env}
use magistrate.Billing.Db.{
  Account, Db, ok, >>=-eq-ok, or_raise, or_raise-eq-ok, ok-injective, subscription_unknown,
}
use magistrate.Stripe.Json.{Json}
use magistrate.Stripe.Rows.{same, paid_plan}
use magistrate.Stripe.Subscription.{is_stale}
use magistrate.Stripe.Invoice.{invoice, invoice_for, invoice_paid, subscription_of}

-- The creation time of the last event that an account has taken.
abbrev pub seen : Option Account → ℕ
seen none = 0
seen (some a) = elim a.provider_event_created [ none ↦ 0 | some n ↦ n ]

abbrev pub seen_by : String → Db → ℕ
seen_by owner db = seen (lookup owner db.accounts)

seen_by-update :
    (k owner : String) (f : Account → Account) (accounts : Table Account) {a : Account}
    → lookup owner accounts ≡ some a
    → seen (some a) ≤ seen (some (f a))
    → seen (lookup k accounts) ≤ seen (lookup k (update owner f accounts))
seen_by-update k owner f accounts {a} found grows = elim (Bool-cases (owner == k)) [
  | inl it ↦
      let same : owner ≡ k = ground (arith, eq_iff owner k) in
      let here : lookup k accounts ≡ some a = subst (λ j. lookup j accounts ≡ some a) same found in
      rw (lookup-update owner k f accounts, it, here) grows
  | inr other ↦ rw (lookup-update owner k f accounts, other) (omega arith)
]

stale-seen : (a : Account) (created : ℕ) → is_stale a created ≡ false → seen (some a) ≤ created
stale-seen a created h = ground arith

invoice_for-seen :
    (env : Env) (show : ℤ → String) (event_id event_type id : String) (body : Json)
    (now created : ℕ) (owner : String) (a : Account) (db : Db) {after : Db} (k : String)
    → lookup owner db.accounts ≡ some a
    → is_stale a created ≡ false
    → invoice_for env show event_id event_type id body now created (owner, a) db ≡ ok after
    → seen_by k db ≤ seen_by k after
unfolding invoice_for invoice_paid
invoice_for-seen env show event_id event_type id body now created owner a db {after} k found fresh
      e =
    let (plan, _, e1) = >>=-eq-ok (paid_plan env.catalog (some a.catalog_id)) _ e in
    let le = stale-seen a created fresh in
    elim (Bool-cases (event_type == "invoice.payment_failed")) [
      | inl failed ↦
          subst (λ (d : Db). seen_by k db ≤ seen_by k d) (ok-injective (rw failed at e1))
            (seen_by-update k owner _ db.accounts found le)
      | inr paid ↦
          subst (λ (d : Db). seen_by k db ≤ seen_by k d) (ok-injective (rw paid at e1))
            (seen_by-update k owner _ db.accounts found le)
    ]

-- With distinct owners, an invoice never moves an account to an earlier event: for every owner, the
-- creation time of the last event that the account has taken does not decrease.
pub invoice-seen :
    (env : Env) (show : ℤ → String) (event_id event_type : String) (body : Json) (now created : ℕ)
    (db : Db) {after : Db} (k : String)
    → Distinct db.accounts
    → invoice env show event_id event_type body now created db ≡ ok after
    → seen_by k db ≤ seen_by k after
unfolding invoice
invoice-seen env show event_id event_type body now created db {after} k distinct e =
    elim (Option-cases (subscription_of body)) [
      | inl no_subscription ↦
          subst (λ (d : Db). seen_by k db ≤ seen_by k d)
            (ok-injective (rw (no_subscription, invoice) at e)) (omega arith)
      | inr (id, named) ↦
          let e1 = rw (named, invoice) at e in
          let ((owner, a), held, e2) =
            >>=-eq-ok
              (or_raise (find_row (λ a. same a.subscription_id id) db.accounts)
                subscription_unknown)
              _ e1 in
          let found =
            lookup-find_row _ db.accounts distinct
              (or_raise-eq-ok (find_row (λ a. same a.subscription_id id) db.accounts) _ held) in
          elim (Bool-cases (is_stale a created)) [
            | inl stale ↦
                subst (λ (d : Db). seen_by k db ≤ seen_by k d) (ok-injective (rw stale at e2))
                  (omega arith)
            | inr fresh ↦
                invoice_for-seen env show event_id event_type id body now created owner a db k found
                  fresh (rw fresh at e2)
          ]
    ]
