-- ===== src/Stripe/Invoice.antt =====
-- gateway/app/billing.py: `StripeWebhookProcessor._invoice`.
use Prim.Native.String.{◌++◌ as concat}
use magistrate.Prelude.{ℕ, String, Option, none, some, ◌==◌, if◌then◌else◌}
use magistrate.Prelude.Int.{ℤ, pos, ◌+ℤ◌}
use magistrate.Prelude.Tables.{update, find_row}
use magistrate.Billing.Catalog.{Env, Plan, microcredits}
use magistrate.Billing.Db.{
  Result, ok, ◌>>=◌, or_raise, Account, Db, EntryType, Metadata, insert_ledger,
  subscription_unknown,
}
use magistrate.Stripe.Json.{Json, get, as_text, as_int, is_object}
use magistrate.Stripe.Rows.{same, paid_plan}
use magistrate.Stripe.Subscription.{is_stale, grace_end}

-- The subscription of an invoice, which may be given with its fields.
unfoldable pub subscription_of : Json → Option String
subscription_of body =
    let reference = get "subscription" body in
    if is_object reference then as_text (get "id" reference) else as_text reference

abbrev pub payment_failed : Plan → (now event_created : ℕ) → Account → Account
payment_failed plan now event_created a = record a {
  status = "past_due";
  grace_ends_at = some (grace_end a now plan);
  provider_event_created = some event_created;
  updated_at = now;
}

abbrev pub paid :
    (show : ℤ → String)
    → (start : ℤ) → (end : Option ℤ) → (grant : ℕ) → (now event_created : ℕ) → Account
    → Account
paid show start end grant now event_created a = record a {
  status = "active";
  grace_ends_at = none;
  current_period_start = some start;
  current_period_end = end;
  period_key = some (show start);
  period_spend = 0;
  available = a.available +ℤ pos grant;
  provider_event_created = some event_created;
  updated_at = now;
}

abbrev pub grant_key : (show : ℤ → String) → (subscription_id : String) → (start : ℤ) → String
grant_key show subscription_id start =
    concat "included:" (concat subscription_id (concat ":" (show start)))

abbrev pub period_start : Json → (now : ℕ) → ℤ
period_start body now = elim (as_int (get "period_start" body)) [ none ↦ pos now | some n ↦ n ]

abbrev pub period_end : Json → Account → Option ℤ
period_end body a = elim (as_int (get "period_end" body)) [
  | none ↦ a.current_period_end
  | some n ↦ some n
]

-- The credits that a month includes are granted once for the subscription and the period.
unfoldable pub invoice_paid :
    Env
    → (show : ℤ → String) → (event_id subscription_id : String) → Json
    → (now event_created : ℕ) → (owner : String) → Account
    → Plan
    → Db
    → Db
invoice_paid env show event_id subscription_id body now event_created owner a plan db =
    let start = period_start body now in
    let grant = microcredits plan.monthly_included_credits in
    let (ledger, inserted) =
      insert_ledger env owner (grant_key show subscription_id start) EntryType.included_grant
        (pos grant) (a.available +ℤ pos grant) "stripe" now none none
        (Metadata.invoice_grant plan.id event_id (as_text (get "id" body))) db.ledger in
    record db {
      ledger = ledger;
      accounts =
          update owner
            (paid show start (period_end body a) (if inserted then grant else 0) now event_created)
            db.accounts;
    }

-- The account is known, and no later event was taken.
unfoldable pub invoice_for :
    Env
    → (show : ℤ → String) → (event_id event_type subscription_id : String) → Json
    → (now event_created : ℕ) → String × Account
    → Db
    → Result Db
invoice_for env show event_id event_type subscription_id body now event_created (owner, a) db = do
  plan ← paid_plan env.catalog (some a.catalog_id)
  ok (
      if event_type == "invoice.payment_failed"
      then record db { accounts = update owner (payment_failed plan now event_created) db.accounts }
      else invoice_paid env show event_id subscription_id body now event_created owner a plan db)

unfoldable pub invoice :
    Env
    → (show : ℤ → String) → (event_id event_type : String) → Json
    → (now event_created : ℕ) → Db
    → Result Db
invoice env show event_id event_type body now event_created db = elim (subscription_of body) [
  | none ↦ ok db
  | some id ↦ do
    row ← or_raise (find_row (λ a. same a.subscription_id id) db.accounts) subscription_unknown
    (if is_stale row.1 event_created
        then ok db
        else invoice_for env show event_id event_type id body now event_created row db)
]
