-- ===== src/Stripe/Subscription.antt =====
-- gateway/app/billing.py: `StripeWebhookProcessor._subscription`.
use magistrate.Prelude.{
  not, ◌&&◌, ℕ, ◌+◌, ◌*◌, String, Bool, false, ◌||◌, none, some, ◌==◌, if◌then◌else◌, ltb,
}
use magistrate.Prelude.Tables.{update, total}
use magistrate.Billing.Catalog.{Env, Plan}
use magistrate.Billing.Db.{
  Result, ok, ◌>>=◌, or_raise, Account, Db, subscription_unknown, integrity_error, raise_if, ◌>>◌,
}
use magistrate.Billing.Account.{account_row}
use magistrate.Stripe.Json.{Json, get, as_text, as_int, is_true}
use magistrate.Stripe.Rows.{metadata, customer_owner, bound_owner, price_of, plan_for}

-- Whether the account has taken an event that was created later.
abbrev pub is_stale : Account → (event_created : ℕ) → Bool
is_stale a event_created = elim a.provider_event_created [
  | none ↦ false
  | some seen ↦ ltb event_created seen
]

abbrev pub grace_end : Account → (now : ℕ) → Plan → ℕ
grace_end a now plan = elim a.grace_ends_at [
  | some ends ↦ ends
  | none ↦ now + plan.grace_days * 86400
]

abbrev pub status_of : (event_type : String) → Json → String
status_of event_type body =
    if event_type == "customer.subscription.deleted"
    then "canceled"
    else elim (as_text (get "status" body)) [ none ↦ "canceled" | some s ↦ s ]

abbrev pub is_overdue : String → Bool
is_overdue status = status == "past_due" || status == "unpaid"

-- The row after the UPDATE; a period that the event does not give as an integer is none.
abbrev pub subscribed :
    Env
    → (event_type : String) → Json
    → (id : String) → (catalog_id : String) → Plan
    → (now : ℕ) → (event_created : ℕ) → Account
    → Account
subscribed env event_type body id catalog_id plan now event_created a =
    let status = status_of event_type body in
    let canceled = status == "canceled" in
    record a {
      catalog_id = if canceled then env.catalog.default_plan else catalog_id;
      status = if canceled then "active" else status;
      subscription_id = if canceled then none else some id;
      current_period_start = as_int (get "current_period_start" body);
      current_period_end = as_int (get "current_period_end" body);
      cancel_at_period_end = is_true (get "cancel_at_period_end" body);
      grace_ends_at = if is_overdue status then some (grace_end a now plan) else none;
      provider_event_created = some event_created;
      updated_at = now;
    }

-- The unique index on subscriptions: at most one account has one.
abbrev pub has_subscription : (id : String) → Account → ℕ
has_subscription id a = elim a.subscription_id [ none ↦ 0 | some s ↦ if s == id then 1 else 0 ]

unfoldable pub subscription :
    Env → (event_type : String) → Json → (now event_created : ℕ) → Db → Result Db
subscription env event_type body now event_created db = do
  let (named, named_plan) = metadata body
  owner ← bound_owner named (customer_owner (as_text (get "customer" body)) db.accounts)
  id ← or_raise (as_text (get "id" body)) subscription_unknown
  price ← price_of body
  priced ← plan_for env.catalog named_plan price
  state ← account_row env owner now db
  let (a, db1) = state
  let rows =
      update owner (subscribed env event_type body id priced.0 priced.1 now event_created)
        db1.accounts
  let taken = not (is_stale a event_created) && ltb 1 (total (has_subscription id) rows)
  raise_if taken integrity_error
  ok (if is_stale a event_created then db1 else record db1 { accounts = rows })
