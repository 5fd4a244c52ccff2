-- ===== src/Stripe/Rows.antt =====
-- gateway/app/billing.py: the tables that webhooks read and write, and the owner and the price of an
-- event. The identifiers of the payment provider are texts; any other JSON value names no row.
use magistrate.Prelude.{
  ℕ, String, Bool, true, false, not, Option, none, some, List, ◌==◌, if◌then◌else◌,
}
use magistrate.Prelude.Tables.{Table, lookup, find_row}
use magistrate.Billing.Catalog.{Plan, Pack, BillingCatalog, is_subscription}
use magistrate.Billing.Db.{
  Result, err, ok, ◌>>=◌, ◌>>◌, or_raise, raise_if, Account, Db, key_error, type_error,
  subscription_owner_conflict, subscription_unknown, subscription_price_conflict,
  subscription_price_unknown,
}
use magistrate.Stripe.Json.{Json, none_left, item, empty, field, get, as_text}

pub record EventRow : Type 0 where
  pub event_type : String
  pub received_at : ℕ
  pub payload_sha256 : Option String
  pub processed_at : Option ℕ

pub data SessionKind : Type 0 where
  subscription credit_pack : SessionKind

pub record Session : Type 0 where
  pub owner_user_id : String
  pub catalog_id : String
  pub kind : SessionKind
  pub idempotency_key : String
  pub created_at : ℕ

-- `billing_webhook_events`, `billing_checkout_sessions`, the ids of `user_profiles` and the ledger.
pub record Store : Type 0 where
  pub events : Table EventRow
  pub sessions : Table Session
  pub profiles : List String
  pub ledger : Db

-- `_metadata`
unfoldable pub metadata : Json → Option String × Option String
metadata body = (
  as_text (get "magistrate_owner" (get "metadata" body)),
  as_text (get "catalog_id" (get "metadata" body)),
)

-- An absent text and the empty one count as false.
abbrev pub truthy : Option String → Option String
truthy none = none
truthy (some s) = if s == "" then none else some s

abbrev pub same : Option String → String → Bool
same none s = false
same (some t) s = t == s

abbrev pub differ : Option String → Option String → Bool
differ none b = false
differ (some s) none = false
differ (some s) (some t) = not (s == t)

-- SELECT owner_user_id ... WHERE external_customer_ref = ?
unfoldable pub customer_owner : Option String → Table Account → Option String
customer_owner none accounts = none
customer_owner (some customer) accounts =
    elim (find_row (λ a. same a.external_customer_ref customer) accounts) [
      | none ↦ none
      | some row ↦ some row.0
    ]

-- The owner whom the metadata names and whose customer it is.
unfoldable pub bound_owner : (named customer : Option String) → Result String
bound_owner named customer = do
  raise_if (differ (truthy named) (truthy customer)) subscription_owner_conflict
  owner ←
      or_raise (elim (truthy named) [ none ↦ truthy customer | some s ↦ some s ])
        subscription_unknown
  raise_if (not (same customer owner)) subscription_unknown
  ok owner

-- `items[0]` if `items` counts as true, and `None` if not.
unfoldable pub first_item : Json → Result Json
first_item Json.null = ok Json.null
first_item (Json.boolean true) = err type_error
first_item (Json.boolean false) = ok Json.null
first_item (Json.int n) = err type_error
first_item (Json.float true) = err type_error
first_item (Json.float false) = ok Json.null
first_item (Json.text s) = ok Json.null
first_item (Json.array none_left) = ok Json.null
first_item (Json.array (item x xs)) = ok x
first_item (Json.object empty) = ok Json.null
first_item (Json.object (field k v fields)) = err key_error

unfoldable pub price_of : Json → Result (Option String)
price_of body = do
  first ← first_item (get "data" (get "items" body))
  ok (as_text (get "id" (get "price" first)))

pub data PriceItem : Type 0 where
  plan_item : Plan → PriceItem
  pack_item : Pack → PriceItem

-- `price_item`: plans are searched before packs.
unfoldable pub price_item : BillingCatalog → (price_id : String) → Option PriceItem
price_item catalog price_id = elim (find_row (λ p. same p.stripe_price_id price_id) catalog.plans) [
  | some plan ↦ some (plan_item plan.1)
  | none ↦ elim (find_row (λ p. same p.stripe_price_id price_id) catalog.packs) [
    | some pack ↦ some (pack_item pack.1)
    | none ↦ none
  ]
]

abbrev pub plan_of : Option PriceItem → Option String
plan_of (some (plan_item plan)) = some plan.id
plan_of _ = none

abbrev pub item_of : BillingCatalog → Option String → Option PriceItem
item_of catalog none = none
item_of catalog (some price) = price_item catalog price

-- A plan of the catalog that is paid for.
unfoldable pub paid_plan : BillingCatalog → Option String → Result Plan
paid_plan catalog none = err subscription_price_unknown
paid_plan catalog (some id) = do
  plan ← or_raise (lookup id catalog.plans) subscription_price_unknown
  raise_if (not (is_subscription plan.kind)) subscription_price_unknown
  ok plan

-- The plan of a subscription is that of its price, which the metadata may not contradict.
unfoldable pub plan_for : BillingCatalog → (named price : Option String) → Result (String × Plan)
plan_for catalog named price = do
  let priced = plan_of (item_of catalog price)
  raise_if (differ (truthy named) (truthy priced)) subscription_price_conflict
  id ← or_raise priced subscription_price_unknown
  plan ← paid_plan catalog (some id)
  ok (id, plan)
