-- ===== src/Stripe/Process.antt =====
-- gateway/app/billing.py: `StripeWebhookProcessor.process`. It runs in one transaction, so an event
-- that raises is not recorded.
use Prim.Native.String.{◌++◌ as concat}
use magistrate.Prelude.{
  ℕ, String, Bool, true, false, ◌&&◌, ◌||◌, not, Option, none, some, ◌∷◌, ◌==◌, if◌then◌else◌,
}
use magistrate.Prelude.Int.{ℤ}
use magistrate.Prelude.Tables.{Table, lookup}
use magistrate.Billing.Catalog.{Env, microcredits}
use magistrate.Billing.Db.{
  Result, err, ok, ◌>>=◌, ◌>>◌, or_raise, raise_if, Db, Metadata, stripe_not_configured,
  webhook_conflict, checkout_unknown, catalog_item_not_found,
}
use magistrate.Billing.Account.{account_row}
use magistrate.Billing.Credit.{place_credits}
use magistrate.Prelude.Chars.{starts_with}
use magistrate.Stripe.Json.{get, as_text, is_text}
use magistrate.Stripe.Verify.{Wire, Event, verify, envelope}
use magistrate.Stripe.Rows.{EventRow, Session, SessionKind, Store}
use magistrate.Stripe.Subscription.{subscription}
use magistrate.Stripe.Invoice.{invoice}

abbrev pub is_credit_pack : SessionKind → Bool
is_credit_pack SessionKind.credit_pack = true
is_credit_pack _ = false

abbrev pub session_of : Option String → Table Session → Option Session
session_of none sessions = none
session_of (some id) sessions = lookup id sessions

-- A paid checkout of a credit pack.
unfoldable pub purchase : Env → Event → (now : ℕ) → Store → Result Store
purchase env e now store = do
  let id = as_text (get "id" e.body)
  session ← or_raise (session_of id store.sessions) checkout_unknown
  raise_if (not (is_credit_pack session.kind)) checkout_unknown
  pack ← or_raise (lookup session.catalog_id env.catalog.packs) catalog_item_not_found
  state ← account_row env session.owner_user_id now store.ledger
  let bought = Metadata.purchase pack.id (elim id [ none ↦ "" | some s ↦ s ])
  ok (record store {
    ledger =
        place_credits env session.owner_user_id (microcredits pack.credits) (concat "stripe:" e.id)
          "stripe" now bought state;
  })

abbrev pub is_purchase : Event → Bool
is_purchase e =
    e.kind == "checkout.session.completed"
    && is_text (get "mode" e.body) "payment"
    && is_text (get "payment_status" e.body) "paid"

unfoldable pub with_ledger : Store → Result Db → Result Store
with_ledger store result = do db ← result; ok (record store { ledger = db })

-- What the type of the event asks for.
unfoldable pub dispatch : Env → (show : ℤ → String) → Event → (now : ℕ) → Store → Result Store
dispatch env show e now store =
    if is_purchase e
    then purchase env e now store
    else if starts_with "customer.subscription." e.kind
    then with_ledger store (subscription env e.kind e.body now e.created store.ledger)
    else if e.kind == "invoice.paid" || e.kind == "invoice.payment_failed"
    then with_ledger store (invoice env show e.id e.kind e.body now e.created store.ledger)
    else ok store

pub data Answer : Type 0 where
  duplicate : (event_id : String) → Answer
  processed : (event_id : String) → Answer

-- A digest is compared only if one was stored.
abbrev pub is_conflict : EventRow → (digest : String) → Bool
is_conflict row digest = elim row.payload_sha256 [ none ↦ false | some d ↦ not (d == digest) ]

abbrev pub event_row : (kind : String) → (now : ℕ) → (digest : String) → EventRow
event_row kind now digest = record {
  event_type = kind;
  received_at = now;
  payload_sha256 = some digest;
  processed_at = some now;
}

-- The transaction, for an event that has been verified.
unfoldable pub take_event :
    Env
    → (show : ℤ → String) → Event
    → (digest : String) → (now : ℕ) → Store
    → Result (Answer × Store)
take_event env show e digest now store = elim (lookup e.id store.events) [
  | some row ↦ if is_conflict row digest then err webhook_conflict else ok (duplicate e.id, store)
  | none ↦ do
    after ←
        dispatch env show e now
          (record store { events = (e.id, event_row e.kind now digest) ∷ store.events })
    ok (processed e.id, after)
]

-- The secret is that of the environment, without the blanks around it.
unfoldable pub process :
    Env
    → Wire
    → (show : ℤ → String) → (secret payload signature : String) → (now : ℕ) → Store
    → Result (Answer × Store)
process env wire show secret payload signature now store = do
  raise_if (secret == "") stripe_not_configured
  verify wire payload signature secret now
  e ← envelope wire payload
  take_event env show e (wire.sha256 payload) now store
