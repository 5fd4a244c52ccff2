-- ===== src/Stripe/Tests.antt =====
-- gateway/app/billing.py: a paid checkout that is sent twice, and the invoices of a subscription.
use Prim.Native.String.{◌++◌ as concat}
use magistrate.Prelude.{true, List, ◌≤◌, String, ◌≡◌, refl, some, [], ◌∷◌}
use magistrate.Prelude.Int.{ℤ, pos, ◌+ℤ◌}
use magistrate.Prelude.Tables.{lookup, update, find_row}
use magistrate.Billing.Catalog.{Env, Plan, PlanKind, Pack, microcredits}
use magistrate.Billing.Db.{Account, Db, Result, err, ok, ledger_id, conflicts, insert_ledger}
use magistrate.Billing.Account.{new_account, open_account, grant_period, account_row}
use magistrate.Billing.Credit.{place_credits}
use magistrate.Prelude.Chars.{all_chars, starts_with}
use magistrate.Stripe.Json.{
  Json, empty, field, get, field_of, as_text, as_int, as_time, is_object, is_true, is_text,
}
use magistrate.Stripe.Verify.{
  Wire, Event, first_part, any_part, any_foreign, timestamp_of, far_from, verify, envelope,
}
use magistrate.Stripe.Rows.{
  SessionKind, Store, metadata, customer_owner, bound_owner, first_item, price_of, price_item,
  paid_plan, plan_for,
}
use magistrate.Stripe.Subscription.{subscription}
use magistrate.Stripe.Invoice.{subscription_of, invoice_paid, invoice_for, invoice}
use magistrate.Stripe.Process.{
  Answer, processed, duplicate, with_ledger, purchase, dispatch, take_event, process,
}
use magistrate.Stripe.Replay.{
  Operation, processing, elsewhere, perform, perform_all, process-duplicate,
}
use magistrate.Stripe.Period.{available_of, invoice_paid-twice}
use magistrate.Stripe.Stale.{seen_by, invoice-seen}

program : Unit {0}
unfolding lookup update find_row microcredits ledger_id conflicts insert_ledger open_account
    grant_period account_row place_credits get field_of as_text as_int as_time is_object is_true
    is_text starts_with first_part any_part any_foreign all_chars timestamp_of far_from verify
    envelope metadata customer_owner bound_owner first_item price_of price_item paid_plan plan_for
    subscription subscription_of invoice_paid invoice_for invoice with_ledger purchase dispatch
    take_event process perform perform_all ◌+ℤ◌
program = tt

abbrev plan : Plan
plan = record {
  id = "pro";
  kind = PlanKind.subscription;
  name = "Pro";
  stripe_price_id = some "price_pro";
  monthly_included_credits = 5;
  objective_reserve_credits = 3;
  monthly_spend_limit_credits = 8;
  concurrency_limit = 2;
  low_credit_warning_credits = 1;
  grace_days = 3;
  entitlements = "execution" ∷ [];
}

abbrev pack : Pack
pack = record { id = "pack"; name = "Pack"; credits = 4; stripe_price_id = some "price_pack" }

abbrev env : Env
env = record {
  catalog = record {
    usd_micros_per_credit = 10_000;
    plans = ("pro", plan) ∷ [];
    packs = ("pack", pack) ∷ [];
    default_plan = "pro";
    rates = [];
  };
  period_key = λ now. "p";
  digest = λ owner key. concat owner (concat "/" key);
  ceil_quotient = λ a b. 0;
  has_profile = λ owner. true;
}

abbrev session_body : Json
session_body = Json.object (
    field "id" (Json.text "cs_1")
      (field "mode" (Json.text "payment") (field "payment_status" (Json.text "paid") empty)))

abbrev event_json : Json
event_json = Json.object (
    field "id" (Json.text "evt_1") (
      field "type" (Json.text "checkout.session.completed") (
        field "created" (Json.int (pos 90))
          (field "data" (Json.object (field "object" session_body empty)) empty))))

abbrev wire : Wire
wire = record {
  byte_length = λ s. 10;
  parts = λ s. ("t", "100") ∷ ("v1", s) ∷ [];
  int = λ s. some (pos 100);
  show_int = λ n. "100";
  hmac = λ secret signed. concat secret signed;
  sha256 = λ s. s;
  parse = λ s. some event_json;
}

abbrev show : ℤ → String
show n = "start"

abbrev subscriber : Account
subscriber = record (new_account env 10) {
  available = pos 7;
  subscription_id = some "sub_1";
  provider_event_created = some 50;
}

abbrev store : Store
store = record {
  events = [];
  sessions =
      (
        "cs_1",
        record {
          owner_user_id = "ada";
          catalog_id = "pack";
          kind = SessionKind.credit_pack;
          idempotency_key = "k";
          created_at = 80;
        },
      )
      ∷ [];
  profiles = "ada" ∷ [];
  ledger = record {
    accounts = ("ada", subscriber) ∷ [];
    reservations = [];
    ledger = [];
    usage_rows = [];
  };
}

abbrev value : Result (Answer × Store) → Answer × Store
value (err e) = (processed "", store)
value (ok a) = a

abbrev after : Answer × Store
after = value (process env wire show "whsec" "{}" "whsec100.{}" 110 store)

purchase_test : available_of "ada" after.1.ledger ≡ some (pos 4_000_007)
unfolding program
purchase_test = refl

-- The event with another content, the same one again, one with a forged signature, and a write of another
-- component.
abbrev in_between : List Operation
in_between =
    processing "other" "whsec100.other" 111
    ∷ processing "{}" "whsec100.{}" 112
    ∷ processing "{}" "forged" 113
    ∷ elsewhere store
    ∷ []

abbrev much_later : Store
much_later = perform_all env wire show "whsec" in_between after.1

process-duplicate_example :
    (e : Event) × (envelope wire "{}" ≡ ok e)
    × (process env wire show "whsec" "{}" "whsec100.{}" 120 much_later
        ≡ ok (duplicate e.id, much_later))
unfolding program
process-duplicate_example =
    process-duplicate env wire show "whsec" "{}" "whsec100.{}" "whsec100.{}" 110 120 store
      in_between {s = after} refl refl

abbrev invoice_body : Json
invoice_body =
    Json.object
      (field "subscription" (Json.text "sub_1") (field "period_start" (Json.int (pos 60)) empty))

abbrev first_paid : Db
first_paid =
    invoice_paid env show "evt_2" "sub_1" invoice_body 100 95 "ada" subscriber plan store.ledger

abbrev once_paid : Account
once_paid = record subscriber {
  available = pos 5_000_007;
  current_period_start = some (pos 60);
  period_key = some "start";
  provider_event_created = some 95;
  updated_at = 100;
}

invoice_paid-twice_example :
    available_of "ada"
      (invoice_paid env show "evt_3" "sub_1" invoice_body 105 96 "ada" once_paid plan first_paid)
    ≡ some (pos 5_000_007)
unfolding program
invoice_paid-twice_example =
    invoice_paid-twice env show "evt_2" "evt_3" "sub_1" invoice_body invoice_body 100 105 95 96
      "ada" subscriber once_paid plan plan store.ledger {b = once_paid} refl refl

invoice-seen_example : seen_by "ada" store.ledger ≤ seen_by "ada" first_paid
unfolding program
invoice-seen_example =
    invoice-seen env show "evt_2" "invoice.paid" invoice_body 100 95 store.ledger
      {after = first_paid} "ada" (refl, tt) refl
