-- ===== src/Billing/Db.antt =====
-- gateway/app/billing.py, gateway/app/db.py: the billing tables and the errors of a transaction.
-- A transaction that raises is rolled back, so an error carries no state. Columns of the schema
-- that bound a number to 64 bits are unbounded here, as Python's numbers are.
use Prim.Native.String.{◌++◌ as concat, [] as empty_text, ◌∷◌ as char_then}
use magistrate.Prelude.{
  ℕ, zero, suc, String, Bool, true, false, ◌&&◌, ◌||◌, Option, none, some, List, [], ◌∷◌, ◌==◌,
  if◌then◌else◌,
}
use magistrate.Prelude.Int.{ℤ, pos, ◌+ℤ◌}
use magistrate.Prelude.Outcome.{Outcome}
pub use magistrate.Prelude.Outcome.{
  err, ok, ◌>>=◌, ◌>>◌, >>=-eq-ok, raise_if, raise_if-eq-ok, or_raise, or_raise-eq-ok, ok-injective,
}
use magistrate.Prelude.Tables.{Table, total}
use magistrate.Billing.Catalog.{Env}

-- `BillingError` by its code; the last three are the exceptions of a failed constraint, a missing
-- dictionary key and a missing row.
pub data BillingError : Type 0 where
  account_plan_invalid idempotency_conflict execution_not_entitled concurrency_limit : BillingError
  insufficient_credits spend_limit usage_invalid rate_not_configured : BillingError
  reservation_not_found settlement_conflict reservation_released refund_invalid : BillingError
  credits_invalid : BillingError
  webhook_too_large webhook_signature_invalid webhook_invalid webhook_conflict : BillingError
  stripe_not_configured checkout_unknown catalog_item_not_found : BillingError
  subscription_owner_conflict subscription_unknown : BillingError
  subscription_price_conflict subscription_price_unknown : BillingError
  integrity_error key_error type_error : BillingError

abbrev pub Result {ℓ} : Type ℓ → Type ℓ
Result A = Outcome BillingError A

pub record Usage : Type 0 where
  pub provider : String
  pub model : String
  pub input_tokens : ℕ
  pub output_tokens : ℕ
  pub compute_milliseconds : ℕ

pub data EntryType : Type 0 where
  included_grant topup reservation release settlement refund adjustment : EntryType

-- The value that `metadata_json` is the text of.
pub data Metadata : Type 0 where
  nothing : Metadata
  period_grant : (catalog_id period : String) → Metadata
  invoice_grant : (catalog_id event_id : String) (invoice_id : Option String) → Metadata
  purchase : (catalog_id stripe_session_id : String) → Metadata
  estimated : ℕ → Metadata
  reason : String → Metadata
  settled : (actual estimate : ℕ) → Usage → Metadata

pub record Entry : Type 0 where
  pub entry_id : String
  pub owner : String
  pub idempotency_key : String
  pub entry_type : EntryType
  pub amount : ℤ
  pub balance_after : ℤ
  pub reservation_id : Option String
  pub objective_id : Option String
  pub source : String
  pub metadata : Metadata
  pub created_at : ℕ

pub data ReservationStatus : Type 0 where
  reserved settled released : ReservationStatus

-- A row of `credit_reservations`, whose key in the table is its `reservation_id`.
pub record Reservation : Type 0 where
  pub owner : String
  pub objective_id : String
  pub idempotency_key : String
  pub estimated : ℕ
  pub actual : Option ℕ
  pub status : ReservationStatus
  pub usage : Option Usage
  pub created_at : ℕ
  pub updated_at : ℕ

pub record UsageRow : Type 0 where
  pub usage_id : String
  pub owner : String
  pub event_id : String
  pub objective_id : String
  pub reservation_id : String
  pub measured : Usage
  pub cost : ℕ
  pub created_at : ℕ

pub record Account : Type 0 where
  pub status : String
  pub catalog_id : String
  pub available : ℤ
  pub reserved : ℤ
  pub period_spend : ℕ
  pub period_key : Option String
  pub external_customer_ref : Option String
  pub subscription_id : Option String
  pub current_period_start : Option ℤ
  pub current_period_end : Option ℤ
  pub cancel_at_period_end : Bool
  pub grace_ends_at : Option ℕ
  pub provider_event_created : Option ℕ
  pub created_at : ℕ
  pub updated_at : ℕ

pub record Db : Type 0 where
  pub accounts : Table Account
  pub reservations : Table Reservation
  pub ledger : List Entry
  pub usage_rows : List UsageRow

unfoldable pub ledger_id : Env → String → String → String
ledger_id env owner key = concat "cle_" (env.digest owner key)

unfoldable pub reservation_id : Env → String → String → String
reservation_id env owner objective = concat "cr_" (env.digest owner objective)

unfoldable pub usage_id : Env → String → String → String
usage_id env owner event_id = concat "use_" (env.digest owner event_id)

-- `text[:n]`
unfoldable pub clip : ℕ → String → String
clip zero s = ""
clip (suc n) empty_text = ""
clip (suc n) (char_then c s) = char_then c (clip n s)

-- A row that the primary key or the unique pair of owner and key makes a conflict.
abbrev pub same_entry : (entry_id owner key : String) → Entry → Bool
same_entry id owner key e = e.entry_id == id || e.owner == owner && e.idempotency_key == key

unfoldable pub conflicts : (entry_id owner key : String) → List Entry → Bool
conflicts id owner key [] = false
conflicts id owner key (e ∷ es) = same_entry id owner key e || conflicts id owner key es

-- `_insert_ledger`: INSERT OR IGNORE, and whether a row was inserted.
unfoldable pub insert_ledger :
    Env
    → (owner key : String) → EntryType
    → (amount balance : ℤ) → (source : String) → (now : ℕ)
    → (reservation_id objective_id : Option String) → Metadata
    → List Entry
    → List Entry × Bool
insert_ledger env owner key type amount balance source now rid objective meta ledger =
    if conflicts (ledger_id env owner key) owner key ledger then (ledger, false) else (
      record {
        entry_id = ledger_id env owner key;
        owner = owner;
        idempotency_key = key;
        entry_type = type;
        amount = amount;
        balance_after = balance;
        reservation_id = rid;
        objective_id = objective;
        source = source;
        metadata = meta;
        created_at = now;
      }
          ∷ ledger,
      true,
    )

-- SELECT ... FROM credit_ledger WHERE owner_user_id = ? AND idempotency_key = ?
unfoldable pub find_entry : (owner key : String) → List Entry → Option Entry
find_entry owner key [] = none
find_entry owner key (e ∷ es) =
    if e.owner == owner && e.idempotency_key == key then some e else find_entry owner key es

-- SUM(amount_microcredits) over the rows of an owner that pass a test.
unfoldable pub sum_entries : (Entry → Bool) → List Entry → ℤ
sum_entries p [] = pos 0
sum_entries p (e ∷ es) = (if p e then e.amount else pos 0) +ℤ sum_entries p es

abbrev pub is_reserved : ReservationStatus → Bool
is_reserved ReservationStatus.reserved = true
is_reserved _ = false

abbrev pub is_settled : ReservationStatus → Bool
is_settled ReservationStatus.settled = true
is_settled _ = false

-- The active reservations of an owner: their number, and the credits that they hold.
abbrev pub is_active : String → Reservation → Bool
is_active owner r = r.owner == owner && is_reserved r.status

unfoldable pub active_count : String → Table Reservation → ℕ
active_count owner = total (λ r. if is_active owner r then 1 else 0)

unfoldable pub held : String → Table Reservation → ℕ
held owner = total (λ r. if is_active owner r then r.estimated else 0)

abbrev pub by_objective : (owner objective : String) → Reservation → Bool
by_objective owner objective r = r.owner == owner && r.objective_id == objective

abbrev pub by_key : (owner key : String) → Reservation → Bool
by_key owner key r = r.owner == owner && r.idempotency_key == key
