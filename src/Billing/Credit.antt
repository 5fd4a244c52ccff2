-- ===== src/Billing/Credit.antt =====
-- gateway/app/billing.py: `CreditLedger.refund_objective` and `add_credits`.
use magistrate.Prelude.{
  ℕ, ◌-◌, String, Bool, true, false, ◌&&◌, Option, none, some, List, ◌==◌, if◌then◌else◌, ltb,
}
use magistrate.Prelude.Int.{ℤ, pos, negsuc, ◌+ℤ◌, ltb_ℤ, eq_ℤ}
use magistrate.Prelude.Tables.{lookup, update, find_row}
use magistrate.Billing.Catalog.{Env, microcredits}
use magistrate.Billing.Db.{
  Result, ok, err, ◌>>=◌, ◌>>◌, or_raise, raise_if, idempotency_conflict, refund_invalid,
  credits_invalid, type_error, EntryType, Metadata, Entry, Account, Reservation, Db, clip,
  insert_ledger, find_entry, sum_entries, is_settled,
}
use magistrate.Billing.Settle.{Reported, int, other}
use magistrate.Billing.Account.{account_row}

-- `type(value) is int and value > 0`
unfoldable pub positive : Reported → Option ℕ
positive (int (pos n)) = if ltb 0 n then some n else none
positive (int (negsuc n)) = none
positive other = none

abbrev pub settled_for : (owner objective : String) → Reservation → Bool
settled_for owner objective r =
    r.owner == owner && r.objective_id == objective && is_settled r.status

abbrev pub is_refund : EntryType → Bool
is_refund EntryType.refund = true
is_refund _ = false

abbrev pub is_topup : EntryType → Bool
is_topup EntryType.topup = true
is_topup _ = false

abbrev pub same_text : Option String → String → Bool
same_text none s = false
same_text (some t) s = t == s

abbrev pub refund_of : (owner rid : String) → Entry → Bool
refund_of owner rid e = e.owner == owner && same_text e.reservation_id rid && is_refund e.entry_type

-- COALESCE(SUM(amount_microcredits), 0) of the refunds of a reservation.
unfoldable pub refunded : (owner rid : String) → List Entry → ℤ
refunded owner rid = sum_entries (refund_of owner rid)

abbrev pub refund_credits : (balance : ℤ) → (amount now : ℕ) → Account → Account
refund_credits balance amount now b = record b {
  available = balance;
  period_spend = if ltb amount b.period_spend then b.period_spend - amount else 0;
  updated_at = now;
}

unfoldable pub place_refund :
    Env
    → (owner objective : String) → (amount : ℕ) → (key reason : String) → (now : ℕ) → Account
    → (rid : String) → Db
    → Bool × Db
place_refund env owner objective amount key reason now a rid db =
    let balance = a.available +ℤ pos amount in
    (
      true,
      record db {
        ledger =
            (insert_ledger env owner key EntryType.refund (pos amount) balance "execution" now
              (some rid) (some objective) (Metadata.reason (clip 128 reason)) db.ledger).0;
        accounts = update owner (refund_credits balance amount now) db.accounts;
      },
    )

abbrev pub same_refund : (objective : String) → (amount : ℕ) → Entry → Bool
same_refund objective amount e =
    is_refund e.entry_type && eq_ℤ e.amount (pos amount) && same_text e.objective_id objective

unfoldable pub refund_in :
    Env
    → (owner objective : String) → (amount : ℕ) → (key reason : String) → (now : ℕ)
    → String × Reservation
    → Db
    → Result (Bool × Db)
refund_in env owner objective amount key reason now (rid, r) db = do
  actual ← or_raise r.actual type_error
  raise_if (ltb actual amount) refund_invalid
  elim (find_entry owner key db.ledger) [
    | some e ↦ if same_refund objective amount e then ok (false, db) else err idempotency_conflict
    | none ↦ do
      raise_if (ltb_ℤ (pos actual) (refunded owner rid db.ledger +ℤ pos amount)) refund_invalid
      a ← or_raise (lookup owner db.accounts) type_error
      ok (place_refund env owner objective amount key reason now a rid db)
  ]

unfoldable pub refund_objective :
    Env
    → (owner objective : String) → Reported
    → (key reason : String) → (now : ℕ) → Db
    → Result (Bool × Db)
refund_objective env owner objective reported key reason now db = do
  amount ← or_raise (positive reported) refund_invalid
  row ← or_raise (find_row (settled_for owner objective) db.reservations) refund_invalid
  refund_in env owner objective amount key reason now row db

abbrev pub set_balance : (balance : ℤ) → (now : ℕ) → Account → Account
set_balance balance now b = record b { available = balance; updated_at = now }

unfoldable pub place_credits :
    Env
    → (owner : String) → (amount : ℕ) → (key source : String) → (now : ℕ) → Metadata
    → Account × Db
    → Db
place_credits env owner amount key source now meta (a, db) =
    let balance = a.available +ℤ pos amount in
    record db {
      ledger =
          (insert_ledger env owner key EntryType.topup (pos amount) balance source now none none
            meta db.ledger).0;
      accounts = update owner (set_balance balance now) db.accounts;
    }

abbrev pub same_topup : (amount : ℕ) → (source : String) → Entry → Bool
same_topup amount source e =
    is_topup e.entry_type && eq_ℤ e.amount (pos amount) && e.source == source

unfoldable pub add_credits_in :
    Env
    → (owner : String) → (amount : ℕ) → (key source : String) → (now : ℕ) → Account × Db
    → Result (Bool × Db)
add_credits_in env owner amount key source now (a, db) = elim (find_entry owner key db.ledger) [
  | some e ↦ if same_topup amount source e then ok (false, db) else err idempotency_conflict
  | none ↦ ok (true, place_credits env owner amount key source now Metadata.nothing (a, db))
]

unfoldable pub add_credits :
    Env → (owner : String) → Reported → (key source : String) → (now : ℕ) → Db → Result (Bool × Db)
add_credits env owner reported key source now db = do
  credits ← or_raise (positive reported) credits_invalid
  state ← account_row env owner now db
  add_credits_in env owner (microcredits credits) key source now state
