-- ===== src/Billing/Reserve.antt =====
-- gateway/app/billing.py: `CreditLedger.reserve_objective` and `release_objective`.
use Prim.Native.String.{◌++◌ as concat}
use magistrate.Prelude.{
  ℕ, String, Bool, true, false, ◌&&◌, ◌||◌, not, none, some, ◌∷◌, ◌==◌, if◌then◌else◌, ltb, leb,
  is_some,
}
use magistrate.Prelude.Int.{ℤ, pos, ◌+ℤ◌, ◌-ℤ◌, ltb_ℤ}
use magistrate.Prelude.Tables.{lookup, update, find_row}
use magistrate.Billing.Catalog.{Plan, Env, microcredits, entitles}
use magistrate.Billing.Db.{
  Result, ok, err, ◌>>=◌, ◌>>◌, or_raise, raise_if, idempotency_conflict, execution_not_entitled,
  concurrency_limit, insufficient_credits, spend_limit, integrity_error, key_error, type_error,
  EntryType, Metadata, Account, Reservation, ReservationStatus, Db, reservation_id, clip,
  insert_ledger, active_count, by_objective, by_key, is_reserved,
}
use magistrate.Billing.Account.{account_row}

-- `account["status"] == "past_due" and account["grace_ends_at"] and ... > current`
abbrev pub in_grace : Account → ℕ → Bool
in_grace a now =
    a.status == "past_due" && elim a.grace_ends_at [ none ↦ false | some g ↦ ltb now g ]

unfoldable pub may_execute : Plan → Account → ℕ → Bool
may_execute plan a now =
    entitles "execution" plan.entitlements
    && (a.status == "active" || a.status == "trialing" || in_grace a now)

abbrev pub estimate_of : Plan → ℕ
estimate_of plan = microcredits plan.objective_reserve_credits

-- The tests that a new reservation passes, in the order of the source.
unfoldable pub admit : (owner : String) → (now : ℕ) → Plan → Account → Db → Result (Unit {0})
admit owner now plan a db = do
  raise_if (not (may_execute plan a now)) execution_not_entitled
  raise_if (leb plan.concurrency_limit (active_count owner db.reservations)) concurrency_limit
  raise_if (ltb_ℤ a.available (pos (estimate_of plan))) insufficient_credits
  raise_if
      (ltb_ℤ (pos (microcredits plan.monthly_spend_limit_credits))
        (pos a.period_spend +ℤ a.reserved +ℤ pos (estimate_of plan)))
      spend_limit

abbrev pub new_reservation : (owner objective key : String) → (now estimate : ℕ) → Reservation
new_reservation owner objective key now estimate = record {
  owner = owner;
  objective_id = objective;
  idempotency_key = key;
  estimated = estimate;
  actual = none;
  status = ReservationStatus.reserved;
  usage = none;
  created_at = now;
  updated_at = now;
}

-- INSERT INTO credit_reservations, with the table's three unique constraints.
unfoldable pub insert_reservation : String → Reservation → Db → Result Db
insert_reservation rid r db = do
  raise_if (is_some (lookup rid db.reservations)) integrity_error
  raise_if (is_some (find_row (by_objective r.owner r.objective_id) db.reservations))
      integrity_error
  raise_if (is_some (find_row (by_key r.owner r.idempotency_key) db.reservations)) integrity_error
  ok (record db { reservations = (rid, r) ∷ db.reservations })

abbrev pub hold_credits : (balance : ℤ) → (estimate now : ℕ) → Account → Account
hold_credits balance estimate now b = record b {
  available = balance;
  reserved = b.reserved +ℤ pos estimate;
  updated_at = now;
}

abbrev pub reserve_key : String → String
reserve_key key = concat "reserve:" key

unfoldable pub place_reservation :
    Env
    → (owner objective key : String) → (now : ℕ) → Plan
    → Account
    → Db
    → Result (String × Reservation × Db)
place_reservation env owner objective key now plan a db = do
  let estimate = estimate_of plan
  let balance = a.available -ℤ pos estimate
  let rid = reservation_id env owner objective
  let r = new_reservation owner objective key now estimate
  db1 ← insert_reservation rid r db
  ok (
    rid,
    r,
    record db1 {
      accounts = update owner (hold_credits balance estimate now) db1.accounts;
      ledger =
          (insert_ledger env owner (reserve_key key) EntryType.reservation (pos 0 -ℤ pos estimate)
            balance "execution" now (some rid) (some objective) (Metadata.estimated estimate)
            db1.ledger).0;
    },
  )

-- A reservation that already has the key answers the call, if it is for the same objective.
unfoldable pub replay_reservation :
    (objective : String) → String × Reservation → Db → Result (String × Reservation × Db)
replay_reservation objective (rid, existing) db =
    if existing.objective_id == objective then ok (rid, existing, db) else err idempotency_conflict

unfoldable pub reserve_in :
    Env
    → (owner objective key : String) → (now : ℕ) → Account × Db
    → Result (String × Reservation × Db)
reserve_in env owner objective key now (a, db) = do
  plan ← or_raise (lookup a.catalog_id env.catalog.plans) key_error
  elim (find_row (by_key owner key) db.reservations) [
    | some row ↦ replay_reservation objective row db
    | none ↦ admit owner now plan a db >> place_reservation env owner objective key now plan a db
  ]

unfoldable pub reserve_objective :
    Env → (owner objective key : String) → (now : ℕ) → Db → Result (String × Reservation × Db)
reserve_objective env owner objective key now db = do
  state ← account_row env owner now db
  reserve_in env owner objective key now state

abbrev pub released_row : ℕ → Reservation → Reservation
released_row now r = record r { status = ReservationStatus.released; updated_at = now }

abbrev pub release_credits : (balance : ℤ) → (amount now : ℕ) → Account → Account
release_credits balance amount now b = record b {
  available = balance;
  reserved = b.reserved -ℤ pos amount;
  updated_at = now;
}

abbrev pub release_key : String → String
release_key rid = concat "release:" rid

unfoldable pub release_row :
    Env
    → (owner objective : String) → (reason : String) → (now : ℕ) → String × Reservation
    → Db
    → Result (Bool × Db)
release_row env owner objective reason now (rid, r) db = do
  a ← or_raise (lookup owner db.accounts) type_error
  let balance = a.available +ℤ pos r.estimated
  ok (
    true,
    record db {
      reservations = update rid (released_row now) db.reservations;
      accounts = update owner (release_credits balance r.estimated now) db.accounts;
      ledger =
          (insert_ledger env owner (release_key rid) EntryType.release (pos r.estimated) balance
            "execution" now (some rid) (some objective) (Metadata.reason (clip 64 reason))
            db.ledger).0;
    },
  )

unfoldable pub release_objective :
    Env → (owner objective reason : String) → (now : ℕ) → Db → Result (Bool × Db)
release_objective env owner objective reason now db =
    elim (find_row (by_objective owner objective) db.reservations) [
      | none ↦ ok (false, db)
      | some (rid, r) ↦
          if is_reserved r.status
          then release_row env owner objective reason now (rid, r) db
          else ok (false, db)
    ]
