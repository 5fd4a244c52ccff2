-- ===== src/Billing/Settle.antt =====
-- gateway/app/billing.py: `CreditLedger.measured_cost` and `settle_objective`.
use Prim.Native.String.{◌++◌ as concat}
use magistrate.Prelude.{
  ℕ, ◌+◌, ◌*◌, String, Bool, false, ◌&&◌, ◌||◌, not, Option, none, some, List, [], ◌∷◌, ◌==◌,
  if◌then◌else◌, nat_eq,
}
use magistrate.Prelude.Int.{ℤ, pos, negsuc, ◌+ℤ◌, ◌-ℤ◌}
use magistrate.Prelude.Tables.{lookup, update, find_row}
use magistrate.Billing.Catalog.{Rate, Env, find_rate, microcredits_per_credit}
use magistrate.Billing.Db.{
  Result, ok, err, ◌>>=◌, ◌>>◌, or_raise, raise_if, usage_invalid, rate_not_configured,
  reservation_not_found, settlement_conflict, reservation_released, integrity_error, type_error,
  EntryType, Metadata, Usage, UsageRow, Account, Reservation, ReservationStatus, Db, usage_id,
  insert_ledger, by_objective,
}

-- A value of a reported usage: an `int`, or anything else.
pub data Reported : Type 0 where
  int : ℤ → Reported
  other : Reported

-- What a runtime reports. `well_keyed` says that it is a dictionary with exactly the five keys.
pub record RawUsage : Type 0 where
  pub well_keyed : Bool
  pub provider : String
  pub model : String
  pub input_tokens : Reported
  pub output_tokens : Reported
  pub compute_milliseconds : Reported

unfoldable pub count_of : Reported → Result ℕ
count_of (int (pos n)) = ok n
count_of (int (negsuc n)) = err usage_invalid
count_of other = err usage_invalid

-- The checks of `measured_cost`, up to the rate and the counts that it computes with.
unfoldable pub measure : Env → RawUsage → Result (Rate × Usage)
measure env raw = do
  raise_if (not raw.well_keyed) usage_invalid
  rate ← or_raise (find_rate raw.provider raw.model env.catalog.rates) rate_not_configured
  input ← count_of raw.input_tokens
  output ← count_of raw.output_tokens
  compute ← count_of raw.compute_milliseconds
  ok (
    rate,
    record {
      provider = raw.provider;
      model = raw.model;
      input_tokens = input;
      output_tokens = output;
      compute_milliseconds = compute;
    },
  )

abbrev pub token_numerator : Rate → Usage → ℕ
token_numerator r u =
    u.input_tokens * r.input_usd_micros_per_million
    + u.output_tokens * r.output_usd_micros_per_million

abbrev pub compute_numerator : Rate → Usage → ℕ
compute_numerator r u = u.compute_milliseconds * r.compute_usd_micros_per_hour

-- The arithmetic of `measured_cost`, over any way to round a quotient up.
unfoldable pub priced : (ℕ → ℕ → ℕ) → (usd_micros_per_credit : ℕ) → Rate → Usage → ℕ
priced ceil unit r u =
    let usd_micros =
      ceil (token_numerator r u) 1_000_000 + ceil (compute_numerator r u) 3_600_000 in
    let billable = ceil (usd_micros * (10_000 + r.margin_bps)) 10_000 in
    ceil (billable * microcredits_per_credit) unit

abbrev pub cost_of : Env → Rate × Usage → ℕ
cost_of env (rate, usage) = priced env.ceil_quotient env.catalog.usd_micros_per_credit rate usage

unfoldable pub measured_cost : Env → RawUsage → Result ℕ
measured_cost env raw = do ok (cost_of env (← measure env raw))

-- Equality of the canonical texts of two usages.
abbrev pub same_usage : Usage → Usage → Bool
same_usage a b =
    a.provider == b.provider
    && a.model == b.model
    && nat_eq a.input_tokens b.input_tokens
    && nat_eq a.output_tokens b.output_tokens
    && nat_eq a.compute_milliseconds b.compute_milliseconds

-- SELECT ... FROM execution_usage_ledger WHERE owner_user_id = ? AND objective_id = ?
unfoldable pub find_usage : (owner objective : String) → List UsageRow → Option UsageRow
find_usage owner objective [] = none
find_usage owner objective (u ∷ us) =
    if u.owner == owner && u.objective_id == objective
    then some u
    else find_usage owner objective us

-- The three unique constraints of the usage table.
unfoldable pub usage_conflicts : UsageRow → List UsageRow → Bool
usage_conflicts row [] = false
usage_conflicts row (u ∷ us) =
    u.usage_id == row.usage_id
    || u.owner == row.owner && (u.event_id == row.event_id || u.objective_id == row.objective_id)
    || usage_conflicts row us

-- Whether a settled reservation was settled with these very facts.
unfoldable pub settled_with :
    (owner objective event : String) → (actual : ℕ) → Usage → Reservation → List UsageRow → Bool
settled_with owner objective event actual usage r rows =
    elim r.actual [ none ↦ false | some n ↦ nat_eq n actual ]
    && elim r.usage [ none ↦ false | some u ↦ same_usage u usage ]
    && elim (find_usage owner objective rows) [ none ↦ false | some row ↦ row.event_id == event ]

abbrev pub settled_row : (actual : ℕ) → Usage → (now : ℕ) → Reservation → Reservation
settled_row actual usage now r = record r {
  status = ReservationStatus.settled;
  actual = some actual;
  usage = some usage;
  updated_at = now;
}

abbrev pub settle_credits : (balance : ℤ) → (estimate actual now : ℕ) → Account → Account
settle_credits balance estimate actual now b = record b {
  available = balance;
  reserved = b.reserved -ℤ pos estimate;
  period_spend = b.period_spend + actual;
  updated_at = now;
}

abbrev pub settle_key : String → String
settle_key event = concat "settle:" event

unfoldable pub settle_row :
    Env
    → (owner objective event : String) → (now : ℕ) → (actual : ℕ) → Usage
    → String × Reservation
    → Db
    → Result (String × Reservation × Db)
settle_row env owner objective event now actual usage (rid, r) db = do
  a ← or_raise (lookup owner db.accounts) type_error
  let adjustment = pos r.estimated -ℤ pos actual
  let balance = a.available +ℤ adjustment
  let row : UsageRow = record {
    usage_id = usage_id env owner event;
    owner = owner;
    event_id = event;
    objective_id = objective;
    reservation_id = rid;
    measured = usage;
    cost = actual;
    created_at = now;
  }
  raise_if (usage_conflicts row db.usage_rows) integrity_error
  ok (
    rid,
    settled_row actual usage now r,
    record db {
      reservations = update rid (settled_row actual usage now) db.reservations;
      usage_rows = row ∷ db.usage_rows;
      accounts = update owner (settle_credits balance r.estimated actual now) db.accounts;
      ledger =
          (insert_ledger env owner (settle_key event) EntryType.settlement adjustment balance
            "execution" now (some rid) (some objective) (Metadata.settled actual r.estimated usage)
            db.ledger).0;
    },
  )

-- A settled reservation answers with itself if it was settled with the same facts.
unfoldable pub settle_by_status :
    Env
    → (owner objective event : String) → (now : ℕ) → (actual : ℕ) → Usage
    → ReservationStatus
    → String × Reservation
    → Db
    → Result (String × Reservation × Db)
settle_by_status env owner objective event now actual usage ReservationStatus.settled (rid, r) db =
    if settled_with owner objective event actual usage r db.usage_rows
    then ok (rid, r, db)
    else err settlement_conflict
settle_by_status env owner objective event now actual usage ReservationStatus.released (rid, r) db =
    err reservation_released
settle_by_status env owner objective event now actual usage ReservationStatus.reserved (rid, r) db =
    settle_row env owner objective event now actual usage (rid, r) db

unfoldable pub settle_objective :
    Env
    → (owner objective : String) → RawUsage
    → (event : String) → (now : ℕ) → Db
    → Result (String × Reservation × Db)
settle_objective env owner objective raw event now db = do
  (rate, usage) ← measure env raw
  (rid, r) ←
      or_raise (find_row (by_objective owner objective) db.reservations) reservation_not_found
  settle_by_status env owner objective event now (cost_of env (rate, usage)) usage r.status (rid, r)
      db
