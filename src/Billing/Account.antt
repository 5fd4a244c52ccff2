-- ===== src/Billing/Account.antt =====
-- gateway/app/billing.py: `CreditLedger._account`, which opens an account and adds the monthly
-- grant of a plan that nobody pays for.
use Prim.Native.String.{◌++◌ as concat}
use magistrate.Prelude.{
  ℕ, String, Bool, false, ◌&&◌, not, Option, none, some, ◌∷◌, ◌==◌, if◌then◌else◌, is_some,
}
use magistrate.Prelude.Int.{ℤ, pos, ◌+ℤ◌}
use magistrate.Prelude.Tables.{lookup, update}
use magistrate.Billing.Catalog.{Plan, Env, microcredits, is_subscription}
use magistrate.Billing.Db.{
  Result, ok, ◌>>=◌, ◌>>◌, raise_if, integrity_error, or_raise, account_plan_invalid, EntryType,
  Metadata, Account, Db, insert_ledger,
}

abbrev pub new_account : Env → ℕ → Account
new_account env now = record {
  status = "active";
  catalog_id = env.catalog.default_plan;
  available = pos 0;
  reserved = pos 0;
  period_spend = 0;
  period_key = none;
  external_customer_ref = none;
  subscription_id = none;
  current_period_start = none;
  current_period_end = none;
  cancel_at_period_end = false;
  grace_ends_at = none;
  provider_event_created = none;
  created_at = now;
  updated_at = now;
}

-- INSERT INTO billing_accounts, if the owner has none.
unfoldable pub open_account : Env → (owner : String) → (now : ℕ) → Db → Account × Db
open_account env owner now db = elim (lookup owner db.accounts) [
  | some a ↦ (a, db)
  | none ↦
      (new_account env now, record db { accounts = (owner, new_account env now) ∷ db.accounts })
]

abbrev pub same_period : Option String → String → Bool
same_period none period = false
same_period (some p) period = p == period

abbrev pub grant_key : Plan → String → String
grant_key plan period = concat "included:" (concat plan.id (concat ":" period))

-- The row after the UPDATE of a grant.
abbrev pub granted : (balance : ℤ) → (period : String) → (now : ℕ) → Account → Account
granted balance period now b = record b {
  available = balance;
  period_spend = 0;
  period_key = some period;
  updated_at = now;
}

-- The grant of a calendar month: only if its ledger row is new does the balance change.
unfoldable pub grant_period :
    Env → (owner : String) → (now : ℕ) → Plan → Account → Db → Account × Db
grant_period env owner now plan a db =
    let period = env.period_key now in
    let grant = pos (microcredits plan.monthly_included_credits) in
    let (ledger, inserted) =
      insert_ledger env owner (grant_key plan period) EntryType.included_grant grant
        (a.available +ℤ grant) "catalog" now none none (Metadata.period_grant plan.id period)
        db.ledger in
    if inserted
    then (
      granted (a.available +ℤ grant) period now a,
      record db {
        accounts = update owner (granted (a.available +ℤ grant) period now) db.accounts;
        ledger = ledger;
      },
    )
    else (a, record db { ledger = ledger })

-- A new account refers to the profile of its owner, which has to be there.
abbrev pub is_foreign : Env → (owner : String) → Db → Bool
is_foreign env owner db = not (is_some (lookup owner db.accounts)) && not (env.has_profile owner)

unfoldable pub account_row : Env → (owner : String) → (now : ℕ) → Db → Result (Account × Db)
account_row env owner now db = do
  raise_if (is_foreign env owner db) integrity_error
  let (a, db1) = open_account env owner now db
  plan ← or_raise (lookup a.catalog_id env.catalog.plans) account_plan_invalid
  ok (
      if not (is_subscription plan.kind) && not (same_period a.period_key (env.period_key now))
      then grant_period env owner now plan a db1
      else (a, db1))
