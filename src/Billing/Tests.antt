-- ===== src/Billing/Tests.antt =====
-- gateway/app/billing.py: runs of the credit ledger over a small catalog.
use Prim.Native.String.{◌++◌ as concat}
use mathlib.Core.Option.{some-injective}
use mathlib.Core.Path.{subst}
use magistrate.Prelude.{
  ℕ, String, ◌≡◌, ◌≤◌, refl, ap, Bool, true, false, Option, none, some, List, [], ◌∷◌, arith,
  is_some,
}
use magistrate.Prelude.Int.{ℤ, pos, ◌+ℤ◌, ◌-ℤ◌}
use magistrate.Prelude.Tables.{lookup, update, find_row, total}
use magistrate.Billing.Catalog.{Plan, PlanKind, Rate, Env, microcredits, entitles, find_rate}
use magistrate.Billing.Db.{
  is_reserved, by_key, Account, Reservation, Usage, Db, Result, ok, err, ok-injective,
  reservation_released, ledger_id, reservation_id, usage_id, clip, conflicts, insert_ledger,
  find_entry, sum_entries, active_count, held,
}
use magistrate.Billing.Account.{open_account, grant_period, account_row}
use magistrate.Billing.Reserve.{
  may_execute, admit, insert_reservation, place_reservation, replay_reservation, reserve_in,
  reserve_objective, release_row, release_objective, new_reservation, release_key, reserve_key,
}
use magistrate.Billing.Settle.{
  RawUsage, int, count_of, measure, priced, measured_cost, find_usage, usage_conflicts,
  settled_with, settle_row, settle_by_status, settle_objective,
}
use magistrate.Billing.Credit.{
  positive, refunded, place_refund, refund_in, refund_objective, place_credits, add_credits_in,
  add_credits, settled_for,
}
use magistrate.Billing.Invariant.{IsValid}
use magistrate.Billing.Limits.{Admitted, Placed, reserve_objective-Placed}
use magistrate.Billing.Preserve.Account.{Fresh}
use magistrate.Billing.Preserve.Reserve.{reserve_objective-IsValid}
use magistrate.Billing.Preserve.Settle.{settle_objective-IsValid}
use magistrate.Billing.Preserve.Run.{
  Operation, reserving, releasing, settling, refunding, granting, perform, perform_all, AllFree,
  IsFree, perform_all-IsValid,
}
use magistrate.Billing.Replay.{settle_objective-again, release_objective-again, settle-release}
use magistrate.Billing.Refunds.{Refunds, refund_objective-Refunds}
use magistrate.Billing.Cost.{ceil_div, priced_mono}
use magistrate.Billing.Grants.{nothing, row, account_row-again}

program : Unit {0}
unfolding lookup update find_row total microcredits entitles find_rate ledger_id reservation_id
    usage_id clip conflicts insert_ledger find_entry sum_entries active_count held open_account
    grant_period account_row may_execute admit insert_reservation place_reservation
    replay_reservation reserve_in reserve_objective release_row release_objective count_of measure
    priced measured_cost find_usage usage_conflicts settled_with settle_row settle_by_status
    settle_objective positive refunded place_refund refund_in refund_objective place_credits
    add_credits_in add_credits ceil_div ◌+ℤ◌ ◌-ℤ◌
program = tt

abbrev demo_plan : Plan
demo_plan = record {
  id = "demo";
  kind = PlanKind.demo;
  name = "Demo";
  stripe_price_id = none;
  monthly_included_credits = 10;
  objective_reserve_credits = 3;
  monthly_spend_limit_credits = 8;
  concurrency_limit = 2;
  low_credit_warning_credits = 1;
  grace_days = 0;
  entitlements = "execution" ∷ [];
}

abbrev rate : Rate
rate = record {
  provider = "openai";
  model = "m";
  input_usd_micros_per_million = 400_000;
  output_usd_micros_per_million = 1_600_000;
  compute_usd_micros_per_hour = 90_000;
  margin_bps = 2_000;
}

abbrev env : Env
env = record {
  catalog = record {
    usd_micros_per_credit = 10_000;
    plans = ("demo", demo_plan) ∷ [];
    packs = [];
    default_plan = "demo";
    rates = rate ∷ [];
  };
  period_key = λ now. "2026-11";
  digest = λ owner key. concat owner (concat "/" key);
  ceil_quotient = ceil_div;
  has_profile = λ owner. true;
}

abbrev empty : Db
empty = record { accounts = []; reservations = []; ledger = []; usage_rows = [] }

abbrev usage : RawUsage
usage = record {
  well_keyed = true;
  provider = "openai";
  model = "m";
  input_tokens = int (pos 5_000);
  output_tokens = int (pos 1_001);
  compute_milliseconds = int (pos 60_000);
}

abbrev value {ℓ} : {A : Type ℓ} → Result A → A → A
value (ok a) d = a
value (err e) d = d

empty-IsValid : IsValid empty
unfolding program
empty-IsValid = record { balanced = λ o. refl; holding = λ o. refl; keyed = tt }

balances : Db → Option (ℤ × ℤ × ℕ)
balances db = elim (lookup "ada" db.accounts) [
  | none ↦ none
  | some a ↦ some (a.available, a.reserved, a.period_spend)
]

-- The first call opens the account with the month's credits, and holds the estimate.
run_reserve : Result (Option (ℤ × ℤ × ℕ))
run_reserve = elim (reserve_objective env "ada" "mgo_1" "key-1" 100 empty) [
  | err e ↦ err e
  | ok (rid, r, db) ↦ ok (balances db)
]

reserve_first : run_reserve ≡ ok (some (pos 7_000_000, pos 3_000_000, 0))
unfolding run_reserve balances program
reserve_first = refl

abbrev no_account : Account
no_account = record {
  status = "";
  catalog_id = "";
  available = pos 0;
  reserved = pos 0;
  period_spend = 0;
  period_key = none;
  external_customer_ref = none;
  subscription_id = none;
  current_period_start = none;
  current_period_end = none;
  cancel_at_period_end = false;
  grace_ends_at = none;
  provider_event_created = none;
  created_at = 0;
  updated_at = 0;
}

abbrev no_reservation : Reservation
no_reservation = new_reservation "" "" "" 0 0

abbrev opened : Account × Db
opened = value (account_row env "ada" 100 empty) (no_account, empty)

abbrev opened_later : Account × Db
opened_later = value (account_row env "ada" 400 empty) (no_account, empty)

abbrev reserved_state : String × Reservation × Db
reserved_state =
    value (reserve_objective env "ada" "mgo_1" "key-1" 100 empty) ("", no_reservation, empty)

abbrev settled_state : String × Reservation × Db
settled_state =
    value (settle_objective env "ada" "mgo_1" usage "ev-1" 200 reserved_state.2)
      ("", no_reservation, empty)

abbrev released_state : Bool × Db
released_state =
    value (release_objective env "ada" "mgo_1" "stopped" 200 reserved_state.2) (false, empty)

abbrev refunded_state : Bool × Db
refunded_state =
    value (refund_objective env "ada" "mgo_1" (int (pos 500)) "adjust-1" "late" 300 settled_state.2)
      (false, empty)

abbrev topped_up : Bool × Db
topped_up = value (add_credits env "ada" (int (pos 2)) "pack-1" "stripe" 400 empty) (false, empty)

-- 3,602 micros of tokens and 1,500 of time, and a fifth on top of these, at 10,000 for a credit.
settled_balances : balances settled_state.2 ≡ some (pos 9_387_700, pos 0, 612_300)
unfolding balances program
settled_balances = refl

opened_here : account_row env "ada" 100 empty ≡ ok opened
unfolding program
opened_here = refl

reserved_state-IsValid : IsValid reserved_state.2
unfolding program
reserved_state-IsValid =
    reserve_objective-IsValid env "ada" "mgo_1" "key-1" 100 empty empty-IsValid opened_here
      (λ new. refl) refl

reserve_objective-Placed_example :
    Admitted "ada" 100 demo_plan opened.0 opened.1
    × Placed "ada" demo_plan opened.0 reserved_state.2
unfolding program
reserve_objective-Placed_example =
    reserve_objective-Placed env "ada" "mgo_1" "key-1" 100 empty empty-IsValid opened_here refl refl
      refl

settled_state-IsValid : IsValid settled_state.2
unfolding program
settled_state-IsValid =
    settle_objective-IsValid env "ada" "mgo_1" usage "ev-1" 200 reserved_state.2
      reserved_state-IsValid (λ rid r hit open_. refl) refl

settle_objective-again_example :
    settle_objective env "ada" "mgo_1" usage "ev-1" 900 settled_state.2 ≡ ok settled_state
unfolding program
settle_objective-again_example =
    settle_objective-again env "ada" "mgo_1" usage "ev-1" 200 900 reserved_state.2
      reserved_state-IsValid refl

release_objective-again_example :
    release_objective env "ada" "mgo_1" "other" 900 released_state.1 ≡ ok (false, released_state.1)
unfolding program
release_objective-again_example =
    release_objective-again env "ada" "mgo_1" "stopped" "other" 200 900 reserved_state.2
      reserved_state-IsValid refl

settle-release_example :
    settle_objective env "ada" "mgo_1" usage "ev-1" 900 released_state.1 ≡ err reservation_released
unfolding program
settle-release_example =
    settle-release env "ada" "mgo_1" "stopped" "ev-1" usage 200 900 reserved_state.2
      reserved_state-IsValid refl refl

refund_objective-Refunds_example :
    (amount : ℕ) × (rid : String) × (r : Reservation) × (actual : ℕ) × (a : Account) × (positive
        (int (pos 500))
      ≡ some amount)
    × (find_row (settled_for "ada" "mgo_1") settled_state.2.reservations ≡ some (rid, r))
    × (r.actual ≡ some actual)
    × (lookup "ada" settled_state.2.accounts ≡ some a)
    × Refunds "ada" rid actual amount a settled_state.2 refunded_state.1
unfolding program
refund_objective-Refunds_example =
    refund_objective-Refunds env "ada" "mgo_1" (int (pos 500)) "adjust-1" "late" 300 settled_state.2
      (λ new. refl) refl

opened_then : account_row env "ada" 400 empty ≡ ok opened_later
unfolding program
opened_then = refl

-- One objective is reserved, paid and refunded in part, each of them twice; credits are bought, and
-- another objective is given up twice.
abbrev operations : List Operation
operations =
    reserving "ada" "mgo_1" "key-1" 100
    ∷ reserving "ada" "mgo_1" "key-1" 150
    ∷ settling "ada" "mgo_1" usage "ev-1" 200
    ∷ settling "ada" "mgo_1" usage "ev-1" 250
    ∷ refunding "ada" "mgo_1" (int (pos 500)) "adjust-1" "late" 300
    ∷ granting "ada" (int (pos 2)) "pack-1" "stripe" 400
    ∷ reserving "ada" "mgo_2" "key-2" 500
    ∷ releasing "ada" "mgo_2" "stopped" 600
    ∷ releasing "ada" "mgo_2" "stopped" 700
    ∷ []

abbrev before_release : List Operation
before_release =
    reserving "ada" "mgo_1" "key-1" 100
    ∷ reserving "ada" "mgo_1" "key-1" 150
    ∷ settling "ada" "mgo_1" usage "ev-1" 200
    ∷ settling "ada" "mgo_1" usage "ev-1" 250
    ∷ refunding "ada" "mgo_1" (int (pos 500)) "adjust-1" "late" 300
    ∷ granting "ada" (int (pos 2)) "pack-1" "stripe" 400
    ∷ reserving "ada" "mgo_2" "key-2" 500
    ∷ []

free_key :
    (key : String) (db : Db) {opened : Account × Db} {a : Account} {db1 : Db}
    → Fresh env "ada" key opened.1
    → ◌≡◌ {A = Result (Account × Db)} (ok opened) (ok (a, db1))
    → Fresh env "ada" key db1
free_key key db {opened} {a} {db1} free e =
    subst (λ (s : Account × Db). Fresh env "ada" key s.1) (ok-injective e) free

replayed_reserve : IsFree env (reserving "ada" "mgo_1" "key-1" 150) reserved_state.2
unfolding program
replayed_reserve a db1 s done e new =
    let taken =
      subst
        (λ (t : Account × Db). is_some (find_row (by_key "ada" "key-1") t.1.reservations) ≡ true)
        (ok-injective e) refl in
    absurd (cc)

replayed_settle : IsFree env (settling "ada" "mgo_1" usage "ev-1" 250) settled_state.2
unfolding program
replayed_settle rid r s done hit held =
    let paid =
      subst (λ (row : String × Reservation). is_reserved row.1.status ≡ false)
        (some-injective _ _ hit) refl in
    absurd (cc (rw held at paid))

operations-AllFree : AllFree env operations empty
unfolding program perform perform_all
operations-AllFree = (
  λ a db1 s done e new. free_key (reserve_key "key-1") db1 refl e,
  (
    replayed_reserve,
    (
      λ rid r s done hit held. refl,
      (
        replayed_settle,
        (
          λ s done new. refl,
          (
            λ a db1 s done e new. free_key "pack-1" db1 refl e,
            (
              λ a db1 s done e new. free_key (reserve_key "key-2") db1 refl e,
              (
                λ rid r e held.
                    subst
                      (λ (k : String).
                        Fresh env "ada" (release_key k) (perform_all env before_release empty))
                      (ap (λ (s : String × Reservation). s.0) (some-injective _ _ e)) refl,
                (
                  λ rid r e held.
                      let over =
                        subst (λ (row : String × Reservation). is_reserved row.1.status ≡ false)
                          (some-injective _ _ e) refl in
                      absurd (cc),
                  tt,
                ),
              ),
            ),
          ),
        ),
      ),
    ),
  ),
)

perform_all-IsValid_example : IsValid (perform_all env operations empty)
unfolding program perform perform_all
perform_all-IsValid_example =
    perform_all-IsValid env operations empty operations-AllFree empty-IsValid

abbrev paid : Account
paid = elim (lookup "ada" settled_state.2.accounts) [ none ↦ opened.0 | some a ↦ a ]

account_row-again_example : account_row env "ada" 900 settled_state.2 ≡ ok (paid, settled_state.2)
unfolding program
account_row-again_example =
    account_row-again env "ada" 100 900 empty settled_state.2 demo_plan paid opened_here refl refl
      refl refl (row _ (row _ nothing)) (λ idle. refl)

abbrev measured : Usage
measured = record {
  provider = "openai";
  model = "m";
  input_tokens = 5_000;
  output_tokens = 1_001;
  compute_milliseconds = 60_000;
}

abbrev more : Usage
more = record measured { output_tokens = 2_000 }

priced_mono_example : priced ceil_div 10_000 rate measured ≤ priced ceil_div 10_000 rate more
unfolding program
priced_mono_example =
    priced_mono ceil_div 10_000 rate measured more (λ a b small pos_b. refl) (omega arith)
      (record {
        tokens = omega arith;
        compute = omega arith;
        margin = omega arith;
        credits = omega arith;
      })
      (record {
        tokens = omega arith;
        compute = omega arith;
        margin = omega arith;
        credits = omega arith;
      })
      (omega arith) (omega arith) (omega arith)
