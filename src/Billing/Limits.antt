-- ===== src/Billing/Limits.antt =====
-- gateway/app/billing.py: what a new reservation has passed, and what it takes.
use magistrate.Prelude.{ℕ, ◌≤◌, ◌<◌, String, ◌≡◌, true, none, some, arith}
use mathlib.Core.Path.{subst}
use magistrate.Prelude.Int.{pos, ◌+ℤ◌, ◌-ℤ◌, ◌≤ℤ◌, int_laws}
use magistrate.Prelude.Tables.{lookup, find_row, total, lookup-update_self}
use magistrate.Billing.Catalog.{Env, Plan, microcredits}
use magistrate.Billing.Db.{
  Account, Reservation, Db, ok, >>=-eq-ok, ok-injective, active_count, by_key, reservation_id,
}
use magistrate.Billing.Account.{account_row}
use magistrate.Billing.Reserve.{
  may_execute, admit, estimate_of, place_reservation, reserve_in, reserve_objective,
  insert_reservation, new_reservation, hold_credits,
}
use magistrate.Billing.Invariant.{IsValid}
use magistrate.Billing.Preserve.Account.{account_row-Opens}
use magistrate.Billing.Preserve.Reserve.{insert_reservation-inv}

-- What the tests of `admit` say when all of them pass.
pub record Admitted (owner : String) (now : ℕ) (plan : Plan) (a : Account) (db : Db) : Type 0 where
  pub entitled : may_execute plan a now ≡ true
  pub concurrent : active_count owner db.reservations < plan.concurrency_limit
  pub funded : pos (estimate_of plan) ≤ℤ a.available
  pub within :
      pos a.period_spend +ℤ a.reserved +ℤ pos (estimate_of plan)
      ≤ℤ pos (microcredits plan.monthly_spend_limit_credits)

admit-Admitted :
    (owner : String) (now : ℕ) (plan : Plan) (a : Account) (db : Db) {u : Unit {0}}
    → admit owner now plan a db ≡ ok u
    → Admitted owner now plan a db
unfolding admit
admit-Admitted owner now plan a db e = ground arith

-- What a new reservation does: the owner's account, as it is stored afterwards.
pub record Placed (owner : String) (plan : Plan) (a : Account) (after : Db) : Type 0 where
  pub concurrent : active_count owner after.reservations ≤ plan.concurrency_limit
  pub account : Account
  pub stored : lookup owner after.accounts ≡ some account
  pub paid : account.available +ℤ pos (estimate_of plan) ≡ a.available
  pub solvent : pos 0 ≤ℤ account.available
  pub within :
      pos account.period_spend +ℤ account.reserved
      ≤ℤ pos (microcredits plan.monthly_spend_limit_credits)

place_reservation-Placed :
    (env : Env) (owner objective key : String) (now : ℕ) (plan : Plan) (a : Account) (db : Db)
    {s : String × Reservation × Db}
    → Admitted owner now plan a db
    → lookup owner db.accounts ≡ some a
    → place_reservation env owner objective key now plan a db ≡ ok s
    → Placed owner plan a s.2
unfolding place_reservation active_count total
place_reservation-Placed env owner objective key now plan a db h found e =
    let estimate = estimate_of plan in
    let r = new_reservation owner objective key now estimate in
    let rid = reservation_id env owner objective in
    let (db1, inserted, done) = >>=-eq-ok (insert_reservation rid r db) _ e in
    let (_, same) = insert_reservation-inv rid r db inserted in
    subst (λ (s : String × Reservation × Db). Placed owner plan a s.2) (ok-injective done)
      (rw same (record {
        concurrent = (ground (arith, h.concurrent));
        account = hold_credits (a.available -ℤ pos estimate) estimate now a;
        stored = lookup-update_self owner _ db.accounts found;
        paid = omega int_laws;
        solvent = omega (int_laws, h.funded);
        within = omega (int_laws, h.within);
      }))

reserve_in-Placed :
    (env : Env) (owner objective key : String) (now : ℕ) (a : Account) (db : Db) {plan : Plan}
    {s : String × Reservation × Db}
    → lookup owner db.accounts ≡ some a
    → lookup a.catalog_id env.catalog.plans ≡ some plan
    → find_row (by_key owner key) db.reservations ≡ none
    → reserve_in env owner objective key now (a, db) ≡ ok s
    → Admitted owner now plan a db × Placed owner plan a s.2
unfolding reserve_in
reserve_in-Placed env owner objective key now a db {plan} found known new e =
    let e1 = rw (known, reserve_in, new) at e in
    let (_, admitted, placed) = >>=-eq-ok (admit owner now plan a db) _ e1 in
    let h = admit-Admitted owner now plan a db admitted in
    (h, place_reservation-Placed env owner objective key now plan a db h found placed)

-- A reservation under a new key is made only for an entitled account, within the plan's
-- concurrency, with the credits at hand and within the monthly limit; afterwards the account has
-- paid exactly the plan's estimate, has no debt, and spend and holds together keep to the limit.
pub reserve_objective-Placed :
    (env : Env) (owner objective key : String) (now : ℕ) (db : Db) {a : Account} {db1 : Db}
    {plan : Plan} {s : String × Reservation × Db}
    → IsValid db
    → account_row env owner now db ≡ ok (a, db1)
    → lookup a.catalog_id env.catalog.plans ≡ some plan
    → find_row (by_key owner key) db.reservations ≡ none
    → reserve_objective env owner objective key now db ≡ ok s
    → Admitted owner now plan a db1 × Placed owner plan a s.2
unfolding reserve_objective
reserve_objective-Placed env owner objective key now db {a} {db1} v opened known new e =
    let o = account_row-Opens env owner now db v opened in
    reserve_in-Placed env owner objective key now a db1 o.stored known (rw o.reservations new)
      (rw opened at e)
