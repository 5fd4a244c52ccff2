-- ===== src/Billing/Refunds.antt =====
-- gateway/app/billing.py: `refund_objective` never gives back more than an execution cost.
use mathlib.Core.Path.{subst}
use magistrate.Prelude.{
  ℕ, String, ◌≡◌, refl, Bool, true, false, none, some, eq_refl, Option-cases, Bool-cases, inl, inr,
  ltb,
}
use magistrate.Prelude.Int.{pos, ◌+ℤ◌, ◌≤ℤ◌, int_laws, ltb_ℤ}
use magistrate.Prelude.Tables.{lookup, find_row, lookup-update_self}
use magistrate.Billing.Catalog.{Env}
use magistrate.Billing.Db.{
  Account, Reservation, Db, ok, >>=-eq-ok, ok-injective, or_raise, or_raise-eq-ok, raise_if,
  raise_if-eq-ok, insert_ledger, find_entry, sum_entries,
}
use magistrate.Billing.Settle.{Reported}
use magistrate.Billing.Credit.{
  positive, settled_for, refunded, place_refund, same_refund, refund_in, refund_objective,
  refund_credits,
}
use magistrate.Billing.Preserve.Account.{Fresh}

-- What a refund did to the account and to the refunds of the reservation.
pub record Refunds (owner rid : String) (actual amount : ℕ) (a : Account) (before after : Db)
    : Type 0 where
  pub total : refunded owner rid after.ledger ≡ refunded owner rid before.ledger +ℤ pos amount
  pub bounded : refunded owner rid after.ledger ≤ℤ pos actual
  pub account : Account
  pub stored : lookup owner after.accounts ≡ some account
  pub credited : account.available ≡ a.available +ℤ pos amount

place_refund-Refunds :
    (env : Env) (owner objective : String) (amount actual : ℕ) (key reason : String) (now : ℕ)
    (a : Account) (rid : String) (db : Db)
    → lookup owner db.accounts ≡ some a
    → Fresh env owner key db
    → ltb_ℤ (pos actual) (refunded owner rid db.ledger +ℤ pos amount) ≡ false
    → Refunds owner rid actual amount a db
        (place_refund env owner objective amount key reason now a rid db).1
unfolding place_refund insert_ledger refunded sum_entries
place_refund-Refunds env owner objective amount actual key reason now a rid db found fresh within =
    rw fresh (record {
      total = simp eq_refl (omega int_laws);
      bounded = simp eq_refl (grind int_laws);
      account = refund_credits (a.available +ℤ pos amount) amount now a;
      stored = lookup-update_self owner _ db.accounts found;
      credited = refl;
    })

refund_in-Refunds :
    (env : Env) (owner objective : String) (amount : ℕ) (key reason : String) (now : ℕ)
    (rid : String) (r : Reservation) (db : Db) {after : Db}
    → (find_entry owner key db.ledger ≡ none → Fresh env owner key db)
    → refund_in env owner objective amount key reason now (rid, r) db ≡ ok (true, after)
    → (actual : ℕ) × (a : Account) × (r.actual ≡ some actual)
      × (lookup owner db.accounts ≡ some a)
      × Refunds owner rid actual amount a db after
unfolding refund_in
refund_in-Refunds env owner objective amount key reason now rid r db {after} fresh e =
    let (actual, cost, e3) = >>=-eq-ok (or_raise r.actual _) _ e in
    let (_, _, e4) = >>=-eq-ok (raise_if (ltb actual amount) _) _ e3 in
    elim (Option-cases (find_entry owner key db.ledger)) [
      | inl new ↦
          let over = ltb_ℤ (pos actual) (refunded owner rid db.ledger +ℤ pos amount) in
          let (_, within, e5) = >>=-eq-ok (raise_if over _) _ (rw new at e4) in
          let (a, stored, done) = >>=-eq-ok (or_raise (lookup owner db.accounts) _) _ e5 in
          let found = or_raise-eq-ok (lookup owner db.accounts) _ stored in
          (
            actual,
            a,
            or_raise-eq-ok r.actual _ cost,
            found,
            subst (λ (s : Bool × Db). Refunds owner rid actual amount a db s.1) (ok-injective done)
                (place_refund-Refunds env owner objective amount actual key reason now a rid db
                  found (fresh new) (raise_if-eq-ok over _ within)),
          )
      | inr (x, old) ↦ elim (Bool-cases (same_refund objective amount x)) [
        | inl same ↦ absurd (cc (ok-injective (rw same at (rw old at e4))))
        | inr differs ↦ absurd (cc (rw differs at (rw old at e4)))
      ]
    ]

-- A refund that is made credits exactly its amount to the account of a settled reservation, and
-- the refunds of that reservation together stay within its settled cost, when the ledger key is
-- taken by no other row.
pub refund_objective-Refunds :
    (env : Env) (owner objective : String) (reported : Reported) (key reason : String) (now : ℕ)
    (db : Db) {after : Db}
    → (find_entry owner key db.ledger ≡ none → Fresh env owner key db)
    → refund_objective env owner objective reported key reason now db ≡ ok (true, after)
    → (amount : ℕ) × (rid : String) × (r : Reservation) × (actual : ℕ) × (a : Account) × (positive
          reported
        ≡ some amount)
      × (find_row (settled_for owner objective) db.reservations ≡ some (rid, r))
      × (r.actual ≡ some actual)
      × (lookup owner db.accounts ≡ some a)
      × Refunds owner rid actual amount a db after
unfolding refund_objective
refund_objective-Refunds env owner objective reported key reason now db fresh e =
    let rows = find_row (settled_for owner objective) db.reservations in
    let (amount, good, e1) = >>=-eq-ok (or_raise (positive reported) _) _ e in
    let ((rid, r), hit, e2) = >>=-eq-ok (or_raise rows _) _ e1 in
    let (actual, a, cost, found, done) =
      refund_in-Refunds env owner objective amount key reason now rid r db fresh e2 in
    (
      amount,
      rid,
      r,
      actual,
      a,
      or_raise-eq-ok (positive reported) _ good,
      or_raise-eq-ok rows _ hit,
      cost,
      found,
      done,
    )
