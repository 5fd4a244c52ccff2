-- ===== src/Billing/Preserve/Settle.antt =====
-- gateway/app/billing.py: `settle_objective` keeps the invariant.
use mathlib.Core.Path.{subst}
use magistrate.Prelude.{ℕ, String, ◌≡◌, refl, true, some, ◌==◌, eq_iff, arith, Bool-cases, inl, inr}
use magistrate.Prelude.Tables.{lookup, find_row, update-Distinct, lookup-find_row, find_row-holds}
use magistrate.Billing.Catalog.{Env}
use magistrate.Billing.Db.{
  Reservation, ReservationStatus, Usage, Db, ok, >>=-eq-ok, ok-injective, or_raise, or_raise-eq-ok,
  raise_if, insert_ledger, is_active, by_objective,
}
use magistrate.Billing.Settle.{
  RawUsage, measure, cost_of, settled_with, settle_row, settle_by_status, settle_objective,
  settle_key, usage_conflicts,
}
use magistrate.Billing.Invariant.{IsValid, balanced-write, holding-end}
use magistrate.Billing.Preserve.Account.{Fresh}

-- A settlement of an active reservation: the difference goes back, and the row is closed.
settle_row-IsValid :
    (env : Env) (owner objective event : String) (now actual : ℕ) (usage : Usage) (rid : String)
    (r : Reservation) (db : Db) {s : String × Reservation × Db}
    → IsValid db
    → lookup rid db.reservations ≡ some r
    → is_active owner r ≡ true
    → Fresh env owner (settle_key event) db
    → settle_row env owner objective event now actual usage (rid, r) db ≡ ok s
    → IsValid s.2
unfolding settle_row insert_ledger
settle_row-IsValid env owner objective event now actual usage rid r db v row active fresh e =
    let (a, stored, e1) = >>=-eq-ok (or_raise (lookup owner db.accounts) _) _ e in
    let found = or_raise-eq-ok (lookup owner db.accounts) _ stored in
    let (_, _, done) = >>=-eq-ok (raise_if (usage_conflicts _ db.usage_rows) _) _ e1 in
    subst (λ (s : String × Reservation × Db). IsValid s.2) (ok-injective done)
      (rw fresh (record {
        balanced = balanced-write db.accounts db.ledger owner _ _ v.balanced found refl refl;
        holding =
            holding-end db.accounts db.reservations owner rid _ _ v.holding found row active
              (λ o. ground (arith, eq_iff r.owner o)) refl;
        keyed = update-Distinct rid _ db.reservations v.keyed;
      }))

settle_by_status-IsValid :
    (env : Env) (owner objective event : String) (now actual : ℕ) (usage : Usage)
    (status : ReservationStatus) (rid : String) (r : Reservation) (db : Db)
    {s : String × Reservation × Db}
    → IsValid db
    → lookup rid db.reservations ≡ some r
    → (r.owner == owner) ≡ true
    → r.status ≡ status
    → (status ≡ ReservationStatus.reserved → Fresh env owner (settle_key event) db)
    → settle_by_status env owner objective event now actual usage status (rid, r) db ≡ ok s
    → IsValid s.2
unfolding settle_by_status
settle_by_status-IsValid env owner objective event now actual usage ReservationStatus.settled rid r
      db v row own same fresh e =
    elim (Bool-cases (settled_with owner objective event actual usage r db.usage_rows)) [
      | inl yes_ ↦
          subst (λ (s : String × Reservation × Db). IsValid s.2) (ok-injective (rw yes_ at e)) v
      | inr no_ ↦ absurd (cc (rw no_ at e))
    ]
settle_by_status-IsValid env owner objective event now actual usage ReservationStatus.released rid r
      db v row own same fresh e =
    absurd (cc)
settle_by_status-IsValid env owner objective event now actual usage ReservationStatus.reserved rid r
      db v row own same fresh e =
    settle_row-IsValid env owner objective event now actual usage rid r db v row (ground (arith))
      (fresh refl) e

-- A settlement keeps the invariant, when the ledger key that it writes is not taken.
pub settle_objective-IsValid :
    (env : Env) (owner objective : String) (raw : RawUsage) (event : String) (now : ℕ) (db : Db)
    {s : String × Reservation × Db}
    → IsValid db
    → ((rid : String) (r : Reservation)
        → find_row (by_objective owner objective) db.reservations ≡ some (rid, r)
        → r.status ≡ ReservationStatus.reserved
        → Fresh env owner (settle_key event) db)
    → settle_objective env owner objective raw event now db ≡ ok s
    → IsValid s.2
unfolding settle_objective
settle_objective-IsValid env owner objective raw event now db v fresh e =
    let (m, _, e1) = >>=-eq-ok (measure env raw) _ e in
    let p = by_objective owner objective in
    let ((rid, r), hit, e2) = >>=-eq-ok (or_raise (find_row p db.reservations) _) _ e1 in
    let row = or_raise-eq-ok (find_row p db.reservations) _ hit in
    settle_by_status-IsValid env owner objective event now (cost_of env m) m.1 r.status rid r db v
      (lookup-find_row p db.reservations v.keyed row)
      (ground (arith, find_row-holds p db.reservations row)) refl (fresh rid r row) e2
