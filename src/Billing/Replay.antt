-- ===== src/Billing/Replay.antt =====
-- gateway/app/billing.py: what a repeated call of `CreditLedger` does.
use mathlib.Core.Path.{subst}
use magistrate.Prelude.{
  ℕ, String, ◌≡◌, refl, Bool, true, false, some, eq_refl, arith, Option-cases, Bool-cases, inl, inr,
}
use magistrate.Prelude.Tables.{lookup, find_row, Distinct, find_row-holds, find_row-update}
use magistrate.Billing.Catalog.{Env, Rate}
use magistrate.Billing.Db.{
  Reservation, ReservationStatus, Usage, Db, ok, err, >>=-eq-ok, ok-injective, or_raise,
  or_raise-eq-ok, raise_if, reservation_released, is_reserved, by_objective,
}
use magistrate.Billing.Reserve.{release_row, release_objective, released_row}
use magistrate.Billing.Settle.{
  RawUsage, measure, cost_of, find_usage, settled_with, settled_row, settle_row, settle_by_status,
  settle_objective, usage_conflicts, same_usage,
}
use magistrate.Billing.Invariant.{IsValid}

-- The row of an objective after a release: closed, and still the one that is found.
release_row-found :
    (env : Env) (owner objective reason : String) (now : ℕ) (rid : String) (r : Reservation)
    (db : Db) {s : Bool × Db}
    → Distinct db.reservations
    → find_row (by_objective owner objective) db.reservations ≡ some (rid, r)
    → release_row env owner objective reason now (rid, r) db ≡ ok s
    → find_row (by_objective owner objective) s.1.reservations ≡ some (rid, released_row now r)
unfolding release_row
release_row-found env owner objective reason now rid r db d hit e =
    let p = by_objective owner objective in
    let (a, _, done) = >>=-eq-ok (or_raise (lookup owner db.accounts) _) _ e in
    subst (λ (s : Bool × Db). find_row p s.1.reservations ≡ some (rid, released_row now r))
      (ok-injective done)
      (find_row-update p rid (released_row now) db.reservations d hit
        (find_row-holds p db.reservations hit))

-- A second release of an objective changes nothing and says so, whatever its reason and time.
pub release_objective-again :
    (env : Env) (owner objective reason reason' : String) (now later : ℕ) (db : Db) {s : Bool × Db}
    → IsValid db
    → release_objective env owner objective reason now db ≡ ok s
    → release_objective env owner objective reason' later s.1 ≡ ok (false, s.1)
unfolding release_objective
release_objective-again env owner objective reason reason' now later db {s} v e =
    let p = by_objective owner objective in
    let again = λ (t : Bool × Db).
      release_objective env owner objective reason' later t.1 ≡ ok (false, t.1) in
    elim (Option-cases (find_row p db.reservations)) [
      | inl missing ↦
          subst again (ok-injective (rw (missing, release_objective) at e))
            (rw (missing, release_objective) refl)
      | inr ((rid, r), hit) ↦ elim (Bool-cases (is_reserved r.status)) [
        | inl active ↦
            let found =
              release_row-found env owner objective reason now rid r db v.keyed hit
                (rw (hit, release_objective, active) at e) in
            rw (found, release_objective) refl
        | inr closed ↦
            subst again (ok-injective (rw (hit, release_objective, closed) at e))
              (rw (hit, release_objective, closed) refl)
      ]
    ]

-- A released reservation cannot be settled.
pub settle-release :
    (env : Env) (owner objective reason event : String) (raw : RawUsage) (now later : ℕ) (db : Db)
    {m : Rate × Usage} {db' : Db}
    → IsValid db
    → measure env raw ≡ ok m
    → release_objective env owner objective reason now db ≡ ok (true, db')
    → settle_objective env owner objective raw event later db' ≡ err reservation_released
unfolding release_objective settle_objective settle_by_status
settle-release env owner objective reason event raw now later db {m} {db'} v measured e =
    let p = by_objective owner objective in
    elim (Option-cases (find_row p db.reservations)) [
      | inl missing ↦ absurd (cc (ok-injective (rw (missing, release_objective) at e)))
      | inr ((rid, r), hit) ↦ elim (Bool-cases (is_reserved r.status)) [
        | inl active ↦
            let found =
              release_row-found env owner objective reason now rid r db v.keyed hit
                (rw (hit, release_objective, active) at e) in
            rw (measured, settle_objective, found) refl
        | inr closed ↦ absurd (cc (ok-injective (rw (hit, release_objective, closed) at e)))
      ]
    ]

same_usage_refl : (u : Usage) → same_usage u u ≡ true
same_usage_refl u = ground (arith, eq_refl u.provider, eq_refl u.model)

-- The settled row of an objective, and that it was settled with these facts.
abbrev Answers :
    (owner objective event : String) → (actual : ℕ) → Usage → String × Reservation × Db → Type 0
Answers owner objective event actual usage s =
    (find_row (by_objective owner objective) s.2.reservations ≡ some (s.0, s.1))
    × (s.1.status ≡ ReservationStatus.settled)
    × (settled_with owner objective event actual usage s.1 s.2.usage_rows ≡ true)

-- The row that a settlement writes answers the same settlement.
settle_row-again :
    (env : Env) (owner objective event : String) (now later actual : ℕ) (usage : Usage)
    (rid : String) (r : Reservation) (db : Db) {s : String × Reservation × Db}
    → Distinct db.reservations
    → find_row (by_objective owner objective) db.reservations ≡ some (rid, r)
    → settle_row env owner objective event now actual usage (rid, r) db ≡ ok s
    → Answers owner objective event actual usage s
unfolding settle_row settled_with find_usage
settle_row-again env owner objective event now later actual usage rid r db d hit e =
    let p = by_objective owner objective in
    let (a, _, e1) = >>=-eq-ok (or_raise (lookup owner db.accounts) _) _ e in
    let (_, _, done) = >>=-eq-ok (raise_if (usage_conflicts _ db.usage_rows) _) _ e1 in
    subst (Answers owner objective event actual usage) (ok-injective done) (
      find_row-update p rid (settled_row actual usage now) db.reservations d hit
          (find_row-holds p db.reservations hit),
      refl,
      ground (arith, same_usage_refl usage, eq_refl owner, eq_refl objective, eq_refl event),
    )

settle_by_status-again :
    (env : Env) (owner objective event : String) (now later actual : ℕ) (usage : Usage)
    (status : ReservationStatus) (rid : String) (r : Reservation) (db : Db)
    {s : String × Reservation × Db}
    → Distinct db.reservations
    → find_row (by_objective owner objective) db.reservations ≡ some (rid, r)
    → r.status ≡ status
    → settle_by_status env owner objective event now actual usage status (rid, r) db ≡ ok s
    → Answers owner objective event actual usage s
unfolding settle_by_status
settle_by_status-again env owner objective event now later actual usage ReservationStatus.settled
      rid r db {s} d hit same e =
    elim (Bool-cases (settled_with owner objective event actual usage r db.usage_rows)) [
      | inl agrees ↦
          subst (Answers owner objective event actual usage) (ok-injective (rw agrees at e))
            (hit, same, agrees)
      | inr differs ↦ absurd (cc (rw differs at e))
    ]
settle_by_status-again env owner objective event now later actual usage ReservationStatus.released
      rid r db d hit same e =
    absurd (cc)
settle_by_status-again env owner objective event now later actual usage ReservationStatus.reserved
      rid r db d hit same e =
    settle_row-again env owner objective event now later actual usage rid r db d hit e

-- A repeated settlement with the same usage and event returns the same row and charges nothing.
pub settle_objective-again :
    (env : Env) (owner objective : String) (raw : RawUsage) (event : String) (now later : ℕ)
    (db : Db) {s : String × Reservation × Db}
    → IsValid db
    → settle_objective env owner objective raw event now db ≡ ok s
    → settle_objective env owner objective raw event later s.2 ≡ ok s
unfolding settle_objective settle_by_status settled_with
settle_objective-again env owner objective raw event now later db {s} v e =
    let p = by_objective owner objective in
    let (m, measured, e1) = >>=-eq-ok (measure env raw) _ e in
    let ((rid, r), found, e2) = >>=-eq-ok (or_raise (find_row p db.reservations) _) _ e1 in
    let (hit, status, agrees) =
      settle_by_status-again env owner objective event now later (cost_of env m) m.1 r.status rid r
        db v.keyed (or_raise-eq-ok (find_row p db.reservations) _ found) refl e2 in
    rw (measured, settle_objective, hit, status, settle_by_status, agrees) refl
