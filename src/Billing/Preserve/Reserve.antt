-- ===== src/Billing/Preserve/Reserve.antt =====
-- gateway/app/billing.py: `reserve_objective` and `release_objective` keep the invariant.
use mathlib.Core.Path.{subst}
use magistrate.Prelude.{
  ℕ, String, ◌≡◌, refl, Bool, true, none, some, ◌∷◌, eq_iff, eq_refl, arith, Option-cases,
  Bool-cases, inl, inr,
}
use magistrate.Prelude.Int.{int_laws}
use magistrate.Prelude.Tables.{lookup, find_row, update-Distinct, lookup-find_row, find_row-holds}
use magistrate.Billing.Catalog.{Env, Plan}
use magistrate.Billing.Db.{
  Account, Reservation, Db, ok, >>=-eq-ok, ok-injective, or_raise, or_raise-eq-ok, insert_ledger,
  is_reserved, is_active, by_objective, by_key, reservation_id,
}
use magistrate.Billing.Account.{account_row}
use magistrate.Billing.Reserve.{
  insert_reservation, place_reservation, replay_reservation, admit, reserve_in, reserve_objective,
  release_row, release_objective, new_reservation, estimate_of, reserve_key, release_key,
}
use magistrate.Billing.Invariant.{IsValid, balanced-write, holding-place, holding-end}
use magistrate.Billing.Preserve.Account.{Fresh, account_row-Opens}

pub insert_reservation-inv :
    (rid : String) (r : Reservation) (db : Db) {db1 : Db}
    → insert_reservation rid r db ≡ ok db1
    → (lookup rid db.reservations ≡ none)
      × (db1 ≡ record db { reservations = (rid, r) ∷ db.reservations })
unfolding insert_reservation
insert_reservation-inv rid r db e = ground arith

-- A placed reservation: its row, and a valid database.
pub place_reservation-IsValid :
    (env : Env) (owner objective key : String) (now : ℕ) (plan : Plan) (a : Account) (db : Db)
    {s : String × Reservation × Db}
    → IsValid db
    → lookup owner db.accounts ≡ some a
    → Fresh env owner (reserve_key key) db
    → place_reservation env owner objective key now plan a db ≡ ok s
    → IsValid s.2
unfolding place_reservation insert_ledger
place_reservation-IsValid env owner objective key now plan a db v found fresh e =
    let r = new_reservation owner objective key now (estimate_of plan) in
    let rid = reservation_id env owner objective in
    let (db1, inserted, done) = >>=-eq-ok (insert_reservation rid r db) _ e in
    let (absent, same) = insert_reservation-inv rid r db inserted in
    subst (λ (s : String × Reservation × Db). IsValid s.2) (ok-injective done)
      (rw (same, fresh)
        (record {
          balanced =
              balanced-write db.accounts db.ledger owner _ _ v.balanced found refl (omega int_laws);
          holding =
              holding-place db.accounts db.reservations owner rid _ r v.holding found (rw eq_refl)
                refl;
          keyed = (absent, v.keyed);
        }))

replay_reservation-same :
    (objective : String) (row : String × Reservation) (db : Db) {s : String × Reservation × Db}
    → replay_reservation objective row db ≡ ok s
    → (s ≡ (row.0, row.1, db)) × (row.1.objective_id ≡ objective)
unfolding replay_reservation
replay_reservation-same objective (rid, r) db e = ground (arith, eq_iff r.objective_id objective)

reserve_in-IsValid :
    (env : Env) (owner objective key : String) (now : ℕ) (a : Account) (db : Db)
    {s : String × Reservation × Db}
    → IsValid db
    → lookup owner db.accounts ≡ some a
    → (find_row (by_key owner key) db.reservations ≡ none → Fresh env owner (reserve_key key) db)
    → reserve_in env owner objective key now (a, db) ≡ ok s
    → IsValid s.2
unfolding reserve_in
reserve_in-IsValid env owner objective key now a db {s} v found fresh e =
    let (plan, _, e1) = >>=-eq-ok (or_raise (lookup a.catalog_id env.catalog.plans) _) _ e in
    elim (Option-cases (find_row (by_key owner key) db.reservations)) [
      | inl new ↦
          let (_, _, placed) = >>=-eq-ok (admit owner now plan a db) _ (rw new at e1) in
          place_reservation-IsValid env owner objective key now plan a db v found (fresh new) placed
      | inr (row, old) ↦
          let (same, _) = replay_reservation-same objective row db (rw old at e1) in rw same v
    ]

-- A reservation keeps the invariant, when the ledger key that a new one writes is not taken.
pub reserve_objective-IsValid :
    (env : Env) (owner objective key : String) (now : ℕ) (db : Db) {a : Account} {db1 : Db}
    {s : String × Reservation × Db}
    → IsValid db
    → account_row env owner now db ≡ ok (a, db1)
    → (find_row (by_key owner key) db1.reservations ≡ none → Fresh env owner (reserve_key key) db1)
    → reserve_objective env owner objective key now db ≡ ok s
    → IsValid s.2
unfolding reserve_objective
reserve_objective-IsValid env owner objective key now db {a} {db1} v opened fresh e =
    let o = account_row-Opens env owner now db v opened in
    reserve_in-IsValid env owner objective key now a db1 o.valid o.stored fresh (rw opened at e)

-- A release of an active reservation: the credits go back, and the row is closed.
release_row-IsValid :
    (env : Env) (owner objective reason : String) (now : ℕ) (rid : String) (r : Reservation)
    (db : Db) {s : Bool × Db}
    → IsValid db
    → lookup rid db.reservations ≡ some r
    → is_active owner r ≡ true
    → Fresh env owner (release_key rid) db
    → release_row env owner objective reason now (rid, r) db ≡ ok s
    → IsValid s.1
unfolding release_row insert_ledger
release_row-IsValid env owner objective reason now rid r db v row active fresh e =
    let (a, stored, done) = >>=-eq-ok (or_raise (lookup owner db.accounts) _) _ e in
    let found = or_raise-eq-ok (lookup owner db.accounts) _ stored in
    subst (λ (s : Bool × Db). IsValid s.1) (ok-injective done)
      (rw fresh (record {
        balanced = balanced-write db.accounts db.ledger owner _ _ v.balanced found refl refl;
        holding =
            holding-end db.accounts db.reservations owner rid _ _ v.holding found row active
              (λ o. ground (arith, eq_iff r.owner o)) refl;
        keyed = update-Distinct rid _ db.reservations v.keyed;
      }))

-- Releasing keeps the invariant, when the ledger key that it writes is not taken.
pub release_objective-IsValid :
    (env : Env) (owner objective reason : String) (now : ℕ) (db : Db) {s : Bool × Db}
    → IsValid db
    → ((rid : String) (r : Reservation)
        → find_row (by_objective owner objective) db.reservations ≡ some (rid, r)
        → is_reserved r.status ≡ true
        → Fresh env owner (release_key rid) db)
    → release_objective env owner objective reason now db ≡ ok s
    → IsValid s.1
unfolding release_objective
release_objective-IsValid env owner objective reason now db {s} v fresh e =
    elim (Option-cases (find_row (by_objective owner objective) db.reservations)) [
      | inl none_found ↦
          subst (λ (s : Bool × Db). IsValid s.1)
            (ok-injective (rw (none_found, release_objective) at e)) v
      | inr ((rid, r), hit) ↦ elim (Bool-cases (is_reserved r.status)) [
        | inl active ↦
            release_row-IsValid env owner objective reason now rid r db v
              (lookup-find_row (by_objective owner objective) db.reservations v.keyed hit)
              (ground (
                arith,
                find_row-holds (by_objective owner objective) db.reservations hit,
                eq_iff r.owner owner,
              ))
              (fresh rid r hit active) (rw (hit, release_objective, active) at e)
        | inr closed ↦
            subst (λ (s : Bool × Db). IsValid s.1)
              (ok-injective (rw (hit, release_objective, closed) at e)) v
      ]
    ]
