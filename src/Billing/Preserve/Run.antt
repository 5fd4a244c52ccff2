-- ===== src/Billing/Preserve/Run.antt =====
-- gateway/app/billing.py: sequences of the operations of `CreditLedger`.
use magistrate.Prelude.{ℕ, String, ◌≡◌, none, some, true, List, [], ◌∷◌, Bool, inl, inr}
use magistrate.Prelude.Tables.{find_row}
use magistrate.Prelude.Outcome.{Outcome-cases}
use magistrate.Billing.Catalog.{Env}
use magistrate.Billing.Db.{
  Account, Reservation, Db, Result, ok, err, >>=-eq-ok, or_raise, credits_invalid, find_entry,
  by_objective, by_key, is_reserved, ReservationStatus,
}
use magistrate.Billing.Account.{account_row}
use magistrate.Billing.Reserve.{reserve_objective, release_objective, reserve_key, release_key}
use magistrate.Billing.Settle.{RawUsage, Reported, settle_objective, settle_key}
use magistrate.Billing.Credit.{positive, refund_objective, add_credits}
use magistrate.Billing.Invariant.{IsValid}
use magistrate.Billing.Preserve.Account.{Fresh}
use magistrate.Billing.Preserve.Reserve.{reserve_objective-IsValid, release_objective-IsValid}
use magistrate.Billing.Preserve.Settle.{settle_objective-IsValid}
use magistrate.Billing.Preserve.Credit.{refund_objective-IsValid, add_credits-IsValid}

pub data Operation : Type 0 where
  reserving : (owner objective key : String) (now : ℕ) → Operation
  releasing : (owner objective reason : String) (now : ℕ) → Operation
  settling : (owner objective : String) → RawUsage → (event : String) (now : ℕ) → Operation
  refunding : (owner objective : String) → Reported → (key reason : String) (now : ℕ) → Operation
  granting : (owner : String) → Reported → (key source : String) (now : ℕ) → Operation

abbrev pub kept {ℓ} : {A : Type ℓ} → (A → Db) → Db → Result A → Db
kept end before (err raised) = before
kept end before (ok done) = end done

-- An operation that raises is rolled back.
unfoldable pub perform : Env → Operation → Db → Db
perform env (reserving owner objective key now) db =
    kept (λ (s : String × Reservation × Db). s.2) db
      (reserve_objective env owner objective key now db)
perform env (releasing owner objective reason now) db =
    kept (λ (s : Bool × Db). s.1) db (release_objective env owner objective reason now db)
perform env (settling owner objective raw event now) db =
    kept (λ (s : String × Reservation × Db). s.2) db
      (settle_objective env owner objective raw event now db)
perform env (refunding owner objective reported key reason now) db =
    kept (λ (s : Bool × Db). s.1) db
      (refund_objective env owner objective reported key reason now db)
perform env (granting owner reported key source now) db =
    kept (λ (s : Bool × Db). s.1) db (add_credits env owner reported key source now db)

unfoldable pub perform_all : Env → List Operation → Db → Db
perform_all env [] db = db
perform_all env (op ∷ ops) db = perform_all env ops (perform env op db)

-- If an operation succeeds and writes a ledger key, no other row has taken it: a reservation under a
-- new key, the release or settlement of an open reservation, a refund or grant under a new key.
abbrev pub IsFree : Env → Operation → Db → Type 0
IsFree env (reserving owner objective key now) db =
    (a : Account) (db1 : Db) (s : String × Reservation × Db)
    → reserve_objective env owner objective key now db ≡ ok s
    → account_row env owner now db ≡ ok (a, db1)
    → find_row (by_key owner key) db1.reservations ≡ none
    → Fresh env owner (reserve_key key) db1
IsFree env (releasing owner objective reason now) db =
    (rid : String) (r : Reservation)
    → find_row (by_objective owner objective) db.reservations ≡ some (rid, r)
    → is_reserved r.status ≡ true
    → Fresh env owner (release_key rid) db
IsFree env (settling owner objective raw event now) db =
    (rid : String) (r : Reservation) (s : String × Reservation × Db)
    → settle_objective env owner objective raw event now db ≡ ok s
    → find_row (by_objective owner objective) db.reservations ≡ some (rid, r)
    → r.status ≡ ReservationStatus.reserved
    → Fresh env owner (settle_key event) db
IsFree env (refunding owner objective reported key reason now) db =
    (s : Bool × Db)
    → refund_objective env owner objective reported key reason now db ≡ ok s
    → find_entry owner key db.ledger ≡ none
    → Fresh env owner key db
IsFree env (granting owner reported key source now) db =
    (a : Account) (db1 : Db) (s : Bool × Db)
    → add_credits env owner reported key source now db ≡ ok s
    → account_row env owner now db ≡ ok (a, db1)
    → find_entry owner key db1.ledger ≡ none
    → Fresh env owner key db1

abbrev pub AllFree : Env → List Operation → Db → Type 0
AllFree env [] db = Unit
AllFree env (op ∷ ops) db = IsFree env op db × AllFree env ops (perform env op db)

perform-IsValid :
    (env : Env) (op : Operation) (db : Db)
    → IsFree env op db
    → IsValid db
    → IsValid (perform env op db)
unfolding perform reserve_objective add_credits
perform-IsValid env (reserving owner objective key now) db free v =
    elim (Outcome-cases (reserve_objective env owner objective key now db)) [
      | inl (raised, failed) ↦ rw failed v
      | inr (s, done) ↦
          let ((a, db1), opened, _) = >>=-eq-ok (account_row env owner now db) _ done in
          rw done (
            reserve_objective-IsValid env owner objective key now db v opened
              (free a db1 s done opened) done)
    ]
perform-IsValid env (releasing owner objective reason now) db free v =
    elim (Outcome-cases (release_objective env owner objective reason now db)) [
      | inl (raised, failed) ↦ rw failed v
      | inr (s, done) ↦
          rw done (release_objective-IsValid env owner objective reason now db v free done)
    ]
perform-IsValid env (settling owner objective raw event now) db free v =
    elim (Outcome-cases (settle_objective env owner objective raw event now db)) [
      | inl (raised, failed) ↦ rw failed v
      | inr (s, done) ↦ rw done (
          settle_objective-IsValid env owner objective raw event now db v
            (λ rid r. free rid r s done) done)
    ]
perform-IsValid env (refunding owner objective reported key reason now) db free v =
    elim (Outcome-cases (refund_objective env owner objective reported key reason now db)) [
      | inl (raised, failed) ↦ rw failed v
      | inr (s, done) ↦ rw done (
          refund_objective-IsValid env owner objective reported key reason now db v (free s done)
            done)
    ]
perform-IsValid env (granting owner reported key source now) db free v =
    elim (Outcome-cases (add_credits env owner reported key source now db)) [
      | inl (raised, failed) ↦ rw failed v
      | inr (s, done) ↦
          let (credits, _, e1) = >>=-eq-ok (or_raise (positive reported) credits_invalid) _ done in
          let ((a, db1), opened, _) = >>=-eq-ok (account_row env owner now db) _ e1 in
          rw done (
            add_credits-IsValid env owner reported key source now db v opened
              (free a db1 s done opened) done)
    ]

-- Every sequence of reservations, releases, settlements, refunds and grants keeps the ledger valid (each
-- balance is the sum of the ledger rows of its owner, each hold is the sum of the active estimates of its
-- owner, and the ids of reservations are unique), as long as no ledger key that is to be written is
-- taken by another row.
pub perform_all-IsValid :
    (env : Env) (ops : List Operation) (db : Db)
    → AllFree env ops db
    → IsValid db
    → IsValid (perform_all env ops db)
unfolding perform_all
perform_all-IsValid env [] db free v = v
perform_all-IsValid env (op ∷ ops) db (free, all) v =
    perform_all-IsValid env ops (perform env op db) all (perform-IsValid env op db free v)
