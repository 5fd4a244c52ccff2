-- ===== src/Billing/Preserve/Credit.antt =====
-- gateway/app/billing.py: `refund_objective` and `add_credits` keep the invariant.
use mathlib.Core.Path.{subst}
use magistrate.Prelude.{
  ℕ, String, ◌≡◌, ◌∙◌, refl, Bool, none, some, Option-cases, Bool-cases, inl, inr, ltb,
}
use magistrate.Prelude.Int.{pos, ◌+ℤ◌, ltb_ℤ}
use magistrate.Prelude.Tables.{lookup, find_row}
use magistrate.Billing.Catalog.{Env, microcredits}
use magistrate.Billing.Db.{
  Account, Metadata, Db, ok, >>=-eq-ok, ok-injective, or_raise, or_raise-eq-ok, raise_if,
  insert_ledger, find_entry,
}
use magistrate.Billing.Account.{account_row}
use magistrate.Billing.Settle.{Reported}
use magistrate.Billing.Credit.{
  positive, settled_for, refunded, place_refund, same_refund, refund_in, refund_objective,
  place_credits, same_topup, add_credits_in, add_credits,
}
use magistrate.Billing.Invariant.{IsValid, reserved_column, balanced-write, column-keep}
use magistrate.Billing.Preserve.Account.{Fresh, account_row-Opens}

place_refund-IsValid :
    (env : Env) (owner objective : String) (amount : ℕ) (key reason : String) (now : ℕ)
    (a : Account) (rid : String) (db : Db)
    → IsValid db
    → lookup owner db.accounts ≡ some a
    → Fresh env owner key db
    → IsValid (place_refund env owner objective amount key reason now a rid db).1
unfolding place_refund insert_ledger
place_refund-IsValid env owner objective amount key reason now a rid db v found fresh =
    rw fresh (record {
      balanced = balanced-write db.accounts db.ledger owner _ _ v.balanced found refl refl;
      holding = λ o. column-keep reserved_column owner _ db.accounts found refl o ∙ v.holding o;
      keyed = v.keyed;
    })

-- A refund keeps the invariant, when the ledger key that it writes is not taken by another row.
pub refund_objective-IsValid :
    (env : Env) (owner objective : String) (reported : Reported) (key reason : String) (now : ℕ)
    (db : Db) {s : Bool × Db}
    → IsValid db
    → (find_entry owner key db.ledger ≡ none → Fresh env owner key db)
    → refund_objective env owner objective reported key reason now db ≡ ok s
    → IsValid s.1
unfolding refund_objective refund_in
refund_objective-IsValid env owner objective reported key reason now db v fresh e =
    let (amount, _, e1) = >>=-eq-ok (or_raise (positive reported) _) _ e in
    let ((rid, r), _, e2) =
      >>=-eq-ok (or_raise (find_row (settled_for owner objective) db.reservations) _) _ e1 in
    let (actual, _, e3) = >>=-eq-ok (or_raise r.actual _) _ e2 in
    let (_, _, e4) = >>=-eq-ok (raise_if (ltb actual amount) _) _ e3 in
    elim (Option-cases (find_entry owner key db.ledger)) [
      | inl new ↦
          let (_, _, e5) =
            >>=-eq-ok (raise_if (ltb_ℤ (pos actual) (refunded owner rid db.ledger +ℤ pos amount)) _)
              _ (rw new at e4) in
          let (a, stored, done) = >>=-eq-ok (or_raise (lookup owner db.accounts) _) _ e5 in
          subst (λ (s : Bool × Db). IsValid s.1) (ok-injective done)
            (place_refund-IsValid env owner objective amount key reason now a rid db v
              (or_raise-eq-ok (lookup owner db.accounts) _ stored) (fresh new))
      | inr (x, old) ↦ elim (Bool-cases (same_refund objective amount x)) [
        | inl same ↦
            subst (λ (s : Bool × Db). IsValid s.1) (ok-injective (rw same at (rw old at e4))) v
        | inr differs ↦ absurd (cc (rw differs at (rw old at e4)))
      ]
    ]

pub place_credits-IsValid :
    (env : Env) (owner : String) (amount : ℕ) (key source : String) (now : ℕ) (meta : Metadata)
    (a : Account) (db : Db)
    → IsValid db
    → lookup owner db.accounts ≡ some a
    → Fresh env owner key db
    → IsValid (place_credits env owner amount key source now meta (a, db))
unfolding place_credits insert_ledger
place_credits-IsValid env owner amount key source now meta a db v found fresh = rw fresh (record {
  balanced = balanced-write db.accounts db.ledger owner _ _ v.balanced found refl refl;
  holding = λ o. column-keep reserved_column owner _ db.accounts found refl o ∙ v.holding o;
  keyed = v.keyed;
})

-- A grant of credits keeps the invariant, when the ledger key that it writes is not taken.
pub add_credits-IsValid :
    (env : Env) (owner : String) (reported : Reported) (key source : String) (now : ℕ) (db : Db)
    {a : Account} {db1 : Db} {s : Bool × Db}
    → IsValid db
    → account_row env owner now db ≡ ok (a, db1)
    → (find_entry owner key db1.ledger ≡ none → Fresh env owner key db1)
    → add_credits env owner reported key source now db ≡ ok s
    → IsValid s.1
unfolding add_credits add_credits_in
add_credits-IsValid env owner reported key source now db {a} {db1} v opened fresh e =
    let (credits, _, e1) = >>=-eq-ok (or_raise (positive reported) _) _ e in
    let o = account_row-Opens env owner now db v opened in
    let e2 = rw opened at e1 in
    elim (Option-cases (find_entry owner key db1.ledger)) [
      | inl new ↦
          subst (λ (s : Bool × Db). IsValid s.1) (ok-injective (rw (new, add_credits_in) at e2))
            (place_credits-IsValid env owner (microcredits credits) key source now Metadata.nothing
              a db1 o.valid o.stored (fresh new))
      | inr (x, old) ↦ elim (Bool-cases (same_topup (microcredits credits) source x)) [
        | inl same ↦
            subst (λ (s : Bool × Db). IsValid s.1)
              (ok-injective (rw (old, add_credits_in, same) at e2)) o.valid
        | inr differs ↦ absurd (cc (rw (old, add_credits_in, differs) at e2))
      ]
    ]
