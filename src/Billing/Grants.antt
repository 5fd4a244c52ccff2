-- ===== src/Billing/Grants.antt =====
-- gateway/app/billing.py: `CreditLedger._account` grants the credits of a month once.
use mathlib.Core.Path.{subst}
use magistrate.Prelude.{
  ℕ, String, ◌≡◌, ◌∙◌, refl, ap, Bool, ◌&&◌, not, eq_refl, if◌then◌else◌, arith, Bool-cases, inl,
  inr, List, ◌∷◌, sym, true, false, some,
}
use magistrate.Prelude.Tables.{lookup}
use magistrate.Billing.Catalog.{Env, Plan, is_subscription}
use magistrate.Billing.Db.{
  Account, Db, >>=-eq-ok, raise_if, integrity_error, ok, ok-injective, insert_ledger, conflicts,
  ledger_id, Entry,
}
use magistrate.Billing.Account.{
  is_foreign, open_account, same_period, grant_key, grant_period, account_row,
}

abbrev due : Env → (now : ℕ) → Plan → Account → Bool
due env now plan a =
    not (is_subscription plan.kind) && not (same_period a.period_key (env.period_key now))

-- A ledger that has gained rows, and lost none.
pub data Gained (before : List Entry) : List Entry → Type 0 where
  nothing : Gained before before
  row : (e : Entry) {after : List Entry} → Gained before after → Gained before (e ∷ after)

conflicts-Gained :
    (id owner key : String) {before after : List Entry}
    → Gained before after
    → conflicts id owner key before ≡ true
    → conflicts id owner key after ≡ true
unfolding conflicts
conflicts-Gained id owner key nothing taken = taken
conflicts-Gained id owner key (row e more) taken =
    let rest = conflicts-Gained id owner key more taken in ground (arith, rest)

-- A grant that was due leaves its ledger row.
grant_period-conflicts :
    (env : Env) (owner : String) (now : ℕ) (plan : Plan) (a : Account) (db : Db)
    → let key = grant_key plan (env.period_key now) in
      conflicts (ledger_id env owner key) owner key (grant_period env owner now plan a db).1.ledger
      ≡ true
unfolding grant_period insert_ledger conflicts
grant_period-conflicts env owner now plan a db =
    let key = grant_key plan (env.period_key now) in
    elim (Bool-cases (conflicts (ledger_id env owner key) owner key db.ledger)) [
      | inl taken ↦ rw taken taken
      | inr fresh ↦ rw fresh (ground (arith, eq_refl (ledger_id env owner key)))
    ]

grant_period-taken :
    (env : Env) (owner : String) (now : ℕ) (plan : Plan) (b : Account) (db : Db)
    → let key = grant_key plan (env.period_key now) in
      conflicts (ledger_id env owner key) owner key db.ledger ≡ true
      → grant_period env owner now plan b db ≡ (b, db)
unfolding grant_period insert_ledger
grant_period-taken env owner now plan b db taken = rw (taken, grant_period, insert_ledger) refl

-- What `_account` does to a row that it finds.
account_row-found :
    (env : Env) (owner : String) (now : ℕ) (plan : Plan) (b : Account) (db : Db)
    → lookup owner db.accounts ≡ some b
    → lookup b.catalog_id env.catalog.plans ≡ some plan
    → account_row env owner now db
      ≡ ok (if due env now plan b then grant_period env owner now plan b db else (b, db))
unfolding account_row open_account
account_row-found env owner now plan b db found known =
    rw (found, account_row, open_account, known) refl

-- After a call of `_account` every later call for the owner in the same month writes nothing and answers
-- with the stored row, so that a month is granted once. This holds in every later database in which the
-- owner's row has the same plan, the ledger has lost no row, and, if the first call had no grant to make,
-- the period of the owner's row is the one that it left.
pub account_row-again :
    (env : Env) (owner : String) (now later : ℕ) (db db' : Db) (plan : Plan) (b : Account)
    {s : Account × Db}
    → account_row env owner now db ≡ ok s
    → lookup (open_account env owner now db).0.catalog_id env.catalog.plans ≡ some plan
    → env.period_key later ≡ env.period_key now
    → lookup owner db'.accounts ≡ some b
    → b.catalog_id ≡ (open_account env owner now db).0.catalog_id
    → Gained s.1.ledger db'.ledger
    → (due env now plan (open_account env owner now db).0 ≡ false → b.period_key ≡ s.0.period_key)
    → account_row env owner later db' ≡ ok (b, db')
unfolding account_row
account_row-again env owner now later db db' plan b {s} e known same found planned more kept =
    let (a, db0) = open_account env owner now db in
    let key = grant_key plan (env.period_key now) in
    let (_, _, e1) = >>=-eq-ok (raise_if (is_foreign env owner db) integrity_error) _ e in
    let done = ok-injective (rw known at e1) in
    let late =
      account_row-found env owner later plan b db' found
        (ap (λ (c : String). lookup c env.catalog.plans) planned ∙ known) in
    elim (Bool-cases (due env later plan b)) [
      | inr settled ↦ late ∙ rw settled refl
      | inl again ↦ elim (Bool-cases (due env now plan a)) [
        | inl was_due ↦
            let taken : conflicts (ledger_id env owner key) owner key db'.ledger ≡ true =
              conflicts-Gained (ledger_id env owner key) owner key more (
                subst
                  (λ (t : Account × Db).
                    conflicts (ledger_id env owner key) owner key t.1.ledger ≡ true)
                  (rw was_due at done) (grant_period-conflicts env owner now plan a db0)) in
            late ∙ rw again (ap ok (grant_period-taken env owner later plan b db' (rw same taken)))
        | inr idle ↦
            let left : (a, db0) ≡ s = rw idle at done in
            let period : b.period_key ≡ a.period_key =
              kept idle ∙ sym (ap (λ (t : Account × Db). t.0.period_key) left) in
            absurd (cc (rw (same, period) at again))
      ]
    ]
