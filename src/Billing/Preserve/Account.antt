-- ===== src/Billing/Preserve/Account.antt =====
-- gateway/app/billing.py: `CreditLedger._account` keeps the invariant and yields the owner's row.
use magistrate.Prelude.{
  ℕ, String, ◌≡◌, ◌∙◌, refl, false, some, eq_iff, eq_refl, arith, Option-cases, Bool-cases, if_ind,
  inl, inr,
}
use mathlib.Core.Path.{subst}
use magistrate.Prelude.Tables.{lookup, lookup-update_self}
use magistrate.Billing.Catalog.{Env, Plan}
use magistrate.Billing.Db.{
  Account, Db, raise_if, integrity_error, ok, >>=-eq-ok, ok-injective, or_raise, insert_ledger,
  conflicts, ledger_id,
}
use magistrate.Billing.Account.{is_foreign, open_account, grant_period, account_row, grant_key}
use magistrate.Billing.Invariant.{IsValid, reserved_column, balanced-write, column-keep}

-- The row key that `_insert_ledger` would write is not taken.
abbrev pub Fresh : Env → (owner key : String) → Db → Type 0
Fresh env owner key db = conflicts (ledger_id env owner key) owner key db.ledger ≡ false

-- What `_account` gives: the owner's stored row, in a valid database with the same reservations.
pub record Opens (owner : String) (db : Db) (a : Account) (db1 : Db) : Type 0 where
  pub valid : IsValid db1
  pub stored : lookup owner db1.accounts ≡ some a
  pub reservations : db1.reservations ≡ db.reservations
  pub usage_rows : db1.usage_rows ≡ db.usage_rows

pub open_account-Opens :
    (env : Env) (owner : String) (now : ℕ) (db : Db)
    → IsValid db
    → let (a, db1) = open_account env owner now db in Opens owner db a db1
unfolding open_account lookup
open_account-Opens env owner now db v = elim (Option-cases (lookup owner db.accounts)) [
  | inl missing ↦
      rw (missing, open_account)
        (record {
          valid = record {
            balanced = λ o. ground (arith, eq_iff owner o, v.balanced o);
            holding = λ o. ground (arith, eq_iff owner o, v.holding o);
            keyed = v.keyed;
          };
          stored = rw eq_refl;
          reservations = refl;
          usage_rows = refl;
        })
  | inr (a, found) ↦
      rw (found, open_account)
        (record { valid = v; stored = found; reservations = refl; usage_rows = refl })
]

pub grant_period-Opens :
    (env : Env) (owner : String) (now : ℕ) (plan : Plan) (a : Account) (db : Db)
    → IsValid db
    → lookup owner db.accounts ≡ some a
    → let (a', db1) = grant_period env owner now plan a db in Opens owner db a' db1
unfolding grant_period insert_ledger
grant_period-Opens env owner now plan a db v found =
    let key = grant_key plan (env.period_key now) in
    elim (Bool-cases (conflicts (ledger_id env owner key) owner key db.ledger)) [
      | inl taken ↦
          rw taken (record { valid = v; stored = found; reservations = refl; usage_rows = refl })
      | inr fresh ↦ rw fresh (record {
        valid = record {
          balanced = balanced-write db.accounts db.ledger owner _ _ v.balanced found refl refl;
          holding = λ o. column-keep reserved_column owner _ db.accounts found refl o ∙ v.holding o;
          keyed = v.keyed;
        };
        stored = lookup-update_self owner _ db.accounts found;
        reservations = refl;
        usage_rows = refl;
      })
    ]

Opens-trans :
    {owner : String} {db db1 db2 : Db} {a b : Account}
    → Opens owner db a db1
    → Opens owner db1 b db2
    → Opens owner db b db2
Opens-trans f g = record {
  valid = g.valid;
  stored = g.stored;
  reservations = g.reservations ∙ f.reservations;
  usage_rows = g.usage_rows ∙ f.usage_rows;
}

-- `_account` gives the owner's row, in a valid database; an unknown plan and an owner without a profile are errors.
pub account_row-Opens :
    (env : Env) (owner : String) (now : ℕ) (db : Db) {a : Account} {db1 : Db}
    → IsValid db
    → account_row env owner now db ≡ ok (a, db1)
    → Opens owner db a db1
unfolding account_row
account_row-Opens env owner now db {a} {db1} v e =
    let (_, _, e1) = >>=-eq-ok (raise_if (is_foreign env owner db) integrity_error) _ e in
    let (a0, db0) = open_account env owner now db in
    let opened = open_account-Opens env owner now db v in
    let (plan, _, done) = >>=-eq-ok (or_raise (lookup a0.catalog_id env.catalog.plans) _) _ e1 in
    subst (λ s. Opens owner db s.0 s.1) (ok-injective done)
      (if_ind (λ (s : Account × Db). Opens owner db s.0 s.1) _
        (Opens-trans opened
          (grant_period-Opens env owner now plan a0 db0 opened.valid opened.stored))
        opened)
