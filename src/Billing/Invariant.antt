-- ===== src/Billing/Invariant.antt =====
-- gateway/app/billing.py: what ties the accounts to the ledger and to the reservations.
use magistrate.Prelude.{
  String, ◌≡◌, Bool, true, false, none, some, List, ◌∷◌, ◌==◌, eq_iff, if◌then◌else◌, arith,
}
use magistrate.Prelude.Int.{ℤ, pos, ◌+ℤ◌, ◌-ℤ◌, int_laws}
use magistrate.Prelude.Tables.{Table, lookup, update, Distinct, total, lookup-update, total-update}
use magistrate.Billing.Db.{Account, Entry, Reservation, Db, sum_entries, held, is_active}

-- A column of an owner's account, which is zero for an owner without one.
abbrev pub column : (Account → ℤ) → String → Table Account → ℤ
column g o t = elim (lookup o t) [ none ↦ pos 0 | some a ↦ g a ]

abbrev pub available_column : Account → ℤ
available_column a = a.available

abbrev pub reserved_column : Account → ℤ
reserved_column a = a.reserved

abbrev pub owned : String → Entry → Bool
owned o e = e.owner == o

-- Each balance is the sum of the owner's ledger, each hold is the sum of the owner's active
-- reservations, and reservation ids are unique.
pub record IsValid (db : Db) : Type 0 where
  pub balanced :
      (o : String) → column available_column o db.accounts ≡ sum_entries (owned o) db.ledger
  pub holding : (o : String) → column reserved_column o db.accounts ≡ pos (held o db.reservations)
  pub keyed : Distinct db.reservations

pub column-update :
    (g : Account → ℤ) (owner o : String) (f : Account → Account) (t : Table Account) {a : Account}
    → lookup owner t ≡ some a
    → column g o (update owner f t) ≡ (if owner == o then g (f a) else column g o t)
column-update g owner o f t {a} found = ground (arith, lookup-update owner o f t, eq_iff owner o)

-- An update that leaves the column of the row alone leaves the column of the table alone.
pub column-keep :
    (g : Account → ℤ) (owner : String) (f : Account → Account) (t : Table Account) {a : Account}
    → lookup owner t ≡ some a
    → g (f a) ≡ g a
    → (o : String) → column g o (update owner f t) ≡ column g o t
column-keep g owner f t {a} found same o =
    ground (arith, column-update g owner o f t found, eq_iff owner o)

-- An account changes by the amount of the ledger row that is written with it.
pub balanced-write :
    (accounts : Table Account) (ledger : List Entry) (owner : String) (f : Account → Account)
    (e : Entry) {a : Account}
    → ((o : String) → column available_column o accounts ≡ sum_entries (owned o) ledger)
    → lookup owner accounts ≡ some a
    → e.owner ≡ owner
    → (f a).available ≡ a.available +ℤ e.amount
    → (o : String)
    → column available_column o (update owner f accounts) ≡ sum_entries (owned o) (e ∷ ledger)
unfolding sum_entries
balanced-write accounts ledger owner f e {a} h found same moved o = grind (
  int_laws,
  column-update available_column owner o f accounts found,
  eq_iff e.owner o,
  eq_iff owner o,
  h o,
  h owner,
)

-- A new active reservation adds its estimate to its owner's hold.
pub holding-place :
    (accounts : Table Account) (rows : Table Reservation) (owner rid : String)
    (f : Account → Account) (r : Reservation) {a : Account}
    → ((o : String) → column reserved_column o accounts ≡ pos (held o rows))
    → lookup owner accounts ≡ some a
    → is_active owner r ≡ true
    → (f a).reserved ≡ a.reserved +ℤ pos r.estimated
    → (o : String)
    → column reserved_column o (update owner f accounts) ≡ pos (held o ((rid, r) ∷ rows))
unfolding held total
holding-place accounts rows owner rid f r {a} h found active moved o = grind (
  int_laws,
  column-update reserved_column owner o f accounts found,
  eq_iff r.owner o,
  eq_iff r.owner owner,
  eq_iff owner o,
  h o,
  h owner,
)

-- A reservation that ends gives its estimate back to its owner's hold.
pub holding-end :
    (accounts : Table Account) (rows : Table Reservation) (owner rid : String)
    (f : Account → Account) (g : Reservation → Reservation) {a : Account} {r : Reservation}
    → ((o : String) → column reserved_column o accounts ≡ pos (held o rows))
    → lookup owner accounts ≡ some a
    → lookup rid rows ≡ some r
    → is_active owner r ≡ true
    → ((o : String) → is_active o (g r) ≡ false)
    → (f a).reserved ≡ a.reserved -ℤ pos r.estimated
    → (o : String)
    → column reserved_column o (update owner f accounts) ≡ pos (held o (update rid g rows))
unfolding held
holding-end accounts rows owner rid f g {a} {r} h found row active ended moved o = grind (
  int_laws,
  column-update reserved_column owner o f accounts found,
  total-update (λ x. if is_active o x then x.estimated else 0) g rid rows row,
  eq_iff r.owner o,
  eq_iff r.owner owner,
  eq_iff owner o,
  ended o,
  h o,
  h owner,
)
