-- ===== src/Prelude/Tables.antt =====
-- A database table with a text primary key: the rows that a statement reads or writes. At most one
-- row has a given key, so an `UPDATE ... WHERE key = ?` changes the first row that has it.
use Prim.Native.Nat.{ℕ, ◌+◌}
use Prim.Native.String.{String}
use mathlib.Core.Bool.{Bool, true}
use mathlib.Core.List.{List, [], ◌∷◌}
use mathlib.Core.Option
use mathlib.Core.Option.{Option, none, some}
use mathlib.Core.Path.{◌≡◌}
use native.Mathlib.Omega.{arith}
use text.Mathlib.Text.{◌==◌}
use text.Mathlib.TextEquality.{eq_iff}
use text.Mathlib.TextPositions.{eq_refl}
use magistrate.Prelude.Tests.{if◌then◌else◌}

abbrev pub Table {ℓ} : Type ℓ → Type ℓ
Table V = List (String × V)

module _ {ℓ} {V : Type ℓ} where
  -- SELECT ... WHERE key = ?
  unfoldable pub lookup : String → Table V → Option V
  lookup k [] = none
  lookup k ((j, v) ∷ t) = if j == k then some v else lookup k t

  -- UPDATE ... WHERE key = ?
  unfoldable pub update : String → (V → V) → Table V → Table V
  update k f [] = []
  update k f ((j, v) ∷ t) = if j == k then (j, f v) ∷ t else (j, v) ∷ update k f t

  -- SELECT ... WHERE p, the first row
  unfoldable pub find_row : (V → Bool) → Table V → Option (String × V)
  find_row p [] = none
  find_row p ((j, v) ∷ t) = if p v then some (j, v) else find_row p t

  -- The primary key: no two rows share it.
  abbrev pub Distinct : Table V → Type ℓ
  Distinct [] = Unit
  Distinct ((j, v) ∷ t) = (lookup j t ≡ none) × Distinct t

  -- SUM of a column
  unfoldable pub total : (V → ℕ) → Table V → ℕ
  total f [] = 0
  total f ((j, v) ∷ t) = f v + total f t

  pub lookup-update :
      (k j : String) (f : V → V) (t : Table V)
      → lookup j (update k f t) ≡ (if k == j then Option.map f (lookup j t) else lookup j t)
  unfolding lookup update
  lookup-update k j f [] = ground arith
  lookup-update k j f ((i, v) ∷ t) =
      ground (arith, eq_iff k j, eq_iff i k, eq_iff i j, lookup-update k j f t)

  pub lookup-update_self :
      (k : String) (f : V → V) (t : Table V) {v : V}
      → lookup k t ≡ some v
      → lookup k (update k f t) ≡ some (f v)
  lookup-update_self k f t {v} found = rw (lookup-update, eq_refl, found)

  pub update-Distinct :
      (k : String) (f : V → V) (t : Table V) → Distinct t → Distinct (update k f t)
  unfolding lookup update
  update-Distinct k f [] d = d
  update-Distinct k f ((i, v) ∷ t) d =
      ground (arith, eq_iff i k, eq_iff k i, lookup-update k i f t, update-Distinct k f t)

  pub lookup-find_row :
      (p : V → Bool) (t : Table V) {k : String} {v : V}
      → Distinct t
      → find_row p t ≡ some (k, v)
      → lookup k t ≡ some v
  unfolding lookup find_row
  lookup-find_row p [] d e = ground arith
  lookup-find_row p ((i, w) ∷ t) {k} {v} d e =
      ground (arith, eq_iff i k, lookup-find_row p t {k = k} {v = v})

  pub find_row-holds :
      (p : V → Bool) (t : Table V) {k : String} {v : V} → find_row p t ≡ some (k, v) → p v ≡ true
  unfolding find_row
  find_row-holds p [] e = ground arith
  find_row-holds p ((i, w) ∷ t) {k} {v} e = ground (arith, find_row-holds p t {k = k} {v = v})

  pub total-update :
      (g : V → ℕ) (f : V → V) (k : String) (t : Table V) {v : V}
      → lookup k t ≡ some v
      → total g (update k f t) + g v ≡ total g t + g (f v)
  unfolding lookup update total
  total-update g f k [] e = ground arith
  total-update g f k ((i, w) ∷ t) {v} e = ground (arith, total-update g f k t {v = v})

  -- A row that keeps passing the test is still the first that passes it.
  pub find_row-update :
      (p : V → Bool) (k : String) (f : V → V) (t : Table V) {v : V}
      → Distinct t
      → find_row p t ≡ some (k, v)
      → p (f v) ≡ true
      → find_row p (update k f t) ≡ some (k, f v)
  unfolding lookup find_row update
  find_row-update p k f [] d e h = ground arith
  find_row-update p k f ((i, w) ∷ t) {v} d e h =
      ground
        (arith, eq_iff i k, find_row-update p k f t {v = v}, lookup-find_row p t {k = k} {v = v})
