-- ===== src/Prelude/Outcome.antt =====
-- Calls that may raise: a value, or an exception of the component's own type `E`.
use mathlib.Core.Bool.{Bool, true, false}
use mathlib.Core.Option.{Option, none, some}
use mathlib.Core.Logic.{◌⊎◌, inl, inr}
use mathlib.Core.Path.{◌≡◌, refl}

pub data Outcome {ℓ} (E : Type 0) (A : Type ℓ) : Type ℓ where
  err : E → Outcome E A
  ok : A → Outcome E A

module _ {ℓ κ} {E : Type 0} {A : Type ℓ} {B : Type κ} where
  infixl 5 ◌>>=◌
  abbrev pub ◌>>=◌ : Outcome E A → (A → Outcome E B) → Outcome E B
  err raised >>= rest = err raised
  ok done >>= rest = rest done

  -- What a sequence that ends well says of its parts.
  pub >>=-eq-ok :
      (first : Outcome E A) (rest : A → Outcome E B) {end : B}
      → (first >>= rest) ≡ ok end
      → (mid : A) × (first ≡ ok mid) × (rest mid ≡ ok end)
  >>=-eq-ok (err raised) rest h = cc
  >>=-eq-ok (ok mid) rest h = (mid, refl, h)

  -- What a sequence that raises says of its parts.
  pub >>=-eq-err :
      (first : Outcome E A) (rest : A → Outcome E B) {raised : E}
      → (first >>= rest) ≡ err raised
      → (first ≡ err raised) ⊎ ((mid : A) × (first ≡ ok mid) × (rest mid ≡ err raised))
  >>=-eq-err (err other) rest h = inl (cc)
  >>=-eq-err (ok mid) rest h = inr (mid, refl, h)

module _ {κ} {E : Type 0} {B : Type κ} where
  infixl 5 ◌>>◌
  abbrev pub ◌>>◌ : Outcome E (Unit {0}) → Outcome E B → Outcome E B
  first >> rest = first >>= λ _. rest

module _ {E : Type 0} where
  abbrev pub raise_if : Bool → E → Outcome E (Unit {0})
  raise_if false raised = ok tt
  raise_if true raised = err raised

  pub raise_if-eq-ok : (b : Bool) (raised : E) {u : Unit {0}} → raise_if b raised ≡ ok u → b ≡ false
  raise_if-eq-ok false raised h = refl
  raise_if-eq-ok true raised h = cc

  pub raise_if-eq-err :
      (b : Bool) (e : E) {raised : E} → raise_if b e ≡ err raised → (b ≡ true) × (raised ≡ e)
  raise_if-eq-err false e h = absurd (cc)
  raise_if-eq-err true e h = (refl, cc)

module _ {ℓ} {E : Type 0} {A : Type ℓ} where
  abbrev pub or_raise : Option A → E → Outcome E A
  or_raise (some found) raised = ok found
  or_raise none raised = err raised

  pub or_raise-eq-ok : (o : Option A) (raised : E) {a : A} → or_raise o raised ≡ ok a → o ≡ some a
  or_raise-eq-ok (some found) raised h = cc
  or_raise-eq-ok none raised h = cc

  pub or_raise-eq-err :
      (o : Option A) (e : E) {raised : E} → or_raise o e ≡ err raised → (o ≡ none) × (raised ≡ e)
  or_raise-eq-err (some found) e h = absurd (cc)
  or_raise-eq-err none e h = (refl, cc)

  pub ok-injective : {a b : A} → ◌≡◌ {A = Outcome E A} (ok a) (ok b) → a ≡ b
  ok-injective h = cc

  -- To split on a call and keep the equation.
  pub Outcome-cases : (m : Outcome E A) → ((x : E) × (m ≡ err x)) ⊎ ((a : A) × (m ≡ ok a))
  Outcome-cases (err x) = inl (x, refl)
  Outcome-cases (ok a) = inr (a, refl)
