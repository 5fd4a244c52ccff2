-- ===== src/Execution/Keys.antt =====
-- Rows with a key of two texts, as the tables of gateway/app/firstmate_execution.py have: the first row that
-- has a key.
use mathlib.Core.Path.{subst}
use magistrate.Prelude.{
  false, String, ◌≡◌, refl, ap, ◌∙◌, Bool, true, ◌&&◌, none, some, List, [], ◌∷◌, ◌==◌, eq_iff,
  if◌then◌else◌, if_ind, arith, Bool-cases, inl, inr,
}
use magistrate.Objective.Persist.{first}
use magistrate.Execution.Rows.{update_where}
use magistrate.Execution.Steps.{without}

pub first-holds {ℓ} :
    {A : Type ℓ} (p : A → Bool) (xs : List A) {x : A} → first p xs ≡ some x → p x ≡ true
unfolding first
first-holds p [] h = absurd (cc)
first-holds p (y ∷ xs) {x} h = elim (Bool-cases (p y)) [
  | inl it ↦ let same : y ≡ x = ground arith in subst (λ z. p z ≡ true) same it
  | inr other ↦ first-holds p xs (rw (other, first) at h)
]

pub first-without {ℓ} :
    {A : Type ℓ} (p q : A → Bool) (xs : List A) {x : A}
    → ((y : A) → p y ≡ true → q y ≡ false)
    → first p xs ≡ some x
    → first p (without q xs) ≡ some x
unfolding first without
first-without p q [] apart h = h
first-without p q (y ∷ xs) apart h = elim (Bool-cases (p y)) [
  | inl it ↦ rw (apart y it, without) (rw (it, first) (rw (it, first) at h))
  | inr other ↦ let rest = first-without p q xs apart (rw (other, first) at h) in ground arith
]

pub first-update_where {ℓ} :
    {A : Type ℓ} (p q : A → Bool) (f : A → A) (xs : List A) {x : A}
    → ((y : A) → p (f y) ≡ p y)
    → first p xs ≡ some x
    → first p (update_where q f xs) ≡ some (if q x then f x else x)
unfolding first update_where
first-update_where p q f [] keeps h = absurd (cc)
first-update_where p q f (y ∷ xs) {x} keeps h =
    let kept : p (if q y then f y else y) ≡ p y = if_ind (λ z. p z ≡ p y) (q y) (keeps y) refl in
    elim (Bool-cases (p y)) [
      | inl it ↦
          let same : y ≡ x = ground arith in
          rw (kept, it) (ap (λ z. some (if q z then f z else z)) same)
      | inr other ↦ rw (kept, other) (first-update_where p q f xs keeps (rw (other, first) at h))
    ]

module _ {ℓ} {A : Type ℓ} (k l : A → String) where
  abbrev has_key : (o i : String) → A → Bool
  has_key o i x = k x == o && l x == i

  same_key :
      (o i owner id : String) (x : A)
      → has_key o i x ≡ true
      → has_key owner id x ≡ true
      → (o ≡ owner) × (i ≡ id)
  same_key o i owner id x a b = (
    ground (arith, eq_iff (k x) o, eq_iff (k x) owner),
    ground (arith, eq_iff (l x) i, eq_iff (l x) id),
  )

  -- What is found under two keys that a row has is the same.
  same_first :
      (o i owner id : String) (xs : List A) (x : A)
      → has_key o i x ≡ true
      → has_key owner id x ≡ true
      → first (has_key o i) xs ≡ first (has_key owner id) xs
  same_first o i owner id xs x a b =
      let (p, q) = same_key o i owner id x a b in
      ap (λ (o : String). first (has_key o i) xs) p
      ∙ ap (λ (i : String). first (has_key owner i) xs) q

  pub key_unique :
      (o i owner id : String) (xs : List A) {d e : A}
      → first (has_key o i) xs ≡ some d
      → first (has_key owner id) xs ≡ some e
      → has_key o i e ≡ true
      → d ≡ e
  key_unique o i owner id xs {d} {e} there found mine =
      let same = same_first o i owner id xs e mine (first-holds (has_key owner id) xs found) in
      cc (there, found, same)

  -- A row is found under each of its keys.
  pub key_found :
      (o i owner id : String) (xs : List A) {e : A}
      → first (has_key owner id) xs ≡ some e
      → has_key o i e ≡ true
      → first (has_key o i) xs ≡ some e
  key_found o i owner id xs {e} found mine =
      same_first o i owner id xs e mine (first-holds (has_key owner id) xs found) ∙ found

  -- A row with a key that was not there hides no other row.
  pub first-new :
      (o i owner id : String) (new : A) (xs : List A) {e : A}
      → has_key o i new ≡ true
      → first (has_key o i) xs ≡ none
      → first (has_key owner id) xs ≡ some e
      → first (has_key owner id) (new ∷ xs) ≡ some e
  unfolding first
  first-new o i owner id new xs {e} mine unknown found = elim (Bool-cases (has_key owner id new)) [
    | inl both ↦ let same = same_first o i owner id xs new mine both in absurd (cc)
    | inr other ↦ rw (other, first) found
  ]
