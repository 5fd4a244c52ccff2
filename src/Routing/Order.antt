-- ===== src/Routing/Order.antt =====
-- gateway/app/magi_routing.py: which candidates a request has, and which of them comes first.
use mathlib.Core.Path.{subst}
use magistrate.Prelude.{
  ap, Bool-cases, inl, inr, ℕ, ◌+◌, ◌≡◌, ◌∙◌, sym, refl, Bool, true, false, ◌&&◌, ◌||◌, not, Option,
  none, some, List, [], ◌∷◌, ◌++◌, eq_refl, if◌then◌else◌, arith, ltb, nat_eq,
}
use magistrate.Routing.Model.{ModelRouteContext, ModelCandidate}
use magistrate.Routing.Store.{Routes}
use magistrate.Routing.Select.{
  Env, Key, key_of, before, sorted, insert_sorted, keep, in_class, primary_first, eligible,
  eligible_of, is_eligible, estimate_of,
}

abbrev Priced : Type 0
Priced = ModelCandidate × ℕ

unfoldable pub tally : {A : Type 0} → (A → Bool) → List A → ℕ
tally p [] = 0
tally p (x ∷ xs) = (if p x then 1 else 0) + tally p xs

tally-append :
    (p : Priced → Bool) (xs ys : List Priced) → tally p (xs ++ ys) ≡ tally p xs + tally p ys
unfolding tally
tally-append p [] ys = omega arith
tally-append p (x ∷ xs) ys = omega (arith, tally-append p xs ys)

tally-keep :
    (p q : Priced → Bool) (xs : List Priced)
    → tally p (keep q xs) + tally p (keep (λ x. not (q x)) xs) ≡ tally p xs
unfolding tally keep
tally-keep p q [] = refl
tally-keep p q (x ∷ xs) = ground (arith, tally-keep p q xs)

tally-insert_sorted :
    (p : Priced → Bool) (key : Priced → Key) (x : Priced) (xs : List Priced)
    → tally p (insert_sorted key x xs) ≡ (if p x then 1 else 0) + tally p xs
unfolding tally insert_sorted
tally-insert_sorted p key x [] = refl
tally-insert_sorted p key x (y ∷ ys) = ground (arith, tally-insert_sorted p key x ys)

tally-sorted :
    (p : Priced → Bool) (key : Priced → Key) (xs : List Priced)
    → tally p (sorted key xs) ≡ tally p xs
unfolding tally sorted
tally-sorted p key [] = refl
tally-sorted p key (x ∷ xs) =
    omega (arith, tally-insert_sorted p key x (sorted key xs), tally-sorted p key xs)

tally-primary_first :
    (p : Priced → Bool) (xs : List Priced) → tally p (primary_first xs) ≡ tally p xs
unfolding primary_first
tally-primary_first p [] = refl
tally-primary_first p ((c, estimate) ∷ xs) =
    tally-append p _ _ ∙ tally-keep p (in_class c.capability_class) ((c, estimate) ∷ xs)

tally-eligible_of :
    (env : Env) (context : ModelRouteContext) (input : ℕ) (routes : Routes) (p : Priced → Bool)
    (cs : List ModelCandidate)
    → tally p (eligible_of env context input routes cs)
      ≡ tally (λ c. is_eligible env context input routes c && p (c, estimate_of env input c)) cs
unfolding tally eligible_of
tally-eligible_of env context input routes p [] = refl
tally-eligible_of env context input routes p (c ∷ cs) =
    ground (arith, tally-eligible_of env context input routes p cs)

-- Ordering loses and invents nothing: whatever is counted, the candidates of a request are the
-- catalog's candidates that pass every test, each with its estimate.
pub tally-eligible :
    (env : Env) (context : ModelRouteContext) (input : ℕ) (routes : Routes) (p : Priced → Bool)
    → tally p (eligible env context input routes)
      ≡ tally
          (λ c. is_eligible env context input routes c && p (c, estimate_of env input c))
          env.catalog.candidates
unfolding eligible
tally-eligible env context input routes p =
    tally-primary_first p _
    ∙ tally-sorted p (key_of env context routes) _
    ∙ tally-eligible_of env context input routes p env.catalog.candidates

-- The order of the keys without the text that breaks ties: marginal cost, preference, reliability
-- and latency.
unfoldable pub beats : Key → Key → Bool
beats a b =
    ltb a.marginal b.marginal
    || nat_eq a.marginal b.marginal
      && (ltb a.preference b.preference
          || nat_eq a.preference b.preference
            && (ltb b.reliability a.reliability
                || nat_eq a.reliability b.reliability && ltb a.latency b.latency))

beats-before : (a b : Key) → before a b ≡ true → beats b a ≡ false
unfolding beats before
beats-before a b h = ground arith

before-beats : (a b : Key) → before a b ≡ false → beats a b ≡ false
unfolding beats before
before-beats a b h = ground arith

beats_trans : (a b c : Key) → beats b a ≡ false → beats c a ≡ true → beats c b ≡ true
unfolding beats
beats_trans a b c h k = ground arith

tally-weaken :
    (p q : Priced → Bool) (xs : List Priced)
    → ((x : Priced) → p x ≡ true → q x ≡ true)
    → tally q xs ≡ 0
    → tally p xs ≡ 0
unfolding tally
tally-weaken p q [] h e = refl
tally-weaken p q (x ∷ xs) h e = ground (arith, h x, tally-weaken p q xs h)

abbrev first_of : List Priced → Option Priced
first_of [] = none
first_of (x ∷ xs) = some x

some-injective : {x y : Priced} → ◌≡◌ {A = Option Priced} (some x) (some y) → x ≡ y
some-injective h = cc

module _ (key : Priced → Key) where
  abbrev pub better_than : Priced → Priced → Bool
  better_than x y = beats (key y) (key x)

  -- No item of a list is better than its head.
  abbrev Headed : List Priced → Type 0
  Headed [] = Unit
  Headed (x ∷ xs) = tally (better_than x) (x ∷ xs) ≡ 0

  insert_sorted-Headed :
      (x : Priced) (xs : List Priced) → Headed xs → Headed (insert_sorted key x xs)
  unfolding tally insert_sorted beats
  insert_sorted-Headed x [] h = ground arith
  insert_sorted-Headed x (y ∷ ys) h = elim (Bool-cases (before (key y) (key x))) [
    | inl earlier ↦
        let beaten = beats-before (key y) (key x) earlier in
        rw earlier (ground (arith, tally-insert_sorted (better_than y) key x ys, beaten))
    | inr later ↦
        let none_better =
          tally-weaken (better_than x) (better_than y) (y ∷ ys)
            (λ z. beats_trans (key x) (key y) (key z) (before-beats (key y) (key x) later)) h in
        rw later (ground (arith, none_better))
  ]

  sorted-Headed : (xs : List Priced) → Headed (sorted key xs)
  unfolding sorted
  sorted-Headed [] = tt
  sorted-Headed (x ∷ xs) = insert_sorted-Headed x (sorted key xs) (sorted-Headed xs)

  Headed-first :
      (xs : List Priced) {x : Priced}
      → Headed xs
      → first_of xs ≡ some x
      → tally (better_than x) xs ≡ 0
  Headed-first [] h e = absurd (cc)
  Headed-first (y ∷ ys) h e = subst (λ x. tally (better_than x) (y ∷ ys) ≡ 0) (some-injective e) h

-- The first of the class of the first is the first.
first_of-primary_first : (xs : List Priced) → first_of (primary_first xs) ≡ first_of xs
unfolding primary_first keep
first_of-primary_first [] = refl
first_of-primary_first ((c, estimate) ∷ xs) = rw (eq_refl c.capability_class) refl

-- The first candidate of a request has the least marginal cost of all that are eligible, and among
-- those with that cost the best preference, then the highest reliability, then the least latency:
-- no other candidate is better in this order.
pub tally-eligible_head :
    (env : Env) (context : ModelRouteContext) (input : ℕ) (routes : Routes) {first : Priced}
    {others : List Priced}
    → eligible env context input routes ≡ first ∷ others
    → tally (better_than (key_of env context routes) first) (eligible env context input routes) ≡ 0
unfolding eligible
tally-eligible_head env context input routes {first} {others} e =
    let key = key_of env context routes in
    let all = sorted key (eligible_of env context input routes env.catalog.candidates) in
    tally-primary_first (better_than key first) all
    ∙ Headed-first key all
        (sorted-Headed key (eligible_of env context input routes env.catalog.candidates))
        (sym (first_of-primary_first all) ∙ ap first_of e)
