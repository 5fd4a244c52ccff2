-- ===== src/Billing/Cost.antt =====
-- gateway/app/billing.py: the price of a measured execution.
use native.Mathlib.Nat.{lt-div-mul-add, div-lt_iff_lt-mul, mul-le-mul, le_refl}
use magistrate.Prelude.{ℕ, ◌+◌, ◌-◌, ◌*◌, ◌/◌, ◌^◌, ◌<◌, ◌≤◌, ◌≡◌, arith}
use magistrate.Billing.Catalog.{Rate, microcredits_per_credit}
use magistrate.Billing.Db.{Usage}
use magistrate.Billing.Settle.{token_numerator, compute_numerator, priced}

-- The least number that is not below a / b.
unfoldable pub ceil_div : ℕ → ℕ → ℕ
ceil_div a b = (a + (b - 1)) / b

-- Division of floats, rounded up, is exact as long as the numerator is a float without rounding.
abbrev pub IsExact : (ℕ → ℕ → ℕ) → Type 0
IsExact ceil = (a b : ℕ) → a < 2 ^ 53 → 0 < b → ceil a b ≡ ceil_div a b

ceil_div-covers : (a b : ℕ) → 0 < b → a ≤ ceil_div a b * b
unfolding ceil_div
ceil_div-covers a b h = omega (arith, lt-div-mul-add {a = a + (b - 1)} {b = b} h)

ceil_div-least : (a b n : ℕ) → 0 < b → a ≤ n * b → ceil_div a b ≤ n
unfolding ceil_div
ceil_div-least a b n h k =
    omega (arith, (div-lt_iff_lt-mul {k = b} {x = a + (b - 1)} {y = n + 1} h).1 (grind arith))

pub ceil_div_mono : (a b n : ℕ) → 0 < n → a ≤ b → ceil_div a n ≤ ceil_div b n
ceil_div_mono a b n h k = ceil_div-least a n (ceil_div b n) h (omega (arith, ceil_div-covers b n h))

-- The US dollar micros of an execution, and what is billed with the margin.
abbrev pub usd_micros : Rate → Usage → ℕ
usd_micros r u =
    ceil_div (token_numerator r u) 1_000_000 + ceil_div (compute_numerator r u) 3_600_000

abbrev pub billable : Rate → Usage → ℕ
billable r u = ceil_div (usd_micros r u * (10_000 + r.margin_bps)) 10_000

-- Every number that is divided is below the bound of exact floats.
pub record IsSmall (r : Rate) (u : Usage) : Type 0 where
  pub tokens : token_numerator r u < 2 ^ 53
  pub compute : compute_numerator r u < 2 ^ 53
  pub margin : usd_micros r u * (10_000 + r.margin_bps) < 2 ^ 53
  pub credits : billable r u * microcredits_per_credit < 2 ^ 53

priced-exact :
    (ceil : ℕ → ℕ → ℕ) (unit : ℕ) (r : Rate) (u : Usage)
    → IsExact ceil
    → 0 < unit
    → IsSmall r u
    → priced ceil unit r u ≡ ceil_div (billable r u * microcredits_per_credit) unit
unfolding priced
priced-exact ceil unit r u exact pos_unit small =
    rw
      (
        exact (token_numerator r u) 1_000_000 small.tokens (omega arith),
        exact (compute_numerator r u) 3_600_000 small.compute (omega arith),
      )
      (rw (exact (usd_micros r u * (10_000 + r.margin_bps)) 10_000 small.margin (omega arith))
        (exact (billable r u * microcredits_per_credit) unit small.credits pos_unit))

-- With every number that is divided below the bound, a larger usage at the same rate never costs
-- less.
pub priced_mono :
    (ceil : ℕ → ℕ → ℕ) (unit : ℕ) (r : Rate) (u w : Usage)
    → IsExact ceil
    → 0 < unit
    → IsSmall r u
    → IsSmall r w
    → u.input_tokens ≤ w.input_tokens
    → u.output_tokens ≤ w.output_tokens
    → u.compute_milliseconds ≤ w.compute_milliseconds
    → priced ceil unit r u ≤ priced ceil unit r w
priced_mono ceil unit r u w exact pos_unit su sw hi ho hc =
    let million : 0 < 1_000_000 = omega arith in
    let hour : 0 < 3_600_000 = omega arith in
    let whole : 0 < 10_000 = omega arith in
    let tokens : token_numerator r u ≤ token_numerator r w = omega (
      arith,
      mul-le-mul hi (le_refl r.input_usd_micros_per_million),
      mul-le-mul ho (le_refl r.output_usd_micros_per_million),
    ) in
    let compute : compute_numerator r u ≤ compute_numerator r w =
      mul-le-mul hc (le_refl r.compute_usd_micros_per_hour) in
    let usd : usd_micros r u ≤ usd_micros r w = omega (
      arith,
      ceil_div_mono (token_numerator r u) (token_numerator r w) 1_000_000 million tokens,
      ceil_div_mono (compute_numerator r u) (compute_numerator r w) 3_600_000 hour compute,
    ) in
    let bill : billable r u ≤ billable r w =
      ceil_div_mono _ _ 10_000 whole (mul-le-mul usd (le_refl (10_000 + r.margin_bps))) in
    rw (priced-exact ceil unit r u exact pos_unit su, priced-exact ceil unit r w exact pos_unit sw)
      (ceil_div_mono _ _ unit pos_unit (mul-le-mul bill (le_refl microcredits_per_credit)))
