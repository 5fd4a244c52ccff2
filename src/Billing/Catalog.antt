-- ===== src/Billing/Catalog.antt =====
-- gateway/app/billing.py: the entries of a checked billing catalog, and what the ledger takes from
-- outside the file.
use magistrate.Prelude.{
  ℕ, ◌*◌, String, Bool, true, false, ◌&&◌, ◌||◌, Option, none, some, List, [], ◌∷◌, ◌==◌,
  if◌then◌else◌,
}
use magistrate.Prelude.Tables.{Table}

pub data PlanKind : Type 0 where
  free demo subscription : PlanKind

pub record Plan : Type 0 where
  pub id : String
  pub kind : PlanKind
  pub name : String
  pub stripe_price_id : Option String
  pub monthly_included_credits : ℕ
  pub objective_reserve_credits : ℕ
  pub monthly_spend_limit_credits : ℕ
  pub concurrency_limit : ℕ
  pub low_credit_warning_credits : ℕ
  pub grace_days : ℕ
  pub entitlements : List String

pub record Pack : Type 0 where
  pub id : String
  pub name : String
  pub credits : ℕ
  pub stripe_price_id : Option String

pub record Rate : Type 0 where
  pub provider : String
  pub model : String
  pub input_usd_micros_per_million : ℕ
  pub output_usd_micros_per_million : ℕ
  pub compute_usd_micros_per_hour : ℕ
  pub margin_bps : ℕ

pub record BillingCatalog : Type 0 where
  pub usd_micros_per_credit : ℕ
  pub plans : Table Plan
  pub packs : Table Pack
  pub default_plan : String
  pub rates : List Rate

-- `ceil_quotient a b` is `math.ceil(a / b)`, whose division is that of floats; `period_key` is the
-- month of a time by the platform's clock; `digest` is the first 32 digits of the hash of a pair.
pub record Env : Type 0 where
  pub catalog : BillingCatalog
  pub period_key : ℕ → String
  pub digest : String → String → String
  pub ceil_quotient : ℕ → ℕ → ℕ
  -- The owner has a row of `user_profiles`.
  pub has_profile : String → Bool

abbrev pub microcredits_per_credit : ℕ
microcredits_per_credit = 1_000_000

unfoldable pub microcredits : ℕ → ℕ
microcredits credits = credits * microcredits_per_credit

-- `name in plan["entitlements"]`
unfoldable pub entitles : String → List String → Bool
entitles name [] = false
entitles name (e ∷ es) = e == name || entitles name es

-- `catalog.rates.get((provider, model))`
unfoldable pub find_rate : String → String → List Rate → Option Rate
find_rate provider model [] = none
find_rate provider model (r ∷ rs) =
    if r.provider == provider && r.model == model then some r else find_rate provider model rs

abbrev pub is_subscription : PlanKind → Bool
is_subscription PlanKind.subscription = true
is_subscription _ = false
