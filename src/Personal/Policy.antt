-- ===== src/Personal/Policy.antt =====
-- gateway/app/deployment_mode.py: `DeploymentMode`, and gateway/app/contracts.py: its configuration.
use magistrate.Prelude.{
  ℕ, ◌+◌, String, Bool, true, false, ◌&&◌, ◌||◌, not, Option, none, some, List, [], ◌∷◌, ◌==◌,
  if◌then◌else◌, ltb, leb, is_some,
}
use magistrate.Prelude.Chars.{value_of_digits, length, all_chars, is_digit, is_name, is_id_char}
use magistrate.Prelude.Outcome.{Outcome, ok, ◌>>=◌, ◌>>◌, raise_if, or_raise}
use magistrate.Objective.State.{max_contract_integer}

-- `DeploymentModeError` by its code, then what else is raised: the failure of an `assert`, of a
-- validation, of a lookup in a dictionary, and of a constraint of the table.
pub data PolicyError : Type 0 where
  deployment_mode_invalid personal_configuration_invalid authentication_required : PolicyError
  personal_owner_required scope_required personal_mode_required : PolicyError
  resource_observation_required resource_owner_mismatch : PolicyError
  implementation_capacity_exceeded personal_spend_limit_exceeded : PolicyError
  historical_execution_unsettled personal_reservation_conflict : PolicyError
  authorized_repository_required personal_measured_usage_required : PolicyError
  personal_terminal_evidence_required personal_settlement_conflict : PolicyError
  assertion_failed validation_failed key_missing integrity_failed : PolicyError

pub data Mode : Type 0 where
  public_saas personal : Mode

pub record Contract : Type 0 where
  pub mode : Mode
  pub owner_principal_id : Option String
  pub max_implementation_workers : ℕ
  pub objective_spend_limit_micro_usd : Option ℕ
  pub monthly_spend_limit_micro_usd : Option ℕ

abbrev pub is_personal : Contract → Bool
is_personal c = elim c.mode [ public_saas ↦ false | personal ↦ true ]

abbrev pub is_limit : Option ℕ → Bool
is_limit none = true
is_limit (some n) = leb 1 n && leb n max_contract_integer

abbrev pub fits : Option ℕ → Option ℕ → Bool
fits (some objective) (some monthly) = leb objective monthly
fits _ _ = false

abbrev pub is_owner : Option String → Bool
is_owner none = true
is_owner (some owner) = is_name 127 is_id_char owner

-- The bounds of the fields, and `validate_personal_settings`.
unfoldable pub is_contract : Contract → Bool
is_contract c =
    is_owner c.owner_principal_id
    && leb 1 c.max_implementation_workers
    && leb c.max_implementation_workers 2
    && is_limit c.objective_spend_limit_micro_usd
    && is_limit c.monthly_spend_limit_micro_usd
    && (if is_personal c
        then is_some c.owner_principal_id
          && fits c.objective_spend_limit_micro_usd c.monthly_spend_limit_micro_usd
        else not (is_some c.owner_principal_id)
          && not (is_some c.objective_spend_limit_micro_usd)
          && not (is_some c.monthly_spend_limit_micro_usd))

abbrev pub default_contract : Contract
default_contract = record {
  mode = public_saas;
  owner_principal_id = none;
  max_implementation_workers = 1;
  objective_spend_limit_micro_usd = none;
  monthly_spend_limit_micro_usd = none;
}

-- `integer`: one to sixteen digits.
unfoldable pub integer : Option String → Option ℕ
integer none = none
integer (some raw) =
    if leb 1 (length raw) && leb (length raw) 16 && all_chars is_digit raw
    then some (value_of_digits 0 raw)
    else none

abbrev pub or_default : String → Option String → Option String
or_default text none = some text
or_default text (some given) = some given

abbrev pub read : Option ℕ → Outcome PolicyError ℕ
read number = or_raise number personal_configuration_invalid

-- The settings of the personal mode, before they are validated.
unfoldable pub settings : (String → Option String) → Outcome PolicyError Contract
settings env = do
  workers ← read (integer (or_default "1" (env "MAGISTRATE_PERSONAL_MAX_IMPLEMENTATION_WORKERS")))
  objective ← read (integer (env "MAGISTRATE_PERSONAL_OBJECTIVE_SPEND_LIMIT_MICRO_USD"))
  monthly ← read (integer (env "MAGISTRATE_PERSONAL_MONTHLY_SPEND_LIMIT_MICRO_USD"))
  ok (record {
    mode = personal;
    owner_principal_id = env "MAGISTRATE_PERSONAL_OWNER_PRINCIPAL_ID";
    max_implementation_workers = workers;
    objective_spend_limit_micro_usd = some objective;
    monthly_spend_limit_micro_usd = some monthly;
  })

abbrev pub is_text : String → Option String → Bool
is_text text none = false
is_text text (some given) = given == text

unfoldable pub from_env : (String → Option String) → Outcome PolicyError Contract
from_env env =
    let mode = or_default "public-saas" (env "MAGISTRATE_DEPLOYMENT_MODE") in
    if is_text "public-saas" mode then ok default_contract else do
      raise_if (not (is_text "personal" mode)) deployment_mode_invalid
      contract ← settings env
      raise_if (not (is_contract contract)) personal_configuration_invalid
      ok contract

-- gateway/app/auth.py: of `Principal`, what a policy reads.
pub record Principal : Type 0 where
  pub user_id : String
  pub scopes : List String
  pub session_id : String
  pub expires_at : ℕ

unfoldable pub has : String → List String → Bool
has scope [] = false
has scope (s ∷ scopes) = s == scope || has scope scopes

abbrev pub has_scope : Option String → Principal → Bool
has_scope none p = true
has_scope (some scope) p = has scope p.scopes

unfoldable pub require_principal :
    Contract → (now : ℕ) → Principal → (scope : Option String) → Outcome PolicyError Principal
require_principal c now p scope = do
  raise_if (p.session_id == "" || leb p.expires_at now) authentication_required
  raise_if (is_personal c && not (is_text p.user_id c.owner_principal_id)) personal_owner_required
  raise_if (not (has_scope scope p)) scope_required
  ok p

unfoldable pub requires_commercial_entitlement :
    Contract → (now : ℕ) → Principal → Outcome PolicyError Bool
requires_commercial_entitlement c now p = do
  _ ← require_principal c now p none
  ok (not (is_personal c))

unfoldable pub checkout_allowed : Contract → (now : ℕ) → Principal → Outcome PolicyError Bool
checkout_allowed c now p = do
  _ ← require_principal c now p (some "account")
  ok (not (is_personal c))

-- `PersonalResourceUsage`: what the ledger counts for an owner.
pub record Usage : Type 0 where
  pub owner_principal_id : String
  pub active_objectives : ℕ
  pub active_implementation_workers : ℕ
  pub spent_micro_usd : ℕ
  pub reserved_micro_usd : ℕ

unfoldable pub is_usage : Usage → Bool
is_usage u =
    is_name 127 is_id_char u.owner_principal_id
    && leb u.active_objectives max_contract_integer
    && leb u.active_implementation_workers max_contract_integer
    && leb u.spent_micro_usd max_contract_integer
    && leb u.reserved_micro_usd max_contract_integer

abbrev pub max : ℕ → ℕ → ℕ
max n m = if leb n m then m else n

-- Whether the workers exceed the capacity of the policy beside those that are committed.
unfoldable pub over_capacity : Contract → Usage → (workers : ℕ) → Bool
over_capacity c u workers =
    leb c.max_implementation_workers u.active_objectives
    || ltb c.max_implementation_workers
        (max u.active_objectives u.active_implementation_workers + workers)

-- The hold that one new objective needs.
unfoldable pub check_personal_admission :
    Contract → (now : ℕ) → Principal → Option Usage → (workers : ℕ) → Outcome PolicyError ℕ
check_personal_admission c now p usage workers = do
  _ ← require_principal c now p (some "command")
  raise_if (not (is_personal c)) personal_mode_required
  u ← or_raise usage resource_observation_required
  raise_if (not (u.owner_principal_id == p.user_id)) resource_owner_mismatch
  raise_if (not (leb 1 workers && leb workers c.max_implementation_workers))
      implementation_capacity_exceeded
  raise_if (over_capacity c u workers) implementation_capacity_exceeded
  ceiling ← or_raise c.objective_spend_limit_micro_usd assertion_failed
  monthly ← or_raise c.monthly_spend_limit_micro_usd assertion_failed
  raise_if (ltb monthly (u.spent_micro_usd + u.reserved_micro_usd + ceiling))
      personal_spend_limit_exceeded
  ok ceiling
