-- ===== src/Personal/Rows.antt =====
-- gateway/app/firstmate_execution.py: the table of `PersonalResourceLedger`, and what it reads of others.
use magistrate.Prelude.{ℕ, String, Bool, Option, List}
use magistrate.Prelude.Tables.{Table}
use magistrate.Personal.Policy.{Contract}

-- What is read of `project_repositories`, `github_app_repositories` and `github_app_installations`.
pub record ProjectRepository : Type 0 where
  pub repository_id : String
  pub owner_user_id : String
  pub project_id : String
  pub provider : String
  pub full_name : String

pub record AppRepository : Type 0 where
  pub installation_id : ℕ
  pub repository_id : ℕ
  pub full_name : String
  pub active : Bool

pub record Installation : Type 0 where
  pub installation_id : ℕ
  pub user_id : Option String
  pub status : String

pub record Repository : Type 0 where
  pub installation_id : ℕ
  pub provider_repository_id : ℕ
  pub repository : String
  pub project_repository_id : String

-- `FirstmateMeasuredUsage` without its absent fields.
pub record Measured : Type 0 where
  pub provider : String
  pub model : String
  pub input_tokens : ℕ
  pub output_tokens : ℕ
  pub compute_milliseconds : ℕ
  pub cost_micro_usd : Option ℕ

pub data Status : Type 0 where
  reserved settled released : Status

-- `personal_resource_reservations`, by its key `objective_id`. Columns of JSON hold their values.
pub record Row : Type 0 where
  pub owner_user_id : String
  pub actor_session_id : String
  pub contract_sha256 : String
  pub policy : Contract
  pub repository : Repository
  pub reserved_micro_usd : ℕ
  pub implementation_workers : ℕ
  pub status : Status
  pub actual_micro_usd : Option ℕ
  pub usage_json : Option String
  pub settlement_event_id : Option String
  pub period_key : String
  pub created_at : ℕ
  pub updated_at : ℕ

-- What is read of the tables of other components.
pub record Credit : Type 0 where
  pub owner_user_id : String
  pub status : String

pub record Execution : Type 0 where
  pub owner_user_id : String
  pub objective_id : String
  pub terminal_phase : Option String

pub record Event : Type 0 where
  pub owner_user_id : String
  pub objective_id : String
  pub event_id : String
  pub phase : String
  pub usage : Option Measured
  pub created_at : ℕ

pub record Submission : Type 0 where
  pub objective_id : String
  pub status : String

pub record Tables : Type 0 where
  pub project_repositories : List ProjectRepository
  pub app_repositories : List AppRepository
  pub installations : List Installation
  pub credits : List Credit
  pub executions : List Execution
  pub events : List Event
  pub submissions : List Submission

pub record Store : Type 0 where
  pub reservations : Table Row
  pub others : Tables

-- The month of a time, the text of a JSON value, and SQLite's `lower`.
pub record Env : Type 0 where
  pub period : ℕ → String
  pub encode : Measured → String
  pub lower : String → String
