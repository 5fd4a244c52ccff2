-- ===== src/Execution/Rows.antt =====
-- gateway/app/firstmate_execution.py: the events of Firstmate, the tables of `FirstmateExecutionStore`, and
-- what it answers.
use magistrate.Prelude.{
  ℕ, String, Bool, true, false, ◌&&◌, Option, none, some, List, [], ◌∷◌, ◌==◌, if◌then◌else◌, map,
}
use magistrate.Prelude.Tables.{Table}
use magistrate.Objective.State.{ObjectiveState, StateError}
use magistrate.Objective.Persist.{Submission, Decision}
use magistrate.Objective.Persist
use magistrate.Cancellation.Model
use magistrate.Personal.Rows.{Measured}

-- The exceptions; a failure of the activity projection or of the state projection keeps its own.
pub data ExecutionError : Type 0 where
  value_error conflict not_found activity_failed : ExecutionError
  state_failed : StateError → ExecutionError

pub data Progress : Type 0 where
  worker_started implementation_started tests_started : Progress
  tests_passed tests_failed review_started : Progress

pub data Ending : Type 0 where
  failed cancelled : Ending

pub data Phase : Type 0 where
  accepted_phase completed_phase : Phase
  progress_phase : Progress → Phase
  ended_phase : Ending → Phase

abbrev pub phase_text : Phase → String
phase_text accepted_phase = "objective.accepted"
phase_text (progress_phase worker_started) = "worker.started"
phase_text (progress_phase implementation_started) = "implementation.started"
phase_text (progress_phase tests_started) = "tests.started"
phase_text (progress_phase tests_passed) = "tests.passed"
phase_text (progress_phase tests_failed) = "tests.failed"
phase_text (progress_phase review_started) = "review.started"
phase_text completed_phase = "objective.completed"
phase_text (ended_phase Ending.failed) = "objective.failed"
phase_text (ended_phase Ending.cancelled) = "objective.cancelled"

-- `_TERMINAL_PHASES`
abbrev pub is_terminal_event : Phase → Bool
is_terminal_event completed_phase = true
is_terminal_event (ended_phase e) = true
is_terminal_event _ = false

abbrev pub is_completed : Phase → Bool
is_completed completed_phase = true
is_completed _ = false

abbrev pub is_cancelled : Phase → Bool
is_cancelled (ended_phase Ending.cancelled) = true
is_cancelled _ = false

-- `FirstmateObjectiveFacts` and `FirstmateNativeChatOrigin`
pub record Origin : Type 0 where
  pub title : String
  pub project : Option String
  pub conversation_id : String
  pub user_message_id : String

-- What an event has besides its identities: the origin if it is accepted, the text of the evidence if
-- it is completed, and at an end what was measured.
pub data Facts : Type 0 where
  accepted : Origin → Facts
  progressed : Progress → Facts
  completed : (evidence : String) → Option Measured → Facts
  ended : Ending → Option Measured → Facts

pub record Incoming : Type 0 where
  pub event_id : String
  pub objective_id : String
  pub task_id : String
  pub run_id : String
  pub occurred_at : ℕ
  pub facts : Facts

abbrev pub phase_of_facts : Facts → Phase
phase_of_facts (accepted origin) = accepted_phase
phase_of_facts (progressed progress) = progress_phase progress
phase_of_facts (completed evidence usage) = completed_phase
phase_of_facts (ended ending usage) = ended_phase ending

abbrev pub evidence_text : Facts → Option String
evidence_text (completed evidence usage) = some evidence
evidence_text _ = none

pub data Generation : Type 0 where
  queued generating completed failed : Generation

-- A row of `firstmate_execution_events`.
pub record EventRow : Type 0 where
  pub owner_user_id : String
  pub event_id : String
  pub objective_id : String
  pub task_id : String
  pub run_id : String
  pub phase : Phase
  pub occurred_at : ℕ
  pub payload_sha256 : String
  pub payload_json : String
  pub evidence_json : Option String
  pub activity_record_id : String
  pub generation_state : Option Generation
  pub generation_attempt_count : ℕ
  pub assistant_message_id : Option String
  pub error_code : Option String
  pub created_at : ℕ
  pub updated_at : ℕ

-- A row of `firstmate_execution_objectives`.
pub record ObjectiveRow : Type 0 where
  pub owner_user_id : String
  pub objective_id : String
  pub task_id : String
  pub run_id : String
  pub accepted_event_id : String
  pub conversation_id : String
  pub origin_message_id : String
  pub title : String
  pub project : Option String
  pub terminal_event_id : Option String
  pub terminal_phase : Option Phase
  pub created_at : ℕ
  pub updated_at : ℕ

-- What is read of `magi_messages` and `magi_generated_messages`.
pub record Message : Type 0 where
  pub id : String
  pub owner_user_id : String
  pub conversation_id : String
  pub role : String
  pub status : String

pub record Generated : Type 0 where
  pub owner_user_id : String
  pub generation_key : String
  pub message_id : String

pub record Store : Type 0 where
  pub events : List EventRow
  pub objectives : List ObjectiveRow
  pub messages : List Message
  pub generated : List Generated
  pub submissions : List Submission
  pub decisions : List Decision
  pub requests : Table Model.Row
  pub projections : List ObjectiveState

-- The tables as the state projection reads them.
abbrev pub view : Store → Persist.Store
view s = record {
  submissions = s.submissions;
  executions =
      map
        (λ (x : ObjectiveRow). record {
          owner_user_id = x.owner_user_id;
          objective_id = x.objective_id;
          task_id = x.task_id;
          terminal_phase = elim x.terminal_phase [
            | none ↦ none
            | some phase ↦ some (phase_text phase)
          ];
        })
        s.objectives;
  events =
      map
        (λ (e : EventRow). record {
          owner_user_id = e.owner_user_id;
          objective_id = e.objective_id;
          phase = phase_text e.phase;
        })
        s.events;
  decisions = s.decisions;
  cancellations =
      map
        (λ (r : String × Model.Row). record {
          owner_user_id = r.1.owner_user_id;
          objective_id = r.1.objective_id;
        })
        s.requests;
  projections = s.projections;
}

abbrev pub is_event : (owner event_id : String) → EventRow → Bool
is_event owner event_id e = e.owner_user_id == owner && e.event_id == event_id

abbrev pub is_objective : (owner objective : String) → ObjectiveRow → Bool
is_objective owner objective x = x.owner_user_id == owner && x.objective_id == objective

-- UPDATE ... WHERE
unfoldable pub update_where {ℓ} : {A : Type ℓ} → (A → Bool) → (A → A) → List A → List A
update_where p f [] = []
update_where p f (x ∷ xs) = (if p x then f x else x) ∷ update_where p f xs

-- `_public_event`
pub record Completion : Type 0 where
  pub state : Option Generation
  pub attempt : ℕ
  pub assistant_message_id : Option String
  pub error_code : Option String

pub record Public : Type 0 where
  pub duplicate : Bool
  pub event_id : String
  pub objective_id : String
  pub task_id : String
  pub run_id : String
  pub phase : Phase
  pub occurred_at : ℕ
  pub completion_message : Option Completion

abbrev pub public_event : EventRow → (duplicate : Bool) → Public
public_event e duplicate = record {
  duplicate = duplicate;
  event_id = e.event_id;
  objective_id = e.objective_id;
  task_id = e.task_id;
  run_id = e.run_id;
  phase = e.phase;
  occurred_at = e.occurred_at;
  completion_message =
      if is_completed e.phase
      then some (record {
        state = e.generation_state;
        attempt = e.generation_attempt_count;
        assistant_message_id = e.assistant_message_id;
        error_code = e.error_code;
      })
      else none;
}
