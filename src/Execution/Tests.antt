-- ===== src/Execution/Tests.antt =====
-- gateway/app/firstmate_execution.py: an objective from its acceptance to the report of its completion.
use magistrate.Prelude.{
  ◌≢◌, ap, ◌==◌, ℕ, String, ◌≡◌, refl, true, false, Option, none, some, List, [], ◌∷◌,
}
use magistrate.Prelude.Chars.{length, all_chars, is_name}
use magistrate.Prelude.Order.{insert_by, sort_by, limit}
use magistrate.Prelude.Outcome.{Outcome, err, ok}
use magistrate.Objective.State.{
  is_consistent, is_named, validated, terminal_state, is_running_phase, open_state, state_of,
  observed_stage, project_objective_state,
}
use magistrate.Objective.Advance.{
  is_allowed, same_contract, normalized, replace, settle_revision, advance_objective_state,
}
use magistrate.Objective.Persist.{
  first, any, put, phase_of, facts_of, store_state, persist_objective_state,
}
use magistrate.Personal.Policy.{default_contract}
use magistrate.Execution.Rows.{
  ExecutionError, accepted_phase, conflict, worker_started, Ending, Facts, accepted, progressed,
  completed, ended, Incoming, EventRow, ObjectiveRow, Store, Public, Generation, is_event,
  is_objective, update_where,
}
use magistrate.Execution.Ingest.{
  Env, Clock, accept, correlate, objective_for, close_requests, end_objective, persist_state,
  ingest_new, ingest, inspect,
}
use magistrate.Execution.Generation.{
  completed_with, failed_with, claim_row, claim_completion, finish_row, finish_completion, count,
  recover_interrupted, select, queued_completions,
}
use magistrate.Execution.Steps.{
  Operation, ingesting, claiming, finishing, recovering, erasing, without, erase, AllKept, perform,
  perform_all,
}
use magistrate.Execution.Report.{Later, perform_all-Later}
use magistrate.Execution.Again.{ingest-again}
use magistrate.Execution.Ended.{perform_all-closed}

program : Unit {0}
unfolding length all_chars is_name insert_by sort_by limit is_consistent is_named validated
    terminal_state is_running_phase open_state state_of observed_stage project_objective_state
    is_allowed same_contract normalized replace settle_revision advance_objective_state first any
    put phase_of facts_of store_state persist_objective_state update_where accept correlate
    objective_for close_requests end_objective persist_state ingest_new ingest inspect claim_row
    claim_completion finish_row finish_completion count recover_interrupted select
    queued_completions without erase perform perform_all
program = tt

abbrev env : Env
env = record {
  payload = λ event. event.event_id;
  sha256 = λ text. text;
  has_control = λ text. false;
  activity = λ owner event x. some event.event_id;
}

abbrev clock : Clock
clock = record { accepted_at = 10; now = 11 }

abbrev event : String → Facts → Incoming
event id facts = record {
  event_id = id;
  objective_id = "o";
  task_id = "t";
  run_id = "r";
  occurred_at = 5;
  facts = facts;
}

abbrev start : Incoming
start = event "e1" (
    accepted (record { title = "T"; project = none; conversation_id = "c"; user_message_id = "m" }))

abbrev work : Incoming
work = event "e2" (progressed worker_started)

abbrev done : Incoming
done = event "e3" (completed "evidence" none)

abbrev too_late : Incoming
too_late = event "e4" (ended Ending.failed none)

abbrev store : Store
store = record {
  events = [];
  objectives = [];
  messages =
      record {
        id = "m";
        owner_user_id = "ada";
        conversation_id = "c";
        role = "user";
        status = "completed";
      }
      ∷ record {
        id = "n";
        owner_user_id = "ada";
        conversation_id = "c";
        role = "assistant";
        status = "completed";
      }
      ∷ [];
  generated = record { owner_user_id = "ada"; generation_key = "e3"; message_id = "n" } ∷ [];
  submissions = [];
  decisions = [];
  requests = [];
  projections = [];
}

abbrev accepted_once : Store
accepted_once = perform_all env (ingesting clock "ada" start ∷ []) store

abbrev ended_once : Store
ended_once =
    perform_all env (ingesting clock "ada" work ∷ ingesting clock "ada" done ∷ []) accepted_once

-- The first generation is interrupted, the second fails, and the third reports; then another account is
-- deleted.
abbrev generations : List Operation
generations =
    claiming 20 "ada" "e3" false
    ∷ recovering 21
    ∷ claiming 22 "ada" "e3" false
    ∷ finishing 23 "ada" "e3" (failed_with none)
    ∷ claiming 24 "ada" "e3" true
    ∷ finishing 25 "ada" "e3" (completed_with (some "n"))
    ∷ recovering 26
    ∷ erasing "bob"
    ∷ ingesting clock "ada" too_late
    ∷ []

abbrev facts_of_event : Option EventRow → Option (Option Generation × ℕ × Option String)
facts_of_event none = none
facts_of_event (some e) =
    some (e.generation_state, e.generation_attempt_count, e.assistant_message_id)

waits : queued_completions default_contract 100 ended_once ≡ ok (("ada", "e3") ∷ [])
unfolding program
waits = refl

reports :
    facts_of_event (first (is_event "ada" "e3") (perform_all env generations ended_once).events)
    ≡ some (some Generation.completed, 3, some "n")
unfolding program
reports = refl

refuses : ingest env clock "ada" too_late ended_once ≡ err conflict
unfolding program
refuses = refl

abbrev row_or {ℓ} : {A : Type ℓ} → A → Option A → A
row_or other none = other
row_or other (some x) = x

abbrev blank : EventRow
blank = record {
  owner_user_id = "";
  event_id = "";
  objective_id = "";
  task_id = "";
  run_id = "";
  phase = accepted_phase;
  occurred_at = 0;
  payload_sha256 = "";
  payload_json = "";
  evidence_json = none;
  activity_record_id = "";
  generation_state = none;
  generation_attempt_count = 0;
  assistant_message_id = none;
  error_code = none;
  created_at = 0;
  updated_at = 0;
}

abbrev done_row : EventRow
done_row = row_or blank (first (is_event "ada" "e3") ended_once.events)

bob_apart : ◌≢◌ {A = String} "bob" "ada"
bob_apart e = let h : false ≡ true = ap (λ (s : String). s == "ada") e in absurd (cc)

generations-AllKept : AllKept "ada" generations
generations-AllKept = (tt, (tt, (tt, (tt, (tt, (tt, (tt, (bob_apart, (tt, tt)))))))))

perform_all-Later_example :
    Later "ada" "e3" done_row (perform_all env generations ended_once).events
unfolding program
perform_all-Later_example =
    perform_all-Later env generations "ada" "e3" ended_once {e = done_row} generations-AllKept refl

abbrev taken : Outcome ExecutionError (Public × Store) → Public × Store
taken (ok r) = r
taken (err raised) = (
  record {
    duplicate = true;
    event_id = "";
    objective_id = "";
    task_id = "";
    run_id = "";
    phase = accepted_phase;
    occurred_at = 0;
    completion_message = none;
  },
  store,
)

abbrev first_taking : Public × Store
first_taking = taken (ingest env clock "ada" start store)

abbrev later : Store
later =
    perform_all env (ingesting clock "ada" work ∷ ingesting clock "ada" done ∷ []) first_taking.1

ingest-again_example :
    (again : Public) × (ingest env clock "ada" start later ≡ ok (again, later))
    × (again.duplicate ≡ true)
    × (again.event_id ≡ "e1")
unfolding program
ingest-again_example =
    ingest-again env clock clock "ada" start store
      (ingesting clock "ada" work ∷ ingesting clock "ada" done ∷ []) {answer = first_taking.0}
      {after = first_taking.1} (tt, (tt, tt)) refl

abbrev blank_objective : ObjectiveRow
blank_objective = record {
  owner_user_id = "";
  objective_id = "";
  task_id = "";
  run_id = "";
  accepted_event_id = "";
  conversation_id = "";
  origin_message_id = "";
  title = "";
  project = none;
  terminal_event_id = none;
  terminal_phase = none;
  created_at = 0;
  updated_at = 0;
}

abbrev ended_row : ObjectiveRow
ended_row = row_or blank_objective (first (is_objective "ada" "o") ended_once.objectives)

perform_all-closed_example :
    (first (is_objective "ada" "o") (perform_all env generations ended_once).objectives
      ≡ some ended_row)
    × ((raised : ExecutionError) × (ingest env clock "ada" too_late
            (perform_all env generations ended_once)
          ≡ err raised))
unfolding program
perform_all-closed_example =
    perform_all-closed env clock generations "ada" too_late ended_once ended_row generations-AllKept
      refl refl refl
