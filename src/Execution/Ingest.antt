-- ===== src/Execution/Ingest.antt =====
-- gateway/app/firstmate_execution.py: `FirstmateExecutionStore.ingest`, one transaction.
use magistrate.Prelude.{
  ℕ, String, Bool, true, false, ◌&&◌, not, Option, none, some, [], ◌∷◌, ◌==◌, if◌then◌else◌, leb,
  is_some,
}
use magistrate.Prelude.Chars.{length}
use magistrate.Prelude.Tables.{Table}
use magistrate.Prelude.Outcome.{Outcome, err, ok, ◌>>=◌, ◌>>◌, raise_if, or_raise}
use magistrate.Objective.Persist.{first, any, persist_objective_state}
use magistrate.Objective.Persist
use magistrate.Cancellation.Model
use magistrate.Execution.Rows.{
  ExecutionError, value_error, conflict, not_found, activity_failed, state_failed, Origin, accepted,
  Incoming, EventRow, ObjectiveRow, Message, Store, Public, Generation, phase_of_facts,
  evidence_text, is_terminal_event, is_completed, is_cancelled, is_event, is_objective,
  update_where, view, public_event,
}

-- The canonical text of an event, its digest, whether a text has control characters, and the id of the
-- activity record that an event is projected to, unless that fails.
pub record Env : Type 0 where
  pub payload : Incoming → String
  pub sha256 : String → String
  pub has_control : String → Bool
  pub activity : (owner : String) → Incoming → ObjectiveRow → Option String

pub record Clock : Type 0 where
  pub accepted_at : ℕ
  pub now : ℕ

abbrev pub is_principal : Env → String → Bool
is_principal env owner = not (owner == "") && leb (length owner) 128 && not (env.has_control owner)

abbrev pub is_same_event : Env → Incoming → EventRow → Bool
is_same_event env event e =
    e.payload_sha256 == env.sha256 (env.payload event) && e.payload_json == env.payload event

abbrev pub is_origin : (owner : String) → Origin → Message → Bool
is_origin owner o m =
    m.id == o.user_message_id
    && m.owner_user_id == owner
    && m.conversation_id == o.conversation_id
    && m.role == "user"
    && m.status == "completed"

abbrev pub new_objective : (owner : String) → (now : ℕ) → Incoming → Origin → ObjectiveRow
new_objective owner now event o = record {
  owner_user_id = owner;
  objective_id = event.objective_id;
  task_id = event.task_id;
  run_id = event.run_id;
  accepted_event_id = event.event_id;
  conversation_id = o.conversation_id;
  origin_message_id = o.user_message_id;
  title = o.title;
  project = o.project;
  terminal_event_id = none;
  terminal_phase = none;
  created_at = now;
  updated_at = now;
}

-- The objective of an accepted event is new, as is its task.
unfoldable pub accept :
    (owner : String)
    → (now : ℕ) → Incoming
    → Origin
    → Store
    → Outcome ExecutionError (ObjectiveRow × Store)
accept owner now event o s = do
  raise_if (any (is_objective owner event.objective_id) s.objectives) conflict
  raise_if
      (any (λ (x : ObjectiveRow). x.owner_user_id == owner && x.task_id == event.task_id)
        s.objectives)
      conflict
  raise_if (not (any (is_origin owner o) s.messages)) not_found
  ok (
    new_objective owner now event o,
    record s { objectives = new_objective owner now event o ∷ s.objectives },
  )

-- The objective of a later event is known, is that of its task and run, and has not ended.
unfoldable pub correlate :
    (owner : String) → Incoming → Store → Outcome ExecutionError (ObjectiveRow × Store)
correlate owner event s = do
  x ← or_raise (first (is_objective owner event.objective_id) s.objectives) not_found
  raise_if (not (x.task_id == event.task_id && x.run_id == event.run_id)) conflict
  raise_if (is_some x.terminal_event_id) conflict
  ok (x, s)

unfoldable pub objective_for :
    (owner : String) → (now : ℕ) → Incoming → Store → Outcome ExecutionError (ObjectiveRow × Store)
objective_for owner now event s = elim event.facts [
  | accepted o ↦ accept owner now event o s
  | _ ↦ correlate owner event s
]

abbrev pub new_event :
    Env → (owner : String) → (now : ℕ) → Incoming → (record_id : String) → EventRow
new_event env owner now event record_id = record {
  owner_user_id = owner;
  event_id = event.event_id;
  objective_id = event.objective_id;
  task_id = event.task_id;
  run_id = event.run_id;
  phase = phase_of_facts event.facts;
  occurred_at = event.occurred_at;
  payload_sha256 = env.sha256 (env.payload event);
  payload_json = env.payload event;
  evidence_json = evidence_text event.facts;
  activity_record_id = record_id;
  generation_state =
      if is_completed (phase_of_facts event.facts) then some Generation.queued else none;
  generation_attempt_count = 0;
  assistant_message_id = none;
  error_code = none;
  created_at = now;
  updated_at = now;
}

abbrev pub ended_objective : (now : ℕ) → Incoming → ObjectiveRow → ObjectiveRow
ended_objective now event x = record x {
  terminal_event_id = some event.event_id;
  terminal_phase = some (phase_of_facts event.facts);
  updated_at = now;
}

abbrev pub is_asked : (owner objective : String) → Model.Row → Bool
is_asked owner objective r = r.owner_user_id == owner && r.objective_id == objective

abbrev pub is_requested : Model.Status → Bool
is_requested Model.Status.requested = true
is_requested _ = false

abbrev pub is_unobserved : Model.Status → Bool
is_unobserved Model.Status.observed = false
is_unobserved _ = true

-- A request to cancel was obeyed, or has come too late.
abbrev pub closed_request :
    (now : ℕ) → (cancelled : Bool) → (owner objective : String) → Model.Row → Model.Row
closed_request now cancelled owner objective r =
    if cancelled
    then (if is_asked owner objective r && is_unobserved r.status
        then record r {
          status = Model.Status.observed;
          error_code = none;
          notification_status = Model.Notification.delivered;
          updated_at = now;
        }
        else r)
    else if is_asked owner objective r && is_requested r.status
    then record r {
      status = Model.Status.failed;
      error_code = some "objective_terminal";
      notification_status = Model.Notification.delivered;
      updated_at = now;
    }
    else r

unfoldable pub close_requests :
    (now : ℕ) → (cancelled : Bool) → (owner objective : String) → Table Model.Row → Table Model.Row
close_requests now cancelled owner objective [] = []
close_requests now cancelled owner objective ((k, r) ∷ rows) =
    (k, closed_request now cancelled owner objective r)
    ∷ close_requests now cancelled owner objective rows

-- A terminal event ends its objective and the requests to cancel it.
unfoldable pub end_objective : (owner : String) → (now : ℕ) → Incoming → Store → Store
end_objective owner now event s =
    if is_terminal_event (phase_of_facts event.facts)
    then record s {
      objectives =
          update_where (is_objective owner event.objective_id) (ended_objective now event)
            s.objectives;
      requests =
          close_requests now (is_cancelled (phase_of_facts event.facts)) owner event.objective_id
            s.requests;
    }
    else s

abbrev pub with_projections : Store → Persist.Store → Store
with_projections s p = record s { projections = p.projections }

-- The state projection of the transaction.
unfoldable pub persist_state : (owner objective : String) → Store → Outcome ExecutionError Store
persist_state owner objective s = elim (persist_objective_state owner objective false (view s)) [
  | err raised ↦ err (state_failed raised)
  | ok p ↦ ok (with_projections s p)
]

-- An event that is new.
unfoldable pub ingest_new :
    Env → Clock → (owner : String) → Incoming → Store → Outcome ExecutionError (Public × Store)
ingest_new env clock owner event s = do
  r ← objective_for owner clock.accepted_at event s
  record_id ← or_raise (env.activity owner event r.0) activity_failed
  after ← persist_state owner event.objective_id (
      end_objective owner clock.now event
        (record r.1 { events = new_event env owner clock.now event record_id ∷ r.1.events }))
  ok (public_event (new_event env owner clock.now event record_id) false, after)

unfoldable pub ingest :
    Env → Clock → (owner : String) → Incoming → Store → Outcome ExecutionError (Public × Store)
ingest env clock owner event s = do
  raise_if (not (is_principal env owner)) value_error
  elim (first (is_event owner event.event_id) s.events) [
    | some e ↦ if is_same_event env event e then ok (public_event e true, s) else err conflict
    | none ↦ ingest_new env clock owner event s
  ]

unfoldable pub inspect : (owner event_id : String) → Store → Outcome ExecutionError Public
inspect owner event_id s = do
  e ← or_raise (first (is_event owner event_id) s.events) not_found
  ok (public_event e true)
