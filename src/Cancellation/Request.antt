-- ===== src/Cancellation/Request.antt =====
-- gateway/app/objective_cancellation.py: `ObjectiveCancellationService.request`. Its transaction is rolled
-- back by an error; the delivery follows after the commit. The state projection that the transaction
-- also writes is read by no code here.
use magistrate.Prelude.{
  ℕ, String, Bool, true, false, ◌&&◌, not, Option, none, some, ◌∷◌, ◌==◌, if◌then◌else◌, is_some,
}
use magistrate.Prelude.Outcome.{err, ok, ◌>>=◌, ◌>>◌, raise_if, or_raise}
use magistrate.Prelude.Tables.{lookup, update, find_row}
use magistrate.Cancellation.Model.{
  invalid_target, invalid_idempotency, dispatch_unobserved, idempotency_conflict, already_terminal,
  not_found, request_conflict, Status, Notification, Row, Store, Result, Public, public,
  is_requested, is_failed, is_undelivered, find_execution, joined_execution, find_submission,
  is_uncertain, terminal_phase, with_requests, is_active, other_active,
}
use magistrate.Cancellation.Notify.{Delivery, notify}

-- The two patterns that names must match, and the id of a request by its owner and key.
pub record Env : Type 0 where
  pub safe_objective : String → Bool
  pub safe_key : String → Bool
  pub request_id : (owner key : String) → String

-- What the transaction leaves to do: tell the supervisor of a row, or nothing.
pub data Next : Type 0 where
  deliver : (request_id : String) → (duplicate : Bool) → Next
  answer : Public → Next

abbrev pub by_key : (owner key : String) → Row → Bool
by_key owner key r = r.owner_user_id == owner && r.idempotency_key == key

-- An undelivered row of older versions is asked for again.
abbrev pub reopened : (now : ℕ) → Row → Row
reopened now r =
    if is_failed r.status
    then record r {
      status = Status.requested;
      error_code = none;
      notification_status = Notification.failed;
      updated_at = now;
    }
    else r

abbrev pub next_of : (id : String) → Row → Next
next_of id r =
    if is_requested r.status && is_undelivered r.notification_status
    then deliver id true
    else answer (public id r true)

unfoldable pub replay :
    (owner objective : String) → (now : ℕ) → String × Row → Store → Result (Next × Store)
replay owner objective now (id, r) store = do
  raise_if (not (r.objective_id == objective)) idempotency_conflict
  raise_if (is_failed r.status && is_some (terminal_phase owner objective store)) already_terminal
  raise_if (is_failed r.status && other_active id owner objective store.requests) request_conflict
  let rows = if is_failed r.status then update id (reopened now) store.requests else store.requests
  ok (next_of id (reopened now r), with_requests rows store)

-- The task of the objective and how it ended: by its submission, or else by its execution.
unfoldable pub target_of : (owner objective : String) → Store → Option (String × Option String)
target_of owner objective store = elim (find_submission owner objective store.submissions) [
  | some s ↦ elim (joined_execution s store.executions) [
    | none ↦ some (s.task_id, none)
    | some x ↦ some (s.task_id, x.terminal_phase)
  ]
  | none ↦ elim (find_execution owner objective store.executions) [
    | none ↦ none
    | some x ↦ some (x.task_id, x.terminal_phase)
  ]
]

abbrev pub new_row : (owner objective task session key : String) → (now : ℕ) → Row
new_row owner objective task session key now = record {
  owner_user_id = owner;
  objective_id = objective;
  task_id = task;
  actor_session_id = session;
  idempotency_key = key;
  status = Status.requested;
  error_code = none;
  notification_status = Notification.pending;
  notification_attempt_count = 0;
  notified_at = none;
  created_at = now;
  updated_at = now;
}

unfoldable pub insert_request :
    Env → (owner session objective key : String) → (now : ℕ) → Store → Result (Next × Store)
insert_request env owner session objective key now store = do
  target ← or_raise (target_of owner objective store) not_found
  raise_if (is_some target.1) already_terminal
  let id = env.request_id owner key
  raise_if (is_some (lookup id store.requests)) request_conflict
  ok (
    deliver id false,
    with_requests ((id, new_row owner objective target.0 session key now) ∷ store.requests) store,
  )

-- The transaction.
unfoldable pub record_request :
    Env → (owner session objective key : String) → (now : ℕ) → Store → Result (Next × Store)
record_request env owner session objective key now store = do
  raise_if (not (env.safe_objective objective)) invalid_target
  raise_if (not (env.safe_key key)) invalid_idempotency
  raise_if (is_uncertain owner objective store) dispatch_unobserved
  elim (find_row (by_key owner key) store.requests) [
    | some row ↦ replay owner objective now row store
    | none ↦ elim (find_row (is_active owner objective) store.requests) [
      | some row ↦ ok (answer (public row.0 row.1 true), store)
      | none ↦ insert_request env owner session objective key now store
    ]
  ]

unfoldable pub carry_out : Delivery → Next → Store → Result Public × Store
carry_out d (deliver id duplicate) store = notify d id duplicate store
carry_out d (answer r) store = (ok r, store)

unfoldable pub request :
    Env
    → Delivery
    → (owner session objective key : String) → (now : ℕ) → Store
    → Result Public × Store
request env d owner session objective key now store =
    elim (record_request env owner session objective key now store) [
      | err e ↦ (err e, store)
      | ok s ↦ carry_out d s.0 s.1
    ]
