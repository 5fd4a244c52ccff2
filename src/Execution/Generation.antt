-- ===== src/Execution/Generation.antt =====
-- gateway/app/firstmate_execution.py: the message that reports a completion: its claim, its end, and the
-- claims that a restart gives back.
use magistrate.Prelude.{
  ℕ, ◌+◌, String, Bool, true, false, ◌&&◌, ◌||◌, not, Option, none, some, List, [], ◌∷◌, ◌==◌,
  if◌then◌else◌, leb, map,
}
use magistrate.Prelude.Order.{sort_by, limit}
use magistrate.Prelude.Outcome.{Outcome, err, ok, ◌>>=◌, ◌>>◌, raise_if, or_raise}
use magistrate.Objective.Persist.{first, any}
use magistrate.Personal.Policy.{Contract, is_personal, is_text}
use magistrate.Execution.Rows.{
  ExecutionError, value_error, conflict, not_found, EventRow, ObjectiveRow, Message, Generated,
  Store, Generation, is_completed, is_event, is_objective, update_where,
}

abbrev pub is_queued : Option Generation → Bool
is_queued (some Generation.queued) = true
is_queued _ = false

abbrev pub is_generating : Option Generation → Bool
is_generating (some Generation.generating) = true
is_generating _ = false

abbrev pub is_done : Option Generation → Bool
is_done (some Generation.completed) = true
is_done _ = false

abbrev pub has_failed : Option Generation → Bool
has_failed (some Generation.failed) = true
has_failed _ = false

abbrev pub has_evidence : Option String → Bool
has_evidence none = false
has_evidence (some evidence) = not (evidence == "")

abbrev pub claimed : (now : ℕ) → EventRow → EventRow
claimed now e = record e {
  generation_state = some Generation.generating;
  generation_attempt_count = e.generation_attempt_count + 1;
  error_code = none;
  updated_at = now;
}

-- The claim has the event as it was read, with the new count, and its objective. The row that was read
-- in the transaction is the row that is updated.
abbrev pub Claim : Type 0
Claim = Option (EventRow × ObjectiveRow)

unfoldable pub claim_row :
    (now : ℕ)
    → (owner event_id : String) → (retry_failed : Bool) → EventRow
    → ObjectiveRow
    → Store
    → Outcome ExecutionError (Claim × Store)
claim_row now owner event_id retry_failed e x s = do
  raise_if (not (is_completed e.phase && has_evidence e.evidence_json)) conflict
  ok (
      if is_queued e.generation_state || has_failed e.generation_state && retry_failed
      then (
        some (record e { generation_attempt_count = e.generation_attempt_count + 1 }, x),
        record s { events = update_where (is_event owner event_id) (claimed now) s.events },
      )
      else (none, s))

unfoldable pub claim_completion :
    (now : ℕ)
    → (owner event_id : String) → (retry_failed : Bool) → Store
    → Outcome ExecutionError (Claim × Store)
claim_completion now owner event_id retry_failed s = do
  e ← or_raise (first (is_event owner event_id) s.events) not_found
  x ← or_raise (first (is_objective e.owner_user_id e.objective_id) s.objectives) not_found
  claim_row now owner event_id retry_failed e x s

-- How a generation ends, with the message if there is one.
pub data Finish : Type 0 where
  completed_with failed_with : Option String → Finish

abbrev pub message_of : Finish → Option String
message_of (completed_with message) = message
message_of (failed_with message) = message

abbrev pub is_success : Finish → Bool
is_success (completed_with message) = true
is_success (failed_with message) = false

abbrev pub is_named : Option String → Bool
is_named none = false
is_named (some message) = not (message == "")

abbrev pub same_message : Option String → Option String → Bool
same_message none none = true
same_message (some a) o = is_text a o
same_message none (some b) = false

abbrev pub is_message : (owner message : String) → Message → Bool
is_message owner message m = m.id == message && m.owner_user_id == owner && m.role == "assistant"

abbrev pub is_generated : (owner event_id message : String) → Generated → Bool
is_generated owner event_id message g =
    g.owner_user_id == owner && g.generation_key == event_id && g.message_id == message

abbrev pub is_known : (owner event_id : String) → Option String → Store → Bool
is_known owner event_id none s = true
is_known owner event_id (some message) s =
    any (is_generated owner event_id message) s.generated
    && any (is_message owner message) s.messages

abbrev pub finished : (now : ℕ) → Finish → EventRow → EventRow
finished now f e = record e {
  generation_state = some (if is_success f then Generation.completed else Generation.failed);
  assistant_message_id = message_of f;
  error_code = if is_success f then none else some "magi_generation_failed";
  updated_at = now;
}

unfoldable pub finish_row :
    (now : ℕ) → (owner event_id : String) → Finish → EventRow → Store → Outcome ExecutionError Store
finish_row now owner event_id f e s =
    if is_done e.generation_state
    then (if is_success f && same_message e.assistant_message_id (message_of f)
        then ok s
        else err conflict)
    else do
      raise_if (not (is_generating e.generation_state)) conflict
      raise_if (not (is_known owner event_id (message_of f) s)) not_found
      ok (record s { events = update_where (is_event owner event_id) (finished now f) s.events })

unfoldable pub finish_completion :
    (now : ℕ) → (owner event_id : String) → Finish → Store → Outcome ExecutionError Store
finish_completion now owner event_id f s = do
  raise_if (is_success f && not (is_named (message_of f))) value_error
  e ← or_raise (first (is_event owner event_id) s.events) not_found
  finish_row now owner event_id f e s

abbrev pub interrupted : EventRow → Bool
interrupted e = is_generating e.generation_state

abbrev pub requeued : (now : ℕ) → EventRow → EventRow
requeued now e = record e {
  generation_state = some Generation.queued;
  error_code = none;
  updated_at = now;
}

unfoldable pub count {ℓ} : {A : Type ℓ} → (A → Bool) → List A → ℕ
count p [] = 0
count p (x ∷ xs) = (if p x then 1 else 0) + count p xs

unfoldable pub recover_interrupted : (now : ℕ) → Store → ℕ × Store
recover_interrupted now s = (
  count interrupted s.events,
  record s { events = update_where interrupted (requeued now) s.events },
)

unfoldable pub select {ℓ} : {A : Type ℓ} → (A → Bool) → List A → List A
select p [] = []
select p (x ∷ xs) = if p x then x ∷ select p xs else select p xs

abbrev pub max_recovery_wakeups : ℕ
max_recovery_wakeups = 100

-- In a personal deployment only the owner's.
abbrev pub is_ours : Contract → EventRow → Bool
is_ours policy e = elim (if is_personal policy then policy.owner_principal_id else none) [
  | none ↦ true
  | some owner ↦ e.owner_user_id == owner
]

unfoldable pub queued_completions :
    Contract → (most : ℕ) → Store → Outcome ExecutionError (List (String × String))
queued_completions policy most s = do
  raise_if (not (leb 1 most && leb most max_recovery_wakeups)) value_error
  ok (
      map (λ (e : EventRow). (e.owner_user_id, e.event_id))
        (limit most (
          sort_by (λ (e : EventRow). e.created_at)
            (select (λ (e : EventRow). is_queued e.generation_state && is_ours policy e)
              s.events))))
