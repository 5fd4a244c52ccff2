-- ===== src/Objective/Advance.antt =====
-- gateway/app/deployment_mode.py: `advance_objective_state`, the replacement of a stored state.
use magistrate.Prelude.{Bool, true, false, ◌&&◌, ◌||◌, not, ◌==◌, if◌then◌else◌, ltb, nat_eq}
use magistrate.Prelude.Outcome.{Outcome, err, ok, ◌>>=◌, ◌>>◌, raise_if}
use magistrate.Objective.State.{
  State, Cancellation, ObjectiveState, StateError, objective_identity_conflict,
  objective_revision_stale, objective_revision_conflict, objective_terminal_conflict,
  objective_transition_invalid, objective_cancellation_conflict, progress_order, is_terminal,
  is_uncertain, same_state, same_stage, same_cancellation, validated,
}

-- `_ALLOWED_TRANSITIONS`: uncertain and terminal states may follow every state that is not
-- terminal; the others follow in their order, and all of them follow an uncertain state.
unfoldable pub is_allowed : State → State → Bool
is_allowed State.succeeded next = same_state next State.succeeded
is_allowed State.failed next = same_state next State.failed
is_allowed State.cancelled next = same_state next State.cancelled
is_allowed State.queued State.submitting = false
is_allowed State.accepted State.submitting = false
is_allowed State.accepted State.queued = false
is_allowed State.running State.submitting = false
is_allowed State.running State.queued = false
is_allowed State.running State.accepted = false
is_allowed _ _ = true

-- Equality of two contracts.
unfoldable pub same_contract : ObjectiveState → ObjectiveState → Bool
same_contract a b =
    a.objective_id == b.objective_id
    && a.owner_principal_id == b.owner_principal_id
    && nat_eq a.revision b.revision
    && same_state a.state b.state
    && same_stage a.progress_stage b.progress_stage
    && same_cancellation a.cancellation b.cancellation

abbrev pub is_behind : (current incoming : ObjectiveState) → Bool
is_behind current incoming =
    ltb (progress_order incoming.progress_stage) (progress_order current.progress_stage)

-- An uncertain update does not erase the progress that was stored.
unfoldable pub normalized : (current incoming : ObjectiveState) → Outcome StateError ObjectiveState
normalized current incoming =
    if not (is_terminal current.state) && is_uncertain incoming.state && is_behind current incoming
    then validated (record incoming { progress_stage = current.progress_stage })
    else ok incoming

abbrev pub requested_before : ObjectiveState → Bool
requested_before s = not (same_cancellation s.cancellation Cancellation.not_requested)

-- A new revision.
unfoldable pub replace : (current incoming : ObjectiveState) → Outcome StateError ObjectiveState
replace current incoming = do
  raise_if (is_terminal current.state && not (same_state incoming.state current.state))
      objective_terminal_conflict
  raise_if (not (is_allowed current.state incoming.state) || is_behind current incoming)
      objective_transition_invalid
  raise_if (requested_before current && not (requested_before incoming))
      objective_cancellation_conflict
  ok incoming

-- A replay of the stored revision has to be the stored state.
unfoldable pub settle_revision :
    (current update : ObjectiveState) → Outcome StateError ObjectiveState
settle_revision current update =
    if nat_eq update.revision current.revision
    then (if same_contract update current then ok current else err objective_revision_conflict)
    else replace current update

unfoldable pub advance_objective_state :
    (current incoming : ObjectiveState) → Outcome StateError ObjectiveState
advance_objective_state current incoming = do
  raise_if
      (not (
        current.owner_principal_id == incoming.owner_principal_id
        && current.objective_id == incoming.objective_id))
      objective_identity_conflict
  raise_if (ltb incoming.revision current.revision) objective_revision_stale
  update ← normalized current incoming
  settle_revision current update
