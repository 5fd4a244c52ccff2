-- ===== src/Objective/Tests.antt =====
-- gateway/app/deployment_mode.py: an objective from its submission to its end, with a late event.
use magistrate.Prelude.{◌≡◌, refl, false, none, List, [], ◌∷◌, arith}
use magistrate.Prelude.Chars.{length, all_chars, is_name}
use magistrate.Prelude.Outcome.{err, ok}
use magistrate.Objective.State.{
  State, Stage, Cancellation, ObjectiveState, is_consistent, is_named, validated, is_running_phase,
  project_objective_state, terminal_state, open_state, state_of, observed_stage, Facts,
  objective_revision_stale,
}
use magistrate.Objective.Advance.{
  is_allowed, same_contract, normalized, replace, settle_revision, advance_objective_state,
}
use magistrate.Objective.Life.{IsValid}
use magistrate.Objective.Total.{Keeps}
use magistrate.Objective.Refine.{◌⟶*◌, life_of, history, history-⟶*}
use magistrate.Objective.Persist.{
  Store, first, any, put, phase_of, facts_of, submission_of, execution_of, store_state,
  persist_objective_state,
}
use magistrate.Objective.Stored.{Says, present, persist_objective_state-Says}

program : Unit {0}
unfolding length all_chars is_name is_consistent is_named validated terminal_state is_running_phase
    open_state state_of observed_stage is_allowed same_contract normalized replace settle_revision
    advance_objective_state project_objective_state history first any put phase_of facts_of
    store_state persist_objective_state
program = tt

abbrev queued : ObjectiveState
queued = record {
  objective_id = "obj:1";
  owner_principal_id = "ada";
  revision = 1;
  state = State.queued;
  progress_stage = Stage.queued;
  cancellation = Cancellation.not_requested;
}

abbrev running : ObjectiveState
running = record queued { revision = 2; state = State.running; progress_stage = Stage.running }

-- Nothing of the work is seen any more.
abbrev unsure : ObjectiveState
unsure = record queued { revision = 3; state = State.unknown; progress_stage = Stage.unobserved }

abbrev late : ObjectiveState
late = record queued { revision = 4; state = State.accepted; progress_stage = Stage.accepted }

abbrev finished : ObjectiveState
finished = record queued { revision = 5; state = State.succeeded; progress_stage = Stage.terminal }

abbrev failed : ObjectiveState
failed = record queued { revision = 6; state = State.failed; progress_stage = Stage.terminal }

abbrev updates : List ObjectiveState
updates = running ∷ unsure ∷ late ∷ finished ∷ failed ∷ []

-- The stage outlives the uncertainty, so that the late acceptance is refused.
keeps_stage :
    advance_objective_state running unsure ≡ ok (record unsure { progress_stage = Stage.running })
unfolding program
keeps_stage = refl

refuses_stale : advance_objective_state running queued ≡ err objective_revision_stale
unfolding program
refuses_stale = refl

stays_finished : history queued updates ≡ finished
unfolding program
stays_finished = refl

queued-IsValid : IsValid queued
unfolding program
queued-IsValid = record { named = refl; small = omega arith; consistent = refl }

running-IsValid : IsValid running
unfolding program
running-IsValid = record { named = refl; small = omega arith; consistent = refl }

unsure-IsValid : IsValid unsure
unfolding program
unsure-IsValid = record { named = refl; small = omega arith; consistent = refl }

late-IsValid : IsValid late
unfolding program
late-IsValid = record { named = refl; small = omega arith; consistent = refl }

finished-IsValid : IsValid finished
unfolding program
finished-IsValid = record { named = refl; small = omega arith; consistent = refl }

failed-IsValid : IsValid failed
unfolding program
failed-IsValid = record { named = refl; small = omega arith; consistent = refl }

history-⟶*_example : life_of queued ⟶* life_of (history queued updates)
history-⟶*_example =
    history-⟶* queued updates queued-IsValid
      (running-IsValid, (unsure-IsValid, (late-IsValid, (finished-IsValid, (failed-IsValid, tt)))))

-- The work has started, the operator is asked, and the objective is to be cancelled.
abbrev store : Store
store = record {
  submissions =
      record { owner_user_id = "ada"; objective_id = "obj:1"; status = "accepted"; task_id = "t" }
      ∷ [];
  executions =
      record { owner_user_id = "ada"; objective_id = "obj:1"; task_id = "t"; terminal_phase = none }
      ∷ [];
  events =
      record { owner_user_id = "ada"; objective_id = "obj:1"; phase = "tests.started" }
      ∷ record { owner_user_id = "ada"; objective_id = "obj:1"; phase = "objective.accepted" }
      ∷ [];
  decisions = record { owner_user_id = "ada"; task_id = "t"; state = "pending" } ∷ [];
  cancellations = record { owner_user_id = "ada"; objective_id = "obj:1" } ∷ [];
  projections = queued ∷ [];
}

abbrev facts : Facts
facts =
    facts_of "ada" "obj:1" (submission_of "ada" "obj:1" store) (execution_of "ada" "obj:1" store)
      "t" false store

facts-Keeps : Keeps queued facts
unfolding program
facts-Keeps = record { ended = λ e. absurd (cc); asked = λ e. refl; reached = refl }

persist_objective_state-Says_example :
    (after : Store) × (persist_objective_state "ada" "obj:1" false store ≡ ok after)
    × Says "ada" "obj:1" facts after.projections
unfolding program
persist_objective_state-Says_example =
    persist_objective_state-Says "ada" "obj:1" "t" false store refl
      (present queued refl queued-IsValid (omega arith) facts-Keeps)

abbrev waiting : ObjectiveState
waiting = record queued {
  revision = 2;
  state = State.waiting_for_input;
  progress_stage = Stage.running;
  cancellation = Cancellation.requested;
}

persisted :
    persist_objective_state "ada" "obj:1" false store
    ≡ ok (record store { projections = waiting ∷ [] })
unfolding program
persisted = refl
