-- ===== src/Objective/Right.antt =====
-- gateway/app/deployment_mode.py: the state of an objective, told from its facts one case at a time.
use magistrate.Prelude.{
  String, ◌≡◌, refl, true, false, ◌&&◌, ◌||◌, not, Option, none, some, arith, is_some, ◌⊎◌, ◌∙◌,
  inl, inr,
}
use magistrate.Objective.State.{
  is_phase, is_accepted_phase, State, Facts, is_running_phase, terminal_state, open_state, state_of,
  terminal_of,
}

-- The phases of an execution in which a worker is at it.
abbrev pub Working : String → Type 0
Working p =
    (p ≡ "worker.started")
    ⊎ (p ≡ "implementation.started")
    ⊎ (p ≡ "tests.started")
    ⊎ (p ≡ "tests.passed")
    ⊎ (p ≡ "tests.failed")
    ⊎ (p ≡ "review.started")

-- The phase of an execution that goes on: there is none, it was accepted, or a worker is at it.
pub data Going : Option String → Type 0 where
  unstarted : Going none
  accepted : {p : String} → p ≡ "objective.accepted" → Going (some p)
  working : {p : String} → Working p → Going (some p)

-- The phase by which an objective ended: that of the ending, or else the phase of the execution.
pub data EndsBy (f : Facts) (p : String) : Type 0 where
  by_ending : f.terminal_phase ≡ some p → EndsBy f p
  by_phase : f.terminal_phase ≡ none → f.execution_phase ≡ some p → EndsBy f p

-- The facts of an objective that was observed, has no ending, and is not being recovered.
pub record Observed (f : Facts) : Type 0 where
  pub unended : f.terminal_phase ≡ none
  pub complete : f.observation_complete ≡ true
  pub settled : f.recovering ≡ false

-- The state that an objective is in, by its facts.
pub record Right (f : Facts) (s : State) : Type 0 where
  pub succeeded : EndsBy f "objective.completed" → s ≡ State.succeeded
  pub failed : EndsBy f "objective.failed" → s ≡ State.failed
  pub cancelled : EndsBy f "objective.cancelled" → s ≡ State.cancelled
  pub unobserved :
      f.terminal_phase ≡ none
      → Going f.execution_phase
      → f.observation_complete ≡ false
      → s ≡ State.unknown
  pub recovering :
      f.terminal_phase ≡ none
      → Going f.execution_phase
      → f.observation_complete ≡ true
      → f.recovering ≡ true
      → s ≡ State.recovering
  pub waiting :
      Observed f
      → Going f.execution_phase
      → f.waiting_for_input ≡ true
      → s ≡ State.waiting_for_input
  pub running :
      Observed f
      → (p : String) → Working p
      → f.execution_phase ≡ some p
      → f.waiting_for_input ≡ false
      → s ≡ State.running
  pub accepted :
      Observed f
      → f.execution_phase ≡ some "objective.accepted"
      → f.waiting_for_input ≡ false
      → s ≡ State.accepted
  pub queued :
      Observed f
      → f.execution_phase ≡ none
      → f.waiting_for_input ≡ false
      → f.submission_status ≡ some "accepted"
      → s ≡ State.queued
  pub submitting :
      Observed f
      → f.execution_phase ≡ none
      → f.waiting_for_input ≡ false
      → f.submission_status ≡ some "submitting"
      → s ≡ State.submitting
  pub unsent :
      Observed f
      → f.execution_phase ≡ none
      → f.waiting_for_input ≡ false
      → f.submission_status ≡ none
      → s ≡ State.unknown

-- A phase in which an execution goes on is no ending, and is known.
abbrev Known : Option String → Type 0
Known phase =
    (terminal_of phase ≡ none)
    × ((is_some phase && not (is_phase is_running_phase phase || is_phase is_accepted_phase phase))
        ≡ false)

Working-running : (p : String) → Working p → (is_running_phase p ≡ true) × (terminal_state p ≡ none)
unfolding is_running_phase terminal_state
Working-running p (inl e) = rw e (refl, refl)
Working-running p (inr (inl e)) = rw e (refl, refl)
Working-running p (inr (inr (inl e))) = rw e (refl, refl)
Working-running p (inr (inr (inr (inl e)))) = rw e (refl, refl)
Working-running p (inr (inr (inr (inr (inl e))))) = rw e (refl, refl)
Working-running p (inr (inr (inr (inr (inr e))))) = rw e (refl, refl)

Going-Known : (phase : Option String) → Going phase → Known phase
unfolding is_running_phase terminal_state
Going-Known none g = (refl, refl)
Going-Known (some p) (accepted e) = rw e (refl, refl)
Going-Known (some p) (working w) = let (runs, goes) = Working-running p w in (goes, rw runs refl)

-- The state of facts without an ending.
state_of-open :
    (f : Facts)
    → f.terminal_phase ≡ none
    → terminal_of f.execution_phase ≡ none
    → f.observation_complete ≡ true
    → state_of f ≡ open_state f
unfolding state_of
state_of-open f unended goes complete = ground arith

state_of-partial :
    (f : Facts)
    → f.terminal_phase ≡ none
    → terminal_of f.execution_phase ≡ none
    → f.observation_complete ≡ false
    → state_of f ≡ State.unknown
unfolding state_of
state_of-partial f unended goes partial = ground arith

state_of-ended :
    (f : Facts) (p : String) (s : State) → EndsBy f p → terminal_state p ≡ some s → state_of f ≡ s
unfolding state_of
state_of-ended f p s (by_ending e) over = ground arith
state_of-ended f p s (by_phase e h) over = ground arith

state_of-Observed :
    (f : Facts) → Observed f → terminal_of f.execution_phase ≡ none → state_of f ≡ open_state f
state_of-Observed f o goes = state_of-open f o.unended goes o.complete

pub state_of-Right : (f : Facts) → Right f (state_of f)
unfolding state_of open_state terminal_state is_running_phase
state_of-Right f = record {
  succeeded = λ e. state_of-ended f _ _ e refl;
  failed = λ e. state_of-ended f _ _ e refl;
  cancelled = λ e. state_of-ended f _ _ e refl;
  unobserved = λ unended going partial.
      state_of-partial f unended (Going-Known f.execution_phase going).0 partial;
  recovering = λ unended going complete again.
      let (goes, _) = Going-Known f.execution_phase going in
      state_of-open f unended goes complete ∙ rw (again, open_state) refl;
  waiting = λ o going asks.
      let (goes, known) = Going-Known f.execution_phase going in
      state_of-Observed f o goes ∙ rw (o.settled, open_state, known, asks) refl;
  running = λ o p works phase idle.
      let (runs, goes) = Working-running p works in
      state_of-Observed f o (rw phase goes) ∙ rw (o.settled, open_state, phase, runs, idle) refl;
  accepted = λ o phase idle.
      state_of-Observed f o (rw phase refl) ∙ rw (o.settled, open_state, phase, idle) refl;
  queued = λ o phase idle sent.
      state_of-Observed f o (rw phase refl) ∙ rw (o.settled, open_state, phase, idle, sent) refl;
  submitting = λ o phase idle sent.
      state_of-Observed f o (rw phase refl) ∙ rw (o.settled, open_state, phase, idle, sent) refl;
  unsent = λ o phase idle none_there.
      state_of-Observed f o (rw phase refl)
      ∙ rw (o.settled, open_state, phase, idle, none_there) refl;
}
