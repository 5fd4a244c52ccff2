-- ===== src/Objective/Refine.antt =====
-- gateway/app/deployment_mode.py: the stored state of an objective refines a small life cycle, in
-- which an objective is open at some progress or has ended for good.
use mathlib.Core.Path.{subst}
use magistrate.Prelude.{
  ℕ, ◌≤◌, ◌≡◌, sym, Bool, true, List, [], ◌∷◌, if◌then◌else◌, Bool-cases, inl, inr,
}
use magistrate.Prelude.Outcome.{err, ok, Outcome-cases}
use magistrate.Objective.State.{State, ObjectiveState, progress_order, is_terminal}
use magistrate.Objective.Advance.{requested_before, advance_objective_state}
use magistrate.Objective.Life.{IsValid, Forward, advance-Forward}

-- What the life cycle tells apart.
pub data Life : Type 0 where
  open_at : (progress : ℕ) (asked : Bool) → Life
  ended : State → Life

infix 40 ◌⟶◌ ◌⟶*◌
pub data ◌⟶◌ : Life → Life → Type 0 where
  progress : {n m : ℕ} {a b : Bool} → n ≤ m → (a ≡ true → b ≡ true) → open_at n a ⟶ open_at m b
  finish : {n : ℕ} {a : Bool} {s : State} → is_terminal s ≡ true → open_at n a ⟶ ended s
  rest : {s : State} → ended s ⟶ ended s

pub data ◌⟶*◌ : Life → Life → Type 0 where
  here : {l : Life} → l ⟶* l
  then_by : {l m k : Life} → l ⟶ m → m ⟶* k → l ⟶* k

abbrev pub life_of : ObjectiveState → Life
life_of s =
    if is_terminal s.state
    then ended s.state
    else open_at (progress_order s.progress_stage) (requested_before s)

Forward-⟶ : (s t : ObjectiveState) → Forward s t → life_of s ⟶ life_of t
Forward-⟶ s t f = elim (Bool-cases (is_terminal s.state)) [
  | inl over ↦
      let same : t.state ≡ s.state = f.ended over in
      let over' : is_terminal t.state ≡ true = subst (λ x. is_terminal x ≡ true) (sym same) over in
      rw (over, over') (subst (λ x. ended s.state ⟶ ended x) (sym same) rest)
  | inr live ↦ elim (Bool-cases (is_terminal t.state)) [
    | inl over ↦ rw (live, over) (finish over)
    | inr going ↦ rw (live, going) (progress f.progress f.asked)
  ]
]

-- The stored state after a run of updates, each in a transaction of its own: a refused update
-- changes nothing.
unfoldable pub history : ObjectiveState → List ObjectiveState → ObjectiveState
history s [] = s
history s (incoming ∷ updates) =
    history (elim (advance_objective_state s incoming) [ err e ↦ s | ok t ↦ t ]) updates

abbrev pub AllValid : List ObjectiveState → Type 0
AllValid [] = Unit
AllValid (s ∷ updates) = IsValid s × AllValid updates

-- Every run of valid updates of a valid state, in whatever order and with whatever revisions they
-- come, is a path of the life cycle: progress does not fall, a request to cancel is not forgotten
-- while the objective is open, and an ended objective stays as it ended.
pub history-⟶* :
    (s : ObjectiveState) (updates : List ObjectiveState)
    → IsValid s
    → AllValid updates
    → life_of s ⟶* life_of (history s updates)
unfolding history
history-⟶* s [] v all = here
history-⟶* s (incoming ∷ updates) v (w, all) =
    elim (Outcome-cases (advance_objective_state s incoming)) [
      | inl (e, refused) ↦ rw (refused, history) (history-⟶* s updates v all)
      | inr (t, taken) ↦
          let (valid, forward) = advance-Forward s incoming v w taken in
          rw (taken, history) (then_by (Forward-⟶ s t forward) (history-⟶* t updates valid all))
    ]
