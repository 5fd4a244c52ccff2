-- ===== src/Objective/Stored.antt =====
-- gateway/app/structured_runtime.py: persisting succeeds, and stores what the tables say.
use mathlib.Core.Path.{subst}
use magistrate.Prelude.{
  ◌+◌, ◌<◌, String, ◌≡◌, ◌∙◌, refl, sym, Bool, true, ◌&&◌, Option, none, some, List, [], ◌∷◌, ◌==◌,
  eq_iff, eq_refl, nat_eq, arith, Bool-cases, inl, inr,
}
use magistrate.Prelude.Outcome.{ok}
use magistrate.Objective.State.{
  ObjectiveState, Facts, max_contract_integer, is_named, state_of, projection,
  project_objective_state, same_state, same_stage, same_cancellation,
}
use magistrate.Objective.Right.{Right, state_of-Right}
use magistrate.Objective.Advance.{same_contract}
use magistrate.Objective.Life.{IsValid, same_state-eq}
use magistrate.Objective.Total.{
  Keeps, levelled, projection-IsValid, validated-ok, levelled-state, levelled-owner,
  levelled-objective, advance-ok,
}
use magistrate.Objective.Persist.{
  Store, first, is_of, put, facts_of, submission_of, execution_of, task_of, same_facts, store_state,
  persist_objective_state,
}

first-put :
    (s : ObjectiveState) (xs : List ObjectiveState)
    → first (is_of s.owner_principal_id s.objective_id) (put s xs) ≡ some s
unfolding first put
first-put s [] = rw (eq_refl s.owner_principal_id, eq_refl s.objective_id) refl
first-put s (x ∷ xs) =
    ground (arith, eq_refl s.owner_principal_id, eq_refl s.objective_id, first-put s xs)

first-is_of :
    (owner objective : String) (xs : List ObjectiveState) {s : ObjectiveState}
    → first (is_of owner objective) xs ≡ some s
    → (s.owner_principal_id ≡ owner) × (s.objective_id ≡ objective)
unfolding first
first-is_of owner objective [] h = absurd (cc)
first-is_of owner objective (x ∷ xs) {s} h = elim (Bool-cases (is_of owner objective x)) [
  | inl it ↦
      let same : x ≡ s = ground arith in
      subst (λ (s : ObjectiveState). (s.owner_principal_id ≡ owner) × (s.objective_id ≡ objective))
        same
        (
          ground (arith, eq_iff x.owner_principal_id owner),
          ground (arith, eq_iff x.objective_id objective),
        )
  | inr other ↦ first-is_of owner objective xs (rw (other, first) at h)
]

-- The stored contract of an objective is valid, and its state is the one of the facts.
pub record Says (owner objective : String) (f : Facts) (stored : List ObjectiveState) : Type 0 where
  pub state : ObjectiveState
  pub found : first (is_of owner objective) stored ≡ some state
  pub valid : IsValid state
  pub mine : state.owner_principal_id ≡ owner
  pub named : state.objective_id ≡ objective
  pub says : Right f state.state

-- What a stored state, if there is one, has to be for the facts.
pub data Ready (owner objective : String) (f : Facts) (stored : List ObjectiveState) : Type 0 where
  absent :
      first (is_of owner objective) stored ≡ none
      → is_named objective owner ≡ true
      → Ready owner objective f stored
  present :
      (s : ObjectiveState)
      → first (is_of owner objective) stored ≡ some s
      → IsValid s
      → s.revision < max_contract_integer
      → Keeps s f
      → Ready owner objective f stored

-- A written state is found again.
put-Says :
    (s : ObjectiveState) (f : Facts) (stored : List ObjectiveState) (owner objective : String)
    → s.owner_principal_id ≡ owner
    → s.objective_id ≡ objective
    → IsValid s
    → s.state ≡ state_of f
    → Says owner objective f (put s stored)
put-Says s f stored owner objective mine named v says = record {
  state = s;
  found =
      subst (λ o. first (is_of o objective) (put s stored) ≡ some s) mine
        (subst (λ b. first (is_of s.owner_principal_id b) (put s stored) ≡ some s) named
          (first-put s stored));
  valid = v;
  mine = mine;
  named = named;
  says = subst (Right f) (sym says) (state_of-Right f);
}

fourth_of_six : (p q r x y z : Bool) → (p && q && r && x && y && z) ≡ true → x ≡ true
fourth_of_six p q r x y z h = ground arith

same_facts-state : (a b : ObjectiveState) → same_facts a b ≡ true → a.state ≡ b.state
unfolding same_contract
same_facts-state a b h = same_state-eq a.state b.state (
    fourth_of_six (a.objective_id == b.objective_id) (a.owner_principal_id == b.owner_principal_id)
      (nat_eq 0 0) (same_state a.state b.state) (same_stage a.progress_stage b.progress_stage)
      (same_cancellation a.cancellation b.cancellation) h)

store_new-Says :
    (owner objective : String) (f : Facts) (stored : List ObjectiveState)
    → is_named objective owner ≡ true
    → (after : List ObjectiveState) × (store_state none objective owner f stored ≡ ok after)
      × Says owner objective f after
unfolding store_state project_objective_state
store_new-Says owner objective f stored named =
    let p = projection objective owner 1 f in
    let v = projection-IsValid objective owner 1 f named (omega arith) in
    (put p stored, rw (validated-ok p v) refl, put-Says p f stored owner objective refl refl v refl)

-- What storing the state of an objective gives.
abbrev Stores :
    Option ObjectiveState → Facts → List ObjectiveState → (owner objective : String) → Type 0
Stores current f stored owner objective =
    (after : List ObjectiveState) × (store_state current objective owner f stored ≡ ok after)
    × Says owner objective f after

store_own-Says :
    (f : Facts) (stored : List ObjectiveState) (s : ObjectiveState)
    → first (is_of s.owner_principal_id s.objective_id) stored ≡ some s
    → IsValid s
    → s.revision < max_contract_integer
    → Keeps s f
    → Stores (some s) f stored s.owner_principal_id s.objective_id
unfolding store_state project_objective_state
store_own-Says f stored s found v small k =
    let t = levelled s f in
    let p = projection s.objective_id s.owner_principal_id (s.revision + 1) f in
    let (w, advanced) = advance-ok s f v small k in
    let made = validated-ok p (
      projection-IsValid s.objective_id s.owner_principal_id (s.revision + 1) f v.named
        (omega arith)) in
    elim (Bool-cases (same_facts t s)) [
      | inl same ↦
          let says = sym (same_facts-state t s same) ∙ levelled-state s f in
          (
            stored,
            rw (made, advanced, same) refl,
            record {
              state = s;
              found = found;
              valid = v;
              mine = refl;
              named = refl;
              says = subst (Right f) (sym says) (state_of-Right f);
            },
          )
      | inr new ↦ (
        put t stored,
        rw (made, advanced, new) refl,
        put-Says t f stored s.owner_principal_id s.objective_id (levelled-owner s f)
            (levelled-objective s f) w (levelled-state s f),
      )
    ]

Ready-Stores :
    (owner objective : String) (f : Facts) (stored : List ObjectiveState)
    → Ready owner objective f stored
    → Stores (first (is_of owner objective) stored) f stored owner objective
Ready-Stores owner objective f stored (absent none_there named) =
    rw none_there (store_new-Says owner objective f stored named)
Ready-Stores owner objective f stored (present s found v small k) =
    let (mine, named) = first-is_of owner objective stored found in
    let own = subst (λ o. first (is_of o objective) stored ≡ some s) (sym mine) found in
    let own' = subst (λ b. first (is_of s.owner_principal_id b) stored ≡ some s) (sym named) own in
    rw found (
      subst (λ o. Stores (some s) f stored o objective) mine
        (subst (λ b. Stores (some s) f stored s.owner_principal_id b) named
          (store_own-Says f stored s own' v small k)))

-- For an objective that is known, persisting succeeds: if no state is stored and its names are
-- well-formed, or if the stored state is valid with a revision left, and the facts of the tables take
-- back neither how it ended nor that it is to be cancelled nor, by claiming an earlier one, its stage.
-- Afterwards a valid contract is stored for the owner and the objective, and its state is the one of the
-- facts: of an ending the way it ended, and else unknown where the observation is not complete, recovering,
-- waiting for input, running, accepted, queued or submitting, in this order, or unknown where nothing was submitted.
pub persist_objective_state-Says :
    (owner objective task : String) (recovering : Bool) (store : Store)
    → task_of (submission_of owner objective store) (execution_of owner objective store) ≡ some task
    → Ready owner objective
        (facts_of owner objective
          (submission_of owner objective store)
          (execution_of owner objective store)
          task
          recovering
          store)
        store.projections
    → (after : Store) × (persist_objective_state owner objective recovering store ≡ ok after)
      × Says owner objective
          (facts_of owner objective
            (submission_of owner objective store)
            (execution_of owner objective store)
            task
            recovering
            store)
          after.projections
unfolding persist_objective_state
persist_objective_state-Says owner objective task recovering store known ready =
    let f =
      facts_of owner objective (submission_of owner objective store)
        (execution_of owner objective store) task recovering store in
    let (after, stored, says) = Ready-Stores owner objective f store.projections ready in
    (record store { projections = after }, rw (known, persist_objective_state, stored) refl, says)
