-- ===== src/Execution/Added.antt =====
-- gateway/app/firstmate_execution.py: what a successful `FirstmateExecutionStore.ingest` has done.
use mathlib.Core.Path.{subst}
use magistrate.Prelude.{
  ℕ, String, ◌≡◌, refl, sym, ap, Bool, true, false, not, Option, none, some, List, [], ◌∷◌, ◌==◌,
  is_some, Bool-cases, Option-cases, inl, inr, ◌⊎◌, ◌&&◌, arith,
}
use magistrate.Prelude.Outcome.{
  Outcome, err, ok, >>=-eq-ok, raise_if, raise_if-eq-ok, or_raise, or_raise-eq-ok, ok-injective,
  Outcome-cases,
}
use magistrate.Objective.State.{ObjectiveState}
use magistrate.Objective.Persist.{first, any, persist_objective_state}
use magistrate.Execution.Rows.{
  ExecutionError, value_error, conflict, not_found, activity_failed, Origin, Facts, accepted,
  progressed, completed, ended, Incoming, EventRow, ObjectiveRow, Store, Public, is_event,
  is_objective, view, public_event,
}
use magistrate.Execution.Ingest.{
  Env, Clock, is_principal, is_same_event, is_origin, new_event, new_objective, accept, correlate,
  objective_for, end_objective, persist_state, ingest_new, ingest,
}

-- The objective of an event: a new one, or a known one that has not ended.
pub data Found (owner : String) (now : ℕ) (event : Incoming) (s : Store)
    : ObjectiveRow × Store → Type 0 where
  opened :
      (o : Origin)
      → first (is_objective owner event.objective_id) s.objectives ≡ none
      → Found owner now event s (
        new_objective owner now event o,
        record s { objectives = new_objective owner now event o ∷ s.objectives },
      )
  known :
      (x : ObjectiveRow)
      → first (is_objective owner event.objective_id) s.objectives ≡ some x
      → x.terminal_event_id ≡ none
      → Found owner now event s (x, s)

any-first {ℓ} : {A : Type ℓ} (p : A → Bool) (xs : List A) → any p xs ≡ false → first p xs ≡ none
unfolding first any
any-first p [] h = refl
any-first p (x ∷ xs) h = ground (arith, any-first p xs)

accept-Found :
    (owner : String) (now : ℕ) (event : Incoming) (o : Origin) (s : Store)
    {r : ObjectiveRow × Store}
    → accept owner now event o s ≡ ok r
    → Found owner now event s r
unfolding accept
accept-Found owner now event o s {r} h =
    let (_, a, h1) =
      >>=-eq-ok (raise_if (any (is_objective owner event.objective_id) s.objectives) conflict) _
        h in
    let (_, _, h2) =
      >>=-eq-ok
        (raise_if
          (any (λ (x : ObjectiveRow). x.owner_user_id == owner && x.task_id == event.task_id)
            s.objectives)
          conflict)
        _ h1 in
    let (_, _, h3) =
      >>=-eq-ok (raise_if (not (any (is_origin owner o) s.messages)) not_found) _ h2 in
    subst (λ (r : ObjectiveRow × Store). Found owner now event s r) (ok-injective h3)
      (opened o
        (any-first (is_objective owner event.objective_id) s.objectives (raise_if-eq-ok _ _ a)))

is_some-none {ℓ} : {A : Type ℓ} (o : Option A) → is_some o ≡ false → o ≡ none
is_some-none none h = refl
is_some-none (some a) h = absurd (cc)

correlate-Found :
    (owner : String) (now : ℕ) (event : Incoming) (s : Store) {r : ObjectiveRow × Store}
    → correlate owner event s ≡ ok r
    → Found owner now event s r
unfolding correlate
correlate-Found owner now event s {r} h =
    let (x, a, h1) =
      >>=-eq-ok (or_raise (first (is_objective owner event.objective_id) s.objectives) not_found) _
        h in
    let (_, _, h2) =
      >>=-eq-ok (raise_if (not (x.task_id == event.task_id && x.run_id == event.run_id)) conflict) _
        h1 in
    let (_, b, h3) = >>=-eq-ok (raise_if (is_some x.terminal_event_id) conflict) _ h2 in
    subst (λ (r : ObjectiveRow × Store). Found owner now event s r) (ok-injective h3)
      (known x (or_raise-eq-ok _ _ a) (is_some-none x.terminal_event_id (raise_if-eq-ok _ _ b)))

found_for :
    (owner : String) (now : ℕ) (event : Incoming) (facts : Facts) (s : Store)
    {r : ObjectiveRow × Store}
    → (elim facts [ accepted o ↦ accept owner now event o s | _ ↦ correlate owner event s ]) ≡ ok r
    → Found owner now event s r
found_for owner now event (accepted o) s h = accept-Found owner now event o s h
found_for owner now event (progressed p) s h = correlate-Found owner now event s h
found_for owner now event (completed e u) s h = correlate-Found owner now event s h
found_for owner now event (ended e u) s h = correlate-Found owner now event s h

objective_for-Found :
    (owner : String) (now : ℕ) (event : Incoming) (s : Store) {r : ObjectiveRow × Store}
    → objective_for owner now event s ≡ ok r
    → Found owner now event s r
unfolding objective_for
objective_for-Found owner now event s h = found_for owner now event event.facts s h

-- A new event is added for an objective that was found, which it may end.
pub record Added (env : Env) (clock : Clock) (owner : String) (event : Incoming) (s : Store)
    (answer : Public) (after : Store) : Type 0 where
  pub unknown : first (is_event owner event.event_id) s.events ≡ none
  pub target : ObjectiveRow × Store
  pub correlated : Found owner clock.accepted_at event s target
  pub record_id : String
  pub projected : List ObjectiveState
  pub answered : answer ≡ public_event (new_event env owner clock.now event record_id) false
  pub stored :
      after
      ≡ record (end_objective owner clock.now event (record target.1 {
        events = new_event env owner clock.now event record_id ∷ target.1.events;
      })) { projections = projected }

persist_state-projections :
    (owner objective : String) (s : Store) {after : Store}
    → persist_state owner objective s ≡ ok after
    → (projected : List ObjectiveState) × (after ≡ record s { projections = projected })
unfolding persist_state
persist_state-projections owner objective s {after} h =
    elim (Outcome-cases (persist_objective_state owner objective false (view s))) [
      | inl (raised, failed) ↦ absurd (cc)
      | inr (p, done) ↦ (p.projections, sym (ok-injective (rw (done, persist_state) at h)))
    ]

ingest_new-Added :
    (env : Env) (clock : Clock) (owner : String) (event : Incoming) (s : Store) {r : Public × Store}
    → first (is_event owner event.event_id) s.events ≡ none
    → ingest_new env clock owner event s ≡ ok r
    → Added env clock owner event s r.0 r.1
unfolding ingest_new
ingest_new-Added env clock owner event s {r} unknown h =
    let (target, a, h1) = >>=-eq-ok (objective_for owner clock.accepted_at event s) _ h in
    let (record_id, _, h2) =
      >>=-eq-ok (or_raise (env.activity owner event target.0) activity_failed) _ h1 in
    let (after, c, h3) =
      >>=-eq-ok
        (persist_state owner event.objective_id (
          end_objective owner clock.now event (record target.1 {
            events = new_event env owner clock.now event record_id ∷ target.1.events;
          })))
        _ h2 in
    let (projected, same) = persist_state-projections owner event.objective_id _ c in
    subst (λ (r : Public × Store). Added env clock owner event s r.0 r.1) (ok-injective h3)
      (record {
        unknown = unknown;
        target = target;
        correlated = objective_for-Found owner clock.accepted_at event s a;
        record_id = record_id;
        projected = projected;
        answered = refl;
        stored = same;
      })

-- A repetition writes nothing; every other event that is taken is added.
pub ingest-Added :
    (env : Env) (clock : Clock) (owner : String) (event : Incoming) (s : Store) {answer : Public}
    {after : Store}
    → ingest env clock owner event s ≡ ok (answer, after)
    → ((after ≡ s)
        × (e : EventRow) × (first (is_event owner event.event_id) s.events ≡ some e)
        × (is_same_event env event e ≡ true)
        × (answer ≡ public_event e true))
      ⊎ Added env clock owner event s answer after
unfolding ingest
ingest-Added env clock owner event s {answer} {after} h =
    let (_, _, h1) = >>=-eq-ok (raise_if (not (is_principal env owner)) value_error) _ h in
    elim (Option-cases (first (is_event owner event.event_id) s.events)) [
      | inl unknown ↦ inr (
          ingest_new-Added env clock owner event s {r = (answer, after)} unknown (rw unknown at h1))
      | inr (e, found) ↦ elim (Bool-cases (is_same_event env event e)) [
        | inl same ↦
            let both : (public_event e true, s) ≡ (answer, after) =
              ok-injective (rw (found, same) at h1) in
            inl (
              ap (λ (r : Public × Store). r.1) (sym both),
              e,
              found,
              same,
              ap (λ (r : Public × Store). r.0) (sym both),
            )
        | inr other ↦
            let failed : ◌≡◌ {A = Outcome ExecutionError (Public × Store)} (err conflict)
                (ok (answer, after)) =
              rw (found, other) at h1 in
            absurd (cc)
      ]
    ]
