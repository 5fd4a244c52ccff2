-- ===== src/Execution/Ended.antt =====
-- gateway/app/firstmate_execution.py: an objective ends once.
use mathlib.Core.Path.{subst}
use magistrate.Prelude.{
  ℕ, String, ◌≡◌, refl, sym, ap, ◌∙◌, Bool, true, false, ◌&&◌, ◌||◌, not, none, some, List, [], ◌∷◌,
  eq_refl, eq_iff, arith, ◌≢◌, ◌==◌, if_ind, is_some, Bool-cases, inl, inr,
}
use magistrate.Prelude.Outcome.{err, ok, >>=-eq-ok, raise_if, or_raise, ok-injective, Outcome-cases}
use magistrate.Objective.Persist.{first}
use magistrate.Execution.Rows.{
  ExecutionError, value_error, not_found, conflict, is_completed, Incoming, ObjectiveRow, Store,
  Public, phase_of_facts, is_terminal_event, is_event, is_objective,
}
use magistrate.Execution.Ingest.{Env, Clock, new_objective, ended_objective, end_objective, ingest}
use magistrate.Execution.Generation.{
  Claim, Finish, claim_completion, claim_row, finish_completion, finish_row, recover_interrupted,
  is_queued, has_failed, has_evidence, is_done, is_generating, is_known, is_success, is_named,
  message_of, same_message,
}
use magistrate.Execution.Keys.{first-without, first-holds, first-update_where, key_found, first-new}
use magistrate.Execution.Added.{Found, opened, known, Added, ingest-Added}
use magistrate.Execution.Steps.{
  Operation, ingesting, claiming, finishing, recovering, erasing, elsewhere, erase, perform,
  perform_all, IsKept, AllKept,
}

-- An objective that has ended.
abbrev Ended : (owner objective : String) → ObjectiveRow → Store → Type 0
Ended owner objective x s =
    (first (is_objective owner objective) s.objectives ≡ some x)
    × (is_some x.terminal_event_id ≡ true)

-- What an event is about, if that has ended.
about :
    (o owner objective : String) (event : Incoming) (s : Store) {x : ObjectiveRow}
    → first (is_objective owner objective) s.objectives ≡ some x
    → is_objective o event.objective_id x ≡ true
    → first (is_objective o event.objective_id) s.objectives ≡ some x
about o owner objective event s there mine =
    key_found (λ (x : ObjectiveRow). x.owner_user_id) (λ (x : ObjectiveRow). x.objective_id) o
      event.objective_id owner objective s.objectives there mine

target-Ended :
    (o owner objective : String) (now : ℕ) (event : Incoming) (s : Store) {x : ObjectiveRow}
    {r : ObjectiveRow × Store}
    → Found o now event s r
    → Ended owner objective x s
    → (first (is_objective owner objective) r.1.objectives ≡ some x)
      × (is_objective o event.objective_id x ≡ false)
target-Ended o owner objective now event s {x} (opened origin absent) (there, over) = (
  first-new (λ (x : ObjectiveRow). x.owner_user_id) (λ (x : ObjectiveRow). x.objective_id) o
      event.objective_id owner objective (new_objective o now event origin) s.objectives
      (rw (eq_refl o, eq_refl event.objective_id) refl) absent there,
  elim (Bool-cases (is_objective o event.objective_id x)) [
    | inl mine ↦ let here = about o owner objective event s there mine in absurd (cc)
    | inr other ↦ other
  ],
)
target-Ended o owner objective now event s {x} (known y found live) (there, over) = (
  there,
  elim (Bool-cases (is_objective o event.objective_id x)) [
    | inl mine ↦
        let here = about o owner objective event s there mine in
        let same : some x ≡ some y = sym here ∙ found in absurd (cc)
    | inr other ↦ other
  ],
)

end_objective-Ended :
    (o owner objective : String) (now : ℕ) (event : Incoming) (s : Store) {x : ObjectiveRow}
    → first (is_objective owner objective) s.objectives ≡ some x
    → is_objective o event.objective_id x ≡ false
    → first (is_objective owner objective) (end_objective o now event s).objectives ≡ some x
unfolding end_objective
end_objective-Ended o owner objective now event s {x} there other =
    if_ind (λ (t : Store). first (is_objective owner objective) t.objectives ≡ some x)
      (is_terminal_event (phase_of_facts event.facts))
      (first-update_where (is_objective owner objective) (is_objective o event.objective_id)
          (ended_objective now event) s.objectives (λ y. refl) there
        ∙ rw other refl)
      there

Added-Ended :
    (env : Env) (clock : Clock) (o owner objective : String) (event : Incoming) (s : Store)
    {x : ObjectiveRow} {answer : Public} {after : Store}
    → Added env clock o event s answer after
    → Ended owner objective x s
    → (Ended owner objective x after) × (is_objective o event.objective_id x ≡ false)
Added-Ended env clock o owner objective event s {x} a (there, over) =
    let (found, other) =
      target-Ended o owner objective clock.accepted_at event s a.correlated (there, over) in
    (
      (
        subst (λ (t : Store). first (is_objective owner objective) t.objectives ≡ some x)
            (sym a.stored) (end_objective-Ended o owner objective clock.now event _ found other),
        over,
      ),
      other,
    )

unchanged :
    (owner objective : String) (s t : Store) {x : ObjectiveRow}
    → t.objectives ≡ s.objectives
    → Ended owner objective x s
    → Ended owner objective x t
unchanged owner objective s t {x} same (there, over) = (
  subst (λ (xs : List ObjectiveRow). first (is_objective owner objective) xs ≡ some x) (sym same)
      there,
  over,
)

claim_completion-objectives :
    (now : ℕ) (o i : String) (retry_failed : Bool) (s : Store) {c : Claim × Store}
    → claim_completion now o i retry_failed s ≡ ok c
    → c.1.objectives ≡ s.objectives
unfolding claim_completion claim_row
claim_completion-objectives now o i retry_failed s {c} h =
    let (d, _, h1) = >>=-eq-ok (or_raise (first (is_event o i) s.events) not_found) _ h in
    let (_, _, h2) =
      >>=-eq-ok
        (or_raise (first (is_objective d.owner_user_id d.objective_id) s.objectives) not_found) _
        h1 in
    let (_, _, h3) =
      >>=-eq-ok (raise_if (not (is_completed d.phase && has_evidence d.evidence_json)) conflict) _
        h2 in
    ap (λ (c : Claim × Store). c.1.objectives) (sym (ok-injective h3))
    ∙ if_ind (λ (c : Claim × Store). c.1.objectives ≡ s.objectives)
        (is_queued d.generation_state || has_failed d.generation_state && retry_failed) refl refl

finish_completion-objectives :
    (now : ℕ) (o i : String) (f : Finish) (s : Store) {after : Store}
    → finish_completion now o i f s ≡ ok after
    → after.objectives ≡ s.objectives
unfolding finish_completion finish_row
finish_completion-objectives now o i f s {after} h =
    let (_, _, h1) =
      >>=-eq-ok (raise_if (is_success f && not (is_named (message_of f))) value_error) _ h in
    let (d, _, h2) = >>=-eq-ok (or_raise (first (is_event o i) s.events) not_found) _ h1 in
    elim (Bool-cases (is_done d.generation_state)) [
      | inl done ↦
          elim (Bool-cases (is_success f && same_message d.assistant_message_id (message_of f))) [
            | inl again ↦
                let same : s ≡ after = ok-injective (rw (done, again) at h2) in
                ap (λ (t : Store). t.objectives) (sym same)
            | inr other ↦
                let failed : err conflict ≡ ok after = rw (done, other) at h2 in absurd (cc)
          ]
      | inr going ↦
          let h3 = rw going at h2 in
          let (_, _, h4) =
            >>=-eq-ok (raise_if (not (is_generating d.generation_state)) conflict) _ h3 in
          let (_, _, h5) =
            >>=-eq-ok (raise_if (not (is_known o i (message_of f) s)) not_found) _ h4 in
          ap (λ (t : Store). t.objectives) (sym (ok-injective h5))
    ]

apart_objective :
    (owner other objective : String) (y : ObjectiveRow)
    → other ≢ owner
    → is_objective owner objective y ≡ true
    → (y.owner_user_id == other) ≡ false
apart_objective owner other objective y apart it =
    ground (arith, eq_iff y.owner_user_id other, eq_iff y.owner_user_id owner)

perform-Ended :
    (env : Env) (op : Operation) (owner objective : String) (s : Store) {x : ObjectiveRow}
    → IsKept owner op
    → Ended owner objective x s
    → Ended owner objective x (perform env op s)
unfolding perform recover_interrupted erase
perform-Ended env (ingesting clock o event) owner objective s {x} kept e =
    elim (Outcome-cases (ingest env clock o event s)) [
      | inl (raised, failed) ↦ rw failed e
      | inr (r, done) ↦ elim (ingest-Added env clock o event s done) [
        | inl (same, _, _, _, _) ↦
            rw done (subst (λ (t : Store). Ended owner objective x t) (sym same) e)
        | inr a ↦ rw done ((Added-Ended env clock o owner objective event s a e).0)
      ]
    ]
perform-Ended env (claiming now o i retry_failed) owner objective s {x} kept e =
    elim (Outcome-cases (claim_completion now o i retry_failed s)) [
      | inl (raised, failed) ↦ rw failed e
      | inr (c, done) ↦ rw done (
          unchanged owner objective s c.1 (claim_completion-objectives now o i retry_failed s done)
            e)
    ]
perform-Ended env (finishing now o i f) owner objective s {x} kept e =
    elim (Outcome-cases (finish_completion now o i f s)) [
      | inl (raised, failed) ↦ rw failed e
      | inr (after, done) ↦
          rw done
            (unchanged owner objective s after (finish_completion-objectives now o i f s done) e)
    ]
perform-Ended env (recovering now) owner objective s kept e = e
perform-Ended env (erasing other) owner objective s kept (there, over) = (
  first-without (is_objective owner objective) (λ (x : ObjectiveRow). x.owner_user_id == other)
      s.objectives (λ y it. apart_objective owner other objective y kept it) there,
  over,
)
perform-Ended env (elsewhere others) owner objective s kept e = e

perform_all-Ended :
    (env : Env) (ops : List Operation) (owner objective : String) (s : Store) {x : ObjectiveRow}
    → AllKept owner ops
    → Ended owner objective x s
    → Ended owner objective x (perform_all env ops s)
unfolding perform_all
perform_all-Ended env [] owner objective s kept e = e
perform_all-Ended env (op ∷ ops) owner objective s (kept, all) e =
    perform_all-Ended env ops owner objective (perform env op s) all
      (perform-Ended env op owner objective s kept e)

-- An objective that has ended stays exactly as it ended after every sequence of operations in which its
-- owner's account is not deleted, and every event of it that is not yet stored is then refused with an
-- exception.
pub perform_all-closed :
    (env : Env) (clock : Clock) (ops : List Operation) (owner : String) (event : Incoming)
    (s : Store) (x : ObjectiveRow)
    → AllKept owner ops
    → first (is_objective owner event.objective_id) s.objectives ≡ some x
    → is_some x.terminal_event_id ≡ true
    → first (is_event owner event.event_id) (perform_all env ops s).events ≡ none
    → (first (is_objective owner event.objective_id) (perform_all env ops s).objectives ≡ some x)
      × ((raised : ExecutionError) × (ingest env clock owner event (perform_all env ops s)
            ≡ err raised))
perform_all-closed env clock ops owner event s x kept there over unknown =
    let later = perform_all-Ended env ops owner event.objective_id s kept (there, over) in
    let named = first-holds (is_objective owner event.objective_id) s.objectives there in
    (
      later.0,
      elim (Outcome-cases (ingest env clock owner event (perform_all env ops s))) [
        | inl (raised, failed) ↦ (raised, failed)
        | inr (r, done) ↦
            elim (ingest-Added env clock owner event (perform_all env ops s) {answer = r.0}
              {after = r.1} done) [
                | inl (_, e, found, _, _) ↦ absurd (cc)
                | inr a ↦
                    let (_, other) =
                      Added-Ended env clock owner owner event.objective_id event _ a later in
                    absurd (cc)
              ]
      ],
    )
