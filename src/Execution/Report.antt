-- ===== src/Execution/Report.antt =====
-- gateway/app/firstmate_execution.py: along every sequence of operations of `FirstmateExecutionStore` an event
-- stays as it was, and the report of a completion moves through a small life cycle.
use mathlib.Core.Path.{subst}
use magistrate.Prelude.{
  ℕ, String, ◌≡◌, refl, sym, ap, ◌∙◌, Bool, ◌&&◌, ◌||◌, not, some, List, [], ◌∷◌, eq_refl, eq_iff,
  arith, ◌≢◌, ◌==◌, true, false, Bool-cases, inl, inr, ◌⊎◌, if_ind,
}
use magistrate.Prelude.Outcome.{
  err, ok, >>=-eq-ok, raise_if, raise_if-eq-ok, or_raise, or_raise-eq-ok, ok-injective,
  Outcome-cases,
}
use magistrate.Objective.Persist.{first}
use magistrate.Execution.Rows.{
  value_error, conflict, not_found, Incoming, EventRow, ObjectiveRow, Store, Public, phase_of_facts,
  is_terminal_event, is_completed, is_event, is_objective,
}
use magistrate.Execution.Ingest.{Env, Clock, new_event, end_objective, ingest}
use magistrate.Execution.Generation.{
  Claim, Finish, claimed, claim_row, claim_completion, message_of, is_success, is_named, finished,
  finish_row, finish_completion, interrupted, requeued, recover_interrupted, is_queued,
  is_generating, is_done, has_failed, has_evidence, is_known, same_message,
}
use magistrate.Execution.Keys.{first-without, first-update_where, first-new}
use magistrate.Execution.Added.{Found, opened, known, Added, ingest-Added}
use magistrate.Execution.Life.{
  Report, report_of, ◌⟶◌, ◌⟶*◌, here, then_by, immutable, Moves, stays, moved, claimed-⟶, written-⟶,
  requeued-⟶,
}
use magistrate.Execution.Steps.{
  Operation, ingesting, claiming, finishing, recovering, erasing, elsewhere, erase, perform,
  perform_all, IsKept, AllKept,
}

claim_completion-Moves :
    (now : ℕ) (o i : String) (retry_failed : Bool) (owner event_id : String) (s : Store)
    {e : EventRow} {c : Claim × Store}
    → first (is_event owner event_id) s.events ≡ some e
    → claim_completion now o i retry_failed s ≡ ok c
    → Moves (is_event owner event_id) e c.1.events
unfolding claim_completion claim_row
claim_completion-Moves now o i retry_failed owner event_id s {e} {c} found h =
    let (d, a, h1) = >>=-eq-ok (or_raise (first (is_event o i) s.events) not_found) _ h in
    let (x, b, h2) =
      >>=-eq-ok
        (or_raise (first (is_objective d.owner_user_id d.objective_id) s.objectives) not_found) _
        h1 in
    let (_, _, h3) =
      >>=-eq-ok (raise_if (not (is_completed d.phase && has_evidence d.evidence_json)) conflict) _
        h2 in
    elim (Bool-cases
      (is_queued d.generation_state || has_failed d.generation_state && retry_failed)) [
        | inl due ↦
            let same = ok-injective (rw due at h3) in
            subst (λ (c : Claim × Store). Moves (is_event owner event_id) e c.1.events) same
              (moved o i owner event_id (claimed now) s.events (or_raise-eq-ok _ _ a) found
                (λ y. refl)
                (claimed-⟶ d.generation_state d.generation_attempt_count d.assistant_message_id
                  retry_failed due))
        | inr idle ↦
            let same = ok-injective (rw idle at h3) in
            subst (λ (c : Claim × Store). Moves (is_event owner event_id) e c.1.events) same
              (stays (is_event owner event_id) e s.events found)
      ]

finish_completion-Moves :
    (now : ℕ) (o i : String) (f : Finish) (owner event_id : String) (s : Store) {e : EventRow}
    {after : Store}
    → first (is_event owner event_id) s.events ≡ some e
    → finish_completion now o i f s ≡ ok after
    → Moves (is_event owner event_id) e after.events
unfolding finish_completion finish_row
finish_completion-Moves now o i f owner event_id s {e} {after} found h =
    let (_, a, h1) =
      >>=-eq-ok (raise_if (is_success f && not (is_named (message_of f))) value_error) _ h in
    let (d, b, h2) = >>=-eq-ok (or_raise (first (is_event o i) s.events) not_found) _ h1 in
    elim (Bool-cases (is_done d.generation_state)) [
      | inl done ↦
          elim (Bool-cases (is_success f && same_message d.assistant_message_id (message_of f))) [
            | inl again ↦
                let same : s ≡ after = ok-injective (rw (done, again) at h2) in
                subst (λ (t : Store). Moves (is_event owner event_id) e t.events) same
                  (stays (is_event owner event_id) e s.events found)
            | inr other ↦ let failed : err conflict ≡ ok after = rw (done, other) at h2 in cc
          ]
      | inr going ↦
          let h3 = rw going at h2 in
          let (_, c, h4) =
            >>=-eq-ok (raise_if (not (is_generating d.generation_state)) conflict) _ h3 in
          let (_, _, h5) =
            >>=-eq-ok (raise_if (not (is_known o i (message_of f) s)) not_found) _ h4 in
          subst (λ (t : Store). Moves (is_event owner event_id) e t.events) (ok-injective h5)
            (moved o i owner event_id (finished now f) s.events (or_raise-eq-ok _ _ b) found
              (λ y. refl)
              (written-⟶ d.generation_state d.generation_attempt_count d.assistant_message_id f
                (ground (arith, raise_if-eq-ok _ _ c)) (raise_if-eq-ok _ _ a)))
    ]

recover_interrupted-Moves :
    (now : ℕ) (owner event_id : String) (s : Store) {e : EventRow}
    → first (is_event owner event_id) s.events ≡ some e
    → Moves (is_event owner event_id) e ((recover_interrupted now s).1).events
unfolding recover_interrupted
recover_interrupted-Moves now owner event_id s {e} found =
    let updated =
      first-update_where (is_event owner event_id) interrupted (requeued now) s.events (λ y. refl)
        found in
    elim (Bool-cases (interrupted e)) [
      | inl going ↦ record {
        row = requeued now e;
        found = updated ∙ rw going refl;
        same = refl;
        move =
            inr (
              requeued-⟶ e.generation_state e.generation_attempt_count e.assistant_message_id
                going);
      }
      | inr other ↦ stays (is_event owner event_id) e _ (updated ∙ rw other refl)
    ]

target-events :
    (owner : String) (now : ℕ) (event : Incoming) (s : Store) {r : ObjectiveRow × Store}
    → Found owner now event s r
    → r.1.events ≡ s.events
target-events owner now event s (opened o absent) = refl
target-events owner now event s (known x found live) = refl

end_objective-events :
    (owner : String) (now : ℕ) (event : Incoming) (s : Store)
    → (end_objective owner now event s).events ≡ s.events
unfolding end_objective
end_objective-events owner now event s =
    if_ind (λ (t : Store). t.events ≡ s.events) (is_terminal_event (phase_of_facts event.facts))
      refl refl

pub Added-events :
    (env : Env) (clock : Clock) (owner : String) (event : Incoming) (s : Store) {answer : Public}
    {after : Store}
    → (a : Added env clock owner event s answer after)
    → after.events ≡ new_event env owner clock.now event a.record_id ∷ s.events
Added-events env clock owner event s a =
    ap (λ (t : Store). t.events) a.stored
    ∙ end_objective-events owner clock.now event _
    ∙ ap (λ (events : List EventRow). new_event env owner clock.now event a.record_id ∷ events)
        (target-events owner clock.accepted_at event s a.correlated)

ingest-Moves :
    (env : Env) (clock : Clock) (o : String) (event : Incoming) (owner event_id : String)
    (s : Store) {e : EventRow} {answer : Public} {after : Store}
    → first (is_event owner event_id) s.events ≡ some e
    → ingest env clock o event s ≡ ok (answer, after)
    → Moves (is_event owner event_id) e after.events
ingest-Moves env clock o event owner event_id s {e} {answer} {after} found h =
    elim (ingest-Added env clock o event s h) [
      | inl (same, _, _, _, _) ↦ stays (is_event owner event_id) e after.events (
          subst (λ (t : Store). first (is_event owner event_id) t.events ≡ some e) (sym same) found)
      | inr a ↦ stays (is_event owner event_id) e after.events (
          subst (λ (xs : List EventRow). first (is_event owner event_id) xs ≡ some e)
            (sym (Added-events env clock o event s a))
            (first-new (λ (e : EventRow). e.owner_user_id) (λ (e : EventRow). e.event_id) o
              event.event_id owner event_id (new_event env o clock.now event a.record_id) s.events
              (rw (eq_refl o, eq_refl event.event_id) refl) a.unknown found))
    ]

apart_event :
    (owner other event_id : String) (y : EventRow)
    → other ≢ owner
    → is_event owner event_id y ≡ true
    → (y.owner_user_id == other) ≡ false
apart_event owner other event_id y apart it =
    ground (arith, eq_iff y.owner_user_id other, eq_iff y.owner_user_id owner)

perform-Moves :
    (env : Env) (op : Operation) (owner event_id : String) (s : Store) {e : EventRow}
    → IsKept owner op
    → first (is_event owner event_id) s.events ≡ some e
    → Moves (is_event owner event_id) e (perform env op s).events
unfolding perform erase
perform-Moves env (ingesting clock o event) owner event_id s {e} kept found =
    elim (Outcome-cases (ingest env clock o event s)) [
      | inl (raised, failed) ↦ rw failed (stays (is_event owner event_id) e s.events found)
      | inr (r, done) ↦ rw done (ingest-Moves env clock o event owner event_id s found done)
    ]
perform-Moves env (claiming now o i retry_failed) owner event_id s {e} kept found =
    elim (Outcome-cases (claim_completion now o i retry_failed s)) [
      | inl (raised, failed) ↦ rw failed (stays (is_event owner event_id) e s.events found)
      | inr (r, done) ↦
          rw done (claim_completion-Moves now o i retry_failed owner event_id s found done)
    ]
perform-Moves env (finishing now o i f) owner event_id s {e} kept found =
    elim (Outcome-cases (finish_completion now o i f s)) [
      | inl (raised, failed) ↦ rw failed (stays (is_event owner event_id) e s.events found)
      | inr (after, done) ↦ rw done (finish_completion-Moves now o i f owner event_id s found done)
    ]
perform-Moves env (recovering now) owner event_id s kept found =
    recover_interrupted-Moves now owner event_id s found
perform-Moves env (erasing other) owner event_id s {e} kept found =
    stays (is_event owner event_id) e _ (
      first-without (is_event owner event_id) (λ (e : EventRow). e.owner_user_id == other) s.events
        (λ y it. apart_event owner other event_id y kept it) found)
perform-Moves env (elsewhere others) owner event_id s {e} kept found =
    stays (is_event owner event_id) e s.events found

-- An event as it is found later.
pub record Later (owner event_id : String) (e : EventRow) (events : List EventRow) : Type 0 where
  pub row : EventRow
  pub found : first (is_event owner event_id) events ≡ some row
  pub same : immutable row ≡ immutable e
  pub path : report_of e ⟶* report_of row

moved_path : (r s t : Report) → (s ≡ r) ⊎ (r ⟶ s) → s ⟶* t → r ⟶* t
moved_path r s t (inl same) path = subst (λ (r : Report). r ⟶* t) same path
moved_path r s t (inr step) path = then_by step path

-- A stored event is found after every sequence of operations in which its owner's account is not deleted,
-- with other accounts deleted and other tables written in between: none of its facts has changed, and
-- the report of its completion has moved along its life cycle, in which each attempt is counted and a
-- report that was made stays as it is.
pub perform_all-Later :
    (env : Env) (ops : List Operation) (owner event_id : String) (s : Store) {e : EventRow}
    → AllKept owner ops
    → first (is_event owner event_id) s.events ≡ some e
    → Later owner event_id e (perform_all env ops s).events
unfolding perform_all
perform_all-Later env [] owner event_id s {e} kept found = record {
  row = e;
  found = found;
  same = refl;
  path = here;
}
perform_all-Later env (op ∷ ops) owner event_id s {e} (kept, all) found =
    let m = perform-Moves env op owner event_id s kept found in
    let l = perform_all-Later env ops owner event_id (perform env op s) all m.found in
    record {
      row = l.row;
      found = l.found;
      same = l.same ∙ m.same;
      path = moved_path (report_of e) (report_of m.row) (report_of l.row) m.move l.path;
    }
