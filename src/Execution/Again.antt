-- ===== src/Execution/Again.antt =====
-- gateway/app/firstmate_execution.py: an event is taken once.
use mathlib.Core.Path.{subst}
use magistrate.Prelude.{
  String, ◌≡◌, refl, sym, ap, ◌∙◌, true, false, not, some, List, eq_refl, eq_iff, arith, inl, inr,
}
use magistrate.Prelude.Outcome.{ok, >>=-eq-ok, raise_if, raise_if-eq-ok}
use magistrate.Objective.Persist.{first}
use magistrate.Execution.Rows.{
  value_error, Incoming, EventRow, Store, Public, is_event, public_event,
}
use magistrate.Execution.Ingest.{Env, Clock, is_principal, is_same_event, new_event, ingest}
use magistrate.Execution.Keys.{first-holds}
use magistrate.Execution.Added.{ingest-Added}
use magistrate.Execution.Steps.{Operation, perform_all, AllKept}
use magistrate.Execution.Report.{perform_all-Later, Added-events}

-- An event as it is stored.
record Stored (env : Env) (owner : String) (event : Incoming) (s : Store) : Type 0 where
  row : EventRow
  found : first (is_event owner event.event_id) s.events ≡ some row
  same : is_same_event env event row ≡ true

ingest-Stored :
    (env : Env) (clock : Clock) (owner : String) (event : Incoming) (s : Store) {answer : Public}
    {after : Store}
    → ingest env clock owner event s ≡ ok (answer, after)
    → Stored env owner event after
unfolding first
ingest-Stored env clock owner event s {answer} {after} h =
    elim (ingest-Added env clock owner event s h) [
      | inl (same, e, found, equal, _) ↦
          subst (λ (t : Store). Stored env owner event t) (sym same)
            (record { row = e; found = found; same = equal })
      | inr a ↦ record {
        row = new_event env owner clock.now event a.record_id;
        found =
            subst
              (λ (xs : List EventRow).
                first (is_event owner event.event_id) xs
                ≡ some (new_event env owner clock.now event a.record_id))
              (sym (Added-events env clock owner event s a))
              (rw (eq_refl owner, eq_refl event.event_id) refl);
        same = rw (eq_refl (env.sha256 (env.payload event)), eq_refl (env.payload event)) refl;
      }
    ]

ingest-is_principal :
    (env : Env) (clock : Clock) (owner : String) (event : Incoming) (s : Store) {r : Public × Store}
    → ingest env clock owner event s ≡ ok r
    → not (is_principal env owner) ≡ false
unfolding ingest
ingest-is_principal env clock owner event s h =
    let (_, a, _) = >>=-eq-ok (raise_if (not (is_principal env owner)) value_error) _ h in
    raise_if-eq-ok _ _ a

-- An event that was taken stays known while its owner's account is not deleted: after every sequence of
-- operations without such a deletion its repetition is answered as a duplicate, about the same event, and
-- writes nothing.
pub ingest-again :
    (env : Env) (clock later : Clock) (owner : String) (event : Incoming) (s : Store)
    (ops : List Operation) {answer : Public} {after : Store}
    → AllKept owner ops
    → ingest env clock owner event s ≡ ok (answer, after)
    → (again : Public) × (ingest env later owner event (perform_all env ops after)
        ≡ ok (again, perform_all env ops after))
      × (again.duplicate ≡ true)
      × (again.event_id ≡ event.event_id)
unfolding ingest
ingest-again env clock later owner event s ops {answer} {after} kept h =
    let stored = ingest-Stored env clock owner event s h in
    let l = perform_all-Later env ops owner event.event_id after kept stored.found in
    let same : is_same_event env event l.row ≡ true =
      ap (λ (r : EventRow). is_same_event env event r) l.same ∙ stored.same in
    let named = first-holds (is_event owner event.event_id) _ l.found in
    (
      public_event l.row true,
      rw (ingest-is_principal env clock owner event s h, l.found, same) refl,
      refl,
      ground (arith, named, eq_iff l.row.event_id event.event_id),
    )
