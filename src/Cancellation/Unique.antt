-- ===== src/Cancellation/Unique.antt =====
-- gateway/app/objective_cancellation.py: an owner has at most one open request for an objective.
use mathlib.Core.Path.{subst}
use magistrate.Prelude.{
  ℕ, ◌≤◌, String, ◌≡◌, refl, sym, true, false, ◌&&◌, not, none, some, [], ◌∷◌, ◌==◌, eq_iff,
  if◌then◌else◌, arith, is_some, Bool-cases, Option-cases, inl, inr,
}
use magistrate.Prelude.Outcome.{ok, >>=-eq-ok, raise_if, raise_if-eq-ok, ok-injective}
use magistrate.Prelude.Tables.{
  Table, lookup, update, find_row, total, Distinct, total-update, lookup-find_row, find_row-holds,
}
use magistrate.Cancellation.Model.{
  invalid_target, invalid_idempotency, dispatch_unobserved, idempotency_conflict, already_terminal,
  request_conflict, Row, Store, is_uncertain, is_active, is_failed, other_active, terminal_phase,
}
use magistrate.Cancellation.Request.{
  Env, Next, by_key, record_request, replay, reopened, insert_request,
}
use magistrate.Cancellation.Replay.{insert_request-Recorded}

abbrev pub one_if : (owner objective : String) → Row → ℕ
one_if owner objective r = if is_active owner objective r then 1 else 0

-- How many requests of an owner for an objective are open.
unfoldable pub open_count : (owner objective : String) → Table Row → ℕ
open_count owner objective = total (one_if owner objective)

open_count-none :
    (owner objective : String) (rows : Table Row)
    → find_row (is_active owner objective) rows ≡ none
    → open_count owner objective rows ≡ 0
unfolding open_count total find_row
open_count-none owner objective [] h = refl
open_count-none owner objective ((j, r) ∷ rows) h =
    ground (arith, open_count-none owner objective rows)

open_count-absent :
    (id owner objective : String) (rows : Table Row)
    → other_active id owner objective rows ≡ false
    → lookup id rows ≡ none
    → open_count owner objective rows ≡ 0
unfolding open_count total other_active lookup
open_count-absent id owner objective [] h absent = refl
open_count-absent id owner objective ((j, r) ∷ rows) h absent =
    ground (arith, open_count-absent id owner objective rows)

open_count-other :
    (id owner objective : String) (rows : Table Row) {r : Row}
    → Distinct rows
    → other_active id owner objective rows ≡ false
    → lookup id rows ≡ some r
    → is_active owner objective r ≡ false
    → open_count owner objective rows ≡ 0
unfolding open_count total other_active lookup
open_count-other id owner objective [] d h found closed = refl
open_count-other id owner objective ((j, x) ∷ rows) {r} d h found closed = ground (
  arith,
  eq_iff j id,
  open_count-absent id owner objective rows,
  open_count-other id owner objective rows {r = r},
)

-- That no owner has two open requests for an objective.
abbrev pub IsUnique : Table Row → Type 0
IsUnique rows = (owner objective : String) → open_count owner objective rows ≤ 1

reopened-IsUnique :
    (id : String) (now : ℕ) (rows : Table Row) {r : Row}
    → Distinct rows
    → IsUnique rows
    → lookup id rows ≡ some r
    → is_failed r.status ≡ true
    → other_active id r.owner_user_id r.objective_id rows ≡ false
    → IsUnique (update id (reopened now) rows)
unfolding open_count
reopened-IsUnique id now rows {r} d unique found failed alone o b =
    let change = total-update (one_if o b) (reopened now) id rows found in
    elim (Bool-cases (r.owner_user_id == o && r.objective_id == b)) [
      | inl it ↦
          let same_owner : r.owner_user_id ≡ o = ground (arith, eq_iff r.owner_user_id o) in
          let same_objective : r.objective_id ≡ b = ground (arith, eq_iff r.objective_id b) in
          let alone' : other_active id o b rows ≡ false =
            subst (λ o. other_active id o b rows ≡ false) same_owner
              (subst (λ b. other_active id r.owner_user_id b rows ≡ false) same_objective alone) in
          let zero = open_count-other id o b rows {r = r} d alone' found (ground arith) in
          ground (arith, change, zero)
      | inr other ↦ ground (arith, change, unique o b)
    ]

replay-IsUnique :
    (owner objective key : String) (now : ℕ) (id : String) (r : Row) (store : Store)
    {s : Next × Store}
    → Distinct store.requests
    → IsUnique store.requests
    → find_row (by_key owner key) store.requests ≡ some (id, r)
    → replay owner objective now (id, r) store ≡ ok s
    → IsUnique s.1.requests
unfolding replay
replay-IsUnique owner objective key now id r store {s} d unique found e =
    let (_, same, e1) =
      >>=-eq-ok (raise_if (not (r.objective_id == objective)) idempotency_conflict) _ e in
    let (_, _, e2) =
      >>=-eq-ok
        (raise_if (is_failed r.status && is_some (terminal_phase owner objective store))
          already_terminal)
        _ e1 in
    let (_, alone, e3) =
      >>=-eq-ok
        (raise_if (is_failed r.status && other_active id owner objective store.requests)
          request_conflict)
        _ e2 in
    let held = lookup-find_row (by_key owner key) store.requests d found in
    let mine = find_row-holds (by_key owner key) store.requests found in
    let its_owner : owner ≡ r.owner_user_id = ground (arith, eq_iff r.owner_user_id owner) in
    let its_objective : objective ≡ r.objective_id =
      ground (arith, eq_iff r.objective_id objective, raise_if-eq-ok _ _ same) in
    elim (Bool-cases (is_failed r.status)) [
      | inr other ↦
          subst (λ (s : Next × Store). IsUnique s.1.requests) (ok-injective (rw other at e3)) unique
      | inl failed ↦
          let alone' : other_active id owner objective store.requests ≡ false =
            ground (arith, raise_if-eq-ok _ _ alone) in
          let rows = reopened-IsUnique id now store.requests {r = r} d unique held failed (
            subst (λ b. other_active id r.owner_user_id b store.requests ≡ false) its_objective
              (subst (λ o. other_active id o objective store.requests ≡ false) its_owner alone')) in
          subst (λ (s : Next × Store). IsUnique s.1.requests) (ok-injective (rw failed at e3)) rows
    ]

insert_request-IsUnique :
    (env : Env) (owner session objective key : String) (now : ℕ) (store : Store) {s : Next × Store}
    → IsUnique store.requests
    → find_row (is_active owner objective) store.requests ≡ none
    → insert_request env owner session objective key now store ≡ ok s
    → IsUnique s.1.requests
unfolding open_count total
insert_request-IsUnique env owner session objective key now store {s} unique alone e =
    let (_, h) = insert_request-Recorded env owner session objective key now store e in
    subst (λ (s : Store). IsUnique s.requests) (sym h.written)
      (λ o b.
        ground (
          arith,
          unique o b,
          eq_iff owner o,
          eq_iff objective b,
          open_count-none o b store.requests,
        ))

-- Recording a request keeps it true that no owner has two open requests for an objective, if the ids
-- of the rows differ: also when a failed request is opened again.
pub record_request-IsUnique :
    (env : Env) (owner session objective key : String) (now : ℕ) (store : Store) {s : Next × Store}
    → Distinct store.requests
    → IsUnique store.requests
    → record_request env owner session objective key now store ≡ ok s
    → IsUnique s.1.requests
unfolding record_request
record_request-IsUnique env owner session objective key now store {s} d unique e =
    let (_, _, e1) = >>=-eq-ok (raise_if (not (env.safe_objective objective)) invalid_target) _ e in
    let (_, _, e2) = >>=-eq-ok (raise_if (not (env.safe_key key)) invalid_idempotency) _ e1 in
    let (_, _, e3) =
      >>=-eq-ok (raise_if (is_uncertain owner objective store) dispatch_unobserved) _ e2 in
    elim (Option-cases (find_row (by_key owner key) store.requests)) [
      | inr ((id, r), found) ↦
          replay-IsUnique owner objective key now id r store d unique found (rw found at e3)
      | inl new ↦ elim (Option-cases (find_row (is_active owner objective) store.requests)) [
        | inr (row, found) ↦
            subst (λ (s : Next × Store). IsUnique s.1.requests)
              (ok-injective (rw (new, found) at e3)) unique
        | inl alone ↦
            insert_request-IsUnique env owner session objective key now store unique alone
              (rw (new, alone) at e3)
      ]
    ]
