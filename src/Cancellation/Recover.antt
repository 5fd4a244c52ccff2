-- ===== src/Cancellation/Recover.antt =====
-- gateway/app/objective_cancellation.py: `recover_pending`, the replay of undelivered requests at start.
use Prim.Native.Nat.{Ordering}
use Prim.Native.String.{compare}
use magistrate.Prelude.{
  ℕ, zero, suc, ◌+◌, String, Bool, true, false, ◌&&◌, ◌||◌, Option, none, some, List, [], ◌∷◌, ◌==◌,
  if◌then◌else◌, ltb, nat_eq,
}
use magistrate.Prelude.Outcome.{err, ok}
use magistrate.Prelude.Tables.{Table, lookup, update}
use magistrate.Cancellation.Model.{
  integrity_error, type_error, value_error, Status, Notification, Row, Store, Result, Public,
  is_failed, is_uncertain, terminal_phase, with_requests, other_active,
}
use magistrate.Cancellation.Notify.{Delivery, notify}

abbrev pub max_attempts : ℕ
max_attempts = 8

-- A row as it was selected, with the end of its execution.
pub record Selected : Type 0 where
  pub id : String
  pub row : Row
  pub ended : Option String

abbrev pub is_pending : Notification → Bool
is_pending Notification.delivered = false
is_pending _ = true

unfoldable pub is_due : (cutoff : ℕ) → Row → Bool
is_due cutoff r =
    is_pending r.notification_status
    && ltb r.notification_attempt_count max_attempts
    && ltb r.updated_at cutoff

unfoldable pub due : (cutoff : ℕ) → Store → Table Row → List Selected
due cutoff store [] = []
due cutoff store ((id, r) ∷ rows) =
    let rest = due cutoff store rows in
    if is_due cutoff r
    then record { id = id; row = r; ended = terminal_phase r.owner_user_id r.objective_id store }
      ∷ rest
    else rest

abbrev pub text_before : String → String → Bool
text_before s t = elim (compare s t) [ Ordering.lt ↦ true | _ ↦ false ]

abbrev pub earlier : Selected → Selected → Bool
earlier a b =
    ltb a.row.created_at b.row.created_at
    || nat_eq a.row.created_at b.row.created_at && text_before a.id b.id

unfoldable pub insert_selected : Selected → List Selected → List Selected
insert_selected x [] = x ∷ []
insert_selected x (y ∷ ys) = if earlier y x then y ∷ insert_selected x ys else x ∷ y ∷ ys

unfoldable pub ordered : List Selected → List Selected
ordered [] = []
ordered (x ∷ xs) = insert_selected x (ordered xs)

unfoldable pub limit : ℕ → List Selected → List Selected
limit zero xs = []
limit (suc n) [] = []
limit (suc n) (x ∷ xs) = x ∷ limit n xs

pub record Counts : Type 0 where
  pub examined : ℕ
  pub recovered : ℕ
  pub failed : ℕ
  pub terminal : ℕ

-- The execution has ended: the request is closed.
abbrev pub closed : (phase : String) → (now : ℕ) → Row → Row
closed phase now r =
    let observed = phase == "objective.cancelled" in
    record r {
      status = if observed then Status.observed else Status.failed;
      error_code = if observed then none else some "objective_terminal";
      notification_status = Notification.delivered;
      updated_at = now;
    }

abbrev pub asked_again : Row → Row
asked_again r =
    if is_failed r.status then record r { status = Status.requested; error_code = none } else r

-- Whether a row that has failed can be asked for again without breaking the unique index.
abbrev pub blocked : (id : String) → Store → Bool
blocked id store = elim (lookup id store.requests) [
  | none ↦ false
  | some r ↦ is_failed r.status && other_active id r.owner_user_id r.objective_id store.requests
]

abbrev pub one_failed : Counts → Counts
one_failed c = record c { failed = c.failed + 1 }

-- An `ObjectiveCancellationError` of a delivery is counted; anything else ends the recovery.
unfoldable pub tally_delivery : Result Public → Counts → Result Counts
tally_delivery (ok r) c = ok (record c { recovered = c.recovered + 1 })
tally_delivery (err integrity_error) c = err integrity_error
tally_delivery (err type_error) c = err type_error
tally_delivery (err value_error) c = err value_error
tally_delivery (err _) c = ok (one_failed c)

-- One selected row.
unfoldable pub recover_one : Delivery → Selected → Counts → Store → Result Counts × Store
recover_one d s c store =
    if is_uncertain s.row.owner_user_id s.row.objective_id store
    then (ok (one_failed c), store)
    else elim s.ended [
      | some phase ↦ (
        ok (record c { terminal = c.terminal + 1 }),
        with_requests (update s.id (closed phase d.started_at) store.requests) store,
      )
      | none ↦
          if blocked s.id store
          then (err integrity_error, store)
          else let again = with_requests (update s.id asked_again store.requests) store in
            elim (lookup s.id again.requests) [
              | none ↦ (err type_error, again)
              | some r ↦
                  let (result, after) = notify d s.id true again in (tally_delivery result c, after)
            ]
    ]

-- The rows in turn; the deliveries are given by the ids of the rows.
unfoldable pub recover_all :
    (String → Delivery) → List Selected → Counts → Store → Result Counts × Store
recover_all d [] c store = (ok c, store)
recover_all d (s ∷ rest) c store =
    let (result, after) = recover_one (d s.id) s c store in
    let others = λ (c : Counts). recover_all d rest c after in
    elim result [ err e ↦ (err e, after) | ok c' ↦ others c' ]

unfoldable pub size : List Selected → ℕ
size [] = 0
size (x ∷ xs) = 1 + size xs

-- `recover_pending`: `now` is the clock's reading in milliseconds.
unfoldable pub recover_pending :
    (String → Delivery)
    → (now maximum : ℕ) → (updated_before : Option ℕ) → Store
    → Result Counts × Store
recover_pending d now maximum updated_before store =
    let cutoff : ℕ = elim updated_before [ none ↦ now + 1 | some time ↦ time ] in
    let rows = limit maximum (ordered (due cutoff store store.requests)) in
    let counts : Counts = record {
      examined = size rows;
      recovered = 0;
      failed = 0;
      terminal = 0;
    } in
    if ltb maximum 1 || ltb 500 maximum
    then (err value_error, store)
    else recover_all d rows counts store
