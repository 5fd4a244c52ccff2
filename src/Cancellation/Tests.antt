-- ===== src/Cancellation/Tests.antt =====
-- gateway/app/objective_cancellation.py: a request, its repetition, and the opening of a failed one.
use Prim.Native.String.{◌++◌ as concat}
use magistrate.Prelude.{some, ◌≡◌, refl, Bool, true, false, none, [], ◌∷◌, arith}
use magistrate.Prelude.Outcome.{err, ok}
use magistrate.Prelude.Tables.{lookup, update, find_row, total}
use magistrate.Cancellation.Model.{
  Row, Store, Result, public, find_execution, joined_execution, find_submission, has_hold,
  is_uncertain, terminal_phase, other_active,
}
use magistrate.Cancellation.Notify.{Delivery, finish, notify}
use magistrate.Cancellation.Request.{
  Env, Next, deliver, answer, replay, by_key, new_row, target_of, insert_request, record_request,
  carry_out, request,
}
use magistrate.Cancellation.Recover.{
  is_due, due, insert_selected, ordered, limit, tally_delivery, recover_one, recover_all, size,
  recover_pending,
}
use magistrate.Cancellation.Replay.{Recorded, record_request-again}
use magistrate.Cancellation.Unique.{IsUnique, open_count, record_request-IsUnique}

program : Unit {0}
unfolding lookup update find_row total public find_execution joined_execution find_submission
    has_hold is_uncertain terminal_phase other_active finish notify replay target_of insert_request
    record_request carry_out request is_due due insert_selected ordered limit tally_delivery
    recover_one recover_all size recover_pending open_count
program = tt

abbrev env : Env
env = record {
  safe_objective = λ s. true;
  safe_key = λ s. true;
  request_id = λ owner key. concat owner (concat "/" key);
}

abbrev store : Store
store = record {
  requests = [];
  submissions = record { owner_user_id = "ada"; objective_id = "o"; task_id = "t" } ∷ [];
  executions = [];
  holds = [];
}

abbrev delivery : Bool → Delivery
delivery taken = record {
  started_at = 20;
  finished_at = 21;
  taken = λ r. taken;
  meanwhile = λ s. s;
}

abbrev value : Result (Next × Store) → Next × Store
value (err e) = (deliver "" false, store)
value (ok a) = a

abbrev recorded : Next × Store
recorded = value (record_request env "ada" "s" "o" "k" 10 store)

abbrev failed_once : Store
failed_once = (request env (delivery false) "ada" "s" "o" "k" 10 store).1

-- A request whose delivery failed is delivered by the recovery.
recover_pending_test :
    (recover_pending (λ id. delivery true) 30 100 none failed_once).0
    ≡ ok (record { examined = 1; recovered = 1; failed = 0; terminal = 0 })
unfolding program
recover_pending_test = refl

-- The row after the supervisor was told.
abbrev told_store : Store
told_store = (request env (delivery true) "ada" "s" "o" "k" 10 store).1

abbrev told_row : Row
told_row = elim (lookup "ada/k" told_store.requests) [
  | none ↦ new_row "ada" "o" "t" "s" "k" 10
  | some r ↦ r
]

record_request-again_example :
    (is_uncertain "ada" "o" store ≡ false)
    × ((made : Recorded env "ada" "s" "o" "k" 10 store recorded.1) × (find_row
            (by_key "ada" "k")
            recorded.1.requests
          ≡ some (env.request_id "ada" "k", new_row "ada" "o" made.task "s" "k" 10)))
    × (record_request env "ada" "s" "o" "k" 15 told_store
        ≡ ok (answer (public (env.request_id "ada" "k") told_row true), told_store))
unfolding program
record_request-again_example =
    record_request-again env "ada" "s" "o" "k" 10 15 store told_store told_row {s = recorded} refl
      refl refl refl refl refl refl refl

none_open : IsUnique store.requests
unfolding open_count total
none_open owner objective = omega arith

record_request-IsUnique_example : IsUnique recorded.1.requests
unfolding program
record_request-IsUnique_example =
    record_request-IsUnique env "ada" "s" "o" "k" 10 store {s = recorded} tt none_open refl
