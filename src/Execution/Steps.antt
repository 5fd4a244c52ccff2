-- ===== src/Execution/Steps.antt =====
-- gateway/app/firstmate_execution.py and gateway/app/account_lifecycle.py: sequences of operations of
-- `FirstmateExecutionStore`, between which accounts are deleted and other components write their own tables.
use magistrate.Prelude.{ℕ, String, ◌≢◌, Bool, List, [], ◌∷◌, ◌==◌, if◌then◌else◌}
use magistrate.Prelude.Outcome.{Outcome, err, ok}
use magistrate.Execution.Rows.{ExecutionError, Incoming, EventRow, ObjectiveRow, Store, Public}
use magistrate.Execution.Ingest.{Env, Clock, ingest}
use magistrate.Execution.Generation.{
  Claim, Finish, claim_completion, finish_completion, recover_interrupted,
}

-- DELETE FROM ... WHERE
unfoldable pub without {ℓ} : {A : Type ℓ} → (A → Bool) → List A → List A
without p [] = []
without p (x ∷ xs) = let rest = without p xs in if p x then rest else x ∷ rest

-- `delete_account`, of which this is the part on the two tables of the store.
unfoldable pub erase : (owner : String) → Store → Store
erase owner s = record s {
  events = without (λ (e : EventRow). e.owner_user_id == owner) s.events;
  objectives = without (λ (x : ObjectiveRow). x.owner_user_id == owner) s.objectives;
}

pub data Operation : Type 0 where
  ingesting : Clock → (owner : String) → Incoming → Operation
  claiming : (now : ℕ) (owner event_id : String) (retry_failed : Bool) → Operation
  finishing : (now : ℕ) (owner event_id : String) → Finish → Operation
  recovering : (now : ℕ) → Operation
  erasing : (owner : String) → Operation
  elsewhere : (others : Store) → Operation

abbrev pub kept_after {ℓ} : {A : Type ℓ} → (A → Store) → Store → Outcome ExecutionError A → Store
kept_after end before (err raised) = before
kept_after end before (ok done) = end done

-- An operation that raises is rolled back.
unfoldable pub perform : Env → Operation → Store → Store
perform env (ingesting clock owner event) s =
    kept_after (λ (r : Public × Store). r.1) s (ingest env clock owner event s)
perform env (claiming now owner event_id retry_failed) s =
    kept_after (λ (r : Claim × Store). r.1) s (claim_completion now owner event_id retry_failed s)
perform env (finishing now owner event_id f) s =
    kept_after (λ (t : Store). t) s (finish_completion now owner event_id f s)
perform env (recovering now) s = (recover_interrupted now s).1
perform env (erasing owner) s = erase owner s
perform env (elsewhere others) s = record others { events = s.events; objectives = s.objectives }

unfoldable pub perform_all : Env → List Operation → Store → Store
perform_all env [] s = s
perform_all env (op ∷ ops) s = perform_all env ops (perform env op s)

-- No operation deletes the account of the owner.
abbrev pub IsKept : (owner : String) → Operation → Type 0
IsKept owner (erasing other) = other ≢ owner
IsKept owner _ = Unit

abbrev pub AllKept : (owner : String) → List Operation → Type 0
AllKept owner [] = Unit
AllKept owner (op ∷ ops) = IsKept owner op × AllKept owner ops
