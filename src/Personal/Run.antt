-- ===== src/Personal/Run.antt =====
-- gateway/app/firstmate_execution.py: sequences of operations of `PersonalResourceLedger`.
use magistrate.Prelude.{ℕ, String, List, [], ◌∷◌}
use magistrate.Prelude.Outcome.{Outcome, err, ok}
use magistrate.Personal.Policy.{PolicyError, Contract}
use magistrate.Personal.Rows.{Store, Tables, Env, Measured}
use magistrate.Personal.Ledger.{Clock, Call, reserve}
use magistrate.Personal.Settle.{settle, release_unpublished}

-- What happens to the ledger; in between, other components write their tables.
pub data Operation : Type 0 where
  reserving : Clock → Call → Operation
  settling : (now : ℕ) (owner objective event_id : String) → Measured → Operation
  releasing : (now : ℕ) (owner objective : String) → Operation
  elsewhere : Tables → Operation

abbrev pub kept : Store → Outcome PolicyError Store → Store
kept before (err raised) = before
kept before (ok after) = after

-- An operation that raises is rolled back.
unfoldable pub perform : Env → Contract → Operation → Store → Store
perform env policy (reserving clock call) store = kept store (reserve env policy clock call store)
perform env policy (settling now owner objective event_id usage) store =
    kept store (settle env now owner objective event_id usage store)
perform env policy (releasing now owner objective) store =
    (release_unpublished now owner objective store).1
perform env policy (elsewhere t) store = record store { others = t }

unfoldable pub perform_all : Env → Contract → List Operation → Store → Store
perform_all env policy [] store = store
perform_all env policy (op ∷ ops) store = perform_all env policy ops (perform env policy op store)
