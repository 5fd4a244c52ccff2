-- ===== src/Personal/Tests.antt =====
-- gateway/app/firstmate_execution.py: a personal deployment whose month has room for two objectives.
use magistrate.Prelude.{
  String, ◌≡◌, ◌≢◌, refl, ap, true, false, Option, none, some, List, [], ◌∷◌, ◌==◌, if◌then◌else◌,
  arith,
}
use magistrate.Prelude.Chars.{value_of_digits, length, all_chars, is_name}
use magistrate.Prelude.Tables.{lookup, update, total}
use magistrate.Prelude.Outcome.{Outcome, err, ok}
use magistrate.Personal.Policy.{
  PolicyError, implementation_capacity_exceeded, personal_spend_limit_exceeded,
  personal_configuration_invalid, personal, Contract, Principal, is_contract, integer, settings,
  from_env, has, require_principal, checkout_allowed, is_usage, over_capacity,
  check_personal_admission,
}
use magistrate.Personal.Rows.{Tables, Store, Env, Measured}
use magistrate.Personal.Ledger.{
  Clock, Call, gather, exists, listed, execution_repository, usage, admit, reserve,
}
use magistrate.Prelude.Order.{insert_by, sort_by, limit, size}
use magistrate.Personal.Settle.{
  same_measured, find_event, row_of, evidence_of, settle_row, settle, release_unpublished, pending,
  settle_all, recover_settlements,
}
use magistrate.Personal.Run.{
  Operation, reserving, settling, releasing, elsewhere, perform, perform_all,
}
use magistrate.Personal.Within.{Within, perform_all-Within}
use magistrate.Personal.Errors.{is_internal, reserve-expected}
use magistrate.Personal.Replay.{settle-once}

program : Unit {0}
unfolding length all_chars is_name lookup update total is_contract value_of_digits integer settings
    from_env has require_principal checkout_allowed is_usage over_capacity check_personal_admission
    gather exists listed execution_repository usage admit reserve same_measured find_event row_of
    evidence_of settle_row settle release_unpublished pending insert_by sort_by limit settle_all
    size recover_settlements perform perform_all
program = tt

abbrev environment : String → Option String
environment name =
    if name == "MAGISTRATE_DEPLOYMENT_MODE"
    then some "personal"
    else if name == "MAGISTRATE_PERSONAL_OWNER_PRINCIPAL_ID"
    then some "ada"
    else if name == "MAGISTRATE_PERSONAL_MAX_IMPLEMENTATION_WORKERS"
    then some "2"
    else if name == "MAGISTRATE_PERSONAL_OBJECTIVE_SPEND_LIMIT_MICRO_USD"
    then some "100"
    else if name == "MAGISTRATE_PERSONAL_MONTHLY_SPEND_LIMIT_MICRO_USD"
    then some "250"
    else none

abbrev policy : Contract
policy = record {
  mode = personal;
  owner_principal_id = some "ada";
  max_implementation_workers = 2;
  objective_spend_limit_micro_usd = some 100;
  monthly_spend_limit_micro_usd = some 250;
}

loads : from_env environment ≡ ok policy
unfolding program
loads = refl

-- A limit that is not a number.
rejects :
    from_env (λ name.
      if name == "MAGISTRATE_PERSONAL_MONTHLY_SPEND_LIMIT_MICRO_USD"
      then some "25e3"
      else environment name)
    ≡ err personal_configuration_invalid
unfolding program
rejects = refl

abbrev env : Env
env = record { period = λ now. "2026-11"; encode = λ measured. measured.model; lower = λ s. s }

abbrev ada : Principal
ada = record {
  user_id = "ada";
  scopes = "account" ∷ "command" ∷ [];
  session_id = "s";
  expires_at = 1000;
}

no_checkout : checkout_allowed policy 10 ada ≡ ok false
unfolding program
no_checkout = refl

abbrev clock : Clock
clock = record { gate = 10; now = 11; check = 12 }

abbrev call : String → Call
call objective = record {
  principal = ada;
  objective_id = objective;
  contract_sha256 = "c";
  project_id = some "p";
  implementation_workers = 1;
}

abbrev measured : Measured
measured = record {
  provider = "x";
  model = "m";
  input_tokens = 3;
  output_tokens = 4;
  compute_milliseconds = 5;
  cost_micro_usd = some 60;
}

abbrev others : Tables
others = record {
  project_repositories =
      record {
        repository_id = "r";
        owner_user_id = "ada";
        project_id = "p";
        provider = "github";
        full_name = "a/b";
      }
      ∷ [];
  app_repositories =
      record { installation_id = 7; repository_id = 8; full_name = "a/b"; active = true } ∷ [];
  installations = record { installation_id = 7; user_id = some "ada"; status = "active" } ∷ [];
  credits = [];
  executions = [];
  events =
      record {
        owner_user_id = "ada";
        objective_id = "o1";
        event_id = "e1";
        phase = "objective.completed";
        usage = some measured;
        created_at = 20;
      }
      ∷ [];
  submissions =
      record { objective_id = "o1"; status = "accepted" }
      ∷ record { objective_id = "o2"; status = "submitting" }
      ∷ record { objective_id = "o3"; status = "submitting" }
      ∷ [];
}

abbrev store : Store
store = record { reservations = []; others = others }

-- Two holds, of which the first is settled at 60 and the second released, and then a third.
abbrev operations : List Operation
operations =
    reserving clock (call "o1")
    ∷ reserving clock (call "o2")
    ∷ settling 30 "ada" "o1" "e1" measured
    ∷ releasing 31 "ada" "o2"
    ∷ elsewhere others
    ∷ reserving clock (call "o3")
    ∷ []

perform_all-Within_example :
    Within policy "ada" "2026-11" 100 250 (perform_all env policy operations store).reservations
unfolding program
perform_all-Within_example =
    perform_all-Within env policy "ada" "2026-11" 100 250 operations store refl refl
      (refl, (refl, (omega arith, (tt, (tt, (refl, tt))))))
      (record {
        spending = omega arith;
        workers = omega arith;
        objectives = omega arith;
        holds = λ k r there held. absurd (cc);
      })

abbrev value : Outcome PolicyError Store → Store
value (err raised) = store
value (ok after) = after

abbrev held : Store
held = value (reserve env policy clock (call "o1") store)

abbrev settled : Store
settled = value (settle env 30 "ada" "o1" "e1" measured held)

-- With a monthly limit of one hold there is no room for a second.
full :
    reserve env (record policy { monthly_spend_limit_micro_usd = some 199 }) clock (call "o2") held
    ≡ err personal_spend_limit_exceeded
unfolding program
full = refl

recovers : recover_settlements env (λ objective. 30) held ≡ (ok 1, settled)
unfolding program
recovers = refl

releases : (release_unpublished 30 "ada" "o1" held).0 ≡ false
unfolding program
releases = refl

other_event : ◌≢◌ {A = String} "e2" "e1"
other_event e = let h : false ≡ true = ap (λ (s : String). s == "e1") e in cc

settle-once_example :
    (settle env 40 "ada" "o1" "e1" measured settled ≡ ok settled)
    × ((raised : PolicyError) × (settle env 40 "ada" "o1" "e2" measured settled ≡ err raised))
unfolding program
settle-once_example =
    settle-once env 30 40 "ada" "o1" "e1" "e2" measured measured held {after = settled} refl
      other_event

-- Both places are taken.
reserve-expected_example : is_internal implementation_capacity_exceeded ≡ false
unfolding program
reserve-expected_example =
    reserve-expected environment env clock (call "o3")
      (value (reserve env policy clock (call "o2") held)) {policy = policy}
      {raised = implementation_capacity_exceeded} refl refl refl
