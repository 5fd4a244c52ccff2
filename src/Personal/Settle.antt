-- ===== src/Personal/Settle.antt =====
-- gateway/app/firstmate_execution.py: `PersonalResourceLedger`, the end of a hold: its settlement, its
-- release before publication, and the settlements that a restart catches up on.
use magistrate.Prelude.{
  ℕ, String, Bool, true, false, ◌&&◌, ◌||◌, not, Option, none, some, List, [], ◌∷◌, ◌==◌,
  if◌then◌else◌, leb, nat_eq,
}
use magistrate.Prelude.Order.{sort_by, limit, size}
use magistrate.Prelude.Tables.{Table, lookup, update}
use magistrate.Prelude.Outcome.{Outcome, err, ok, ◌>>=◌, or_raise}
use magistrate.Objective.State.{max_contract_integer}
use magistrate.Personal.Policy.{
  PolicyError, personal_measured_usage_required, personal_terminal_evidence_required,
  personal_settlement_conflict, key_missing, is_text,
}
use magistrate.Personal.Rows.{Row, Store, Env, Measured, Status, Event, Execution, Submission}
use magistrate.Personal.Ledger.{gather, exists, is_reserved, is_settled}

abbrev pub same_option {ℓ} : {A : Type ℓ} → (A → A → Bool) → Option A → Option A → Bool
same_option same none none = true
same_option same (some a) (some b) = same a b
same_option same _ _ = false

-- Equality of two dictionaries of usage.
unfoldable pub same_measured : Measured → Measured → Bool
same_measured a b =
    a.provider == b.provider
    && a.model == b.model
    && nat_eq a.input_tokens b.input_tokens
    && nat_eq a.output_tokens b.output_tokens
    && nat_eq a.compute_milliseconds b.compute_milliseconds
    && same_option nat_eq a.cost_micro_usd b.cost_micro_usd

abbrev pub is_terminal_phase : String → Bool
is_terminal_phase phase =
    phase == "objective.completed" || phase == "objective.failed" || phase == "objective.cancelled"

abbrev pub is_event : (owner objective event_id : String) → Event → Bool
is_event owner objective event_id e =
    e.owner_user_id == owner && e.objective_id == objective && e.event_id == event_id

unfoldable pub find_event : (Event → Bool) → List Event → Option Event
find_event p [] = none
find_event p (e ∷ events) = if p e then some e else find_event p events

-- Whether the event is terminal and measured this usage.
abbrev pub is_evidence : Measured → Event → Bool
is_evidence usage e =
    is_terminal_phase e.phase
    && (elim e.usage [ none ↦ false | some measured ↦ same_measured measured usage ])

-- SELECT ... WHERE owner_user_id=? AND objective_id=?
unfoldable pub row_of : (owner objective : String) → Table Row → Option Row
row_of owner objective rows = elim (lookup objective rows) [
  | none ↦ none
  | some r ↦ if r.owner_user_id == owner then some r else none
]

unfoldable pub evidence_of : (owner objective event_id : String) → Measured → Store → Option Row
evidence_of owner objective event_id usage store =
    elim (find_event (is_event owner objective event_id) store.others.events) [
      | none ↦ none
      | some e ↦ if is_evidence usage e then row_of owner objective store.reservations else none
    ]

abbrev pub is_replay : Env → (event_id : String) → Measured → Row → Bool
is_replay env event_id usage r =
    is_settled r.status
    && is_text event_id r.settlement_event_id
    && is_text (env.encode usage) r.usage_json

abbrev pub settled_row : Env → (now : ℕ) → (event_id : String) → Measured → (actual : ℕ) → Row → Row
settled_row env now event_id usage actual r = record r {
  status = Status.settled;
  actual_micro_usd = some actual;
  usage_json = some (env.encode usage);
  settlement_event_id = some event_id;
  period_key = env.period now;
  updated_at = now;
}

-- The measured cost, from 0 to the largest safe integer.
abbrev pub cost_of : Measured → Outcome PolicyError ℕ
cost_of usage = elim usage.cost_micro_usd [
  | none ↦ err personal_measured_usage_required
  | some n ↦ if leb n max_contract_integer then ok n else err personal_measured_usage_required
]

unfoldable pub settle_row :
    Env
    → (now : ℕ) → (objective event_id : String) → Measured
    → (actual : ℕ) → Row
    → Table Row
    → Outcome PolicyError (Table Row)
settle_row env now objective event_id usage actual r rows =
    if is_replay env event_id usage r
    then ok rows
    else if not (is_reserved r.status)
    then err personal_settlement_conflict
    else ok (update objective (settled_row env now event_id usage actual) rows)

unfoldable pub settle :
    Env
    → (now : ℕ) → (owner objective event_id : String) → Measured
    → Store
    → Outcome PolicyError Store
settle env now owner objective event_id usage store = do
  actual ← cost_of usage
  r ←
      or_raise (evidence_of owner objective event_id usage store)
        personal_terminal_evidence_required
  rows ← settle_row env now objective event_id usage actual r store.reservations
  ok (record store { reservations = rows })

abbrev pub is_unpublished : (objective : String) → Store → Bool
is_unpublished objective store =
    not (exists (λ (x : Execution). x.objective_id == objective) store.others.executions)
    && exists (λ (s : Submission). s.objective_id == objective && not (s.status == "accepted"))
        store.others.submissions

-- Whether a hold was released, and the rows.
unfoldable pub release_unpublished : (now : ℕ) → (owner objective : String) → Store → Bool × Store
release_unpublished now owner objective store = elim (row_of owner objective store.reservations) [
  | none ↦ (false, store)
  | some r ↦
      if is_reserved r.status && is_unpublished objective store
      then (
        true,
        record store {
          reservations =
              update objective
                (λ (r : Row). record r { status = Status.released; updated_at = now })
                store.reservations;
        },
      )
      else (false, store)
]

-- A hold with a terminal event.
pub record Pending : Type 0 where
  pub owner : String
  pub objective : String
  pub event : Event

unfoldable pub pending : List Event → Table Row → List Pending
pending events rows =
    gather
      (λ (row : String × Row).
        gather
          (λ (e : Event).
            if e.owner_user_id == row.1.owner_user_id
              && e.objective_id == row.0
              && is_reserved row.1.status
              && is_terminal_phase e.phase
            then record { owner = row.1.owner_user_id; objective = row.0; event = e } ∷ []
            else [])
          events)
      rows

-- Each settlement is a transaction of its own, at a time of its own; an error ends the loop.
unfoldable pub settle_all :
    Env → (String → ℕ) → List Pending → Store → Outcome PolicyError (Unit {0}) × Store
settle_all env clock [] store = (ok tt, store)
settle_all env clock (p ∷ ps) store =
    elim (do
      usage ← or_raise p.event.usage key_missing
      settle env (clock p.objective) p.owner p.objective p.event.event_id usage store) [
        | err raised ↦ (err raised, store)
        | ok after ↦ settle_all env clock ps after
      ]

-- The number of holds that were found, unless a settlement fails.
unfoldable pub recover_settlements : Env → (String → ℕ) → Store → Outcome PolicyError ℕ × Store
recover_settlements env clock store =
    let rows = limit 100 (
      sort_by (λ (p : Pending). p.event.created_at)
        (pending store.others.events store.reservations)) in
    let (done, after) = settle_all env clock rows store in (done >>= λ _. ok (size rows), after)
