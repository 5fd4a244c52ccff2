-- ===== src/Execution/Life.antt =====
-- gateway/app/firstmate_execution.py: the life cycle of the report of a completion, and what never changes of
-- an event.
use mathlib.Core.Path.{subst}
use magistrate.Prelude.{
  ℕ, ◌+◌, String, ◌≡◌, refl, ap, ◌∙◌, Bool, true, false, ◌&&◌, ◌||◌, not, Option, none, some, List,
  if◌then◌else◌, Bool-cases, inl, inr, ◌⊎◌,
}
use magistrate.Objective.Persist.{first}
use magistrate.Execution.Rows.{EventRow, Generation, is_event, update_where}
use magistrate.Execution.Generation.{
  Finish, completed_with, failed_with, message_of, is_success, is_named, is_queued, is_generating,
  has_failed,
}
use magistrate.Execution.Keys.{first-update_where, key_unique}

-- Where the report of a completion stands, after how many attempts.
pub data Report : Type 0 where
  not_due : Report
  waiting writing gave_up : (attempts : ℕ) → Report
  reported : (attempts : ℕ) (message : Option String) → Report

abbrev pub report_at : Option Generation → (attempts : ℕ) → (message : Option String) → Report
report_at none n message = not_due
report_at (some Generation.queued) n message = waiting n
report_at (some Generation.generating) n message = writing n
report_at (some Generation.failed) n message = gave_up n
report_at (some Generation.completed) n message = reported n message

abbrev pub report_of : EventRow → Report
report_of e = report_at e.generation_state e.generation_attempt_count e.assistant_message_id

infix 40 ◌⟶◌ ◌⟶*◌
pub data ◌⟶◌ : Report → Report → Type 0 where
  claim : {n : ℕ} → waiting n ⟶ writing (n + 1)
  retry : {n : ℕ} → gave_up n ⟶ writing (n + 1)
  succeed : {n : ℕ} {m : String} → writing n ⟶ reported n (some m)
  give_up : {n : ℕ} → writing n ⟶ gave_up n
  requeue : {n : ℕ} → writing n ⟶ waiting n

pub data ◌⟶*◌ : Report → Report → Type 0 where
  here : {r : Report} → r ⟶* r
  then_by : {r s t : Report} → r ⟶ s → s ⟶* t → r ⟶* t

-- What never changes of an event: all but the columns of its report.
abbrev pub immutable : EventRow → EventRow
immutable e = record e {
  generation_state = none;
  generation_attempt_count = 0;
  assistant_message_id = none;
  error_code = none;
  updated_at = 0;
}

-- One operation: the event is the same but for its report, which stays or moves.
pub record Moves (p : EventRow → Bool) (e : EventRow) (after : List EventRow) : Type 0 where
  pub row : EventRow
  pub found : first p after ≡ some row
  pub same : immutable row ≡ immutable e
  pub move : (report_of row ≡ report_of e) ⊎ (report_of e ⟶ report_of row)

pub stays :
    (p : EventRow → Bool) (e : EventRow) (after : List EventRow)
    → first p after ≡ some e
    → Moves p e after
stays p e after found = record { row = e; found = found; same = refl; move = inl refl }

-- An update of one event.
pub moved :
    (o i owner event_id : String) (f : EventRow → EventRow) (xs : List EventRow) {d e : EventRow}
    → first (is_event o i) xs ≡ some d
    → first (is_event owner event_id) xs ≡ some e
    → ((y : EventRow) → immutable (f y) ≡ immutable y)
    → report_of d ⟶ report_of (f d)
    → Moves (is_event owner event_id) e (update_where (is_event o i) f xs)
moved o i owner event_id f xs {d} {e} there found keeps step =
    let updated =
      first-update_where (is_event owner event_id) (is_event o i) f xs
        (λ y. ap (λ (r : EventRow). is_event owner event_id r) (keeps y)) found in
    elim (Bool-cases (is_event o i e)) [
      | inl mine ↦
          let same =
            key_unique (λ (e : EventRow). e.owner_user_id) (λ (e : EventRow). e.event_id) o i owner
              event_id xs there found mine in
          record {
            row = f e;
            found = updated ∙ rw mine refl;
            same = keeps e;
            move = inr (subst (λ (r : EventRow). report_of r ⟶ report_of (f r)) same step);
          }
      | inr other ↦ stays (is_event owner event_id) e _ (updated ∙ rw other refl)
    ]

pub claimed-⟶ :
    (g : Option Generation) (n : ℕ) (message : Option String) (retry_failed : Bool)
    → (is_queued g || has_failed g && retry_failed) ≡ true
    → report_at g n message ⟶ writing (n + 1)
claimed-⟶ none n message retry_failed h = absurd (cc)
claimed-⟶ (some Generation.queued) n message retry_failed h = claim
claimed-⟶ (some Generation.generating) n message retry_failed h = absurd (cc)
claimed-⟶ (some Generation.completed) n message retry_failed h = absurd (cc)
claimed-⟶ (some Generation.failed) n message retry_failed h = retry

pub written-⟶ :
    (g : Option Generation) (n : ℕ) (message : Option String) (f : Finish)
    → is_generating g ≡ true
    → (is_success f && not (is_named (message_of f))) ≡ false
    → report_at g n message
      ⟶ report_at
          (some (if is_success f then Generation.completed else Generation.failed))
          n
          (message_of f)
written-⟶ none n message f h named = absurd (cc)
written-⟶ (some Generation.queued) n message f h named = absurd (cc)
written-⟶ (some Generation.completed) n message f h named = absurd (cc)
written-⟶ (some Generation.failed) n message f h named = absurd (cc)
written-⟶ (some Generation.generating) n message (completed_with none) h named = absurd (cc)
written-⟶ (some Generation.generating) n message (completed_with (some m)) h named = succeed
written-⟶ (some Generation.generating) n message (failed_with m) h named = give_up

pub requeued-⟶ :
    (g : Option Generation) (n : ℕ) (message : Option String)
    → is_generating g ≡ true
    → report_at g n message ⟶ waiting n
requeued-⟶ none n message h = absurd (cc)
requeued-⟶ (some Generation.queued) n message h = absurd (cc)
requeued-⟶ (some Generation.completed) n message h = absurd (cc)
requeued-⟶ (some Generation.failed) n message h = absurd (cc)
requeued-⟶ (some Generation.generating) n message h = requeue
