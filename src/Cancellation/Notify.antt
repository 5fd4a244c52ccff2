-- ===== src/Cancellation/Notify.antt =====
-- gateway/app/objective_cancellation.py: `_notify`. Each statement that writes is its own transaction, and
-- while the supervisor is told, other tasks may write: what they do is a parameter.
use magistrate.Prelude.{ℕ, ◌+◌, String, Bool, true, false, none, some, if◌then◌else◌}
use magistrate.Prelude.Outcome.{err, ok}
use magistrate.Prelude.Tables.{lookup, update}
use magistrate.Cancellation.Model.{
  store_unavailable, intake_unavailable, type_error, Notification, Row, Store, Result, Public,
  public, is_requested, with_requests,
}

-- What happens around a delivery: the times of its writes, whether the supervisor's inbox (or the
-- controller of hosted runs) takes the note, and what other tasks write in the meantime.
pub record Delivery : Type 0 where
  pub started_at : ℕ
  pub finished_at : ℕ
  pub taken : Row → Bool
  pub meanwhile : Store → Store

-- The row after each of the three UPDATEs.
abbrev pub started : (now : ℕ) → Row → Row
started now r =
    if is_requested r.status
    then record r {
      notification_status = Notification.pending;
      error_code = none;
      notification_attempt_count = r.notification_attempt_count + 1;
      updated_at = now;
    }
    else r

abbrev pub undelivered : (now : ℕ) → Row → Row
undelivered now r =
    if is_requested r.status
    then record r {
      error_code = some "intake_unavailable";
      notification_status = Notification.failed;
      updated_at = now;
    }
    else r

abbrev pub told : (now : ℕ) → Row → Row
told now r = record r {
  notification_status = Notification.delivered;
  notified_at = some now;
  updated_at = now;
}

-- The second half, once the supervisor has answered.
unfoldable pub finish :
    (id : String) → (duplicate taken : Bool) → (now : ℕ) → Store → Result Public × Store
finish id duplicate false now store =
    (err intake_unavailable, with_requests (update id (undelivered now) store.requests) store)
finish id duplicate true now store =
    let after = with_requests (update id (told now) store.requests) store in
    elim (lookup id after.requests) [
      | none ↦ (err type_error, after)
      | some r ↦ (ok (public id r duplicate), after)
    ]

unfoldable pub notify :
    Delivery → (id : String) → (duplicate : Bool) → Store → Result Public × Store
notify d id duplicate store =
    let sent = with_requests (update id (started d.started_at) store.requests) store in
    elim (lookup id sent.requests) [
      | none ↦ (err store_unavailable, sent)
      | some r ↦
          if is_requested r.status
          then finish id duplicate (d.taken r) d.finished_at (d.meanwhile sent)
          else (ok (public id r duplicate), sent)
    ]
