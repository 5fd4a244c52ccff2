-- ===== src/Cancellation/Replay.antt =====
-- gateway/app/objective_cancellation.py: a request that was recorded is recorded once.
use mathlib.Core.Path.{subst}
use magistrate.Prelude.{
  ℕ, String, ◌≡◌, ◌∙◌, refl, ap, true, false, not, Option, none, some, ◌∷◌, eq_refl, arith, is_some,
  ◌==◌,
}
use magistrate.Prelude.Outcome.{
  ok, >>=-eq-ok, raise_if, raise_if-eq-ok, or_raise, or_raise-eq-ok, ok-injective,
}
use magistrate.Prelude.Tables.{lookup, find_row}
use magistrate.Cancellation.Model.{
  already_terminal, not_found, request_conflict, invalid_target, invalid_idempotency,
  dispatch_unobserved, Row, Store, public, is_failed, is_undelivered, is_uncertain, with_requests,
  is_active,
}
use magistrate.Cancellation.Request.{
  Env, Next, deliver, answer, by_key, new_row, target_of, insert_request, record_request, replay,
}

-- What a new request had to find, and what it leaves.
pub record Recorded (env : Env) (owner session objective key : String) (now : ℕ)
    (before after : Store) : Type 0 where
  pub task : String
  pub target : target_of owner objective before ≡ some (task, none)
  pub fresh : lookup (env.request_id owner key) before.requests ≡ none
  pub written :
      after
      ≡ with_requests
          ((env.request_id owner key, new_row owner objective task session key now)
            ∷ before.requests)
          before

none_of : {A : Type 0} (o : Option A) → is_some o ≡ false → o ≡ none
none_of none h = refl
none_of (some a) h = absurd (cc)

pub insert_request-Recorded :
    (env : Env) (owner session objective key : String) (now : ℕ) (store : Store) {s : Next × Store}
    → insert_request env owner session objective key now store ≡ ok s
    → (s.0 ≡ deliver (env.request_id owner key) false)
      × Recorded env owner session objective key now store s.1
unfolding insert_request
insert_request-Recorded env owner session objective key now store {s} e =
    let ((task, ended), target, e1) =
      >>=-eq-ok (or_raise (target_of owner objective store) not_found) _ e in
    let (_, running, e2) = >>=-eq-ok (raise_if (is_some ended) already_terminal) _ e1 in
    let (_, unused, e3) =
      >>=-eq-ok
        (raise_if (is_some (lookup (env.request_id owner key) store.requests)) request_conflict) _
        e2 in
    let ends = none_of ended (raise_if-eq-ok _ _ running) in
    let found = or_raise-eq-ok (target_of owner objective store) _ target in
    subst
      (λ (s : Next × Store).
        (s.0 ≡ deliver (env.request_id owner key) false)
        × Recorded env owner session objective key now store s.1)
      (ok-injective e3)
      (
        refl,
        record {
          task = task;
          target = found ∙ ap (λ (x : Option String). some (task, x)) ends;
          fresh =
              none_of (lookup (env.request_id owner key) store.requests)
                (raise_if-eq-ok _ _ unused);
          written = refl;
        },
      )

-- The same request finds its row, as it is stored by then.
record_request-found :
    (env : Env) (owner session objective key : String) (now : ℕ) (t : Store) (r : Row)
    → env.safe_objective objective ≡ true
    → env.safe_key key ≡ true
    → is_uncertain owner objective t ≡ false
    → find_row (by_key owner key) t.requests ≡ some (env.request_id owner key, r)
    → r.objective_id ≡ objective
    → is_failed r.status ≡ false
    → is_undelivered r.notification_status ≡ false
    → record_request env owner session objective key now t
      ≡ ok (answer (public (env.request_id owner key) r true), t)
unfolding record_request replay
record_request-found env owner session objective key now t r so sk certain found same kept told =
    let mine : (r.objective_id == objective) ≡ true = rw same (eq_refl objective) in
    rw (so, sk, certain, found, record_request, replay, mine, kept, told) (ground arith)

-- The row of a new request is the first under its key.
Recorded-found :
    (env : Env) (owner session objective key : String) (now : ℕ) {before after : Store}
    (h : Recorded env owner session objective key now before after)
    → find_row (by_key owner key) after.requests
      ≡ some (env.request_id owner key, new_row owner objective h.task session key now)
unfolding find_row
Recorded-found env owner session objective key now h =
    rw (h.written, eq_refl owner, eq_refl key) refl

-- The first request under a key, for an objective that nobody has asked to cancel, is recorded only
-- if the objective is known, has not ended, and holds no resources of an unobserved run; its row is then
-- the one that is found by the key. The same request, repeated in any store in which a row of that id
-- and objective is found by the key, neither failed nor with a failed notification, and in which
-- no resources of an unobserved run are held, is answered with that row as a duplicate, and
-- writes nothing.
pub record_request-again :
    (env : Env) (owner session objective key : String) (now now' : ℕ) (store t : Store) (r : Row)
    {s : Next × Store}
    → find_row (by_key owner key) store.requests ≡ none
    → find_row (is_active owner objective) store.requests ≡ none
    → record_request env owner session objective key now store ≡ ok s
    → find_row (by_key owner key) t.requests ≡ some (env.request_id owner key, r)
    → r.objective_id ≡ objective
    → is_failed r.status ≡ false
    → is_undelivered r.notification_status ≡ false
    → is_uncertain owner objective t ≡ false
    → (is_uncertain owner objective store ≡ false)
      × ((made : Recorded env owner session objective key now store s.1) × (find_row
              (by_key owner key)
              s.1.requests
            ≡ some (env.request_id owner key, new_row owner objective made.task session key now)))
      × (record_request env owner session objective key now' t
          ≡ ok (answer (public (env.request_id owner key) r true), t))
unfolding record_request
record_request-again env owner session objective key now now' store t r new alone e found same kept
      told calm =
    let (_, so, e1) =
      >>=-eq-ok (raise_if (not (env.safe_objective objective)) invalid_target) _ e in
    let (_, sk, e2) = >>=-eq-ok (raise_if (not (env.safe_key key)) invalid_idempotency) _ e1 in
    let (_, sure, e3) =
      >>=-eq-ok (raise_if (is_uncertain owner objective store) dispatch_unobserved) _ e2 in
    let (_, recorded) =
      insert_request-Recorded env owner session objective key now store (rw (new, alone) at e3) in
    (
      raise_if-eq-ok _ _ sure,
      (recorded, Recorded-found env owner session objective key now recorded),
      record_request-found env owner session objective key now' t r
          (ground (arith, raise_if-eq-ok _ _ so)) (ground (arith, raise_if-eq-ok _ _ sk)) calm found
          same kept told,
    )
