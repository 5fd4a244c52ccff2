-- ===== src/Stripe/Replay.antt =====
-- gateway/app/billing.py: an event that was taken is not taken again.
use mathlib.Core.Path.{subst}
use magistrate.Prelude.{
  none, arith, eq_iff, List, [], ◌∷◌, ◌∙◌, ℕ, String, ◌≡◌, refl, sym, ap, false, ◌||◌, not, some,
  ◌==◌, eq_refl, Bool-cases, Option-cases, inl, inr,
}
use magistrate.Prelude.Outcome.{Outcome-cases}
use magistrate.Prelude.Int.{ℤ}
use magistrate.Prelude.Tables.{lookup}
use magistrate.Billing.Catalog.{Env}
use magistrate.Billing.Db.{
  Db, Result, err, ok, >>=-eq-ok, raise_if, raise_if-eq-ok, or_raise, ok-injective,
  stripe_not_configured,
}
use magistrate.Billing.Account.{account_row}
use magistrate.Prelude.Chars.{starts_with}
use magistrate.Stripe.Json.{get, as_text}
use magistrate.Stripe.Verify.{Wire, Event, verify, envelope}
use magistrate.Stripe.Rows.{Store, EventRow}
use magistrate.Stripe.Process.{
  Answer, duplicate, with_ledger, purchase, dispatch, take_event, process, session_of, is_purchase,
  is_conflict, event_row, is_credit_pack,
}

with_ledger-events :
    (store : Store) (result : Result Db) {s : Store}
    → with_ledger store result ≡ ok s
    → s.events ≡ store.events
unfolding with_ledger
with_ledger-events store (ok db) e = ap (λ (s : Store). s.events) (sym (ok-injective e))
with_ledger-events store (err x) e = absurd (cc)

purchase-events :
    (env : Env) (e : Event) (now : ℕ) (store : Store) {s : Store}
    → purchase env e now store ≡ ok s
    → s.events ≡ store.events
unfolding purchase
purchase-events env e now store h =
    let (session, _, h1) =
      >>=-eq-ok (or_raise (session_of (as_text (get "id" e.body)) store.sessions) _) _ h in
    let (_, _, h2) = >>=-eq-ok (raise_if (not (is_credit_pack session.kind)) _) _ h1 in
    let (pack, _, h3) = >>=-eq-ok (or_raise (lookup session.catalog_id env.catalog.packs) _) _ h2 in
    let (state, _, h4) = >>=-eq-ok (account_row env session.owner_user_id now store.ledger) _ h3 in
    ap (λ (s : Store). s.events) (sym (ok-injective h4))

dispatch-events :
    (env : Env) (show : ℤ → String) (e : Event) (now : ℕ) (store : Store) {s : Store}
    → dispatch env show e now store ≡ ok s
    → s.events ≡ store.events
unfolding dispatch
dispatch-events env show e now store {s} h = elim (Bool-cases (is_purchase e)) [
  | inl buys ↦ purchase-events env e now store (rw (buys, dispatch) at h)
  | inr other ↦ elim (Bool-cases (starts_with "customer.subscription." e.kind)) [
    | inl sub ↦ with_ledger-events store _ (rw (other, sub, dispatch) at h)
    | inr no_sub ↦
        elim (Bool-cases (e.kind == "invoice.paid" || e.kind == "invoice.payment_failed")) [
          | inl inv ↦ with_ledger-events store _ (rw (other, no_sub, inv, dispatch) at h)
          | inr no_inv ↦
              let same : ok store ≡ ok s = rw (other, no_sub, no_inv, dispatch) at h in
              ap (λ (s : Store). s.events) (sym (ok-injective same))
        ]
  ]
]

-- An event that is stored under a digest that the given one does not contradict.
record Known (id digest : String) (store : Store) : Type 0 where
  row : EventRow
  found : lookup id store.events ≡ some row
  quiet : is_conflict row digest ≡ false

Known-same :
    (id digest : String) (before after : Store)
    → after.events ≡ before.events
    → Known id digest before
    → Known id digest after
Known-same id digest before after same k = record {
  row = k.row;
  found = ap (lookup id) same ∙ k.found;
  quiet = k.quiet;
}

Known-new :
    (id other digest : String) (row : EventRow) (store : Store)
    → lookup other store.events ≡ none
    → Known id digest store
    → Known id digest (record store { events = (other, row) ∷ store.events })
unfolding lookup
Known-new id other digest row store unknown k = record {
  row = k.row;
  found = elim (Bool-cases (other == id)) [
    | inl same ↦
        let twice : lookup id store.events ≡ none =
          subst (λ (x : String). lookup x store.events ≡ none) (ground (arith, eq_iff other id))
            unknown in
        let once = k.found in absurd (cc)
    | inr apart ↦ let once = k.found in ground arith
  ];
  quiet = k.quiet;
}

-- An event that was taken is known.
take_event-Known :
    (env : Env) (show : ℤ → String) (e : Event) (digest : String) (now : ℕ) (store : Store)
    {s : Answer × Store}
    → take_event env show e digest now store ≡ ok s
    → Known e.id digest s.1
unfolding take_event lookup
take_event-Known env show e digest now store {s} h =
    elim (Option-cases (lookup e.id store.events)) [
      | inl missing ↦
          let (after, taken, end) =
            >>=-eq-ok (dispatch env show e now _) _ (rw (missing, take_event) at h) in
          subst (λ (s : Answer × Store). Known e.id digest s.1) (ok-injective end)
            (record {
              row = event_row e.kind now digest;
              found =
                  ap (lookup e.id) (dispatch-events env show e now _ taken)
                  ∙ rw (eq_refl e.id) refl;
              quiet = rw (eq_refl digest) refl;
            })
      | inr (row, found) ↦ elim (Bool-cases (is_conflict row digest)) [
        | inl conflict ↦ absurd (cc (rw (found, take_event, conflict) at h))
        | inr quiet ↦
            let end : ok (duplicate e.id, store) ≡ ok s = rw (found, take_event, quiet) at h in
            subst (λ (s : Answer × Store). Known e.id digest s.1) (ok-injective end)
              (record { row = row; found = found; quiet = quiet })
      ]
    ]

-- It stays known when another event, or the same, is taken.
take_event-keeps :
    (env : Env) (show : ℤ → String) (id digest : String) (e : Event) (digest' : String) (now : ℕ)
    (store : Store) {s : Answer × Store}
    → Known id digest store
    → take_event env show e digest' now store ≡ ok s
    → Known id digest s.1
unfolding take_event
take_event-keeps env show id digest e digest' now store {s} k h =
    elim (Option-cases (lookup e.id store.events)) [
      | inl missing ↦
          let (after, taken, end) =
            >>=-eq-ok (dispatch env show e now _) _ (rw (missing, take_event) at h) in
          subst (λ (s : Answer × Store). Known id digest s.1) (ok-injective end)
            (Known-same id digest _ after (dispatch-events env show e now _ taken)
              (Known-new id e.id digest (event_row e.kind now digest') store missing k))
      | inr (row, found) ↦ elim (Bool-cases (is_conflict row digest')) [
        | inl conflict ↦ absurd (cc (rw (found, take_event, conflict) at h))
        | inr quiet ↦
            let end : ok (duplicate e.id, store) ≡ ok s = rw (found, take_event, quiet) at h in
            subst (λ (s : Answer × Store). Known id digest s.1) (ok-injective end) k
      ]
    ]

-- What happens between two deliveries: others are processed, and other operations write what they
-- like but the table of events.
pub data Operation : Type 0 where
  processing : (payload signature : String) (now : ℕ) → Operation
  elsewhere : (others : Store) → Operation

abbrev pub kept_after : Store → Result (Answer × Store) → Store
kept_after before (err raised) = before
kept_after before (ok s) = s.1

-- A delivery that raises is rolled back.
unfoldable pub perform :
    Env → Wire → (show : ℤ → String) → (secret : String) → Operation → Store → Store
perform env wire show secret (processing payload signature now) store =
    kept_after store (process env wire show secret payload signature now store)
perform env wire show secret (elsewhere others) store = record others { events = store.events }

unfoldable pub perform_all :
    Env → Wire → (show : ℤ → String) → (secret : String) → List Operation → Store → Store
perform_all env wire show secret [] store = store
perform_all env wire show secret (op ∷ ops) store =
    perform_all env wire show secret ops (perform env wire show secret op store)

process-keeps :
    (env : Env) (wire : Wire) (show : ℤ → String) (secret id digest payload signature : String)
    (now : ℕ) (store : Store) {s : Answer × Store}
    → Known id digest store
    → process env wire show secret payload signature now store ≡ ok s
    → Known id digest s.1
unfolding process
process-keeps env wire show secret id digest payload signature now store k h =
    let (_, _, h1) = >>=-eq-ok (raise_if (secret == "") stripe_not_configured) _ h in
    let (_, _, h2) = >>=-eq-ok (verify wire payload signature secret now) _ h1 in
    let (e, _, h3) = >>=-eq-ok (envelope wire payload) _ h2 in
    take_event-keeps env show id digest e (wire.sha256 payload) now store k h3

perform-Known :
    (env : Env) (wire : Wire) (show : ℤ → String) (secret id digest : String) (op : Operation)
    (store : Store)
    → Known id digest store
    → Known id digest (perform env wire show secret op store)
unfolding perform
perform-Known env wire show secret id digest (processing payload signature now) store k =
    elim (Outcome-cases (process env wire show secret payload signature now store)) [
      | inl (raised, failed) ↦ rw failed k
      | inr (s, done) ↦
          rw done (process-keeps env wire show secret id digest payload signature now store k done)
    ]
perform-Known env wire show secret id digest (elsewhere others) store k =
    Known-same id digest store (record others { events = store.events }) refl k

perform_all-Known :
    (env : Env) (wire : Wire) (show : ℤ → String) (secret id digest : String) (ops : List Operation)
    (store : Store)
    → Known id digest store
    → Known id digest (perform_all env wire show secret ops store)
unfolding perform_all
perform_all-Known env wire show secret id digest [] store k = k
perform_all-Known env wire show secret id digest (op ∷ ops) store k =
    perform_all-Known env wire show secret id digest ops (perform env wire show secret op store)
      (perform-Known env wire show secret id digest op store k)

take_event-recorded :
    (env : Env) (show : ℤ → String) (e : Event) (digest : String) (now : ℕ) (store : Store)
    → Known e.id digest store
    → take_event env show e digest now store ≡ ok (duplicate e.id, store)
unfolding take_event
take_event-recorded env show e digest now store k = rw (k.found, take_event, k.quiet) refl

-- An event that was processed is a duplicate from then on: after any sequence of deliveries under the
-- same secret and of writes to other tables, its payload, under any signature that verifies and at any
-- time, is answered as a duplicate and changes nothing.
pub process-duplicate :
    (env : Env) (wire : Wire) (show : ℤ → String) (secret payload signature signature' : String)
    (now now' : ℕ) (store : Store) (ops : List Operation) {s : Answer × Store}
    → process env wire show secret payload signature now store ≡ ok s
    → verify wire payload signature' secret now' ≡ ok tt
    → let later = perform_all env wire show secret ops s.1 in
      (e : Event) × (envelope wire payload ≡ ok e)
      × (process env wire show secret payload signature' now' later ≡ ok (duplicate e.id, later))
unfolding process
process-duplicate env wire show secret payload signature signature' now now' store ops {s} h valid =
    let (_, configured, h1) = >>=-eq-ok (raise_if (secret == "") stripe_not_configured) _ h in
    let (_, _, h2) = >>=-eq-ok (verify wire payload signature secret now) _ h1 in
    let (e, checked, h3) = >>=-eq-ok (envelope wire payload) _ h2 in
    let later = perform_all env wire show secret ops s.1 in
    let known =
      perform_all-Known env wire show secret e.id (wire.sha256 payload) ops s.1
        (take_event-Known env show e (wire.sha256 payload) now store h3) in
    let again = take_event-recorded env show e (wire.sha256 payload) now' later known in
    (e, checked, rw (raise_if-eq-ok _ _ configured, valid, checked) again)
