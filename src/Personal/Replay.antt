-- ===== src/Personal/Replay.antt =====
-- gateway/app/firstmate_execution.py: a hold of `PersonalResourceLedger` is settled once, by one event.
use mathlib.Core.Path.{subst}
use magistrate.Prelude.{
  ℕ, String, ◌≡◌, ◌≢◌, refl, ◌∙◌, true, false, Option, none, some, ◌==◌, eq_iff, eq_refl, arith,
  Bool-cases, Option-cases, inl, inr,
}
use magistrate.Prelude.Tables.{Table, lookup, update, lookup-update_self}
use magistrate.Prelude.Outcome.{
  err, ok, >>=-eq-ok, or_raise, or_raise-eq-ok, ok-injective, Outcome-cases,
}
use magistrate.Personal.Policy.{
  PolicyError, personal_terminal_evidence_required, personal_settlement_conflict, is_text,
}
use magistrate.Personal.Rows.{Row, Store, Env, Measured, Event}
use magistrate.Personal.Ledger.{is_reserved}
use magistrate.Personal.Settle.{
  is_evidence, settled_row, cost_of, find_event, is_event, row_of, evidence_of, is_replay,
  settle_row, settle,
}

-- What the event of a settlement and the row of its hold say.
pub record Evidence (owner objective event_id : String) (measured : Measured) (store : Store)
    (r : Row) : Type 0 where
  pub event : Event
  pub found : find_event (is_event owner objective event_id) store.others.events ≡ some event
  pub good : is_evidence measured event ≡ true
  pub row : row_of owner objective store.reservations ≡ some r

pub record Settled (env : Env) (owner objective event_id : String) (measured : Measured)
    (store : Store) : Type 0 where
  pub actual : ℕ
  pub cost : cost_of measured ≡ ok actual
  pub row : Row
  pub evidence : Evidence owner objective event_id measured store row
  pub replay : is_replay env event_id measured row ≡ true

evidence_of-Evidence :
    (owner objective event_id : String) (measured : Measured) (store : Store) {r : Row}
    → evidence_of owner objective event_id measured store ≡ some r
    → Evidence owner objective event_id measured store r
unfolding evidence_of
evidence_of-Evidence owner objective event_id measured store {r} h =
    elim (Option-cases (find_event (is_event owner objective event_id) store.others.events)) [
      | inl none_there ↦ absurd (cc)
      | inr (e, found) ↦ elim (Bool-cases (is_evidence measured e)) [
        | inl good ↦ record {
          event = e;
          found = found;
          good = good;
          row = rw (found, good, evidence_of) at h;
        }
        | inr bad ↦ absurd (cc)
      ]
    ]

Evidence-evidence_of :
    (owner objective event_id : String) (measured : Measured) (store : Store) {r : Row}
    → Evidence owner objective event_id measured store r
    → evidence_of owner objective event_id measured store ≡ some r
unfolding evidence_of
Evidence-evidence_of owner objective event_id measured store {r} e =
    rw (e.found, e.good, evidence_of) e.row

-- The row of a hold, and that the caller owns it.
row_of-found :
    (owner objective : String) (rows : Table Row) {r : Row}
    → row_of owner objective rows ≡ some r
    → (lookup objective rows ≡ some r) × (r.owner_user_id ≡ owner)
unfolding row_of
row_of-found owner objective rows {r} h = elim (Option-cases (lookup objective rows)) [
  | inl none_there ↦ absurd (cc)
  | inr (s, found) ↦ elim (Bool-cases (s.owner_user_id == owner)) [
    | inl mine ↦
        let same : some s ≡ some r = rw (found, mine, row_of) at h in
        (found ∙ same, ground (arith, eq_iff s.owner_user_id owner))
    | inr other ↦ absurd (cc)
  ]
]

row_of-update :
    (owner objective : String) (f : Row → Row) (rows : Table Row) {r : Row}
    → row_of owner objective rows ≡ some r
    → (f r).owner_user_id ≡ r.owner_user_id
    → row_of owner objective (update objective f rows) ≡ some (f r)
unfolding row_of
row_of-update owner objective f rows {r} h same =
    let (found, mine) = row_of-found owner objective rows h in
    rw (lookup-update_self objective f rows found, row_of, same, mine, eq_refl owner) refl

settle_row-Settled :
    (env : Env) (now : ℕ) (owner objective event_id : String) (measured : Measured) (store : Store)
    {r : Row} {actual : ℕ} {rows : Table Row}
    → cost_of measured ≡ ok actual
    → Evidence owner objective event_id measured store r
    → settle_row env now objective event_id measured actual r store.reservations ≡ ok rows
    → Settled env owner objective event_id measured (record store { reservations = rows })
unfolding settle_row
settle_row-Settled env now owner objective event_id measured store {r} {actual} {rows} cost e h =
    elim (Bool-cases (is_replay env event_id measured r)) [
      | inl again ↦
          let same = ok-injective (rw (again, settle_row) at h) in
          subst
            (λ (t : Table Row).
              Settled env owner objective event_id measured (record store { reservations = t }))
            same (record { actual = actual; cost = cost; row = r; evidence = e; replay = again })
      | inr new ↦ elim (Bool-cases (is_reserved r.status)) [
        | inl held ↦
            let same = ok-injective (rw (new, held, settle_row) at h) in
            subst
              (λ (t : Table Row).
                Settled env owner objective event_id measured (record store { reservations = t }))
              same
              (record {
                actual = actual;
                cost = cost;
                row = settled_row env now event_id measured actual r;
                evidence = record {
                  event = e.event;
                  found = e.found;
                  good = e.good;
                  row =
                      row_of-update owner objective (settled_row env now event_id measured actual)
                        store.reservations e.row refl;
                };
                replay = rw (eq_refl event_id, eq_refl (env.encode measured)) refl;
              })
        | inr over ↦ absurd (cc)
      ]
    ]

settle-Settled :
    (env : Env) (now : ℕ) (owner objective event_id : String) (measured : Measured) (store : Store)
    {after : Store}
    → settle env now owner objective event_id measured store ≡ ok after
    → Settled env owner objective event_id measured after
unfolding settle
settle-Settled env now owner objective event_id measured store {after} h =
    let (actual, a, h1) = >>=-eq-ok (cost_of measured) _ h in
    let (r, b, h2) =
      >>=-eq-ok
        (or_raise (evidence_of owner objective event_id measured store)
          personal_terminal_evidence_required)
        _ h1 in
    let (rows, c, h3) =
      >>=-eq-ok (settle_row env now objective event_id measured actual r store.reservations) _ h2 in
    subst (λ (s : Store). Settled env owner objective event_id measured s) (ok-injective h3)
      (settle_row-Settled env now owner objective event_id measured store a
        (evidence_of-Evidence owner objective event_id measured store (or_raise-eq-ok _ _ b)) c)

Settled-again :
    (env : Env) (later : ℕ) (owner objective event_id : String) (measured : Measured)
    (store : Store)
    → Settled env owner objective event_id measured store
    → settle env later owner objective event_id measured store ≡ ok store
unfolding settle settle_row
Settled-again env later owner objective event_id measured store s =
    rw (s.cost, Evidence-evidence_of owner objective event_id measured store s.evidence, s.replay)
      refl

same_event : (a b : String) (o : Option String) → is_text a o ≡ true → is_text b o ≡ true → a ≡ b
same_event a b none x y = absurd (cc)
same_event a b (some c) x y = ground (arith, eq_iff c a, eq_iff c b)

other-settle_row :
    (env : Env) (later : ℕ) (objective event_id other : String) (measured measured' : Measured)
    (actual : ℕ) (r : Row) (rows : Table Row) {after : Table Row}
    → is_replay env event_id measured r ≡ true
    → other ≢ event_id
    → settle_row env later objective other measured' actual r rows ≢ ok after
unfolding settle_row
other-settle_row env later objective event_id other measured measured' actual r rows {after} replay
      differ h =
    elim (Bool-cases (is_replay env other measured' r)) [
      | inl again ↦
          differ (same_event other event_id r.settlement_event_id (ground arith) (ground arith))
      | inr new ↦
          let over : is_reserved r.status ≡ false = ground arith in
          let failed : err personal_settlement_conflict ≡ ok after =
            rw (new, over, settle_row) at h in
          cc
    ]

Settled-other :
    (env : Env) (later : ℕ) (owner objective event_id other : String)
    (measured measured' : Measured) (store : Store) {after : Store}
    → Settled env owner objective event_id measured store
    → other ≢ event_id
    → settle env later owner objective other measured' store ≢ ok after
unfolding settle settle_row
Settled-other env later owner objective event_id other measured measured' store {after} s differ h =
    let (actual, a, h1) = >>=-eq-ok (cost_of measured') _ h in
    let (r, b, h2) =
      >>=-eq-ok
        (or_raise (evidence_of owner objective other measured' store)
          personal_terminal_evidence_required)
        _ h1 in
    let (rows, c, h3) =
      >>=-eq-ok (settle_row env later objective other measured' actual r store.reservations) _ h2 in
    let e = evidence_of-Evidence owner objective other measured' store (or_raise-eq-ok _ _ b) in
    let same : s.row ≡ r = cc (s.evidence.row, e.row) in
    other-settle_row env later objective event_id other measured measured' actual r
      store.reservations
      (subst (λ (r : Row). is_replay env event_id measured r ≡ true) same s.replay) differ c

-- After a settlement, the same settlement at any time succeeds and changes nothing, and the
-- settlement of that hold by another event raises an exception.
pub settle-once :
    (env : Env) (now later : ℕ) (owner objective event_id other : String)
    (measured measured' : Measured) (store : Store) {after : Store}
    → settle env now owner objective event_id measured store ≡ ok after
    → other ≢ event_id
    → (settle env later owner objective event_id measured after ≡ ok after)
      × ((raised : PolicyError) × (settle env later owner objective other measured' after
            ≡ err raised))
settle-once env now later owner objective event_id other measured measured' store {after} h differ =
    let s = settle-Settled env now owner objective event_id measured store h in
    (
      Settled-again env later owner objective event_id measured after s,
      elim (Outcome-cases (settle env later owner objective other measured' after)) [
        | inl (raised, failed) ↦ (raised, failed)
        | inr (end, done) ↦ absurd (
            Settled-other env later owner objective event_id other measured measured' after s differ
              done)
      ],
    )
