-- ===== src/Personal/Within.antt =====
-- gateway/app/firstmate_execution.py: along every sequence of operations of `PersonalResourceLedger` within
-- a month, the owner's holds and costs stay within the policy.
use mathlib.Core.Path.{subst}
use magistrate.Prelude.{
  ℕ, ◌+◌, ◌≤◌, String, ◌≡◌, refl, sym, ◌∙◌, true, false, ◌&&◌, some, List, [], ◌∷◌, ◌==◌, eq_iff,
  arith, Bool-cases, Option-cases, inl, inr,
}
use magistrate.Prelude.Tables.{Table, lookup, update, total, lookup-update, total-update}
use magistrate.Prelude.Outcome.{
  ok, >>=-eq-ok, or_raise, or_raise-eq-ok, ok-injective, Outcome-cases,
}
use magistrate.Personal.Policy.{personal_terminal_evidence_required, Contract}
use magistrate.Personal.Rows.{Row, Store, Env, Measured, Status, Repository}
use magistrate.Personal.Ledger.{
  Clock, Call, amount, is_held, is_reserved, active_of, workers_of, held_of, spent_of, counted,
  new_row, reserve,
}
use magistrate.Personal.Settle.{
  is_evidence, settled_row, cost_of, find_event, is_event, row_of, evidence_of, is_replay,
  settle_row, settle, is_unpublished, release_unpublished,
}
use magistrate.Personal.Run.{
  Operation, reserving, settling, releasing, elsewhere, perform, perform_all,
}
use magistrate.Personal.Budget.{Room, reserve-Admitted}

-- The holds and the costs of the month are within the limit, as are the workers and the objectives.
pub record Within (policy : Contract) (owner period : String) (ceiling monthly : ℕ)
    (rows : Table Row) : Type 0 where
  pub spending : total (spent_of owner period) rows + total (held_of owner) rows ≤ monthly
  pub workers : total (workers_of owner) rows ≤ policy.max_implementation_workers
  pub objectives : total (active_of owner) rows ≤ policy.max_implementation_workers
  pub holds :
      (k : String) (r : Row)
      → lookup k rows ≡ some r
      → is_held owner r ≡ true
      → r.reserved_micro_usd ≡ ceiling

-- A hold that is made in the month, and a cost that the hold covers.
abbrev pub Fits : Env → (period : String) → (ceiling : ℕ) → Operation → Type 0
Fits env period ceiling (reserving clock call) = env.period clock.now ≡ period
Fits env period ceiling (settling now owner objective event_id usage) =
    amount usage.cost_micro_usd ≤ ceiling
Fits env period ceiling (releasing now owner objective) = Unit
Fits env period ceiling (elsewhere t) = Unit

abbrev pub AllFit : Env → (period : String) → (ceiling : ℕ) → List Operation → Type 0
AllFit env period ceiling [] = Unit
AllFit env period ceiling (op ∷ ops) = Fits env period ceiling op × AllFit env period ceiling ops

module _ (env : Env) (policy : Contract) (owner period : String) (ceiling monthly : ℕ) where
  abbrev In : Table Row → Type 0
  In rows = Within policy owner period ceiling monthly rows

  -- A hold ends, at no more than it held.
  ended-In :
      (k : String) (f : Row → Row) (rows : Table Row) {r : Row}
      → lookup k rows ≡ some r
      → is_reserved r.status ≡ true
      → is_reserved (f r).status ≡ false
      → (f r).owner_user_id ≡ r.owner_user_id
      → spent_of owner period (f r) ≤ ceiling
      → In rows
      → In (update k f rows)
  ended-In k f rows {r} found held over same cost w =
      let a = total-update (spent_of owner period) f k rows found in
      let b = total-update (held_of owner) f k rows found in
      let c = total-update (workers_of owner) f k rows found in
      let d = total-update (active_of owner) f k rows found in
      let h = w.holds k r found in
      record {
        spending = ground (arith, a, b, h, same, cost, w.spending);
        workers = ground (arith, c, same, w.workers);
        objectives = ground (arith, d, same, w.objectives);
        holds = λ j s there mine. ground (arith, lookup-update k j f rows, eq_iff k j, w.holds j s);
      }

  new-In :
      (clock : Clock) (call : Call) (repository : Repository) (hold : ℕ) (rows : Table Row)
      → policy.objective_spend_limit_micro_usd ≡ some ceiling
      → policy.monthly_spend_limit_micro_usd ≡ some monthly
      → Room policy
          (counted call.principal.user_id (env.period clock.now) rows)
          call.implementation_workers
          hold
      → env.period clock.now ≡ period
      → In rows
      → In ((call.objective_id, new_row env policy call repository hold clock.now) ∷ rows)
  unfolding total lookup
  new-In clock call repository hold rows hl ml room now w =
      let row = new_row env policy call repository hold clock.now in
      elim (Bool-cases (row.owner_user_id == owner)) [
        | inl mine ↦
            let named : row.owner_user_id ≡ owner =
              ground (arith, eq_iff row.owner_user_id owner) in
            let own =
              subst
                (λ (o : String).
                  Room policy (counted o (env.period clock.now) rows) call.implementation_workers
                    hold)
                named room in
            let here =
              subst
                (λ (m : String).
                  Room policy (counted owner m rows) call.implementation_workers hold)
                now own in
            let full : hold ≡ ceiling = cc (here.hold, hl) in
            let most : here.monthly ≡ monthly = cc (here.limit, ml) in
            record {
              spending = ground (arith, here.spending, most, mine);
              workers = ground (arith, here.capacity, mine);
              objectives = ground (arith, here.objectives, mine);
              holds =
                  λ k r there held. ground (arith, eq_iff call.objective_id k, w.holds k r, full);
            }
        | inr other ↦ record {
          spending = ground (arith, w.spending, other);
          workers = ground (arith, w.workers, other);
          objectives = ground (arith, w.objectives, other);
          holds = λ k r there held. ground (arith, eq_iff call.objective_id k, w.holds k r, other);
        }
      ]

  settled-In :
      (now : ℕ) (objective event_id : String) (measured : Measured) (actual : ℕ) (rows : Table Row)
      {r : Row} {after : Table Row}
      → lookup objective rows ≡ some r
      → actual ≤ ceiling
      → settle_row env now objective event_id measured actual r rows ≡ ok after
      → In rows
      → In after
  unfolding settle_row
  settled-In now objective event_id measured actual rows {r} {after} found cost h w =
      elim (Bool-cases (is_replay env event_id measured r)) [
        | inl again ↦ subst In (ok-injective (rw (again, settle_row) at h)) w
        | inr new ↦ elim (Bool-cases (is_reserved r.status)) [
          | inl held ↦ subst In (ok-injective (rw (new, held, settle_row) at h)) (
              ended-In objective (settled_row env now event_id measured actual) rows found held refl
                refl (ground arith) w)
          | inr over ↦ absurd (cc)
        ]
      ]

  row_of-lookup :
      (holder objective : String) (rows : Table Row) {r : Row}
      → row_of holder objective rows ≡ some r
      → lookup objective rows ≡ some r
  unfolding row_of
  row_of-lookup holder objective rows {r} h = elim (Option-cases (lookup objective rows)) [
    | inl none_there ↦ absurd (cc)
    | inr (s, found) ↦ elim (Bool-cases (s.owner_user_id == holder)) [
      | inl mine ↦ found ∙ (rw (found, mine, row_of) at h)
      | inr other ↦ absurd (cc)
    ]
  ]

  released-In :
      (now : ℕ) (holder objective : String) (store : Store)
      → In store.reservations
      → In ((release_unpublished now holder objective store).1).reservations
  unfolding release_unpublished
  released-In now holder objective store w =
      elim (Option-cases (row_of holder objective store.reservations)) [
        | inl none_there ↦ rw (none_there, release_unpublished) w
        | inr (r, found) ↦
            elim (Bool-cases (is_reserved r.status && is_unpublished objective store)) [
              | inl free ↦
                  rw (found, free, release_unpublished)
                    (ended-In objective
                      (λ (r : Row). record r { status = Status.released; updated_at = now })
                      store.reservations (row_of-lookup holder objective store.reservations found)
                      (ground arith) refl refl (ground arith) w)
              | inr busy ↦ rw (found, busy, release_unpublished) w
            ]
      ]

  find_evidence :
      (holder objective event_id : String) (measured : Measured) (store : Store) {r : Row}
      → evidence_of holder objective event_id measured store ≡ some r
      → row_of holder objective store.reservations ≡ some r
  unfolding evidence_of
  find_evidence holder objective event_id measured store {r} h =
      elim (Option-cases (find_event (is_event holder objective event_id) store.others.events)) [
        | inl none_there ↦ absurd (cc)
        | inr (e, found) ↦ elim (Bool-cases (is_evidence measured e)) [
          | inl good ↦ rw (found, good, evidence_of) at h
          | inr bad ↦ absurd (cc)
        ]
      ]

  cost_of-amount :
      (measured : Measured) {actual : ℕ}
      → cost_of measured ≡ ok actual
      → actual ≡ amount measured.cost_micro_usd
  cost_of-amount measured {actual} h = ground arith

  settle-In :
      (now : ℕ) (holder objective event_id : String) (measured : Measured) (store : Store)
      {after : Store}
      → amount measured.cost_micro_usd ≤ ceiling
      → settle env now holder objective event_id measured store ≡ ok after
      → In store.reservations
      → In after.reservations
  unfolding settle
  settle-In now holder objective event_id measured store {after} cost h w =
      let (actual, a, h1) = >>=-eq-ok (cost_of measured) _ h in
      let (r, b, h2) =
        >>=-eq-ok
          (or_raise (evidence_of holder objective event_id measured store)
            personal_terminal_evidence_required)
          _ h1 in
      let (rows, c, h3) =
        >>=-eq-ok (settle_row env now objective event_id measured actual r store.reservations) _
          h2 in
      subst (λ (s : Store). In s.reservations) (ok-injective h3)
        (settled-In now objective event_id measured actual store.reservations
          (row_of-lookup holder objective store.reservations
            (find_evidence holder objective event_id measured store (or_raise-eq-ok _ _ b)))
          (ground (arith, cost_of-amount measured a, cost)) c w)

  perform-In :
      (op : Operation) (store : Store)
      → policy.objective_spend_limit_micro_usd ≡ some ceiling
      → policy.monthly_spend_limit_micro_usd ≡ some monthly
      → Fits env period ceiling op
      → In store.reservations
      → In (perform env policy op store).reservations
  unfolding perform
  perform-In (reserving clock call) store hl ml now w =
      elim (Outcome-cases (reserve env policy clock call store)) [
        | inl (raised, failed) ↦ rw failed w
        | inr (after, done) ↦ rw done (elim (reserve-Admitted env policy clock call store done) [
          | inl same ↦ subst (λ (s : Store). In s.reservations) (sym same) w
          | inr a ↦
              subst (λ (s : Store). In s.reservations) (sym a.row)
                (new-In clock call a.repository a.ceiling store.reservations hl ml a.room now w)
        ])
      ]
  perform-In (settling now holder objective event_id measured) store hl ml cost w =
      elim (Outcome-cases (settle env now holder objective event_id measured store)) [
        | inl (raised, failed) ↦ rw failed w
        | inr (after, done) ↦
            rw done (settle-In now holder objective event_id measured store cost done w)
      ]
  perform-In (releasing now holder objective) store hl ml fit w =
      released-In now holder objective store w
  perform-In (elsewhere t) store hl ml fit w = w

  -- If all new holds are made in one month and no measured cost exceeds the policy's hold, every
  -- sequence of operations, whoever calls them and whatever other components write in between, keeps
  -- the owner's holds and the month's costs within the monthly limit and the workers and objectives
  -- within the policy's number, with each hold at the policy's.
  pub perform_all-Within :
      (ops : List Operation) (store : Store)
      → policy.objective_spend_limit_micro_usd ≡ some ceiling
      → policy.monthly_spend_limit_micro_usd ≡ some monthly
      → AllFit env period ceiling ops
      → Within policy owner period ceiling monthly store.reservations
      → Within policy owner period ceiling monthly (perform_all env policy ops store).reservations
  unfolding perform_all
  perform_all-Within [] store hl ml fits w = w
  perform_all-Within (op ∷ ops) store hl ml (fit, fits) w =
      perform_all-Within ops (perform env policy op store) hl ml fits
        (perform-In op store hl ml fit w)
