-- ===== src/Objective/Life.antt =====
-- gateway/app/deployment_mode.py: along all updates an objective only moves forwards, and once it has
-- ended it stays as it ended.
use mathlib.Core.Path.{subst}
use magistrate.Prelude.{
  ◌≤◌, ◌≡◌, refl, sym, true, ◌&&◌, ◌||◌, not, ◌==◌, eq_iff, ltb, nat_eq, arith, Bool-cases, inl,
  inr,
}
use magistrate.Prelude.Outcome.{ok, >>=-eq-ok, raise_if, raise_if-eq-ok, ok-injective}
use magistrate.Objective.State.{
  State, ObjectiveState, validation_error, objective_identity_conflict, objective_revision_stale,
  objective_terminal_conflict, objective_transition_invalid, objective_cancellation_conflict,
  max_contract_integer, progress_order, is_terminal, is_uncertain, same_state, is_consistent,
  is_named, validated,
}
use magistrate.Objective.Advance.{
  is_allowed, is_behind, normalized, requested_before, replace, same_contract, settle_revision,
  advance_objective_state,
}

-- That a contract can be constructed.
pub record IsValid (s : ObjectiveState) : Type 0 where
  pub named : is_named s.objective_id s.owner_principal_id ≡ true
  pub small : s.revision ≤ max_contract_integer
  pub consistent : is_consistent s.state s.progress_stage s.cancellation ≡ true

pub validated-IsValid :
    (s : ObjectiveState) {r : ObjectiveState} → validated s ≡ ok r → (r ≡ s) × IsValid s
unfolding validated
validated-IsValid s {r} h =
    let (_, a, h1) =
      >>=-eq-ok (raise_if (not (is_named s.objective_id s.owner_principal_id)) validation_error) _
        h in
    let (_, b, h2) =
      >>=-eq-ok (raise_if (ltb max_contract_integer s.revision) validation_error) _ h1 in
    let (_, c, h3) =
      >>=-eq-ok
        (raise_if (not (is_consistent s.state s.progress_stage s.cancellation)) validation_error) _
        h2 in
    let a' = raise_if-eq-ok _ _ a in
    let b' = raise_if-eq-ok _ _ b in
    let c' = raise_if-eq-ok _ _ c in
    (
      sym (ok-injective h3),
      record { named = ground arith; small = ground arith; consistent = ground arith },
    )

-- What an update says, up to the stage.
pub record Updates (current incoming update : ObjectiveState) : Type 0 where
  pub valid : IsValid update
  pub objective : update.objective_id ≡ incoming.objective_id
  pub owner : update.owner_principal_id ≡ incoming.owner_principal_id
  pub revision : update.revision ≡ incoming.revision

pub normalized-Updates :
    (current incoming : ObjectiveState) {update : ObjectiveState}
    → IsValid incoming
    → normalized current incoming ≡ ok update
    → Updates current incoming update
unfolding normalized
normalized-Updates current incoming {update} v h =
    elim (Bool-cases (
      not (is_terminal current.state)
      && is_uncertain incoming.state
      && is_behind current incoming)) [
        | inl low ↦
            let (same, w) =
              validated-IsValid (record incoming { progress_stage = current.progress_stage })
                (rw (low, normalized) at h) in
            subst (λ (u : ObjectiveState). Updates current incoming u) (sym same)
              (record { valid = w; objective = refl; owner = refl; revision = refl })
        | inr fine ↦
            let same : ok incoming ≡ ok update = rw (fine, normalized) at h in
            subst (λ (u : ObjectiveState). Updates current incoming u) (ok-injective same)
              (record { valid = v; objective = refl; owner = refl; revision = refl })
      ]

-- What no update takes back.
pub record Forward (s t : ObjectiveState) : Type 0 where
  pub objective : t.objective_id ≡ s.objective_id
  pub owner : t.owner_principal_id ≡ s.owner_principal_id
  pub revision : s.revision ≤ t.revision
  pub progress : progress_order s.progress_stage ≤ progress_order t.progress_stage
  pub ended : is_terminal s.state ≡ true → t.state ≡ s.state
  pub asked : requested_before s ≡ true → requested_before t ≡ true

pub Forward-refl : (s : ObjectiveState) → Forward s s
Forward-refl s = record {
  objective = refl;
  owner = refl;
  revision = omega arith;
  progress = omega arith;
  ended = λ h. refl;
  asked = λ h. h;
}

pub same_state-eq : (a b : State) → same_state a b ≡ true → a ≡ b
same_state-eq a b h = ground arith

replace-Forward :
    (s u : ObjectiveState) {t : ObjectiveState}
    → u.objective_id ≡ s.objective_id
    → u.owner_principal_id ≡ s.owner_principal_id
    → s.revision ≤ u.revision
    → replace s u ≡ ok t
    → (t ≡ u) × Forward s u
unfolding replace
replace-Forward s u {t} same_objective same_owner later h =
    let (_, a, h1) =
      >>=-eq-ok
        (raise_if (is_terminal s.state && not (same_state u.state s.state))
          objective_terminal_conflict)
        _ h in
    let (_, b, h2) =
      >>=-eq-ok
        (raise_if (not (is_allowed s.state u.state) || is_behind s u) objective_transition_invalid)
        _ h1 in
    let (_, c, h3) =
      >>=-eq-ok
        (raise_if (requested_before s && not (requested_before u)) objective_cancellation_conflict)
        _ h2 in
    let a' = raise_if-eq-ok _ _ a in
    let b' = raise_if-eq-ok _ _ b in
    let c' = raise_if-eq-ok _ _ c in
    (
      sym (ok-injective h3),
      record {
        objective = same_objective;
        owner = same_owner;
        revision = later;
        progress = ground arith;
        ended = λ over. same_state-eq u.state s.state (ground arith);
        asked = λ before. ground arith;
      },
    )

pub settle_revision-Forward :
    (s u : ObjectiveState) {t : ObjectiveState}
    → IsValid s
    → IsValid u
    → u.objective_id ≡ s.objective_id
    → u.owner_principal_id ≡ s.owner_principal_id
    → s.revision ≤ u.revision
    → settle_revision s u ≡ ok t
    → IsValid t × Forward s t
unfolding settle_revision
settle_revision-Forward s u {t} v w same_objective same_owner later h =
    elim (Bool-cases (nat_eq u.revision s.revision)) [
      | inr newer ↦
          let (same, forward) =
            replace-Forward s u {t = t} same_objective same_owner later
              (rw (newer, settle_revision) at h) in
          subst (λ (t : ObjectiveState). IsValid t × Forward s t) (sym same) (w, forward)
      | inl again ↦ elim (Bool-cases (same_contract u s)) [
        | inl equal ↦
            subst (λ (t : ObjectiveState). IsValid t × Forward s t)
              (ok-injective (rw (again, equal, settle_revision) at h)) (v, Forward-refl s)
        | inr other ↦ absurd (cc (rw (again, other, settle_revision) at h))
      ]
    ]

pub advance-Forward :
    (s incoming : ObjectiveState) {t : ObjectiveState}
    → IsValid s
    → IsValid incoming
    → advance_objective_state s incoming ≡ ok t
    → IsValid t × Forward s t
unfolding advance_objective_state
advance-Forward s incoming {t} v w h =
    let (_, a, h1) =
      >>=-eq-ok
        (raise_if
          (not (
            s.owner_principal_id == incoming.owner_principal_id
            && s.objective_id == incoming.objective_id))
          objective_identity_conflict)
        _ h in
    let (_, b, h2) =
      >>=-eq-ok (raise_if (ltb incoming.revision s.revision) objective_revision_stale) _ h1 in
    let (u, n, h3) = >>=-eq-ok (normalized s incoming) _ h2 in
    let x = normalized-Updates s incoming w n in
    let a' = raise_if-eq-ok _ _ a in
    let b' = raise_if-eq-ok _ _ b in
    let o : u.objective_id ≡ s.objective_id =
      ground (arith, eq_iff s.objective_id incoming.objective_id, x.objective) in
    let p : u.owner_principal_id ≡ s.owner_principal_id =
      ground (arith, eq_iff s.owner_principal_id incoming.owner_principal_id, x.owner) in
    settle_revision-Forward s u v x.valid o p (ground (arith, x.revision)) h3
