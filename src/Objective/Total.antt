-- ===== src/Objective/Total.antt =====
-- gateway/app/structured_runtime.py: projecting the facts of the tables succeeds.
use mathlib.Core.Path.{subst}
use magistrate.Prelude.{
  ℕ, ◌+◌, ◌≤◌, ◌<◌, String, ◌≡◌, refl, sym, Bool, true, false, ◌&&◌, ◌||◌, not, Option, none, some,
  eq_refl, ◌∙◌, if_ind, if◌then◌else◌, ltb, leb, nat_eq, arith, is_some, Bool-cases, Option-cases,
  inl, inr,
}
use magistrate.Prelude.Outcome.{ok}
use magistrate.Objective.State.{
  State, Stage, Cancellation, ObjectiveState, Facts, max_contract_integer, progress_order,
  is_terminal, is_uncertain, is_consistent, is_named, validated, terminal_state, terminal_of,
  ending, open_state, state_of, observed_stage, projection, cancellation_of, same_state,
  same_cancellation,
}
use magistrate.Objective.Advance.{
  is_allowed, is_behind, normalized, requested_before, replace, settle_revision,
  advance_objective_state,
}
use magistrate.Objective.Life.{IsValid}

terminal_of-is_terminal :
    (phase : Option String) {s : State} → terminal_of phase ≡ some s → is_terminal s ≡ true
unfolding terminal_state
terminal_of-is_terminal none h = absurd (cc)
terminal_of-is_terminal (some phase) h = ground arith

open_state-is_open : (f : Facts) → is_terminal (open_state f) ≡ false
unfolding open_state
open_state-is_open f = ground arith

open_state-consistent :
    (f : Facts)
    → is_consistent
        (open_state f)
        (observed_stage f)
        (cancellation_of (open_state f) f.cancellation_requested)
      ≡ true
unfolding open_state observed_stage is_consistent
open_state-consistent f = ground arith

-- The stage and the cancellation that a projection gives to a state are consistent with it.
abbrev Fits : Facts → State → Type 0
Fits f s =
    is_consistent s (if is_terminal s then Stage.terminal else observed_stage f)
      (cancellation_of s f.cancellation_requested)
    ≡ true

ended-Fits : (f : Facts) (s : State) → is_terminal s ≡ true → Fits f s
unfolding is_consistent
ended-Fits f s h = ground arith

unknown-Fits : (f : Facts) → Fits f State.unknown
unfolding is_consistent observed_stage
unknown-Fits f = ground arith

open_state-Fits : (f : Facts) → Fits f (open_state f)
open_state-Fits f = rw (open_state-is_open f) (open_state-consistent f)

state_of-Fits : (f : Facts) → Fits f (state_of f)
unfolding state_of
state_of-Fits f = elim (Option-cases (terminal_of (ending f))) [
  | inr (s, over) ↦
      let same : state_of f ≡ s = rw (over, state_of) refl in
      subst (Fits f) (sym same) (ended-Fits f s (terminal_of-is_terminal (ending f) over))
  | inl going ↦ elim (Bool-cases (is_some (ending f) || not f.observation_complete)) [
    | inl unclear ↦
        let same : state_of f ≡ State.unknown = rw (going, unclear, state_of) refl in
        subst (Fits f) (sym same) (unknown-Fits f)
    | inr clear ↦
        let same : state_of f ≡ open_state f = rw (going, clear, state_of) refl in
        subst (Fits f) (sym same) (open_state-Fits f)
  ]
]

allowed :
    (a b : State) (n m : Stage) (c d : Cancellation)
    → is_consistent a n c ≡ true
    → is_consistent b m d ≡ true
    → ltb (progress_order m) (progress_order n) ≡ false
    → (is_terminal a ≡ true → b ≡ a)
    → is_allowed a b ≡ true
unfolding is_allowed is_consistent
allowed a b n m c d h k forward same = ground (arith, same)

pub validated-ok : (s : ObjectiveState) → IsValid s → validated s ≡ ok s
unfolding validated
validated-ok s v = ground (arith, v.named, v.small, v.consistent)

replace-ok :
    (s u : ObjectiveState)
    → IsValid s
    → IsValid u
    → is_behind s u ≡ false
    → (is_terminal s.state ≡ true → u.state ≡ s.state)
    → (requested_before s ≡ true → requested_before u ≡ true)
    → replace s u ≡ ok u
unfolding replace
replace-ok s u v w forward same asked =
    let fits =
      allowed s.state u.state s.progress_stage u.progress_stage s.cancellation u.cancellation
        v.consistent w.consistent forward same in
    let kept : (is_terminal s.state && not (same_state u.state s.state)) ≡ false =
      ground (arith, same) in
    let moves : (not (is_allowed s.state u.state) || is_behind s u) ≡ false = ground arith in
    let remembered : (requested_before s && not (requested_before u)) ≡ false =
      ground (arith, asked) in
    rw (kept, moves, remembered, replace) refl

pub projection-IsValid :
    (objective owner : String) (revision : ℕ) (f : Facts)
    → is_named objective owner ≡ true
    → revision ≤ max_contract_integer
    → IsValid (projection objective owner revision f)
projection-IsValid objective owner revision f named small = record {
  named = named;
  small = small;
  consistent = state_of-Fits f;
}

-- What facts must not take back of a stored state: how it ended, that it is to be cancelled, and, if
-- they claim a stage, the stage.
pub record Keeps (s : ObjectiveState) (f : Facts) : Type 0 where
  pub ended : is_terminal s.state ≡ true → state_of f ≡ s.state
  pub asked : requested_before s ≡ true → f.cancellation_requested ≡ true
  pub reached :
      (is_terminal (state_of f)
        || is_uncertain (state_of f)
        || leb (progress_order s.progress_stage) (progress_order (observed_stage f)))
      ≡ true

not_behind :
    (a b : State) (n m : Stage)
    → (not (is_terminal a)
        && is_uncertain b
        && ltb (progress_order (if is_terminal b then Stage.terminal else m)) (progress_order n))
      ≡ false
    → (is_terminal b || is_uncertain b || leb (progress_order n) (progress_order m)) ≡ true
    → (is_terminal a ≡ true → b ≡ a)
    → ltb (progress_order (if is_terminal b then Stage.terminal else m)) (progress_order n) ≡ false
not_behind a b n m fine reached same = ground (arith, same)

-- The projection with the progress that a normalization gives it.
abbrev pub levelled : ObjectiveState → Facts → ObjectiveState
levelled s f =
    let p = projection s.objective_id s.owner_principal_id (s.revision + 1) f in
    if not (is_terminal s.state) && is_uncertain p.state && is_behind s p
    then record p { progress_stage = s.progress_stage }
    else p

uncertain-consistent :
    (a b : State) (n : Stage) (c : Cancellation) (asked : Bool)
    → is_terminal a ≡ false
    → is_uncertain b ≡ true
    → is_consistent a n c ≡ true
    → is_consistent b n (cancellation_of b asked) ≡ true
unfolding is_consistent
uncertain-consistent a b n c asked going open_ended h = ground arith

-- What is true of the projection and of the projection with the stored progress, if it is behind.
levelled_ind :
    (P : ObjectiveState → Type 0) (s : ObjectiveState) (f : Facts)
    → P (projection s.objective_id s.owner_principal_id (s.revision + 1) f)
    → P (record (projection s.objective_id s.owner_principal_id (s.revision + 1) f) {
      progress_stage = s.progress_stage;
    })
    → P (levelled s f)
levelled_ind P s f h k =
    if_ind P
      (not (is_terminal s.state)
        && is_uncertain (state_of f)
        && is_behind s (projection s.objective_id s.owner_principal_id (s.revision + 1) f))
      k h

low-IsValid :
    (s : ObjectiveState) (f : Facts)
    → IsValid s
    → s.revision < max_contract_integer
    → is_terminal s.state ≡ false
    → is_uncertain (state_of f) ≡ true
    → IsValid (record (projection s.objective_id s.owner_principal_id (s.revision + 1) f) {
      progress_stage = s.progress_stage;
    })
low-IsValid s f v small going unclear = record {
  named = v.named;
  small = omega arith;
  consistent =
      uncertain-consistent s.state (state_of f) s.progress_stage s.cancellation
        f.cancellation_requested going unclear v.consistent;
}

levelled-IsValid :
    (s : ObjectiveState) (f : Facts)
    → IsValid s
    → s.revision < max_contract_integer
    → IsValid (levelled s f)
      × (normalized s (projection s.objective_id s.owner_principal_id (s.revision + 1) f)
          ≡ ok (levelled s f))
unfolding normalized
levelled-IsValid s f v small =
    let p = projection s.objective_id s.owner_principal_id (s.revision + 1) f in
    let w =
      projection-IsValid s.objective_id s.owner_principal_id (s.revision + 1) f v.named
        (omega arith) in
    elim (Bool-cases (not (is_terminal s.state) && is_uncertain p.state && is_behind s p)) [
      | inl low ↦
          let x = low-IsValid s f v small (ground arith) (ground arith) in
          rw (low, normalized) (x, validated-ok _ x)
      | inr fine ↦ rw (fine, normalized) (w, refl)
    ]

levelled-forward :
    (s : ObjectiveState) (f : Facts) → IsValid s → Keeps s f → is_behind s (levelled s f) ≡ false
levelled-forward s f v k =
    let p = projection s.objective_id s.owner_principal_id (s.revision + 1) f in
    elim (Bool-cases (not (is_terminal s.state) && is_uncertain p.state && is_behind s p)) [
      | inl low ↦ rw low (ground arith)
      | inr fine ↦ rw fine (
          not_behind s.state (state_of f) s.progress_stage (observed_stage f) fine k.reached
            k.ended)
    ]

asked-cancellation :
    (b : State) (asked : Bool)
    → asked ≡ true
    → not (same_cancellation (cancellation_of b asked) Cancellation.not_requested) ≡ true
asked-cancellation b asked h = ground arith

settle_revision-ok :
    (s u : ObjectiveState)
    → u.revision ≡ s.revision + 1
    → replace s u ≡ ok u
    → settle_revision s u ≡ ok u
unfolding settle_revision
settle_revision-ok s u next h =
    let other : nat_eq u.revision s.revision ≡ false = ground (arith, next) in
    rw (other, settle_revision) h

pub levelled-state : (s : ObjectiveState) (f : Facts) → (levelled s f).state ≡ state_of f
levelled-state s f = levelled_ind (λ u. u.state ≡ state_of f) s f refl refl

pub levelled-owner :
    (s : ObjectiveState) (f : Facts) → (levelled s f).owner_principal_id ≡ s.owner_principal_id
levelled-owner s f = levelled_ind (λ u. u.owner_principal_id ≡ s.owner_principal_id) s f refl refl

pub levelled-objective :
    (s : ObjectiveState) (f : Facts) → (levelled s f).objective_id ≡ s.objective_id
levelled-objective s f = levelled_ind (λ u. u.objective_id ≡ s.objective_id) s f refl refl

-- From a valid state, facts that take nothing back give a valid new state.
pub advance-ok :
    (s : ObjectiveState) (f : Facts)
    → IsValid s
    → s.revision < max_contract_integer
    → Keeps s f
    → IsValid (levelled s f)
      × (advance_objective_state s
            (projection s.objective_id s.owner_principal_id (s.revision + 1) f)
          ≡ ok (levelled s f))
unfolding advance_objective_state
advance-ok s f v small k =
    let (w, normal) = levelled-IsValid s f v small in
    let next = levelled_ind (λ u. u.revision ≡ s.revision + 1) s f refl refl in
    let u = levelled s f in
    let replaced =
      replace-ok s u v w (levelled-forward s f v k) (λ over. levelled-state s f ∙ k.ended over)
        (λ before.
          let asked = asked-cancellation (state_of f) f.cancellation_requested (k.asked before) in
          levelled_ind (λ u. requested_before u ≡ true) s f asked asked) in
    let later : ltb (s.revision + 1) s.revision ≡ false = ground arith in
    (
      w,
      rw (eq_refl s.owner_principal_id, eq_refl s.objective_id, later, normal)
          (settle_revision-ok s u next replaced),
    )
