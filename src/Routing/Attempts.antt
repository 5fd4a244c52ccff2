-- ===== src/Routing/Attempts.antt =====
-- gateway/app/magi_routing.py: what a request does to the ledger, through all of its attempts.
use magistrate.Prelude.{
  nat_eq, ℕ, zero, suc, ◌+◌, String, ◌≡◌, ◌∙◌, refl, Bool, true, false, ◌&&◌, not, Option, none,
  some, List, [], ◌∷◌, ◌==◌, arith, if_ind, Bool-cases, inl, inr,
}
use magistrate.Prelude.Outcome.{Outcome, ok, Outcome-cases}
use magistrate.Routing.Model.{ModelCandidate, MagiModelUsage, is_direct, is_high_impact}
use magistrate.Routing.Store.{MagiModelError, Routes}
use magistrate.Routing.Select.{Env, eligible, estimate_of}
use magistrate.Routing.Order.{tally, tally-eligible}
use magistrate.Routing.Failover.{
  Reply, answer, model_error, other_error, cancelled, World, Request, Turn, done, raised, next,
  attempts, react, proceed, attempt_reserve, candidates_from, complete_routed, no_model,
  estimated_input, settle_reply, call_provider, must_raise, needs_confirmation,
}

-- Whether a candidate comes with another estimate than its own.
abbrev mispriced : Env → Request → ModelCandidate × ℕ → Bool
mispriced env q (c, estimate) = not (nat_eq estimate (estimate_of env (estimated_input q) c))

tally-none : {A : Type 0} (p : A → Bool) (xs : List A) → ((x : A) → p x ≡ false) → tally p xs ≡ 0
unfolding tally
tally-none p [] h = refl
tally-none p (x ∷ xs) h = ground (arith, h x, tally-none p xs h)

pub mispriced-eligible :
    (env : Env) (q : Request) (routes : Routes)
    → tally (mispriced env q) (eligible env q.context (estimated_input q) routes) ≡ 0
mispriced-eligible env q routes =
    tally-eligible env q.context (estimated_input q) routes (mispriced env q)
    ∙ tally-none _ env.catalog.candidates (λ c. ground arith)

module _ (env : Env) (w : World) (q : Request) (P : Routes → Type 0) where
  -- That an attempt, its reservation and the settling of it keep a property of the ledger.
  abbrev pub Keeps : Type 0
  Keeps =
      (c : ModelCandidate) (estimate ordinal : ℕ) (fallback : Option String) (routes : Routes)
      (held : Routes)
      → estimate ≡ estimate_of env (estimated_input q) c
      → P routes
      → attempt_reserve env w q c estimate ordinal fallback routes ≡ ok held
      → P (settle_reply w c ordinal (call_provider env w c ordinal) (w.meanwhile ordinal held))

  react-keep :
      (estimate ordinal : ℕ) (reply : Reply) (booked : Routes)
      (again : MagiModelError → Turn × ℕ × Routes)
      → P booked
      → ((e : MagiModelError) → P (again e).2)
      → P (react env estimate ordinal reply booked again).2
  unfolding react
  react-keep estimate ordinal (answer usage) booked again h k = h
  react-keep estimate ordinal other_error booked again h k = h
  react-keep estimate ordinal cancelled booked again h k = h
  react-keep estimate ordinal (model_error e) booked again h k =
      elim (Bool-cases (must_raise env estimate e)) [ inl y ↦ rw y h | inr n ↦ rw n (k e) ]

  attempts-keep :
      Keeps
      → (c : ModelCandidate) (estimate : ℕ) (fallback : Option String) (left ordinal : ℕ)
        (last : MagiModelError) (routes : Routes)
      → estimate ≡ estimate_of env (estimated_input q) c
      → P routes
      → P (attempts env w q c estimate fallback left ordinal last routes).2
  unfolding attempts
  attempts-keep keeps c estimate fallback zero ordinal last routes own h = h
  attempts-keep keeps c estimate fallback (suc left) ordinal last routes own h =
      elim (Outcome-cases (attempt_reserve env w q c estimate (suc ordinal) fallback routes)) [
        | inl (e, failed) ↦ elim (Bool-cases (e.code == "model_credits_exhausted")) [
          | inl y ↦ rw (failed, attempts, y) h
          | inr n ↦ rw (failed, attempts, n) h
        ]
        | inr (held, booked) ↦
            let after = keeps c estimate (suc ordinal) fallback routes held own h booked in
            rw (booked, attempts)
              (react-keep estimate (suc ordinal) (call_provider env w c (suc ordinal)) _ _ after
                (λ e. attempts-keep keeps c estimate fallback left (suc ordinal) e _ own after))
      ]

  proceed-keep :
      (turn : Turn) (routes : Routes)
      (others : MagiModelError → Outcome MagiModelError (Option MagiModelUsage) × Routes)
      → P routes
      → ((e : MagiModelError) → P (others e).1)
      → P (proceed turn routes others).1
  unfolding proceed
  proceed-keep (done usage) routes others h k = h
  proceed-keep (raised e) routes others h k = h
  proceed-keep (next e) routes others h k = k e

  candidates_from-keep :
      Keeps
      → (first : Bool) (fallback : Option String) (ordinal : ℕ) (last : MagiModelError)
        (cs : List (ModelCandidate × ℕ)) (routes : Routes)
      → tally (mispriced env q) cs ≡ 0
      → P routes
      → P (candidates_from env w q first fallback ordinal last cs routes).1
  unfolding candidates_from tally
  candidates_from-keep keeps first fallback ordinal last [] routes priced h = h
  candidates_from-keep keeps first fallback ordinal last ((c, estimate) ∷ rest) routes priced h =
      let left = env.catalog.policy.max_same_model_retries + 1 in
      let own : estimate ≡ estimate_of env (estimated_input q) c = ground arith in
      let priced' : tally (mispriced env q) rest ≡ 0 = ground arith in
      let after = attempts-keep keeps c estimate fallback left ordinal last routes own h in
      elim (Bool-cases (needs_confirmation env q first estimate)) [
        | inl y ↦ rw (y, candidates_from) h
        | inr n ↦
            rw (n, candidates_from)
              (proceed-keep _ _ _ after
                (λ e. candidates_from-keep keeps false (some c.id) _ e rest _ priced' after))
      ]

  pub complete_routed-keep :
      Keeps → (routes : Routes) → P routes → P (complete_routed env w q routes).1
  unfolding complete_routed
  complete_routed-keep keeps routes h =
      let tried =
        candidates_from-keep keeps true none 0 no_model
          (eligible env q.context (estimated_input q) routes) routes
          (mispriced-eligible env q routes) h in
      if_ind (λ (r : Outcome MagiModelError (Option MagiModelUsage) × Routes). P r.1)
        (not (is_direct q.context.category) && not q.context.permission_granted) h
        (if_ind (λ (r : Outcome MagiModelError (Option MagiModelUsage) × Routes). P r.1)
          (is_high_impact q.context.category && not q.context.explicit_confirmation) h tried)
