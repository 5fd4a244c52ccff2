-- ===== src/Routing/Bound.antt =====
-- gateway/app/magi_routing.py: how many attempts a request makes.
use magistrate.Prelude.{
  ◌∙◌, eq_refl, if◌then◌else◌, ℕ, zero, suc, ◌+◌, ◌*◌, ◌≤◌, String, ◌≡◌, refl, Bool, true, false,
  ◌&&◌, not, Option, none, some, List, [], ◌∷◌, ◌==◌, arith, if_ind, Bool-cases, inl, inr,
}
use magistrate.Prelude.Outcome.{Outcome, ok, Outcome-cases}
use magistrate.Prelude.Tables.{update, total}
use magistrate.Routing.Model.{ModelCandidate, MagiModelUsage, is_direct, is_high_impact}
use magistrate.Routing.Store.{MagiModelError, Route, Routes, settle, settled, is_reserved}
use magistrate.Routing.Select.{Env, eligible}
use magistrate.Routing.Effects.{attempt_reserve-rows}
use magistrate.Routing.Failover.{
  Reply, answer, model_error, other_error, cancelled, World, Request, Turn, done, raised, next,
  attempts, react, proceed, attempt_reserve, candidates_from, complete_routed, no_model,
  estimated_input, settle_reply, call_provider, must_raise, needs_confirmation,
}

-- The routes of a request on the ledger; each of its attempts at a provider adds one.
unfoldable pub count : (request_id : String) → Routes → ℕ
count request_id = total (λ r. if r.request_id == request_id then 1 else 0)

unfoldable pub length : {A : Type 0} → List A → ℕ
length [] = 0
length (x ∷ xs) = 1 + length xs

count-update :
    (request_id k : String) (f : Route → Route) (routes : Routes)
    → ((r : Route) → (f r).request_id ≡ r.request_id)
    → count request_id (update k f routes) ≡ count request_id routes
unfolding count total update
count-update request_id k f [] same = refl
count-update request_id k f ((j, r) ∷ routes) same =
    ground (arith, same r, count-update request_id k f routes same)

count-settle :
    (request_id key : String) (usage : Option MagiModelUsage) (actual : Option ℕ)
    (error : Option MagiModelError) (uncertain : Bool) (now : ℕ) (routes : Routes)
    → count request_id (settle key usage actual error uncertain now routes)
      ≡ count request_id routes
unfolding settle
count-settle request_id key usage actual error uncertain now routes =
    count-update request_id key (settled usage actual error uncertain now) routes
      (λ r. if_ind (λ (x : Route). x.request_id ≡ r.request_id) (is_reserved r.state) refl refl)

module _ (env : Env) (w : World) (q : Request) where
  count-settle_reply :
      (c : ModelCandidate) (ordinal : ℕ) (reply : Reply) (routes : Routes)
      → count q.request_id (settle_reply w c ordinal reply routes) ≡ count q.request_id routes
  unfolding settle_reply
  count-settle_reply c ordinal (answer usage) routes = count-settle _ _ _ _ _ _ _ routes
  count-settle_reply c ordinal (model_error e) routes = count-settle _ _ _ _ _ _ _ routes
  count-settle_reply c ordinal other_error routes = count-settle _ _ _ _ _ _ _ routes
  count-settle_reply c ordinal cancelled routes = refl

  count-held :
      (c : ModelCandidate) (estimate ordinal : ℕ) (fallback : Option String) (routes : Routes)
      {held : Routes}
      → attempt_reserve env w q c estimate ordinal fallback routes ≡ ok held
      → count q.request_id held ≡ 1 + count q.request_id routes
  unfolding count total
  count-held c estimate ordinal fallback routes e =
      rw (attempt_reserve-rows env w q c estimate ordinal fallback routes e, eq_refl q.request_id)
        refl

  count-react :
      (estimate ordinal n : ℕ) (reply : Reply) (booked : Routes)
      (again : MagiModelError → Turn × ℕ × Routes)
      → count q.request_id booked ≤ n
      → ((e : MagiModelError) → count q.request_id (again e).2 ≤ n)
      → count q.request_id (react env estimate ordinal reply booked again).2 ≤ n
  unfolding react
  count-react estimate ordinal n (answer usage) booked again h k = h
  count-react estimate ordinal n other_error booked again h k = h
  count-react estimate ordinal n cancelled booked again h k = h
  count-react estimate ordinal n (model_error e) booked again h k =
      elim (Bool-cases (must_raise env estimate e)) [ inl y ↦ rw y h | inr x ↦ rw x (k e) ]

  -- Other tasks add no route for this request.
  abbrev pub IsAlone : Type 0
  IsAlone =
      (n : ℕ) (rows : Routes) → count q.request_id (w.meanwhile n rows) ≡ count q.request_id rows

  count-attempts :
      IsAlone
      → (c : ModelCandidate) (estimate : ℕ) (fallback : Option String) (left ordinal : ℕ)
        (last : MagiModelError) (routes : Routes)
      → count q.request_id (attempts env w q c estimate fallback left ordinal last routes).2
        ≤ left + count q.request_id routes
  unfolding attempts
  count-attempts alone c estimate fallback zero ordinal last routes = omega arith
  count-attempts alone c estimate fallback (suc left) ordinal last routes =
      elim (Outcome-cases (attempt_reserve env w q c estimate (suc ordinal) fallback routes)) [
        | inl (e, failed) ↦ elim (Bool-cases (e.code == "model_credits_exhausted")) [
          | inl y ↦ rw (failed, attempts, y) (omega arith)
          | inr n ↦ rw (failed, attempts, n) (omega arith)
        ]
        | inr (held, booked) ↦
            let reply = call_provider env w c (suc ordinal) in
            let after = settle_reply w c (suc ordinal) reply (w.meanwhile (suc ordinal) held) in
            let one : count q.request_id after ≡ 1 + count q.request_id routes =
              count-settle_reply c (suc ordinal) reply (w.meanwhile (suc ordinal) held)
              ∙ alone (suc ordinal) held
              ∙ count-held c estimate (suc ordinal) fallback routes booked in
            rw (booked, attempts)
              (count-react estimate (suc ordinal) (suc left + count q.request_id routes) reply after
                _ (omega (arith, one))
                (λ e. omega (
                  arith,
                  one,
                  count-attempts alone c estimate fallback left (suc ordinal) e after,
                )))
      ]

  abbrev pub tries_each : ℕ
  tries_each = env.catalog.policy.max_same_model_retries + 1

  count-proceed :
      (n : ℕ) (turn : Turn) (routes : Routes)
      (others : MagiModelError → Outcome MagiModelError (Option MagiModelUsage) × Routes)
      → count q.request_id routes ≤ n
      → ((e : MagiModelError) → count q.request_id (others e).1 ≤ n)
      → count q.request_id (proceed turn routes others).1 ≤ n
  unfolding proceed
  count-proceed n (done usage) routes others h k = h
  count-proceed n (raised e) routes others h k = h
  count-proceed n (next e) routes others h k = k e

  count-candidates_from :
      IsAlone
      → (first : Bool) (fallback : Option String) (ordinal : ℕ) (last : MagiModelError)
        (cs : List (ModelCandidate × ℕ)) (routes : Routes)
      → count q.request_id (candidates_from env w q first fallback ordinal last cs routes).1
        ≤ length cs * tries_each + count q.request_id routes
  unfolding candidates_from length
  count-candidates_from alone first fallback ordinal last [] routes = omega arith
  count-candidates_from alone first fallback ordinal last ((c, estimate) ∷ rest) routes =
      let tried =
        attempts env w q c estimate fallback (env.catalog.policy.max_same_model_retries + 1) ordinal
          last routes in
      let mine =
        count-attempts alone c estimate fallback (env.catalog.policy.max_same_model_retries + 1)
          ordinal last routes in
      elim (Bool-cases (needs_confirmation env q first estimate)) [
        | inl y ↦ rw (y, candidates_from) (omega arith)
        | inr n ↦
            rw (n, candidates_from)
              (count-proceed _ tried.0 tried.2 _ (grind (arith, mine)) (λ e. grind (
                arith,
                mine,
                count-candidates_from alone false (some c.id) tried.1 e rest tried.2,
              )))
      ]

  -- If other tasks add no route for the request while its providers are waited for, the request adds no more
  -- routes than the eligible candidates times the tries of each, which are one more than the retries.
  pub count-complete_routed :
      IsAlone
      → (routes : Routes)
      → count q.request_id (complete_routed env w q routes).1
        ≤ length (eligible env q.context (estimated_input q) routes) * tries_each
          + count q.request_id routes
  unfolding complete_routed
  count-complete_routed alone routes =
      let n =
        length (eligible env q.context (estimated_input q) routes) * tries_each
        + count q.request_id routes in
      let tried =
        count-candidates_from alone true none 0 no_model
          (eligible env q.context (estimated_input q) routes) routes in
      let fits = λ (r : Outcome MagiModelError (Option MagiModelUsage) × Routes).
        count q.request_id r.1 ≤ n in
      if_ind fits (not (is_direct q.context.category) && not q.context.permission_granted)
        (omega arith)
        (if_ind fits (is_high_impact q.context.category && not q.context.explicit_confirmation)
          (omega arith) tried)
