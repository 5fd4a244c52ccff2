-- ===== src/Harness/Best.antt =====
-- gateway/app/execution_routing.py: the profile that is chosen is eligible, and none is cheaper.
use mathlib.Core.Option.{some-injective}
use mathlib.Core.Path.{subst}
use magistrate.Prelude.{
  true, false, ◌&&◌, Option, Bool-cases, not, ◌||◌, ◌⊎◌, ◌∙◌, ap, ◌≡◌, refl, sym, none, some, List,
  [], ◌∷◌, arith, Option-cases, inl, inr,
}
use magistrate.Prelude.Int.{ℤ, pos, ◌≤ℤ◌, int_laws}
use magistrate.Prelude.Outcome.{ok, >>=-eq-ok, ok-injective}
use magistrate.Harness.Select.{
  too_slow, RouteFacts, Facts, all_read, facts_of, satisfies, entry_of, Strategy,
  ExecutionRequirements, Profile, Entry, HarnessRoute, Compared, consider, eligible,
  compare_entries, smallest, choose, select, route_of,
}

-- An entry of a list.
abbrev pub Among : Entry → List Entry → Type 0
Among e [] = ⊥
Among e (x ∷ xs) = (e ≡ x) ⊎ Among e xs

-- No entry of a list costs less.
abbrev pub Least : Entry → List Entry → Type 0
Least e [] = Unit
Least e (x ∷ xs) = (e.cost ≤ℤ x.cost) × Least e xs

smaller-cost :
    (s : Strategy) (a b : Entry) → compare_entries s a b ≡ Compared.smaller → a.cost ≤ℤ b.cost
unfolding compare_entries
smaller-cost s a b h = ground arith

not_smaller-cost :
    (s : Strategy) (a b : Entry) → compare_entries s a b ≡ Compared.not_smaller → b.cost ≤ℤ a.cost
unfolding compare_entries
not_smaller-cost s a b h = ground arith

Least-trans : (a b : Entry) (xs : List Entry) → a.cost ≤ℤ b.cost → Least b xs → Least a xs
Least-trans a b [] h least = tt
Least-trans a b (x ∷ xs) h (le, least) = (omega (int_laws, h, le), Least-trans a b xs h least)

skip : (e best x : Entry) (xs : List Entry) → Among e (best ∷ xs) → Among e (best ∷ x ∷ xs)
skip e best x xs (inl here) = inl here
skip e best x xs (inr there) = inr (inr there)

smallest-Least :
    (s : Strategy) (best : Entry) (es : List Entry) {e : Entry}
    → smallest s best es ≡ ok e
    → Among e (best ∷ es) × Least e (best ∷ es)
unfolding smallest
smallest-Least s best [] h =
    let same : best ≡ _ = ok-injective h in
    (inl (sym same), (subst (λ (e : Entry). e.cost ≤ℤ best.cost) same (omega int_laws), tt))
smallest-Least s best (x ∷ xs) {e} h =
    compared (λ b k. smallest-Least s b xs {e = e} k) (compare_entries s x best) refl
  where
    compared :
        ((b : Entry) → smallest s b xs ≡ ok e → Among e (b ∷ xs) × Least e (b ∷ xs))
        → (c : Compared) → compare_entries s x best ≡ c
        → Among e (best ∷ x ∷ xs) × Least e (best ∷ x ∷ xs)
    compared rest Compared.smaller k =
        let (among, (le, least)) = rest x (rw (k, smallest) at h) in
        (inr among, (omega (int_laws, le, smaller-cost s x best k), (le, least)))
    compared rest Compared.not_smaller k =
        let (among, (le, least)) = rest best (rw (k, smallest) at h) in
        (skip e best x xs among, (le, (omega (int_laws, le, not_smaller-cost s x best k), least)))
    compared rest Compared.no_order k = absurd (cc (rw (k, smallest) at h))

-- What a profile has to be: verified and available, with numbers that could be read and that meet the
-- strategy and the requirements.
pub record Meets (s : Strategy) (q : ExecutionRequirements) (p : Profile) (r : RouteFacts)
    (f : Facts) : Type 0 where
  pub verified : p.verified ≡ true
  pub available : p.available ≡ true
  pub routing : p.routing ≡ some r
  pub reliability : r.reliability ≡ some f.reliability
  pub estimated_cost : r.estimated_cost ≡ some f.estimated_cost
  pub reasoning : r.reasoning ≡ some f.reasoning
  pub context_tokens : r.context_tokens ≡ some f.context_tokens
  pub latency_ms : r.latency_ms ≡ some f.latency_ms
  pub reliable : s.min_reliability ≤ℤ f.reliability
  pub priced : pos 0 ≤ℤ f.estimated_cost
  pub reasons : q.reasoning ≤ℤ f.reasoning
  pub fits : q.context_tokens ≤ℤ f.context_tokens
  pub tools : q.tools ≡ true → r.tools ≡ true
  pub multimodal : q.multimodal ≡ true → r.multimodal ≡ true
  pub quick : (most : ℤ) → q.max_latency_ms ≡ some most → f.latency_ms ≤ℤ most

all_read-some :
    (a b c d e : Option ℤ) {f : Facts}
    → all_read a b c d e ≡ some f
    → (a ≡ some f.reliability)
      × (b ≡ some f.estimated_cost)
      × (c ≡ some f.reasoning)
      × (d ≡ some f.context_tokens)
      × (e ≡ some f.latency_ms)
unfolding all_read
all_read-some none b c d e h = absurd (cc)
all_read-some (some a) none c d e h = absurd (cc)
all_read-some (some a) (some b) none d e h = absurd (cc)
all_read-some (some a) (some b) (some c) none e h = absurd (cc)
all_read-some (some a) (some b) (some c) (some d) none h = absurd (cc)
all_read-some (some a) (some b) (some c) (some d) (some e) {f} h =
    let same = some-injective _ f h in
    (
      ap (λ (f : Facts). some f.reliability) same,
      ap (λ (f : Facts). some f.estimated_cost) same,
      ap (λ (f : Facts). some f.reasoning) same,
      ap (λ (f : Facts). some f.context_tokens) same,
      ap (λ (f : Facts). some f.latency_ms) same,
    )

satisfies-Meets :
    (s : Strategy) (q : ExecutionRequirements) (p : Profile) (r : RouteFacts) (f : Facts)
    → p.verified ≡ true
    → p.available ≡ true
    → p.routing ≡ some r
    → facts_of r ≡ some f
    → satisfies s q r f ≡ true
    → Meets s q p r f
unfolding satisfies
satisfies-Meets s q p r f v a routed read h =
    let (r1, r2, r3, r4, r5) =
      all_read-some r.reliability r.estimated_cost r.reasoning r.context_tokens r.latency_ms read in
    record {
      verified = v;
      available = a;
      routing = routed;
      reliability = r1;
      estimated_cost = r2;
      reasoning = r3;
      context_tokens = r4;
      latency_ms = r5;
      reliable = ground arith;
      priced = ground arith;
      reasons = ground arith;
      fits = ground arith;
      tools = λ needed. ground arith;
      multimodal = λ needed. ground arith;
      quick = λ most limit. ground arith;
    }

Meets-satisfies :
    (s : Strategy) (q : ExecutionRequirements) (p : Profile) (r : RouteFacts) (f : Facts)
    → Meets s q p r f
    → satisfies s q r f ≡ true
unfolding satisfies
Meets-satisfies s q p r f m =
    let reliable = m.reliable in
    let priced = m.priced in
    let reasons = m.reasons in
    let fits = m.fits in
    let slow : too_slow q.max_latency_ms f.latency_ms ≡ false =
      elim (Option-cases q.max_latency_ms) [
        | inl unlimited ↦ rw unlimited refl
        | inr (most, limit) ↦ let quick = m.quick most limit in rw limit (ground arith)
      ] in
    let tools : (q.tools && not r.tools) ≡ false = elim (Bool-cases q.tools) [
      | inl needed ↦ rw (needed, m.tools needed) refl
      | inr unused ↦ rw unused refl
    ] in
    let multimodal : (q.multimodal && not r.multimodal) ≡ false = elim (Bool-cases q.multimodal) [
      | inl needed ↦ rw (needed, m.multimodal needed) refl
      | inr unused ↦ rw unused refl
    ] in
    rw (slow, tools, multimodal) (ground arith)

Meets-consider :
    (s : Strategy) (q : ExecutionRequirements) (p : Profile) (r : RouteFacts) (f : Facts)
    → Meets s q p r f
    → consider s q p ≡ some (entry_of q p f)
unfolding consider satisfies all_read
Meets-consider s q p r f m =
    let good : satisfies s q r f ≡ true = Meets-satisfies s q p r f m in
    let read : facts_of r ≡ some f =
      rw (m.reliability, m.estimated_cost, m.reasoning, m.context_tokens, m.latency_ms) refl in
    let verified = m.verified in
    let available = m.available in let routed = m.routing in ground arith

consider-Meets :
    (s : Strategy) (q : ExecutionRequirements) (p : Profile) {e : Entry}
    → consider s q p ≡ some e
    → (r : RouteFacts) × (f : Facts) × Meets s q p r f × (e ≡ entry_of q p f)
unfolding consider
consider-Meets s q p {e} h = elim (Bool-cases (not p.verified || not p.available)) [
  | inl unfit ↦ absurd (cc (rw (unfit, consider) at h))
  | inr fit ↦ elim (Option-cases p.routing) [
    | inl none_there ↦ absurd (cc (rw (fit, none_there, consider) at h))
    | inr (r, routed) ↦ elim (Option-cases (facts_of r)) [
      | inl unread ↦ absurd (cc (rw (fit, routed, unread, consider) at h))
      | inr (f, read) ↦ elim (Bool-cases (satisfies s q r f)) [
        | inr short ↦ absurd (cc (rw (fit, routed, read, short, consider) at h))
        | inl good ↦
            let same = some-injective _ e (rw (fit, routed, read, good, consider) at h) in
            (
              r,
              f,
              satisfies-Meets s q p r f (ground arith) (ground arith) routed read good,
              sym same,
            )
      ]
    ]
  ]
]

-- A profile of a list.
abbrev pub Listed : Profile → List Profile → Type 0
Listed p [] = ⊥
Listed p (x ∷ xs) = (p ≡ x) ⊎ Listed p xs

eligible-none :
    (s : Strategy) (q : ExecutionRequirements) (p : Profile) (ps : List Profile)
    → consider s q p ≡ none
    → eligible s q (p ∷ ps) ≡ eligible s q ps
unfolding eligible
eligible-none s q p ps h = rw (h, eligible) refl

eligible-some :
    (s : Strategy) (q : ExecutionRequirements) (p : Profile) (ps : List Profile) {x : Entry}
    → consider s q p ≡ some x
    → eligible s q (p ∷ ps) ≡ x ∷ eligible s q ps
unfolding eligible
eligible-some s q p ps h = rw (h, eligible) refl

-- A profile of a list that meets what is asked for, and its entry.
record Offer (s : Strategy) (q : ExecutionRequirements) (e : Entry) (profiles : List Profile)
    : Type 0 where
  profile : Profile
  stated : RouteFacts
  facts : Facts
  listed : Listed profile profiles
  meets : Meets s q profile stated facts
  same : e ≡ entry_of q profile facts

later_Offer :
    (s : Strategy) (q : ExecutionRequirements) (e : Entry) (p : Profile) (ps : List Profile)
    → Offer s q e ps
    → Offer s q e (p ∷ ps)
later_Offer s q e p ps o = record {
  profile = o.profile;
  stated = o.stated;
  facts = o.facts;
  listed = inr o.listed;
  meets = o.meets;
  same = o.same;
}

Among-Offer :
    (s : Strategy) (q : ExecutionRequirements) (e : Entry) (ps : List Profile)
    → Among e (eligible s q ps)
    → Offer s q e ps
unfolding eligible
Among-Offer s q e [] h = absurd h
Among-Offer s q e (p ∷ ps) h = elim (Option-cases (consider s q p)) [
  | inl skipped ↦
      later_Offer s q e p ps
        (Among-Offer s q e ps (subst (Among e) (eligible-none s q p ps skipped) h))
  | inr (x, taken) ↦
      offered (Among-Offer s q e ps) taken (subst (Among e) (eligible-some s q p ps taken) h)
]
  where
    offered :
        {x : Entry}
        → (Among e (eligible s q ps) → Offer s q e ps)
        → consider s q p ≡ some x
        → Among e (x ∷ eligible s q ps)
        → Offer s q e (p ∷ ps)
    offered rest taken (inl here) =
        let (r, f, meets, same) = consider-Meets s q p taken in
        record {
          profile = p;
          stated = r;
          facts = f;
          listed = inl refl;
          meets = meets;
          same = here ∙ same;
        }
    offered rest taken (inr there) = later_Offer s q e p ps (rest there)

-- The least entry costs no more than any profile that meets what is asked for.
Least-Meets :
    (s : Strategy) (q : ExecutionRequirements) (e : Entry) (ps : List Profile) (p : Profile)
    (r : RouteFacts) (f : Facts)
    → Least e (eligible s q ps)
    → Listed p ps
    → Meets s q p r f
    → e.cost ≤ℤ f.estimated_cost
unfolding eligible
Least-Meets s q e [] p r f least none_there m = absurd none_there
Least-Meets s q e (x ∷ ps) p r f least (inl same) m =
    let taken =
      subst (λ (x : Profile). consider s q x ≡ some (entry_of q p f)) same
        (Meets-consider s q p r f m) in
    (subst (Least e) (eligible-some s q x ps taken) least).0
Least-Meets s q e (x ∷ ps) p r f least (inr there) m = elim (Option-cases (consider s q x)) [
  | inl skipped ↦
      Least-Meets s q e ps p r f (subst (Least e) (eligible-none s q x ps skipped) least) there m
  | inr (y, taken) ↦
      Least-Meets s q e ps p r f (subst (Least e) (eligible-some s q x ps taken) least).1 there m
]

-- What a choice says of the profiles.
pub record Chosen (s : Strategy) (q : ExecutionRequirements) (profiles : List Profile)
    (route : HarnessRoute) : Type 0 where
  pub profile : Profile
  pub stated : RouteFacts
  pub facts : Facts
  pub listed : Listed profile profiles
  pub meets : Meets s q profile stated facts
  pub routed : route ≡ record {
    profile_id = profile.id;
    harness = profile.harness;
    provider = profile.provider;
    model = profile.model;
    variant = profile.variant;
    estimated_cost_usd = s.show facts.estimated_cost;
  }
  pub least :
      (other : Profile) (r : RouteFacts) (f : Facts)
      → Listed other profiles
      → Meets s q other r f
      → facts.estimated_cost ≤ℤ f.estimated_cost

choose-Least :
    (s : Strategy) (es : List Entry) {e : Entry} → choose s es ≡ ok e → Among e es × Least e es
unfolding choose
choose-Least s [] h = absurd (cc)
choose-Least s (x ∷ xs) h = smallest-Least s x xs h

-- A route that is selected is that of a profile of the list that is verified and available and whose
-- reliability, cost, reasoning, context, latency and flags are stated and meet the strategy and the
-- requirements; no other such profile of the list has a lower estimated cost.
pub select-Chosen :
    (s : Strategy) (profiles : List Profile) (q : ExecutionRequirements) {route : HarnessRoute}
    → select s profiles q ≡ ok route
    → Chosen s q profiles route
unfolding select
select-Chosen s profiles q {route} h =
    let (e, chosen, h1) = >>=-eq-ok (choose s (eligible s q profiles)) _ h in
    let (among, least) = choose-Least s (eligible s q profiles) chosen in
    let o = Among-Offer s q e profiles among in
    let cheap = subst (λ (e : Entry). Least e (eligible s q profiles)) o.same least in
    record {
      profile = o.profile;
      stated = o.stated;
      facts = o.facts;
      listed = o.listed;
      meets = o.meets;
      routed = sym (ok-injective h1) ∙ ap (route_of s) o.same;
      least = λ p r f listed m.
          Least-Meets s q (entry_of q o.profile o.facts) profiles p r f cheap listed m;
    }
