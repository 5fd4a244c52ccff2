-- ===== src/Routing/Authority.antt =====
-- gateway/app/magi_routing.py: no provider is asked without the authority that a turn needs.
use magistrate.Prelude.{
  String, ◌≡◌, ◌≢◌, ◌∙◌, refl, Bool, true, false, ◌&&◌, not, arith, inl, inr, Bool-cases,
}
use magistrate.Routing.Model.{
  RouteCategory, Pattern, classify_turn, requires_high_impact_confirmation, is_direct,
  is_high_impact,
}
use magistrate.Routing.Store.{Routes}
use magistrate.Routing.Select.{Env}
use magistrate.Routing.Failover.{World, Request, complete_routed}

abbrev unpermitted : Request → Bool
unpermitted q = not (is_direct q.context.category) && not q.context.permission_granted

abbrev unconfirmed : Request → Bool
unconfirmed q = is_high_impact q.context.category && not q.context.explicit_confirmation

-- For a turn with command authority that is bound to no decision and whose text asks for an action of
-- high impact, a request that is classified from it changes the ledger of routes, and so asks a provider,
-- only with both the permission and the explicit confirmation.
pub complete_routed-authorized :
    (env : Env) (w : World) (q : Request) (routes : Routes) (finds : Pattern → String → Bool)
    (content : String)
    → q.context.category ≡ classify_turn finds content true false
    → finds Pattern.high_impact content ≡ true
    → (complete_routed env w q routes).1 ≢ routes
    → (q.context.permission_granted ≡ true) × (q.context.explicit_confirmation ≡ true)
unfolding complete_routed classify_turn requires_high_impact_confirmation
complete_routed-authorized env w q routes finds content classified found changed =
    let high : q.context.category ≡ RouteCategory.high_impact_action = classified ∙ rw found refl in
    elim (Bool-cases (unpermitted q)) [
      | inl refused ↦ absurd (changed (rw (refused, complete_routed) refl))
      | inr permitted ↦ elim (Bool-cases (unconfirmed q)) [
        | inl refused ↦ absurd (changed (rw (permitted, refused, complete_routed) refl))
        | inr confirmed ↦
            (ground (arith, rw high at permitted), ground (arith, rw high at confirmed))
      ]
    ]
