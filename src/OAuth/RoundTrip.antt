-- ===== src/OAuth/RoundTrip.antt =====
-- gateway/app/oauth_transactions.py: what `create` stores is what `consume` gives back.
use mathlib.Core.Option.{some-injective}
use magistrate.Prelude.{
  ℕ, ◌+◌, ◌≤◌, ◌<◌, String, ◌≡◌, true, false, Option, none, some, ◌∷◌, eq_refl, arith, refl,
  if◌then◌else◌, Option-cases, inl, inr,
}
use magistrate.Prelude.Int.{ℤ, pos, pos_part, ◌≤ℤ◌}
use magistrate.Prelude.Outcome.{err, ok}
use magistrate.Prelude.Tables.{lookup, update}
use magistrate.OAuth.Redirect.{
  Env, is_empty, is_allowed_redirect_uri, bad_ttl, is_state, state_ttl_seconds,
}
use magistrate.OAuth.Store.{
  OAuthTransaction, Store, create, consume, consume_row, consumed, validate_state_format,
  chosen_ttl, expired, names_no_one,
}

-- The number that a variable of the environment holds.
abbrev pub configured_ttl : Env → Option ℤ
configured_ttl env = elim env.state_ttl [ none ↦ none | some text ↦ env.parse_int text ]

-- The lifetime that is used for a number that was configured, or for none.
pub record Lifetime (configured : Option ℤ) (ttl : ℤ) : Type 0 where
  pub lower : pos 1 ≤ℤ ttl
  pub upper : ttl ≤ℤ pos 3600
  pub used : (n : ℤ) → configured ≡ some n → pos 1 ≤ℤ n → n ≤ℤ pos 3600 → ttl ≡ n
  pub absent : configured ≡ none → ttl ≡ pos 600
  pub low : (n : ℤ) → configured ≡ some n → n ≤ℤ pos 0 → ttl ≡ pos 600
  pub high : (n : ℤ) → configured ≡ some n → pos 3601 ≤ℤ n → ttl ≡ pos 600

default-Lifetime : Lifetime none (pos 600)
default-Lifetime = record {
  lower = ground arith;
  upper = ground arith;
  used = λ n h a b. absurd (cc);
  absent = λ h. refl;
  low = λ n h a. absurd (cc);
  high = λ n h a. absurd (cc);
}

checked-Lifetime : (ttl : ℤ) → Lifetime (some ttl) (if bad_ttl ttl then pos 600 else ttl)
checked-Lifetime ttl = record {
  lower = ground arith;
  upper = ground arith;
  used = λ n h a b. let same = some-injective ttl n h in ground arith;
  absent = λ h. absurd (cc);
  low = λ n h a. let same = some-injective ttl n h in ground arith;
  high = λ n h a. let same = some-injective ttl n h in ground arith;
}

-- Whatever the variable of the environment holds, the lifetime is from one second to an hour: it is the
-- number that the variable holds if that lies in this range, and ten minutes if the variable is not set,
-- holds no number, or holds one below 1 or above 3600.
pub state_ttl_seconds-bounds : (env : Env) → Lifetime (configured_ttl env) (state_ttl_seconds env)
unfolding state_ttl_seconds
state_ttl_seconds-bounds env = elim (Option-cases env.state_ttl) [
  | inl unset ↦ rw unset default-Lifetime
  | inr (text, set) ↦ elim (Option-cases (env.parse_int text)) [
    | inl unread ↦ rw (set, unread) default-Lifetime
    | inr (n, read) ↦ rw (set, read) (checked-Lifetime n)
  ]
]

-- The transaction that a connection stores.
abbrev pub made :
    Env → (principal provider redirect : String) → (now : ℕ) → Option ℤ → OAuthTransaction
made env principal provider redirect now ttl = record {
  principal_id = principal;
  provider = provider;
  redirect_uri = redirect;
  expires_at = now + pos_part (chosen_ttl env ttl);
}

-- What a successful `create` has checked and stored.
pub record Created (env : Env) (hash : String → String) (principal provider redirect state : String)
    (now : ℕ) (ttl : Option ℤ) (before : Store) (s : String) (after : Store) : Type 0 where
  pub named : is_empty principal ≡ false
  pub provided : is_empty provider ≡ false
  pub allowed : is_allowed_redirect_uri env redirect ≡ true
  pub lower : now < (made env principal provider redirect now ttl).expires_at
  pub upper : (made env principal provider redirect now ttl).expires_at ≤ now + 3600
  pub returned : s ≡ state
  pub stored :
      after
      ≡ (
        hash state,
        record { transaction = made env principal provider redirect now ttl; consumed_at = none },
      )
        ∷ before

pub create-Created :
    (env : Env) (hash : String → String) (principal provider redirect state : String) (now : ℕ)
    (ttl : Option ℤ) (store : Store) {s : String} {after : Store}
    → create env hash principal provider redirect state now ttl store ≡ ok (s, after)
    → Created env hash principal provider redirect state now ttl store s after
unfolding create
create-Created env hash principal provider redirect state now ttl store e = ground arith

-- The state of a new connection, if it has the form of a state, gives its principal back exactly
-- what was stored, at any time before its lifetime, of at most an hour, is over.
pub consume-create :
    (env : Env) (hash : String → String) (principal provider redirect state : String)
    (now later : ℕ) (ttl : Option ℤ) (store : Store) {s : String} {after : Store}
    → create env hash principal provider redirect state now ttl store ≡ ok (s, after)
    → is_state state ≡ true
    → later < (made env principal provider redirect now ttl).expires_at
    → (consume hash (some s) provider (some principal) later after
        ≡ ok (made env principal provider redirect now ttl, update (hash s) (consumed later) after))
      × (is_allowed_redirect_uri env redirect ≡ true)
      × ((made env principal provider redirect now ttl).expires_at ≤ now + 3600)
unfolding consume validate_state_format consume_row lookup
consume-create env hash principal provider redirect state now later ttl store {s} {after} e form
      early =
    let c = create-Created env hash principal provider redirect state now ttl store e in
    (
      rw (c.returned, c.stored)
          (ground (
            arith,
            c.provided,
            c.named,
            eq_refl (hash state),
            eq_refl provider,
            eq_refl principal,
          )),
      c.allowed,
      c.upper,
    )

-- Once the lifetime of a new connection is over, its state, if it has the form of a state, is refused as
-- expired on the store that the connection left: to every principal and to a caller without one, and
-- under every provider, if neither name is empty.
pub consume-create_late :
    (env : Env) (hash : String → String) (principal provider redirect state : String)
    (now later : ℕ) (ttl : Option ℤ) (store : Store) (asked : String) (caller : Option String)
    {s : String} {after : Store}
    → create env hash principal provider redirect state now ttl store ≡ ok (s, after)
    → is_state state ≡ true
    → is_empty asked ≡ false
    → names_no_one caller ≡ false
    → (made env principal provider redirect now ttl).expires_at ≤ later
    → consume hash (some s) asked caller later after ≡ err expired
unfolding consume validate_state_format consume_row lookup
consume-create_late env hash principal provider redirect state now later ttl store asked caller {s}
      {after} e form named who late =
    let c = create-Created env hash principal provider redirect state now ttl store e in
    rw (c.returned, c.stored) (ground (arith, eq_refl (hash state)))
