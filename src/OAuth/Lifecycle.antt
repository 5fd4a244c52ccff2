-- ===== src/OAuth/Lifecycle.antt =====
-- gateway/app/oauth_transactions.py: a state is consumed once, by whom it was made for.
use mathlib.Core.Path.{subst}
use magistrate.Prelude.{
  ℕ, ◌+◌, ◌≤◌, ◌<◌, String, ◌≡◌, refl, Bool, true, false, ◌&&◌, Option, none, some, List, [], ◌∷◌,
  ◌==◌, eq_iff, if◌then◌else◌, arith, Bool-cases, inl, inr, is_some,
}
use magistrate.Prelude.Int.{ℤ}
use magistrate.Prelude.Outcome.{
  err, ok, >>=-eq-ok, raise_if, or_raise, or_raise-eq-ok, Outcome-cases,
}
use magistrate.Prelude.Tables.{lookup, update, lookup-update, lookup-update_self}
use magistrate.OAuth.Redirect.{Env, is_empty, is_state}
use magistrate.OAuth.Store.{
  OAuthTransaction, Row, Store, create, consume, consume_row, consumed, is_other,
  validate_state_format, names_no_one,
}

-- Whether the row under a key has been consumed.
abbrev pub spent : String → Store → Bool
spent k store = elim (lookup k store) [ none ↦ false | some row ↦ is_some row.consumed_at ]

-- What a successful callback had to find, and what it leaves behind.
pub record Consumed (key provider : String) (expected : Option String) (now : ℕ)
    (tx : OAuthTransaction) (before after : Store) : Type 0 where
  pub row : Row
  pub found : lookup key before ≡ some row
  pub unused : row.consumed_at ≡ none
  pub alive : now < row.expires_at
  pub provided : row.provider ≡ provider
  pub owned : is_other expected row.principal_id ≡ false
  pub same : tx ≡ row.transaction
  pub written : after ≡ update key (consumed now) before

consume_row-Consumed :
    (key provider : String) (expected : Option String) (now : ℕ) (row : Row) (store : Store)
    {s : OAuthTransaction × Store}
    → lookup key store ≡ some row
    → consume_row key provider expected now row store ≡ ok s
    → Consumed key provider expected now s.0 store s.1
unfolding consume_row
consume_row-Consumed key provider expected now row store found e = record {
  row = row;
  found = found;
  unused = ground arith;
  alive = ground arith;
  provided = ground (arith, eq_iff row.provider provider);
  owned = ground arith;
  same = ground arith;
  written = ground arith;
}

-- A callback succeeds only for a well-formed state whose row is unused, unexpired and made for the
-- provider, and for the expected principal where one is named; it yields the stored transaction
-- and marks that row.
pub consume-Consumed :
    (hash : String → String) (state : Option String) (provider : String) (expected : Option String)
    (now : ℕ) (store : Store) {tx : OAuthTransaction} {after : Store}
    → consume hash state provider expected now store ≡ ok (tx, after)
    → (s : String) × (state ≡ some s)
      × (is_state s ≡ true)
      × Consumed (hash s) provider expected now tx store after
unfolding consume validate_state_format
consume-Consumed hash none provider expected now store e = absurd (cc)
consume-Consumed hash (some s) provider expected now store e =
    let (valid, format, e1) = >>=-eq-ok (validate_state_format (some s)) _ e in
    let (_, _, e2) = >>=-eq-ok (raise_if (is_empty provider) _) _ e1 in
    let (_, _, e3) = >>=-eq-ok (raise_if (names_no_one expected) _) _ e2 in
    let (row, found, e4) = >>=-eq-ok (or_raise (lookup (hash valid) store) _) _ e3 in
    let same : s ≡ valid = ground arith in
    (
      s,
      refl,
      ground arith,
      rw same (
          consume_row-Consumed (hash valid) provider expected now row store
            (or_raise-eq-ok (lookup (hash valid) store) _ found) e4),
    )

-- A consumed row stays consumed, whichever row is marked.
spent-update :
    (k j : String) (now : ℕ) (store : Store)
    → spent k store ≡ true
    → spent k (update j (consumed now) store) ≡ true
spent-update k j now store h = ground (arith, lookup-update j k (consumed now) store, eq_iff j k)

consume-spent :
    (hash : String → String) (s provider : String) (expected : Option String) (now : ℕ)
    (store : Store) {tx : OAuthTransaction} {after : Store}
    → consume hash (some s) provider expected now store ≡ ok (tx, after)
    → (spent (hash s) store ≡ false) × (spent (hash s) after ≡ true)
consume-spent hash s provider expected now store {tx} {after} e =
    let (s', named, _, c) = consume-Consumed hash (some s) provider expected now store e in
    let key = hash s in
    let same : hash s' ≡ key = cc in
    let found : lookup key store ≡ some c.row =
      subst (λ k. lookup k store ≡ some c.row) same c.found in
    let written : after ≡ update key (consumed now) store =
      subst (λ k. after ≡ update k (consumed now) store) same c.written in
    (
      ground (arith, c.unused),
      rw written
          (ground (arith, lookup-update_self key (consumed now) store found, c.unused, c.alive)),
    )

-- What reaches the store: a provider's callback, or the start of a connection.
pub data Event : Type 0 where
  callback :
      (state : Option String) (provider : String) (expected : Option String) → (now : ℕ) → Event
  connect : (principal provider redirect state : String) → (now : ℕ) → (ttl : Option ℤ) → Event

module _ (env : Env) (hash : String → String) where
  -- The store after an event; one that raises is rolled back.
  unfoldable pub after_event : Event → Store → Store
  after_event (callback state provider expected now) store =
      elim (consume hash state provider expected now store) [ err x ↦ store | ok s ↦ s.1 ]
  after_event (connect principal provider redirect state now ttl) store =
      elim (create env hash principal provider redirect state now ttl store) [
        | err x ↦ store
        | ok s ↦ s.1
      ]

  -- Whether an event is a callback for the state that succeeds.
  unfoldable pub succeeds : String → Event → Store → Bool
  succeeds s (callback none provider expected now) store = false
  succeeds s (callback (some t) provider expected now) store =
      t == s
      && elim (consume hash (some t) provider expected now store) [ err x ↦ false | ok r ↦ true ]
  succeeds s (connect principal provider redirect state now ttl) store = false

  -- How often the state is consumed in a run, in the order in which the database serves it.
  unfoldable pub successes : String → List Event → Store → ℕ
  successes s [] store = 0
  successes s (e ∷ es) store =
      (if succeeds s e store then 1 else 0) + successes s es (after_event e store)

  callback-spent :
      (k : String) (state : Option String) (provider : String) (expected : Option String) (now : ℕ)
      (store : Store)
      → spent k store ≡ true
      → spent k (after_event (callback state provider expected now) store) ≡ true
  unfolding after_event
  callback-spent k state provider expected now store h =
      elim (Outcome-cases (consume hash state provider expected now store)) [
        | inl (x, failed) ↦ rw (failed, spent, after_event) h
        | inr ((tx, after), done) ↦
            let (s, _, _, c) = consume-Consumed hash state provider expected now store done in
            rw (done, spent, after_event, c.written) (spent-update k (hash s) now store h)
      ]

  connect-spent :
      (k principal provider redirect state : String) (now : ℕ) (ttl : Option ℤ) (store : Store)
      → spent k store ≡ true
      → spent k (after_event (connect principal provider redirect state now ttl) store) ≡ true
  unfolding after_event create lookup
  connect-spent k principal provider redirect state now ttl store h =
      ground (arith, eq_iff (hash state) k)

  event-spent :
      (k : String) (e : Event) (store : Store)
      → spent k store ≡ true
      → spent k (after_event e store) ≡ true
  event-spent k (callback state provider expected now) store h =
      callback-spent k state provider expected now store h
  event-spent k (connect principal provider redirect state now ttl) store h =
      connect-spent k principal provider redirect state now ttl store h

  -- A success marks the row, which was not marked before.
  succeeds-spent :
      (s : String) (e : Event) (store : Store)
      → succeeds s e store ≡ true
      → (spent (hash s) store ≡ false) × (spent (hash s) (after_event e store) ≡ true)
  unfolding succeeds after_event
  succeeds-spent s (callback none provider expected now) store h = absurd (cc)
  succeeds-spent s (callback (some t) provider expected now) store h =
      elim (Outcome-cases (consume hash (some t) provider expected now store)) [
        | inl (x, failed) ↦ absurd (ground arith)
        | inr ((tx, after), done) ↦
            let same : t ≡ s = ground (arith, eq_iff t s) in
            let (before, marked) = consume-spent hash t provider expected now store done in
            (
              subst (λ x. spent (hash x) store ≡ false) same before,
              subst
                  (λ x.
                    spent (hash x) (after_event (callback (some t) provider expected now) store)
                    ≡ true)
                  same (rw (done, spent, after_event) marked),
            )
      ]
  succeeds-spent s (connect principal provider redirect state now ttl) store h = absurd (cc)

  spent-successes :
      (s : String) (es : List Event) (store : Store)
      → spent (hash s) store ≡ true
      → successes s es store ≡ 0
  unfolding successes
  spent-successes s [] store h = refl
  spent-successes s (e ∷ es) store h = ground (
    arith,
    succeeds-spent s e store,
    spent-successes s es (after_event e store) (event-spent (hash s) e store h),
  )

  -- In every run of callbacks and new connections, from every store, a state is consumed at most
  -- once.
  pub successes-le-one : (s : String) (es : List Event) (store : Store) → successes s es store ≤ 1
  unfolding successes
  successes-le-one s [] store = omega arith
  successes-le-one s (e ∷ es) store = elim (Bool-cases (succeeds s e store)) [
    | inl hit ↦
        rw (hit, spent-successes s es (after_event e store) (succeeds-spent s e store hit).1)
          (omega arith)
    | inr miss ↦ rw miss (omega (arith, successes-le-one s es (after_event e store)))
  ]
