-- ===== src/OAuth/Store.antt =====
-- gateway/app/oauth_transactions.py: `OAuthTransactionStore`. A transaction that raises is rolled
-- back, so an error carries no state; the writes of `consume` are serialised by the database.
use magistrate.Prelude.{
  ℕ, ◌+◌, String, Bool, false, ◌&&◌, not, Option, none, some, ◌∷◌, ◌==◌, if◌then◌else◌, ltb, leb,
  is_some,
}
use magistrate.Prelude.Int.{ℤ, pos_part}
use magistrate.Prelude.Outcome.{Outcome, err, ok, ◌>>=◌, ◌>>◌, raise_if, or_raise}
use magistrate.Prelude.Tables.{Table, lookup, update}
use magistrate.OAuth.Redirect.{
  Env, is_empty, is_allowed_redirect_uri, bad_ttl, state_ttl_seconds, is_state,
}

pub data OAuthError : Type 0 where
  malformed_state invalid_provider invalid_principal disallowed_redirect invalid_lifetime :
      OAuthError
  unknown_state already_consumed expired provider_mismatch principal_mismatch : OAuthError
  integrity_error : OAuthError

pub record OAuthTransaction : Type 0 where
  pub principal_id : String
  pub provider : String
  pub redirect_uri : String
  pub expires_at : ℕ

-- A row: a transaction, and when it was consumed. The key of the table is the hash of the state.
pub record Row : Type 0 where
  pub transaction : OAuthTransaction
  pub open transaction use *
  pub consumed_at : Option ℕ

abbrev pub Store : Type 0
Store = Table Row

abbrev pub chosen_ttl : Env → Option ℤ → ℤ
chosen_ttl env none = state_ttl_seconds env
chosen_ttl env (some ttl) = ttl

-- `state` is what `secrets.token_urlsafe` returned, and `hash` the digest of a state.
unfoldable pub create :
    Env
    → (hash : String → String) → (principal provider redirect : String) → (state : String)
    → (now : ℕ) → (ttl : Option ℤ) → Store
    → Outcome OAuthError (String × Store)
create env hash principal provider redirect state now ttl store = do
  raise_if (is_empty principal) invalid_principal
  raise_if (is_empty provider) invalid_provider
  raise_if (not (is_allowed_redirect_uri env redirect)) disallowed_redirect
  let seconds = chosen_ttl env ttl
  raise_if (bad_ttl seconds) invalid_lifetime
  raise_if (is_some (lookup (hash state) store)) integrity_error
  ok (
    state,
    (
      hash state,
      record {
        transaction = record {
          principal_id = principal;
          provider = provider;
          redirect_uri = redirect;
          expires_at = now + pos_part seconds;
        };
        consumed_at = none;
      },
    )
        ∷ store,
  )

-- A state is a text of the pattern.
unfoldable pub validate_state_format : Option String → Outcome OAuthError String
validate_state_format none = err malformed_state
validate_state_format (some s) = do raise_if (not (is_state s)) malformed_state; ok s

abbrev pub names_no_one : Option String → Bool
names_no_one none = false
names_no_one (some p) = is_empty p

abbrev pub is_other : Option String → String → Bool
is_other none principal = false
is_other (some p) principal = not (principal == p)

-- The condition of the UPDATE that consumes a row.
abbrev pub is_open : (now : ℕ) → Row → Bool
is_open now row = not (is_some row.consumed_at) && ltb now row.expires_at

abbrev pub consumed : (now : ℕ) → Row → Row
consumed now row = if is_open now row then record row { consumed_at = some now } else row

-- The tests on the row of a state, and the update.
unfoldable pub consume_row :
    (key provider : String)
    → (expected : Option String) → (now : ℕ) → Row
    → Store
    → Outcome OAuthError (OAuthTransaction × Store)
consume_row key provider expected now row store = do
  raise_if (is_some row.consumed_at) already_consumed
  raise_if (leb row.expires_at now) expired
  raise_if (not (row.provider == provider)) provider_mismatch
  raise_if (is_other expected row.principal_id) principal_mismatch
  raise_if (not (is_open now row)) already_consumed
  ok (row.transaction, update key (consumed now) store)

unfoldable pub consume :
    (hash : String → String)
    → (state : Option String) → (provider : String) → (expected : Option String) → (now : ℕ) → Store
    → Outcome OAuthError (OAuthTransaction × Store)
consume hash state provider expected now store = do
  valid ← validate_state_format state
  raise_if (is_empty provider) invalid_provider
  raise_if (names_no_one expected) invalid_principal
  row ← or_raise (lookup (hash valid) store) unknown_state
  consume_row (hash valid) provider expected now row store
