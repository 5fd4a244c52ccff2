-- ===== src/OAuth/Tests.antt =====
-- gateway/app/oauth_transactions.py: one connection, its callback and a replayed callback.
use Prim.Native.String.{◌++◌ as concat}
use magistrate.Prelude.{◌≤◌, String, ◌≡◌, refl, true, none, some, [], ◌∷◌, arith, ◌+◌}
use magistrate.Prelude.Outcome.{Outcome, err, ok}
use magistrate.Prelude.Tables.{lookup, update}
use magistrate.OAuth.Redirect.{
  Env, SplitUrl, length, all_chars, is_scheme, is_safe_parsed, is_safe_redirect_uri, keep_safe,
  allowed_redirect_uris, member, is_allowed_redirect_uri, state_ttl_seconds, is_state,
}
use magistrate.OAuth.Store.{
  OAuthError, OAuthTransaction, Store, create, consume, consume_row, consumed,
  validate_state_format, expired, already_consumed,
}
use magistrate.OAuth.Lifecycle.{callback, Consumed, consume-Consumed, successes, successes-le-one}
use magistrate.OAuth.RoundTrip.{
  Lifetime, configured_ttl, state_ttl_seconds-bounds, made, consume-create, consume-create_late,
}

program : Unit {0}
unfolding lookup update length all_chars is_scheme is_safe_parsed is_safe_redirect_uri keep_safe
    allowed_redirect_uris member is_allowed_redirect_uri state_ttl_seconds is_state create consume
    consume_row validate_state_format
program = tt

abbrev app_url : SplitUrl
app_url = record {
  scheme = "magistrate";
  netloc = "account";
  username = none;
  password = none;
  query = "";
  fragment = "";
  hostname = some "account";
}

abbrev env : Env
env = record {
  urlsplit = λ uri. some app_url;
  lower = λ s. s;
  strip = λ s. s;
  parse_int = λ s. none;
  redirects = none;
  state_ttl = none;
}

abbrev state : String
state = "abcdefghijklmnopqrstuvwxyz_0123456789-ABCDE"

abbrev hash : String → String
hash s = concat "h:" s

abbrev value : Outcome OAuthError (String × Store) → String × Store
value (err e) = ("", [])
value (ok a) = a

abbrev connected : String × Store
connected = value (create env hash "ada" "github" "magistrate://account" state 100 none [])

abbrev tx : OAuthTransaction
tx = made env "ada" "github" "magistrate://account" 100 none

-- The transaction that comes back, and a second callback.
replayed :
    consume hash (some state) "github" none 300 (update (hash state) (consumed 200) connected.1)
    ≡ err already_consumed
unfolding program
replayed = refl

consume-create_example :
    (consume hash (some state) "github" (some "ada") 200 connected.1
      ≡ ok (tx, update (hash state) (consumed 200) connected.1))
    × (is_allowed_redirect_uri env "magistrate://account" ≡ true)
    × (tx.expires_at ≤ 100 + 3600)
unfolding program
consume-create_example =
    consume-create env hash "ada" "github" "magistrate://account" state 100 200 none [] refl refl
      (omega arith)

consume-create_late_example :
    consume hash (some state) "google" (some "bob") 700 connected.1 ≡ err expired
unfolding program
consume-create_late_example =
    consume-create_late env hash "ada" "github" "magistrate://account" state 100 700 none []
      "google" (some "bob") refl refl refl refl (omega arith)

consume-Consumed_example :
    (s : String) × (some state ≡ some s)
    × (is_state s ≡ true)
    × Consumed
        (hash s)
        "github"
        none
        200
        tx
        connected.1
        (update (hash state) (consumed 200) connected.1)
unfolding program
consume-Consumed_example = consume-Consumed hash (some state) "github" none 200 connected.1 refl

successes-le-one_example :
    successes env hash state
      (callback (some state) "github" none 200 ∷ callback (some state) "github" none 201 ∷ [])
      connected.1
    ≤ 1
successes-le-one_example =
    successes-le-one env hash state
      (callback (some state) "github" none 200 ∷ callback (some state) "github" none 201 ∷ [])
      connected.1

state_ttl_seconds-bounds_example : Lifetime (configured_ttl env) (state_ttl_seconds env)
state_ttl_seconds-bounds_example = state_ttl_seconds-bounds env
