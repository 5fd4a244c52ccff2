-- ===== src/OAuth/Redirect.antt =====
-- gateway/app/oauth_transactions.py: which redirect targets are allowed, how long a state lives and
-- what a state looks like. The library's URL parser, `str.strip` and `int` are parameters.
use Prim.Native.Char.{code}
use Prim.Native.String.{[] as empty_text, ◌∷◌ as char_then}
use magistrate.Prelude.{
  ℕ, String, Bool, false, ◌&&◌, ◌||◌, not, Option, none, some, List, [], ◌∷◌, ◌==◌, if◌then◌else◌,
  ltb, nat_eq, is_some,
}
unfoldable pub use magistrate.Prelude.Chars.{length, all_chars, is_upper, is_lower, is_digit}
use magistrate.Prelude.Int.{ℤ, pos, ltb_ℤ}

pub record SplitUrl : Type 0 where
  pub scheme : String
  pub netloc : String
  pub username : Option String
  pub password : Option String
  pub query : String
  pub fragment : String
  pub hostname : Option String

-- `urlsplit` gives none where it raises ValueError; `redirects` and `state_ttl` are the variables of
-- the environment, the first split at its commas.
pub record Env : Type 0 where
  pub urlsplit : String → Option SplitUrl
  pub lower : String → String
  pub strip : String → String
  pub parse_int : String → Option ℤ
  pub redirects : Option (List String)
  pub state_ttl : Option String

abbrev pub is_empty : String → Bool
is_empty s = s == ""

-- The truth of an optional text.
abbrev pub truthy : Option String → Bool
truthy none = false
truthy (some s) = not (is_empty s)

-- `[a-z0-9+.-]`, in either case
abbrev pub is_scheme_char : ℕ → Bool
is_scheme_char c =
    is_upper c || is_lower c || is_digit c || nat_eq c b'+' || nat_eq c b'.' || nat_eq c b'-'

-- `[a-z][a-z0-9+.-]*`, in either case
unfoldable pub is_scheme : String → Bool
is_scheme empty_text = false
is_scheme (char_then c s) = (is_upper (code c) || is_lower (code c)) && all_chars is_scheme_char s

abbrev pub unsafe_scheme : String → Bool
unsafe_scheme s = s == "data" || s == "file" || s == "javascript" || s == "vbscript"

abbrev pub is_loopback : Option String → Bool
is_loopback none = false
is_loopback (some h) = h == "localhost" || h == "127.0.0.1" || h == "::1"

-- The tests after the URL has been taken apart.
unfoldable pub is_safe_parsed : Env → SplitUrl → Bool
is_safe_parsed env u =
    if is_empty u.scheme || is_empty u.netloc || truthy u.username || truthy u.password
    then false
    else if not (is_empty u.query) || not (is_empty u.fragment)
    then false
    else if unsafe_scheme (env.lower u.scheme)
    then false
    else if u.scheme == "http"
    then is_loopback u.hostname
    else if u.scheme == "https"
    then is_some u.hostname
    else is_scheme u.scheme

unfoldable pub is_safe_redirect_uri : Env → String → Bool
is_safe_redirect_uri env uri =
    if is_empty uri || ltb 2048 (length uri)
    then false
    else elim (env.urlsplit uri) [ none ↦ false | some u ↦ is_safe_parsed env u ]

abbrev pub default_redirect_uri : String
default_redirect_uri = "magistrate://account"

unfoldable pub keep_safe : Env → List String → List String
keep_safe env [] = []
keep_safe env (e ∷ es) =
    let rest = keep_safe env es in
    if not (is_empty (env.strip e)) && is_safe_redirect_uri env (env.strip e)
    then env.strip e ∷ rest
    else rest

unfoldable pub allowed_redirect_uris : Env → List String
allowed_redirect_uris env = elim env.redirects [
  | none ↦ keep_safe env (default_redirect_uri ∷ [])
  | some entries ↦ keep_safe env entries
]

unfoldable pub member : String → List String → Bool
member s [] = false
member s (t ∷ ts) = t == s || member s ts

unfoldable pub is_allowed_redirect_uri : Env → String → Bool
is_allowed_redirect_uri env uri =
    is_safe_redirect_uri env uri && member uri (allowed_redirect_uris env)

abbrev pub default_state_ttl : ℤ
default_state_ttl = pos 600

abbrev pub max_state_ttl : ℤ
max_state_ttl = pos 3600

abbrev pub bad_ttl : ℤ → Bool
bad_ttl ttl = ltb_ℤ ttl (pos 1) || ltb_ℤ max_state_ttl ttl

unfoldable pub state_ttl_seconds : Env → ℤ
state_ttl_seconds env = elim env.state_ttl [
  | none ↦ default_state_ttl
  | some configured ↦ elim (env.parse_int configured) [
    | none ↦ default_state_ttl
    | some ttl ↦ if bad_ttl ttl then default_state_ttl else ttl
  ]
]

-- `^[A-Za-z0-9_-]{43}$`
abbrev pub is_state_char : ℕ → Bool
is_state_char c = is_upper c || is_lower c || is_digit c || nat_eq c b'_' || nat_eq c b'-'

unfoldable pub is_state : String → Bool
is_state s = nat_eq (length s) 43 && all_chars is_state_char s
