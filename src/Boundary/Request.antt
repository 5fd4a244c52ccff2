-- ===== src/Boundary/Request.antt =====
-- gateway/app/request_boundary.py: the limit of a path, the declared length of a body, and the headers of
-- an answer.
use magistrate.Prelude.{
  ℕ, ◌+◌, ◌*◌, String, Bool, ◌&&◌, ◌||◌, not, Option, none, some, List, [], ◌∷◌, ◌++◌, ◌==◌,
  if◌then◌else◌, ltb,
}
use magistrate.Prelude.Chars.{
  length, all_chars, is_digit, starts_with, is_ignoring_case, value_of_digits,
}

abbrev pub default_body_limit : ℕ
default_body_limit = 1_000_000

abbrev pub upload_body_limit : ℕ
upload_body_limit = 50 * 1024 * 1024 + 1_100_000

abbrev pub voice_body_limit : ℕ
voice_body_limit = 25 * 1024 * 1024 + 1_000_000

abbrev pub avatar_body_limit : ℕ
avatar_body_limit = 5 * 1024 * 1024 + 64_000

unfoldable pub body_limit : (path : String) → ℕ
body_limit path =
    if path == "/api/v1/uploads"
    then upload_body_limit
    else if path == "/api/v1/voice/transcribe"
    then voice_body_limit
    else if path == "/api/v1/account/avatar"
    then avatar_body_limit
    else default_body_limit

-- A header: its name and its value.
abbrev pub Header : Type 0
Header = String × String

unfoldable pub values : (name : String) → List Header → List String
values name [] = []
values name ((k, v) ∷ headers) =
    if is_ignoring_case name k then v ∷ values name headers else values name headers

abbrev pub is_number : String → Bool
is_number text = not (text == "") && all_chars is_digit text

abbrev pub is_too_long : (limit : ℕ) → String → Bool
is_too_long limit text = ltb 12 (length text) || ltb limit (value_of_digits 0 text)

-- The code with which a request is refused for its declared length, if it is.
unfoldable pub length_error : (limit : ℕ) → (lengths : List String) → Option ℕ
length_error limit [] = none
length_error limit (text ∷ []) =
    if not (is_number text) then some 400 else if is_too_long limit text then some 413 else none
length_error limit (text ∷ other ∷ more) = some 400

-- The headers without those of a name.
unfoldable pub without : (name : String) → List Header → List Header
without name [] = []
without name ((k, v) ∷ headers) =
    if is_ignoring_case name k then without name headers else (k, v) ∷ without name headers

abbrev pub is_private : (path : String) → Bool
is_private path =
    starts_with "/api/" path || starts_with "/internal/" path || starts_with "/uploads/" path

abbrev pub base_headers : (correlation : String) → List Header → List Header
base_headers correlation headers =
    without "referrer-policy" (without "x-content-type-options" (without "x-request-id" headers))
    ++ (("x-request-id", correlation)
        ∷ ("x-content-type-options", "nosniff")
        ∷ ("referrer-policy", "no-referrer")
        ∷ [])

abbrev pub no_store : (path : String) → List Header → List Header
no_store path headers =
    if is_private path
    then without "cache-control" headers ++ (("cache-control", "no-store") ∷ [])
    else headers

abbrev pub sandboxed : (path : String) → List Header → List Header
sandboxed path headers =
    if starts_with "/uploads/" path
    then headers ++ (("content-security-policy", "default-src 'none'; sandbox") ∷ [])
    else headers

-- The headers of a started answer.
unfoldable pub secured_headers : (path correlation : String) → List Header → List Header
secured_headers path correlation headers =
    sandboxed path (no_store path (base_headers correlation headers))
