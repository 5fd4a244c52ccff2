-- ===== src/Boundary/Headers.antt =====
-- gateway/app/request_boundary.py: what the headers of an answer say, whatever the application put there.
use Prim.Native.Char.{code}
use Prim.Native.String.{[] as empty_text, ◌∷◌ as char_then}
use magistrate.Prelude.{
  String, ◌≡◌, refl, ap, ◌∙◌, Bool, true, false, ◌&&◌, List, [], ◌∷◌, ◌++◌, if◌then◌else◌, nat_eq,
  if_ind, arith, Bool-cases, inl, inr,
}
use magistrate.Prelude.Chars.{is_ignoring_case, starts_with}
use magistrate.Boundary.Request.{
  Header, values, without, base_headers, no_store, sandboxed, is_private, secured_headers,
}

-- Whether two texts have the same codes.
unfoldable same_codes : (a b : String) → Bool
same_codes empty_text empty_text = true
same_codes (char_then c a) (char_then d b) = nat_eq (code c) (code d) && same_codes a b
same_codes _ _ = false

-- A name is one of two names of headers only if these are the same.
both_names :
    (a b name : String)
    → is_ignoring_case a name ≡ true
    → is_ignoring_case b name ≡ true
    → same_codes a b ≡ true
unfolding is_ignoring_case same_codes
both_names empty_text empty_text empty_text x y = refl
both_names (char_then c a) (char_then d b) (char_then e name) x y =
    ground (arith, both_names a b name)
both_names empty_text (char_then d b) empty_text x y = absurd (cc)
both_names empty_text b (char_then e name) x y = absurd (cc)
both_names (char_then c a) b empty_text x y = absurd (cc)
both_names (char_then c a) empty_text (char_then e name) x y = absurd (cc)

values-append :
    (name : String) (a b : List Header) → values name (a ++ b) ≡ values name a ++ values name b
unfolding values
values-append name [] b = refl
values-append name ((k, v) ∷ a) b = elim (Bool-cases (is_ignoring_case name k)) [
  | inl it ↦ rw (it, values) (ap (λ (vs : List String). v ∷ vs) (values-append name a b))
  | inr not_it ↦ rw (not_it, values) (values-append name a b)
]

values-without_self :
    (name : String) (headers : List Header) → values name (without name headers) ≡ []
unfolding values without
values-without_self name [] = refl
values-without_self name ((k, v) ∷ headers) = elim (Bool-cases (is_ignoring_case name k)) [
  | inl it ↦ rw (it, without) (values-without_self name headers)
  | inr not_it ↦ rw (not_it, without, not_it, values) (values-without_self name headers)
]

values-without_other :
    (name removed : String) (headers : List Header)
    → same_codes name removed ≡ false
    → values name (without removed headers) ≡ values name headers
unfolding values without
values-without_other name removed [] differ = refl
values-without_other name removed ((k, v) ∷ headers) differ =
    let rest = values-without_other name removed headers differ in
    elim (Bool-cases (is_ignoring_case removed k)) [
      | inl gone ↦ elim (Bool-cases (is_ignoring_case name k)) [
        | inl it ↦ absurd (ground (arith, both_names name removed k it gone))
        | inr not_it ↦ rw (gone, without, not_it) rest
      ]
      | inr stays ↦ elim (Bool-cases (is_ignoring_case name k)) [
        | inl it ↦ rw (stays, without, it, values) (ap (λ (vs : List String). v ∷ vs) rest)
        | inr not_it ↦ rw (stays, without, not_it, values) rest
      ]
    ]

append_nil {ℓ} : {A : Type ℓ} (xs : List A) → xs ++ [] ≡ xs
append_nil [] = refl
append_nil (x ∷ xs) = ap (λ ys. x ∷ ys) (append_nil xs)

-- A header that is added is no value of another name.
values-added :
    (name added value : String) (headers : List Header)
    → is_ignoring_case name added ≡ false
    → values name (headers ++ ((added, value) ∷ [])) ≡ values name headers
unfolding values
values-added name added value headers differ =
    values-append name headers ((added, value) ∷ []) ∙ rw differ (append_nil (values name headers))

values-sandboxed :
    (name path : String) (headers : List Header)
    → is_ignoring_case name "content-security-policy" ≡ false
    → values name (sandboxed path headers) ≡ values name headers
values-sandboxed name path headers differ =
    if_ind (λ hs. values name hs ≡ values name headers) (starts_with "/uploads/" path)
      (values-added name "content-security-policy" "default-src 'none'; sandbox" headers differ)
      refl

values-no_store :
    (name path : String) (headers : List Header)
    → is_ignoring_case name "cache-control" ≡ false
    → same_codes name "cache-control" ≡ false
    → values name (no_store path headers) ≡ values name headers
values-no_store name path headers differ apart =
    if_ind (λ hs. values name hs ≡ values name headers) (is_private path)
      (values-added name "cache-control" "no-store" (without "cache-control" headers) differ
        ∙ values-without_other name "cache-control" headers apart)
      refl

-- The values of a name after the base headers and what follows them.
values-secured :
    (name path correlation : String) (headers : List Header)
    → is_ignoring_case name "content-security-policy" ≡ false
    → is_ignoring_case name "cache-control" ≡ false
    → same_codes name "cache-control" ≡ false
    → values name (secured_headers path correlation headers)
      ≡ values name (base_headers correlation headers)
unfolding secured_headers
values-secured name path correlation headers a b c =
    values-sandboxed name path (no_store path (base_headers correlation headers)) a
    ∙ values-no_store name path (base_headers correlation headers) b c

-- What the headers of an answer say.
pub record Secured (path correlation : String) (headers secured : List Header) : Type 0 where
  pub request_id : values "x-request-id" secured ≡ correlation ∷ []
  pub content_type : values "x-content-type-options" secured ≡ "nosniff" ∷ []
  pub referrer : values "referrer-policy" secured ≡ "no-referrer" ∷ []
  pub caching :
      values "cache-control" secured
      ≡ (if is_private path then "no-store" ∷ [] else values "cache-control" headers)

abbrev own : (correlation : String) → List Header
own correlation =
    ("x-request-id", correlation)
    ∷ ("x-content-type-options", "nosniff")
    ∷ ("referrer-policy", "no-referrer")
    ∷ []

-- The values of a name among the base headers, from those that the application's headers keep.
values-base :
    (name correlation : String) (headers : List Header) {kept : List String}
    → values name (
        without "referrer-policy"
          (without "x-content-type-options" (without "x-request-id" headers)))
      ≡ kept
    → values name (base_headers correlation headers) ≡ kept ++ values name (own correlation)
values-base name correlation headers same =
    values-append name _ (own correlation)
    ∙ ap (λ (vs : List String). vs ++ values name (own correlation)) same

request_id-base :
    (correlation : String) (headers : List Header)
    → values "x-request-id" (base_headers correlation headers) ≡ correlation ∷ []
unfolding values is_ignoring_case same_codes
request_id-base correlation headers = values-base "x-request-id" correlation headers (
    values-without_other "x-request-id" "referrer-policy" _ refl
    ∙ values-without_other "x-request-id" "x-content-type-options" _ refl
    ∙ values-without_self "x-request-id" headers)

content_type-base :
    (correlation : String) (headers : List Header)
    → values "x-content-type-options" (base_headers correlation headers) ≡ "nosniff" ∷ []
unfolding values is_ignoring_case same_codes
content_type-base correlation headers = values-base "x-content-type-options" correlation headers (
    values-without_other "x-content-type-options" "referrer-policy" _ refl
    ∙ values-without_self "x-content-type-options" _)

referrer-base :
    (correlation : String) (headers : List Header)
    → values "referrer-policy" (base_headers correlation headers) ≡ "no-referrer" ∷ []
unfolding values is_ignoring_case same_codes
referrer-base correlation headers =
    values-base "referrer-policy" correlation headers (values-without_self "referrer-policy" _)

caching-base :
    (correlation : String) (headers : List Header)
    → values "cache-control" (base_headers correlation headers) ≡ values "cache-control" headers
unfolding values is_ignoring_case same_codes
caching-base correlation headers =
    values-base "cache-control" correlation headers (
      values-without_other "cache-control" "referrer-policy" _ refl
      ∙ values-without_other "cache-control" "x-content-type-options" _ refl
      ∙ values-without_other "cache-control" "x-request-id" headers refl)
    ∙ append_nil (values "cache-control" headers)

values-cache_control :
    (path : String) (headers : List Header)
    → values "cache-control" (no_store path headers)
      ≡ (if is_private path then "no-store" ∷ [] else values "cache-control" headers)
unfolding values is_ignoring_case
values-cache_control path headers = elim (Bool-cases (is_private path)) [
  | inl hidden ↦ rw hidden (
      values-append "cache-control" (without "cache-control" headers)
        (("cache-control", "no-store") ∷ [])
      ∙ ap (λ (vs : List String). vs ++ ("no-store" ∷ []))
          (values-without_self "cache-control" headers))
  | inr open_path ↦ rw open_path refl
]

-- Whatever headers the application sets, an answer has exactly one request id, which is the gateway's
-- own, exactly the gateway's settings for content types and referrers, and under a private path
-- exactly no-store as its caching; elsewhere its caching is the application's.
pub secured_headers-Secured :
    (path correlation : String) (headers : List Header)
    → Secured path correlation headers (secured_headers path correlation headers)
unfolding secured_headers is_ignoring_case same_codes
secured_headers-Secured path correlation headers = record {
  request_id =
      values-secured "x-request-id" path correlation headers refl refl refl
      ∙ request_id-base correlation headers;
  content_type =
      values-secured "x-content-type-options" path correlation headers refl refl refl
      ∙ content_type-base correlation headers;
  referrer =
      values-secured "referrer-policy" path correlation headers refl refl refl
      ∙ referrer-base correlation headers;
  caching =
      values-sandboxed "cache-control" path (no_store path (base_headers correlation headers)) refl
      ∙ values-cache_control path (base_headers correlation headers)
      ∙ ap (λ (vs : List String). if is_private path then "no-store" ∷ [] else vs)
          (caching-base correlation headers);
}
