-- ===== src/Stripe/Verify.antt =====
-- gateway/app/billing.py: `StripeWebhookProcessor.verify` and the envelope of an event.
use Prim.Native.String.{◌++◌ as concat}
use magistrate.Prelude.{
  ℕ, ◌-◌, ◌*◌, ◌+◌, String, Bool, false, ◌&&◌, ◌||◌, not, Option, none, some, List, [], ◌∷◌, ◌==◌,
  if◌then◌else◌, ltb,
}
use magistrate.Prelude.Int.{ℤ, pos, negsuc}
use magistrate.Billing.Db.{
  Result, ok, ◌>>=◌, ◌>>◌, or_raise, raise_if, webhook_too_large, webhook_signature_invalid,
  webhook_invalid, type_error,
}
use magistrate.Prelude.Chars.{all_chars}
use magistrate.Stripe.Json.{Json, get, as_text, as_time, is_object}

-- The libraries that read a payload. `parts` are the pieces of the header between commas that have
-- an equals sign, each split at the first; `int` and `show_int` are Python's `int` and `str`; `hmac`
-- and `sha256` are the hexadecimal digests; `parse` is `json.loads`, or none if it raises.
pub record Wire : Type 0 where
  pub byte_length : String → ℕ
  pub parts : String → List (String × String)
  pub int : String → Option ℤ
  pub show_int : ℤ → String
  pub hmac : (secret signed : String) → String
  pub sha256 : String → String
  pub parse : String → Option Json

abbrev pub max_webhook_bytes : ℕ
max_webhook_bytes = 256 * 1024

-- `fields.get("t", [""])[0]`
unfoldable pub first_part : String → List (String × String) → String
first_part k [] = ""
first_part k ((j, v) ∷ parts) = if j == k then v else first_part k parts

-- `any(... for candidate in fields.get(k, []))`, whose `compare_digest` raises at a text that is not ASCII
unfoldable pub any_part : (k expected : String) → List (String × String) → Bool
any_part k expected [] = false
any_part k expected ((j, v) ∷ parts) = j == k && expected == v || any_part k expected parts

abbrev pub is_ascii : ℕ → Bool
is_ascii c = ltb c 128

-- Whether a candidate that is no ASCII text is compared before one that matches.
unfoldable pub any_foreign : (k expected : String) → List (String × String) → Bool
any_foreign k expected [] = false
any_foreign k expected ((j, v) ∷ parts) =
    let rest = any_foreign k expected parts in
    if j == k then not (all_chars is_ascii v) || not (expected == v) && rest else rest

unfoldable pub timestamp_of : Wire → List (String × String) → ℤ
timestamp_of wire parts = elim (wire.int (first_part "t" parts)) [ some n ↦ n | none ↦ pos 0 ]

-- `abs(current - timestamp) > 300`
unfoldable pub far_from : (current : ℕ) → ℤ → Bool
far_from current (pos t) = ltb 300 (current - t) || ltb 300 (t - current)
far_from current (negsuc t) = ltb 300 (current + t + 1)

unfoldable pub verify : Wire → (payload signature secret : String) → (now : ℕ) → Result (Unit {0})
verify wire payload signature secret now = do
  raise_if (ltb max_webhook_bytes (wire.byte_length payload)) webhook_too_large
  let parts = wire.parts signature
  let timestamp = timestamp_of wire parts
  raise_if (far_from now timestamp) webhook_signature_invalid
  let expected = wire.hmac secret (concat (wire.show_int timestamp) (concat "." payload))
  raise_if (any_foreign "v1" expected parts) type_error
  raise_if (not (any_part "v1" expected parts)) webhook_signature_invalid

-- An event whose envelope has been checked.
pub record Event : Type 0 where
  pub id : String
  pub kind : String
  pub created : ℕ
  pub body : Json

-- `type(created) is int and created > 0`
abbrev pub positive : Json → Option ℕ
positive created = elim (as_time created) [
  | none ↦ none
  | some n ↦ if ltb 0 n then some n else none
]

unfoldable pub envelope : Wire → (payload : String) → Result Event
envelope wire payload = do
  event ← or_raise (wire.parse payload) webhook_invalid
  id ← or_raise (as_text (get "id" event)) webhook_invalid
  kind ← or_raise (as_text (get "type" event)) webhook_invalid
  created ← or_raise (positive (get "created" event)) webhook_invalid
  let body = get "object" (get "data" event)
  raise_if (not (is_object body)) webhook_invalid
  ok (record { id = id; kind = kind; created = created; body = body })
