-- ===== src/Stripe/Json.antt =====
-- gateway/app/billing.py: the JSON values of an event, and how the code looks into them.
use magistrate.Prelude.{ℕ, String, Bool, true, false, Option, none, some, ◌==◌, if◌then◌else◌}
use magistrate.Prelude.Int.{ℤ, pos}

mutual
  pub data Json : Type 0 where
    null : Json
    boolean : Bool → Json
    int : ℤ → Json
    -- Any other number, and whether it counts as true.
    float : Bool → Json
    text : String → Json
    array : Items → Json
    object : Fields → Json

  pub data Items : Type 0 where
    none_left : Items
    item : Json → Items → Items

  -- The entries of a dictionary, whose keys differ.
  pub data Fields : Type 0 where
    empty : Fields
    field : String → Json → Fields → Fields

unfoldable pub field_of : String → Fields → Json
field_of k empty = Json.null
field_of k (field j v fields) = if j == k then v else field_of k fields

-- `value.get(k)` if the value is a dictionary, and `None` otherwise.
unfoldable pub get : String → Json → Json
get k (Json.object fields) = field_of k fields
get k _ = Json.null

-- `value if isinstance(value, str) else None`
unfoldable pub as_text : Json → Option String
as_text (Json.text s) = some s
as_text _ = none

-- `value if type(value) is int else None`
unfoldable pub as_int : Json → Option ℤ
as_int (Json.int n) = some n
as_int _ = none

-- An integer that is not negative.
unfoldable pub as_time : Json → Option ℕ
as_time (Json.int (pos n)) = some n
as_time _ = none

unfoldable pub is_object : Json → Bool
is_object (Json.object fields) = true
is_object _ = false

unfoldable pub is_true : Json → Bool
is_true (Json.boolean b) = b
is_true _ = false

-- `value == s` for a text s.
unfoldable pub is_text : Json → String → Bool
is_text (Json.text t) s = t == s
is_text _ s = false
