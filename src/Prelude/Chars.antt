-- ===== src/Prelude/Chars.antt =====
-- Texts by their code points, for the patterns and the bounds of names.
use Prim.Native.Char.{code}
use Prim.Native.Nat.{ℕ, suc, ◌+◌, ◌-◌, ◌*◌}
use Prim.Native.String.{String, [] as empty_text, ◌∷◌ as char_then}
use mathlib.Core.Bool.{Bool, true, false, ◌&&◌, ◌||◌}
use text.Mathlib.Text.{◌==◌}
use magistrate.Prelude.Tests.{leb, nat_eq, if◌then◌else◌}

-- `len(text)`
unfoldable pub length : String → ℕ
length empty_text = 0
length (char_then c s) = suc (length s)

unfoldable pub all_chars : (ℕ → Bool) → String → Bool
all_chars p empty_text = true
all_chars p (char_then c s) = p (code c) && all_chars p s

abbrev pub is_upper : ℕ → Bool
is_upper c = leb b'A' c && leb c b'Z'

abbrev pub is_lower : ℕ → Bool
is_lower c = leb b'a' c && leb c b'z'

abbrev pub is_digit : ℕ → Bool
is_digit c = leb b'0' c && leb c b'9'

abbrev pub is_alphanumeric : ℕ → Bool
is_alphanumeric c = is_upper c || is_lower c || is_digit c

-- `^[A-Za-z0-9]` and then at most `most` characters that pass a test.
unfoldable pub is_name : (most : ℕ) → (ℕ → Bool) → String → Bool
is_name most p empty_text = false
is_name most p (char_then c s) = is_alphanumeric (code c) && leb (length s) most && all_chars p s

-- `[A-Za-z0-9._-]`
abbrev pub is_id_char : ℕ → Bool
is_id_char c = is_alphanumeric c || nat_eq c b'.' || nat_eq c b'_' || nat_eq c b'-'

-- `name.startswith(prefix)`
unfoldable pub starts_with : (prefix name : String) → Bool
starts_with empty_text name = true
starts_with (char_then c prefix) empty_text = false
starts_with (char_then c prefix) (char_then d name) =
    if char_then c "" == char_then d "" then starts_with prefix name else false

abbrev pub lower_code : ℕ → ℕ
lower_code c = if is_upper c then c + 32 else c

-- `name.lower() == wanted`, of ASCII letters
unfoldable pub is_ignoring_case : (wanted name : String) → Bool
is_ignoring_case empty_text empty_text = true
is_ignoring_case (char_then c wanted) (char_then d name) =
    nat_eq (code c) (lower_code (code d)) && is_ignoring_case wanted name
is_ignoring_case _ _ = false

-- The number that digits write.
unfoldable pub value_of_digits : (before : ℕ) → String → ℕ
value_of_digits before empty_text = before
value_of_digits before (char_then c s) = value_of_digits (before * 10 + (code c - b'0')) s
