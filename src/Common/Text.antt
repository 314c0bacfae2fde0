-- ===== src/Common/Text.antt =====
-- Python's string methods over the native texts.
use Prim.Native.Nat.{ℕ, zero, suc, ◌+◌}
use Prim.Native.Char.{Char, code}
use Prim.Native.String.{String, ◌++◌ as ◌<>◌}
use mathlib.Core.Path.{◌≡◌}
use native.Mathlib.Omega.{arith}
use text.Mathlib.TextLemmas.{nil-append, cons-append}
use mathlib.Core.Bool.{Bool, true, ◌&&◌, ◌||◌}
use text.Mathlib.Text.{starts_with}
use ops_inspection_system.Common.Tests.{leb, ltb, if◌then◌else◌}
use ops_inspection_system.Common.Equality.{◌==◌, contains, string_eq, number_eq}
use mathlib.Core.List.{List, [], ◌∷◌}

-- `text.endswith(suffix)`
unfoldable pub ends_with : String → String → Bool
ends_with String.[] suffix = suffix == ""
ends_with (String.◌∷◌ c s) suffix = String.◌∷◌ c s == suffix || ends_with s suffix

-- The white space outside the two ranges that `is_space` tests.
abbrev spaces : List ℕ
spaces = 32 ∷ 133 ∷ 160 ∷ 5760 ∷ 8232 ∷ 8233 ∷ 8239 ∷ 8287 ∷ 12288 ∷ []

-- `char.isspace()`
unfoldable pub is_space : Char → Bool
unfolding contains number_eq
is_space c =
    leb 9 (code c) && leb (code c) 13
    || leb 28 (code c) && leb (code c) 31
    || leb 8192 (code c) && leb (code c) 8202
    || contains spaces (code c)

unfoldable pub lstrip : String → String
unfolding is_space
lstrip String.[] = ""
lstrip (String.◌∷◌ c s) = let rest = lstrip s in if is_space c then rest else String.◌∷◌ c s

unfoldable pub rstrip : String → String
unfolding is_space
rstrip String.[] = ""
rstrip (String.◌∷◌ c s) =
    let rest = rstrip s in if rest == "" && is_space c then "" else String.◌∷◌ c rest

-- `text.strip()`
unfoldable pub strip : String → String
unfolding lstrip rstrip
strip s = rstrip (lstrip s)

-- `text.isascii()`
unfoldable pub is_ascii : String → Bool
is_ascii String.[] = true
is_ascii (String.◌∷◌ c s) = ltb (code c) 128 && is_ascii s

-- `text[:limit]`
unfoldable pub text_take : ℕ → String → String
text_take zero s = ""
text_take (suc n) String.[] = ""
text_take (suc n) (String.◌∷◌ c s) = String.◌∷◌ c (text_take n s)

-- `part in text`
unfoldable pub occurs_in : String → String → Bool
occurs_in part String.[] = part == ""
occurs_in part (String.◌∷◌ c s) = starts_with (String.◌∷◌ c s) part || occurs_in part s

-- The number of characters, `len(text)`.
unfoldable pub text_length : String → ℕ
text_length String.[] = 0
text_length (String.◌∷◌ c s) = suc (text_length s)

-- `text[start:]`
unfoldable pub text_drop : ℕ → String → String
text_drop zero s = s
text_drop (suc n) String.[] = ""
text_drop (suc n) (String.◌∷◌ c s) = text_drop n s

-- What a text begins with can be dropped.
pub text_drop-append : (s t : String) → text_drop (text_length s) (s <> t) ≡ t
unfolding text_drop text_length
text_drop-append String.[] t = nil-append t
text_drop-append (String.◌∷◌ c s) t = rw cons-append (text_drop-append s t)

pub text_length-append : (s t : String) → text_length (s <> t) ≡ text_length s + text_length t
unfolding text_length
text_length-append String.[] t = rw nil-append (omega arith)
text_length-append (String.◌∷◌ c s) t = rw cons-append (omega (arith, text_length-append s t))
