-- ===== src/Common/Text.antt =====
-- What the source uses of Python's `str`: searches, splits and the character classes of its regexes.
use Prim.Native.Nat.{ℕ, suc}
use Prim.Native.Char.{Char, code}
use Prim.Native.String.{String, [], ◌∷◌}
use mathlib.Core.Bool.{Bool, true, false, not, ◌&&◌, ◌||◌}
use mathlib.Core.Option.{Option, none, some}
use mathlib.Core.List.{List, [], ◌∷◌}
use mathlib.Core.Path.{◌≡◌, refl}
use native.Mathlib.Omega.{arith}
use text.Mathlib.Text.{◌==◌ as str_eq}
use ormas_subnet.Common.Tests.{leb, ◌==◌, if◌then◌else◌}

-- `len(s)`, in code points
abbrev pub len : String → ℕ
len [] = 0
len (c ∷ s) = suc (len s)

-- Every code point, or some code point, of a text passes a test.
abbrev pub all_codes : (ℕ → Bool) → String → Bool
all_codes p [] = true
all_codes p (c ∷ s) = p (code c) && all_codes p s

abbrev pub any_code : (ℕ → Bool) → String → Bool
any_code p [] = false
any_code p (c ∷ s) = p (code c) || any_code p s

-- `s.startswith(p)`
abbrev pub starts_with : String → String → Bool
starts_with [] s = true
starts_with (c ∷ p) [] = false
starts_with (c ∷ p) (d ∷ s) = (code c == code d) && starts_with p s

-- `s.endswith(chr(k))`
abbrev pub ends_with : ℕ → String → Bool
ends_with k [] = false
ends_with k (c ∷ []) = code c == k
ends_with k (c ∷ d ∷ s) = ends_with k (d ∷ s)

abbrev pub push_head : Char → List String → List String
push_head c [] = (c ∷ []) ∷ []
push_head c (p ∷ ps) = (c ∷ p) ∷ ps

-- `s.split(chr(k))`
abbrev pub split : ℕ → String → List String
split k [] = "" ∷ []
split k (c ∷ s) = let rest = split k s in if code c == k then "" ∷ rest else push_head c rest

-- `chr(k) in s`
abbrev pub has_code : ℕ → String → Bool
has_code k s = any_code (λ c. c == k) s

-- `str.isspace` of one code point
unfoldable pub is_space : ℕ → Bool
is_space c =
    (leb 9 c && leb c 13)
    || (leb 28 c && leb c 32)
    || (c == 133)
    || (c == 160)
    || (c == 5760)
    || (leb 8192 c && leb c 8202)
    || (c == 8232)
    || (c == 8233)
    || (c == 8239)
    || (c == 8287)
    || (c == 12288)

-- `s.strip()` is not empty
unfoldable pub nonblank : String → Bool
unfolding is_space
nonblank s = any_code (λ c. not (is_space c)) s

abbrev pub is_digit : ℕ → Bool
is_digit c = leb b'0' c && leb c b'9'

-- [0-9a-f]
abbrev pub is_lower_hex : ℕ → Bool
is_lower_hex c = is_digit c || (leb b'a' c && leb c b'f')

-- [A-Za-z0-9]
abbrev pub is_alnum : ℕ → Bool
is_alnum c = is_digit c || (leb b'A' c && leb c b'Z') || (leb b'a' c && leb c b'z')

-- `re.fullmatch("[0-9a-f]{n}", s)`
unfoldable pub hex_of_length : ℕ → String → Bool
hex_of_length n s = (len s == n) && all_codes is_lower_hex s

-- `s[len(p):]` where `s.startswith(p)`
abbrev pub strip_prefix : String → String → Option String
strip_prefix [] s = some s
strip_prefix (c ∷ p) [] = none
strip_prefix (c ∷ p) (d ∷ s) = if code c == code d then strip_prefix p s else none

abbrev pub close : Char → String → String
close c [] = if code c == b'/' then "" else c ∷ []
close c (d ∷ s) = c ∷ d ∷ s

-- `s.rstrip("/")`
abbrev pub rstrip_slash : String → String
rstrip_slash [] = ""
rstrip_slash (c ∷ s) = let rest = rstrip_slash s in close c rest

-- A code point that fails the test of every code point does not occur.
pub has_code_of_all :
    (p : ℕ → Bool) (k : ℕ) (s : String) → all_codes p s ≡ true → p k ≡ false → has_code k s ≡ false
has_code_of_all p k [] e h = refl
has_code_of_all p k (c ∷ s) e h = ground (arith, has_code_of_all p k s)

-- `s.endswith(suffix)`
abbrev pub has_suffix : String → String → Bool
has_suffix suffix [] = str_eq suffix []
has_suffix suffix (c ∷ s) = str_eq suffix (c ∷ s) || has_suffix suffix s

-- `s.replace(chr(k), by)`, for one character `by`
abbrev pub replace_code : ℕ → Char → String → String
replace_code k by [] = []
replace_code k by (c ∷ s) = (if code c == k then by else c) ∷ replace_code k by s

-- `s.lstrip()` and `s.rstrip()`
unfoldable pub lstrip : String → String
unfolding is_space
lstrip [] = []
lstrip (c ∷ s) = let rest = lstrip s in if is_space (code c) then rest else c ∷ s

abbrev unless_blank : Char → String → Bool → String
unless_blank c [] blank = if blank then [] else c ∷ []
unless_blank c (d ∷ s) blank = c ∷ d ∷ s

unfoldable pub rstrip : String → String
unfolding is_space
rstrip [] = []
rstrip (c ∷ s) = unless_blank c (rstrip s) (is_space (code c))

unfoldable pub strip : String → String
unfolding lstrip rstrip
strip s = rstrip (lstrip s)

-- The character at index 1 has the code.
abbrev pub second_is : ℕ → String → Bool
second_is k (c ∷ d ∷ s) = code d == k
second_is k _ = false

-- `p + chr(k) + s`, for the character
abbrev pub glue : Char → String → String → String
glue by [] s = by ∷ s
glue by (c ∷ p) s = c ∷ glue by p s

-- `p + s`, of texts that are not known
abbrev pub concat : String → String → String
concat [] s = s
concat (c ∷ p) s = c ∷ concat p s
