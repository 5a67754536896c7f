-- ===== src/Workdir.antt =====
-- ormas_subnet/_workdir.py: untrusted identities as path components, and where `protocol.py` and
-- `validator.py` require them.
pub mod Laws
mod Tests
use Prim.Native.Char.{code}
use Prim.Native.String.{[], ◌∷◌, ◌++◌ as append}
use ormas_subnet.Common.{
  ℕ, String, Bool, true, false, ◌&&◌, ◌||◌, Option, none, some, Value, str, Result, ok, err,
  value_error, guard, ◌>>◌, leb, ◌==◌, len, all_codes, is_alnum, if◌then◌else◌, recovery_required,
}

-- [A-Za-z0-9._-]
abbrev pub is_component_code : ℕ → Bool
is_component_code c = is_alnum c || (c == b'.') || (c == b'_') || (c == b'-')

abbrev pub last_is_alnum : String → Bool
last_is_alnum [] = false
last_is_alnum (c ∷ []) = is_alnum (code c)
last_is_alnum (c ∷ d ∷ s) = last_is_alnum (d ∷ s)

abbrev pub first_is_alnum : String → Bool
first_is_alnum [] = false
first_is_alnum (c ∷ s) = is_alnum (code c)

-- `_SAFE_COMPONENT_RE.fullmatch`: one letter or digit, or two of them around at most 126 more
unfoldable pub is_safe_component : String → Bool
is_safe_component s =
    first_is_alnum s && last_is_alnum s && all_codes is_component_code s && leb (len s) 128

unfoldable pub require_safe_component : Value → String → Result String
require_safe_component (str s) name = do
  guard (is_safe_component s) (value_error (append "invalid " name))
  ok s
require_safe_component _ name = err (value_error (append "invalid " name))

-- `_assignment_id_or_none`
unfoldable pub assignment_id_or_none : Value → Option String
assignment_id_or_none (str s) = if is_safe_component s then some s else none
assignment_id_or_none _ = none
