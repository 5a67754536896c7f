-- ===== src/Validator/Shapes/Toolchain.antt =====
-- `validate_toolchain_shape` and `_editable_install_path_ok` of ormas_subnet/validator.py.
pub mod Paths
pub mod Laws
use Prim.Native.Char.{code}
use Prim.Native.String.{◌∷◌ as prepend, [] as empty}
use ormas_subnet.Common.{
  ℕ, Bool, true, false, not, ◌&&◌, ◌||◌, ◌==◌, String, List, [], ◌∷◌, Value, str, arr, obj, Entries,
  keys, items, get_or_null, same_set, elem, says, is_digit, is_alnum, is_decimal, is_space,
  any_code, has_code, starts_with, ends_with, split, str_eq, Result, ok, err, toolchain_unavailable,
  Exc, guard, ◌>>=◌, ◌>>◌, if◌then◌else◌,
}

abbrev pub malformed : Exc
malformed = toolchain_unavailable "malformed toolchain"

-- `_TOOLCHAIN_REQ_RE.fullmatch` as an automaton: a name, extras in brackets, and version clauses.
pub data State : Type 0 where
  at_name in_name at_extra in_extra closed : State
  -- at an operator; after "=", "==", "<" or ">"; where only "=" can follow; after a whole operator
  at_operator after_eq after_eq_eq after_angle at_eq at_version : State
  in_version : State
  failed : State

abbrev pub is_name_code : ℕ → Bool
is_name_code c = is_alnum c || (c == b'.') || (c == b'_') || (c == b'-')

abbrev pub is_version_code : ℕ → Bool
is_version_code c =
    is_alnum c || (c == b'.') || (c == b'*') || (c == b'+') || (c == b'!') || (c == b'-')

abbrev pub operator_of : ℕ → State
operator_of c =
    if c == b'='
    then after_eq
    else if (c == b'!') || (c == b'~')
    then at_eq
    else (if (c == b'<') || (c == b'>') then after_angle else failed)

abbrev pub version_of : ℕ → State
version_of c = if is_version_code c then in_version else failed

unfoldable pub advance : State → ℕ → State
advance at_name c = if is_alnum c then in_name else failed
advance in_name c =
    if is_name_code c then in_name else (if c == b'[' then at_extra else operator_of c)
advance at_extra c = if is_name_code c || (c == b',') then in_extra else failed
advance in_extra c =
    if is_name_code c || (c == b',') then in_extra else (if c == b']' then closed else failed)
advance closed c = operator_of c
advance at_operator c = operator_of c
advance after_eq c = if c == b'=' then after_eq_eq else failed
advance after_eq_eq c = if c == b'=' then at_version else version_of c
advance after_angle c = if c == b'=' then at_version else version_of c
advance at_eq c = if c == b'=' then at_version else failed
advance at_version c = version_of c
advance in_version c =
    if is_version_code c then in_version else (if c == b',' then at_operator else failed)
advance failed c = failed

abbrev pub accepts : State → Bool
accepts in_name = true
accepts closed = true
accepts in_version = true
accepts _ = false

unfoldable pub run_from : State → String → Bool
run_from state empty = accepts state
run_from state (prepend c s) = run_from (advance state (code c)) s

unfoldable pub is_requirement : String → Bool
is_requirement s = run_from at_name s

-- `path[: path.rfind("[")]`, where there is a "["
unfoldable pub before_last_bracket : String → String
before_last_bracket empty = empty
before_last_bracket (prepend c s) =
    let rest = before_last_bracket s in
    if has_code b'[' s then prepend c rest else (if code c == b'[' then empty else prepend c rest)

abbrev pub has_extras : String → Bool
has_extras path = ends_with b']' path && has_code b'[' path

-- `_editable_install_path_ok`
unfoldable pub editable_install_path_ok : String → Bool
editable_install_path_ok path =
    not (str_eq path "" || starts_with "/" path || has_code 92 path || has_code b':' path)
    && not (any_code is_space path)
    && (if has_extras path
        then not (str_eq (before_last_bracket path) "")
          && not (elem ".." (split b'/' (before_last_bracket path)))
        else not (elem ".." (split b'/' path)))

abbrev pub editable_path : Value → Bool
editable_path (str s) = editable_install_path_ok s
editable_path _ = false

-- A token that does not ask for an editable install.
abbrev pub is_plain_token : String → Bool
is_plain_token s = not (str_eq s "") && not (starts_with "-" s) && is_requirement s

abbrev pub is_editable_flag : Value → Bool
is_editable_flag (str s) = str_eq s "-e"
is_editable_flag _ = false

abbrev pub plain_token : Value → Bool
plain_token (str s) = is_plain_token s
plain_token _ = false

-- The loop over `pip_install`: "-e" takes the token after it as a path.
unfoldable pub check_tokens : List Value → Bool
check_tokens [] = true
check_tokens (t ∷ []) = not (is_editable_flag t) && plain_token t
check_tokens (t ∷ u ∷ tokens) =
    let plain = check_tokens (u ∷ tokens) in
    let editable = check_tokens tokens in
    if is_editable_flag t then editable_path u && editable else plain_token t && plain

abbrev pub lock_path_ok : Value → Bool
lock_path_ok (str s) =
    not (str_eq s "") && not (starts_with "/" s || has_code 92 s || elem ".." (split b'/' s))
lock_path_ok _ = false

abbrev pub all_lock_paths : List Value → Bool
all_lock_paths [] = true
all_lock_paths (v ∷ vs) = lock_path_ok v && all_lock_paths vs

-- `^3\.\d{1,2}$`
abbrev pub is_python_version : Value → Bool
is_python_version (str (prepend a (prepend b (prepend c empty)))) =
    (code a == b'3') && (code b == b'.') && is_decimal (code c)
is_python_version (str (prepend a (prepend b (prepend c (prepend d empty))))) =
    (code a == b'3') && (code b == b'.') && is_decimal (code c) && is_decimal (code d)
is_python_version _ = false

abbrev pub list_or_malformed : Value → Result (List Value)
list_or_malformed (arr vs) = ok (items vs)
list_or_malformed _ = err malformed

abbrev pub is_empty : List Value → Bool
is_empty [] = true
is_empty (v ∷ vs) = false

unfoldable pub validate_toolchain_shape : Entries → Result (Unit {0})
validate_toolchain_shape toolchain = do
  guard (same_set (keys toolchain) ("kind" ∷ "python" ∷ "pip_install" ∷ "lock_paths" ∷ []))
      malformed
  guard (says "python" (get_or_null "kind" toolchain)) malformed
  guard (is_python_version (get_or_null "python" toolchain)) malformed
  pip_install ← list_or_malformed (get_or_null "pip_install" toolchain)
  guard (not (is_empty pip_install) && check_tokens pip_install) malformed
  lock_paths ← list_or_malformed (get_or_null "lock_paths" toolchain)
  guard (all_lock_paths lock_paths) malformed
  ok tt
