-- ===== src/Intake/Paths.antt =====
-- The paths and the allowlist of protected/worker/conformance/intake_check.py.
pub mod Matching
pub mod Anchored
use ormas_subnet.Common.{
  Bool, true, false, not, ◌&&◌, ◌||◌, String, List, [], ◌∷◌, Option, none, some, Result, ok, err,
  value_error, Exc, str_eq, starts_with, split, strip, glue, replace_code, second_is, any_code,
  ◌==◌, ℕ, guard, ◌>>=◌, ◌>>◌, if◌then◌else◌,
}
use ormas_subnet.Intake.Segment.{segment_glob_match}

-- `path.replace("\\", "/").strip()`
abbrev pub raw_path : String → String
raw_path path = strip (replace_code 92 "/" path)

-- Absolute, home or drive paths. What starts with "//" starts with "/".
abbrev pub is_rooted : String → Bool
is_rooted raw = starts_with "/" raw || starts_with "~" raw || second_is b':' raw

abbrev pub with_part : String → Option (List String) → Option (List String)
with_part part none = none
with_part part (some ps) = some (part ∷ ps)

-- The parts but "" and ".", or none where one is "..".
unfoldable pub clean_parts : List String → Option (List String)
clean_parts [] = some []
clean_parts (part ∷ parts) =
    let rest = clean_parts parts in
    if str_eq part "" || str_eq part "."
    then rest
    else if str_eq part ".."
    then none
    else with_part part rest

-- `"/".join(parts)`
abbrev pub join_parts : List String → String
join_parts [] = ""
join_parts (p ∷ []) = p
join_parts (p ∷ q ∷ ps) = glue "/" p (join_parts (q ∷ ps))

abbrev pub joined : Option (List String) → Option String
joined none = none
joined (some []) = none
joined (some (p ∷ ps)) = some (join_parts (p ∷ ps))

-- `_normalize_repo_rel_path`
unfoldable pub normalize_repo_rel_path : String → Option String
normalize_repo_rel_path path =
    if str_eq (raw_path path) "" || is_rooted (raw_path path)
    then none
    else joined (clean_parts (split b'/' (raw_path path)))

abbrev pub pattern_of : Option (List String) → Result String
pattern_of none = err (value_error "allowed_paths must not contain path traversal")
pattern_of (some []) = err (value_error "allowed_paths entries must be nonempty")
pattern_of (some (p ∷ ps)) = ok (join_parts (p ∷ ps))

-- `_validate_allowlist_pattern`
unfoldable pub validate_allowlist_pattern : String → Result String
validate_allowlist_pattern pattern = do
  guard (not (str_eq (strip pattern) "")) (value_error "allowed_paths entries must be nonempty")
  guard (not (is_rooted (raw_path pattern)))
      (value_error "allowed_paths must be repository-relative")
  pattern_of (clean_parts (split b'/' (raw_path pattern)))

abbrev pub is_match : Option Bool → Bool
is_match none = false
is_match (some b) = b

-- `match(pi, gi)`, with what is left of the path and of the pattern: `skip` tries the rest of the
-- pattern on every end of the path.
abbrev pub on_some_end : (List String → Bool) → List String → Bool
on_some_end f [] = f []
on_some_end f (p ∷ ps) = f (p ∷ ps) || on_some_end f ps

abbrev pub first_matches : (List String → Bool) → String → List String → Bool
first_matches rest token [] = false
first_matches rest token (p ∷ ps) = is_match (segment_glob_match p token) && rest ps

unfoldable pub match_parts : List String → List String → Bool
match_parts [] [] = true
match_parts [] (p ∷ ps) = false
match_parts (token ∷ []) path =
    if str_eq token "**" then true else first_matches (match_parts []) token path
match_parts (token ∷ next ∷ tokens) path =
    if str_eq token "**"
    then on_some_end (match_parts (next ∷ tokens)) path
    else first_matches (match_parts (next ∷ tokens)) token path

-- `path.split("/") if path else []`
abbrev pub parts_of : String → List String
parts_of path = if str_eq path "" then [] else split b'/' path

unfoldable pub glob_path_match : String → String → Bool
glob_path_match path pattern = match_parts (parts_of pattern) (parts_of path)

abbrev pub is_glob_code : ℕ → Bool
is_glob_code c = (c == b'*') || (c == b'?') || (c == b'[')

abbrev pub entry_covers : String → String → Bool
entry_covers candidate pattern =
    if any_code is_glob_code pattern
    then glob_path_match candidate pattern
    else str_eq candidate pattern

-- The loop over the patterns: one that is refused ends it.
unfoldable pub candidate_is_allowed : String → List String → Bool
candidate_is_allowed candidate [] = false
candidate_is_allowed candidate (raw ∷ patterns) =
    let rest = candidate_is_allowed candidate patterns in
    elim (validate_allowlist_pattern raw) [
      | err e ↦ false
      | ok pattern ↦ entry_covers candidate pattern || rest
    ]

unfoldable pub path_is_allowed : String → List String → Bool
path_is_allowed path patterns = elim (normalize_repo_rel_path path) [
  | none ↦ false
  | some candidate ↦ candidate_is_allowed candidate patterns
]
