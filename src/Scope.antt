-- ===== src/Scope.antt =====
-- The scope of a delivery: `_path_covered_by_allowed` and `_nul_git_paths` of
-- ormas_subnet/skeleton.py, `_publication_path_covered` and the decision of `public_result_scope`
-- of ormas_subnet/outcomes_support.py.
pub mod Laws
mod Tests
use Prim.Native.Char.{code}
use Prim.Native.String.{[], ◌∷◌}
use mathlib.Core.List.{List, [], ◌∷◌}
use ormas_subnet.Common.{
  ℕ, String, Bool, true, false, ◌&&◌, ◌||◌, not, Result, ok, err, git_error, guard, ◌>>◌, str_eq,
  starts_with, ends_with, split, all, any, any_code, leb, ◌==◌, if◌then◌else◌,
}

-- The loop of `_path_covered_by_allowed`, an empty entry being skipped.
unfoldable pub covered : String → List String → Bool
covered path [] = false
covered path (entry ∷ rest) =
    let later = covered path rest in
    if str_eq entry ""
    then later
    else if ends_with b'/' entry
    then (if starts_with entry path then true else later)
    else (if str_eq path entry then true else later)

-- The generator expression of `_publication_path_covered`.
unfoldable pub publication_covered : String → List String → Bool
publication_covered path entries =
    any
      (λ entry.
        not (str_eq entry "")
        && (if ends_with b'/' entry then starts_with entry path else str_eq path entry))
      entries

is_empty : List String → Bool
is_empty [] = true
is_empty (x ∷ xs) = false

-- `scope_ok` of `_compute_scope` and of `_decide`
unfoldable pub scope_ok : List String → List String → Bool
unfolding is_empty
scope_ok allowed changed = is_empty allowed || all (λ p. covered p allowed) changed

-- `touches_immutable` of `_decide`
unfoldable pub touches_immutable : List String → List String → Bool
unfolding is_empty
touches_immutable immutable changed =
    not (is_empty immutable) && any (λ p. covered p immutable) changed

-- the decision of `public_result_scope`
unfoldable pub public_scope_ok : List String → List String → List String → Bool
unfolding is_empty
public_scope_ok allowed immutable changed =
    (is_empty allowed || all (λ p. publication_covered p allowed) changed)
    && not (any (λ p. publication_covered p immutable) changed)

is_surrogate : ℕ → Bool
is_surrogate c = leb 0xD800 c && leb c 0xDFFF

-- `xs[:-1]`
drop_last : List String → List String
drop_last [] = []
drop_last (x ∷ []) = []
drop_last (x ∷ y ∷ ys) = x ∷ drop_last (y ∷ ys)

-- `output[:-1].split("\0")` is `output.split("\0")[:-1]` where "\0" ends the output.
unfoldable pub nul_git_paths : String → Result (List String)
unfolding drop_last is_surrogate
nul_git_paths output = if str_eq output "" then ok [] else do
  guard (ends_with 0 output) (git_error "git path output was not NUL terminated")
  guard (not (any (λ path. any_code is_surrogate path) (drop_last (split 0 output))))
      (git_error "git path is not valid UTF-8")
  ok (drop_last (split 0 output))
