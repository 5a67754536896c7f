-- ===== src/Intake/Tests.antt =====
-- Paths and patterns at concrete values.
use ormas_subnet.Common.{
  ◌≡◌, ◌↔◌, refl, true, false, Bool, some, [], ◌∷◌, lstrip, rstrip, strip, is_space, ◌>>=◌, ◌>>◌,
}
use ormas_subnet.Intake.Segment.{step, scan, segment_glob_match}
use ormas_subnet.Intake.Segment.Matching.{Matches}
use ormas_subnet.Intake.Segment.Rounds.{segment_glob_match_decides}
use ormas_subnet.Intake.Paths.{
  clean_parts, normalize_repo_rel_path, validate_allowlist_pattern, match_parts, parts_of,
  glob_path_match, candidate_is_allowed, path_is_allowed,
}
use ormas_subnet.Intake.Paths.Matching.{PathMatches, glob_path_match_iff}
use ormas_subnet.Intake.Paths.Anchored.{IsAnchored, normalize_repo_rel_path-IsAnchored}

segment_glob_match_decides_example :
    (b : Bool) × (segment_glob_match "intake_check.py" "*_c?eck*.py" ≡ some b)
    × ((b ≡ true) ↔ Matches "intake_check.py" "*_c?eck*.py")
segment_glob_match_decides_example = segment_glob_match_decides "intake_check.py" "*_c?eck*.py"

glob_path_match_iff_example :
    (glob_path_match "src/a/b/c.py" "src/**/*.py" ≡ true)
    ↔ PathMatches (parts_of "src/a/b/c.py") (parts_of "src/**/*.py")
glob_path_match_iff_example = glob_path_match_iff "src/a/b/c.py" "src/**/*.py"

deep_path_matches : glob_path_match "src/a/b/c.py" "src/**/*.py" ≡ true
unfolding glob_path_match match_parts segment_glob_match scan step
deep_path_matches = refl

path_is_cleaned : normalize_repo_rel_path " src\\.//a.py" ≡ some "src/a.py"
unfolding normalize_repo_rel_path clean_parts strip lstrip rstrip is_space
path_is_cleaned = refl

normalize_repo_rel_path-IsAnchored_example : IsAnchored "src/a.py"
normalize_repo_rel_path-IsAnchored_example =
    normalize_repo_rel_path-IsAnchored " src\\.//a.py" path_is_cleaned

-- A pattern that is refused ends the loop, whatever comes after it.
refused_pattern_ends : path_is_allowed "src/a.py" ("../x" ∷ "src/*.py" ∷ []) ≡ false
unfolding path_is_allowed candidate_is_allowed normalize_repo_rel_path validate_allowlist_pattern
    clean_parts strip lstrip rstrip is_space ◌>>=◌ ◌>>◌
refused_pattern_ends = refl
