-- ===== src/Intake/Segment.antt =====
-- `_segment_glob_match` of protected/worker/conformance/intake_check.py: one path segment against
-- a pattern, with the last star as the only point to go back to.
pub mod Matching
pub mod Correct
pub mod Rounds
use Prim.Native.Char.{code}
use Prim.Native.String.{[], ◌∷◌}
use ormas_subnet.Common.{
  ℕ, zero, suc, ◌+◌, ◌*◌, ◌==◌, ◌&&◌, ◌||◌, Bool, true, false, String, Option, none, some, len,
  if◌then◌else◌,
}

-- The pattern after the last star (`pattern[star + 1:]`), and `segment[match_i:]`.
pub record Mark : Type 0 where
  pub pattern : String
  pub segment : String

-- `segment[i:]`, `pattern[j:]`, and the mark where `star >= 0`.
pub record Scan : Type 0 where
  pub segment : String
  pub pattern : String
  pub mark : Option Mark

pub data Next : Type 0 where
  answer : Bool → Next
  go_on : Scan → Next

abbrev pub scan_at : String → String → Option Mark → Next
scan_at segment pattern mark = go_on (record { segment = segment; pattern = pattern; mark = mark })

abbrev pub mark_at : String → String → Option Mark
mark_at pattern segment = some (record { pattern = pattern; segment = segment })

-- The loop after the one over the segment: only stars are left.
abbrev pub all_stars : String → Bool
all_stars [] = true
all_stars (a ∷ pattern) = (code a == b'*') && all_stars pattern

abbrev pub tail : String → String
tail [] = []
tail (c ∷ s) = s

-- Back to the last star, which takes one character more.
abbrev pub go_back : Option Mark → Next
go_back none = answer false
go_back (some m) = scan_at (tail m.segment) m.pattern (mark_at m.pattern (tail m.segment))

-- One round of the loop, by what is left of the segment and of the pattern.
unfoldable pub step : String → String → Option Mark → Next
step [] pattern mark = answer (all_stars pattern)
step (c ∷ segment) [] mark = go_back mark
step (c ∷ segment) (a ∷ pattern) mark =
    if code a == b'*'
    then scan_at (c ∷ segment) pattern (mark_at pattern (c ∷ segment))
    else if (code a == b'?') || (code a == code c)
    then scan_at segment pattern mark
    else go_back mark

abbrev pub then_scan : (Scan → Option Bool) → Next → Option Bool
then_scan loop (answer b) = some b
then_scan loop (go_on s) = loop s

-- The loop on fuel: none when it runs out.
unfoldable pub scan : ℕ → Scan → Option Bool
scan zero s = none
scan (suc fuel) s = then_scan (λ t. scan fuel t) (step s.segment s.pattern s.mark)

abbrev pub rounds : String → String → ℕ
rounds segment pattern = suc ((len segment + 1) * (len pattern + 1) + len pattern)

unfoldable pub segment_glob_match : String → String → Option Bool
segment_glob_match segment pattern =
    scan (rounds segment pattern) (record { segment = segment; pattern = pattern; mark = none })
