-- ===== src/Intake/Segment/Rounds.antt =====
-- The scan answers within its fuel.
use Prim.Native.Char.{code}
use Prim.Native.String.{[], ◌∷◌}
use ormas_subnet.Common.{
  ◌≡◌, ◌↔◌, ◌≤◌, ◌<◌, ◌+◌, ◌*◌, refl, ◌==◌, ◌||◌, Bool, true, if_holds, String, Option, none, some,
  ℕ, zero, suc, arith, len, inl, inr,
}
use ormas_subnet.Intake.Segment.{
  Mark, Scan, Next, answer, go_on, tail, go_back, step, then_scan, scan, rounds, segment_glob_match,
}
use ormas_subnet.Intake.Segment.Matching.{Matches}
use ormas_subnet.Intake.Segment.Correct.{scan_right}

-- What is left to the mark.
abbrev left : ℕ → Option Mark → ℕ
left n none = n + 1
left n (some m) = len m.segment

-- Every going back costs a character of the mark, every other round one of the pattern.
abbrev weight : ℕ → ℕ → String → Option Mark → ℕ
weight n k p mark = left n mark * (k + 1) + len p

abbrev MarkFits : ℕ → Option Mark → Type 0
MarkFits k none = Unit
MarkFits k (some m) = len m.pattern ≤ k

abbrev Fits : ℕ → ℕ → String → String → Option Mark → Type 0
Fits n k s p mark = (len p ≤ k) × MarkFits k mark × (len s ≤ left n mark)

abbrev Drops : ℕ → ℕ → String → Option Mark → Next → Type 0
Drops n k p mark (answer b) = Unit
Drops n k p mark (go_on t) =
    Fits n k t.segment t.pattern t.mark × (weight n k t.pattern t.mark < weight n k p mark)

len-tail : (s : String) (j : ℕ) → j + 1 ≤ len s → len s ≡ len (tail s) + 1
len-tail [] j h = omega (arith, h)
len-tail (c ∷ s) j h = omega arith

one_less : (a b k x y : ℕ) → a ≡ b + 1 → x ≤ k → b * (k + 1) + x < a * (k + 1) + y
one_less a b k x y e h = rw e (grind (arith, h))

le-mul : (a b k : ℕ) → a ≤ b → a * (k + 1) ≤ b * (k + 1)
le-mul a b k h = grind (arith, h)

no_more : (a b k x : ℕ) → a ≤ b → a * (k + 1) + x < b * (k + 1) + suc x
no_more a b k x h = omega (arith, le-mul a b k h)

go_back-Drops :
    (n k j : ℕ) (s p : String) (mark : Option Mark)
    → len s ≡ j + 1
    → Fits n k s p mark
    → Drops n k p mark (go_back mark)
go_back-Drops n k j s p none e f = tt
go_back-Drops n k j s p (some m) e f =
    let t = len-tail m.segment j (omega (arith, e, f.2)) in
    (
      (f.1, f.1, omega arith),
      one_less (len m.segment) (len (tail m.segment)) k (len m.pattern) (len p) t f.1,
    )

step-Drops :
    (n k : ℕ) (s p : String) (mark : Option Mark)
    → Fits n k s p mark
    → Drops n k p mark (step s p mark)
unfolding step
step-Drops n k [] p mark f = tt
step-Drops n k (c ∷ s) [] mark f = go_back-Drops n k (len s) (c ∷ s) [] mark (omega arith) f
step-Drops n k (c ∷ s) (a ∷ p) mark f =
    if_holds (Drops n k (a ∷ p) mark) (code a == b'*') _ _
      (λ h. (
        (omega (arith, f.0), omega (arith, f.0), omega arith),
        no_more (len (c ∷ s)) (left n mark) k (len p) f.2,
      ))
      λ h.
        if_holds (Drops n k (a ∷ p) mark) ((code a == b'?') || (code a == code c)) _ _
          (λ g. (
            (omega (arith, f.0), f.1, omega (arith, f.2)),
            no_more (left n mark) (left n mark) k (len p) (omega arith),
          ))
          λ g. go_back-Drops n k (len s) (c ∷ s) (a ∷ p) mark (omega arith) f

Answers : Option Bool → Type 0
Answers o = (b : Bool) × (o ≡ some b)

after-Answers :
    (fuel n k : ℕ) (p : String) (mark : Option Mark) (next : Next)
    → Drops n k p mark next
    → weight n k p mark ≤ fuel
    → ((t : Scan)
        → Fits n k t.segment t.pattern t.mark
        → weight n k t.pattern t.mark < fuel
        → Answers (scan fuel t))
    → Answers (then_scan (λ t. scan fuel t) next)
unfolding Answers
after-Answers fuel n k p mark (answer b) d w ih = (b, refl)
after-Answers fuel n k p mark (go_on t) d w ih = ih t d.0 (omega (arith, d.1, w))

scan-Answers :
    (fuel n k : ℕ) (t : Scan)
    → Fits n k t.segment t.pattern t.mark
    → weight n k t.pattern t.mark < fuel
    → Answers (scan fuel t)
unfolding scan
scan-Answers zero n k t f w = ground arith
scan-Answers (suc fuel) n k t f w =
    after-Answers fuel n k t.pattern t.mark (step t.segment t.pattern t.mark)
      (step-Drops n k t.segment t.pattern t.mark f) (omega (arith, w))
      λ u g v. scan-Answers fuel n k u g v

-- The matching of a segment ends within its rounds, and answers whether the segment matches the
-- pattern, a star standing for any characters and a question mark for one.
pub segment_glob_match_decides :
    (segment pattern : String)
    → (b : Bool) × (segment_glob_match segment pattern ≡ some b)
      × ((b ≡ true) ↔ Matches segment pattern)
unfolding segment_glob_match Answers
segment_glob_match_decides segment pattern =
    let r =
      scan-Answers (rounds segment pattern) (len segment) (len pattern)
        (record { segment = segment; pattern = pattern; mark = none })
        (omega arith, tt, omega arith) (omega arith) in
    let right = scan_right (rounds segment pattern) _ r.1 tt in
    (r.0, r.1, ((λ e. elim (right.0 e) [ inl m ↦ m | inr n ↦ cc n ]), λ m. right.1 (inl m)))
