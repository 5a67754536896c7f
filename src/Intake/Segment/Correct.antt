-- ===== src/Intake/Segment/Correct.antt =====
-- The scan answers whether the segment matches.
use Prim.Native.Char.{Char, code}
use Prim.Native.String.{[], ◌∷◌}
use ormas_subnet.Common.{
  ◌≡◌, ◌↔◌, refl, sym, ◌∙◌, subst, ◌⊎◌, inl, inr, ◌==◌, ◌||◌, Bool, true, false, if_holds, String,
  Option, none, some, ℕ, zero, suc,
}
use ormas_subnet.Intake.Segment.{
  Mark, Scan, Next, answer, go_on, scan_at, mark_at, all_stars, tail, go_back, step, then_scan,
  scan,
}
use ormas_subnet.Intake.Segment.Matching.{
  Matches, star_none, star_more, one, Ends, whole, later, Follows, start, more, all_stars-Matches,
  star_takes, Matches-all_stars, Matches-one, Matches-nil,
}

Ends-nil : {z : String} → Ends z [] → z ≡ []
Ends-nil whole = refl

Ends-trans : {x y z : String} → Ends x y → Ends y z → Ends x z
Ends-trans e whole = e
Ends-trans e (later f) = later (Ends-trans e f)

Ends-tail : {z : String} (t : String) → Ends z (tail t) → Ends z t
Ends-tail [] e = e
Ends-tail (c ∷ t) e = later e

Ends-split : {z : String} (t : String) → Ends z t → (z ≡ t) ⊎ Ends z (tail t)
Ends-split t whole = inl refl
Ends-split (c ∷ t) (later e) = inr e

-- What a star leaves.
star_leaves :
    {a : Char} {s p : String}
    → (code a == b'*') ≡ true
    → Matches s (a ∷ p)
    → (z : String) × Ends z s × Matches z p
star_leaves h (star_none {s = s} e m) = (s, whole, m)
star_leaves h (star_more e m) = let r = star_leaves h m in (r.0, later r.1, r.2)
star_leaves h (one e f m) = cc (h, e)

Matches-tail :
    {a c : Char} {z t q : String}
    → (code a == b'*') ≡ false
    → Ends z (c ∷ t)
    → Matches z (a ∷ q)
    → (y : String) × Ends y t × Matches y q
Matches-tail {c = c} {z = z} {t = t} {q = q} h e m =
    let (d, y, is, fits, rest) = Matches-one h m in
    elim (Ends-split (c ∷ t) e) [
      | inl same ↦ (y, subst (λ w. Ends y (tail w)) (sym is ∙ same) whole, rest)
      | inr behind ↦ (y, Ends-trans (subst (λ w. Ends y w) (sym is) (later whole)) behind, rest)
    ]

-- A match of the marked pattern further on passes the place where the scan is.
followed :
    {s p t q z : String}
    → Follows s p t q
    → Ends z s
    → Matches z p
    → (y : String) × Ends y t × Matches y q
followed {z = z} start e m = (z, e, m)
followed (more f h) e m = let r = followed f e m in Matches-tail h r.1 r.2

-- The segment matches from where the scan is, or from a later place for the marked star.
abbrev pub AtMark : Option Mark → Type 0
AtMark none = false ≡ true
AtMark (some m) = (z : String) × Ends z (tail m.segment) × Matches z m.pattern

abbrev pub Finds : String → String → Option Mark → Type 0
Finds s p mark = Matches s p ⊎ AtMark mark

abbrev pub IsOnTrack : String → String → Option Mark → Type 0
IsOnTrack s p none = Unit
IsOnTrack s p (some m) = Follows m.segment m.pattern s p

abbrev pub Keeps : String → String → Option Mark → Next → Type 0
Keeps s p mark (answer b) = (b ≡ true) ↔ Finds s p mark
Keeps s p mark (go_on t) =
    IsOnTrack t.segment t.pattern t.mark × (Finds t.segment t.pattern t.mark ↔ Finds s p mark)

go_back-Keeps :
    (s p : String) (mark : Option Mark)
    → (Matches s p → false ≡ true)
    → Keeps s p mark (go_back mark)
go_back-Keeps s p none never = (λ h. inr h, λ f. elim f [ inl m ↦ never m | inr h ↦ h ])
go_back-Keeps s p (some m) never = (
  start,
  (
    (λ f. elim f [
      | inl here ↦ inr (tail m.segment, whole, here)
      | inr on ↦ inr (on.0, Ends-tail (tail m.segment) on.1, on.2)
    ]),
    λ f. elim f [
      | inl here ↦ cc (never here)
      | inr on ↦ elim (Ends-split (tail m.segment) on.1) [
        | inl same ↦ inl (subst (λ w. Matches w m.pattern) same on.2)
        | inr behind ↦ inr (on.0, behind, on.2)
      ]
    ],
  ),
)

-- At the end of the segment.
stars-Keeps :
    (p : String) (mark : Option Mark) → IsOnTrack [] p mark → Keeps [] p mark (answer (all_stars p))
stars-Keeps p none v =
    ((λ h. inl (all_stars-Matches p h)), λ f. elim f [ inl m ↦ Matches-all_stars m | inr h ↦ cc h ])
stars-Keeps p (some k) v = (
  (λ h. inl (all_stars-Matches p h)),
  λ f. elim f [
    | inl m ↦ Matches-all_stars m
    | inr on ↦
        let r = followed v (Ends-tail k.segment on.1) on.2 in
        Matches-all_stars (subst (λ w. Matches w p) (Ends-nil r.1) r.2)
  ],
)

-- A star on the track is where every later match passes.
passes :
    {a : Char} (s p : String) (mark : Option Mark)
    → (code a == b'*') ≡ true
    → IsOnTrack s (a ∷ p) mark
    → Finds s (a ∷ p) mark
    → (z : String) × Ends z s × Matches z p
passes s p mark h v (inl m) = star_leaves h m
passes s p none h v (inr f) = cc f
passes s p (some k) h v (inr on) =
    let r = followed v (Ends-tail k.segment on.1) on.2 in
    let l = star_leaves h r.2 in (l.0, Ends-trans l.1 r.1, l.2)

star-Keeps :
    (c a : Char) (s p : String) (mark : Option Mark)
    → (code a == b'*') ≡ true
    → IsOnTrack (c ∷ s) (a ∷ p) mark
    → Keeps (c ∷ s) (a ∷ p) mark (scan_at (c ∷ s) p (mark_at p (c ∷ s)))
star-Keeps c a s p mark h v = (
  start,
  (
    (λ f. elim f [
      | inl m ↦ inl (star_none h m)
      | inr on ↦ inl (star_takes h (later on.1) (star_none h on.2))
    ]),
    λ f.
        let r = passes (c ∷ s) p mark h v f in
        elim (Ends-split (c ∷ s) r.1) [
          | inl same ↦ inl (subst (λ w. Matches w p) same r.2)
          | inr behind ↦ inr (r.0, behind, r.2)
        ],
  ),
)

follow_on :
    (c a : Char) (s p : String) (mark : Option Mark)
    → (code a == b'*') ≡ false
    → IsOnTrack (c ∷ s) (a ∷ p) mark
    → IsOnTrack s p mark
follow_on c a s p none h v = tt
follow_on c a s p (some m) h v = more v h

Matches-both :
    {a c : Char} {s p : String} → (code a == b'*') ≡ false → Matches (c ∷ s) (a ∷ p) → Matches s p
Matches-both h (star_none e m) = cc (h, e)
Matches-both h (star_more e m) = cc (h, e)
Matches-both h (one e f m) = m

Matches-fits :
    {a c : Char} {s p : String}
    → (code a == b'*') ≡ false
    → Matches (c ∷ s) (a ∷ p)
    → ((code a == b'?') || (code a == code c)) ≡ true
Matches-fits h (star_none e m) = cc (h, e)
Matches-fits h (star_more e m) = cc (h, e)
Matches-fits h (one e f m) = f

one-Keeps :
    (c a : Char) (s p : String) (mark : Option Mark)
    → (code a == b'*') ≡ false
    → ((code a == b'?') || (code a == code c)) ≡ true
    → IsOnTrack (c ∷ s) (a ∷ p) mark
    → Keeps (c ∷ s) (a ∷ p) mark (scan_at s p mark)
one-Keeps c a s p mark h f v = (
  follow_on c a s p mark h v,
  (
    (λ g. elim g [ inl m ↦ inl (one h f m) | inr on ↦ inr on ]),
    λ g. elim g [ inl m ↦ inl (Matches-both h m) | inr on ↦ inr on ],
  ),
)

no_pattern : {c : Char} {s : String} → Matches (c ∷ s) [] → false ≡ true
no_pattern m = cc (Matches-nil m)

pub step-Keeps :
    (s p : String) (mark : Option Mark) → IsOnTrack s p mark → Keeps s p mark (step s p mark)
unfolding step
step-Keeps [] p mark v = stars-Keeps p mark v
step-Keeps (c ∷ s) [] mark v = go_back-Keeps (c ∷ s) [] mark (λ m. no_pattern m)
step-Keeps (c ∷ s) (a ∷ p) mark v =
    if_holds (Keeps (c ∷ s) (a ∷ p) mark) (code a == b'*') _ _ (λ h. star-Keeps c a s p mark h v)
      λ h.
        if_holds (Keeps (c ∷ s) (a ∷ p) mark) ((code a == b'?') || (code a == code c)) _ _
          (λ f. one-Keeps c a s p mark h f v)
          λ f. go_back-Keeps (c ∷ s) (a ∷ p) mark (λ m. sym f ∙ Matches-fits h m)

after-Keeps :
    (fuel : ℕ) (s p : String) (mark : Option Mark) (next : Next) {b : Bool}
    → Keeps s p mark next
    → ((t : Scan)
        → scan fuel t ≡ some b
        → IsOnTrack t.segment t.pattern t.mark
        → (b ≡ true) ↔ Finds t.segment t.pattern t.mark)
    → then_scan (λ t. scan fuel t) next ≡ some b
    → (b ≡ true) ↔ Finds s p mark
after-Keeps fuel s p mark (answer a) k ih h = ((λ e. k.0 (cc (h, e))), λ f. cc (h, k.1 f))
after-Keeps fuel s p mark (go_on t) k ih h =
    let r = ih t h k.0 in ((λ e. k.1.0 (r.0 e)), λ f. r.1 (k.1.1 f))

-- An answer of the scan is right, whatever the fuel.
pub scan_right :
    (fuel : ℕ) (t : Scan) {b : Bool}
    → scan fuel t ≡ some b
    → IsOnTrack t.segment t.pattern t.mark
    → (b ≡ true) ↔ Finds t.segment t.pattern t.mark
unfolding scan
scan_right zero t h v = cc h
scan_right (suc fuel) t h v =
    after-Keeps fuel t.segment t.pattern t.mark (step t.segment t.pattern t.mark)
      (step-Keeps t.segment t.pattern t.mark v) (λ u e w. scan_right fuel u e w) h
