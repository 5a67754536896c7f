-- ===== src/Intake/Segment/Matching.antt =====
-- What it means that a segment matches a pattern.
use Prim.Native.Char.{Char, code}
use Prim.Native.String.{[], ◌∷◌}
use ormas_subnet.Common.{◌≡◌, refl, ◌==◌, ◌||◌, true, false, String, and-eq-true}
use ormas_subnet.Intake.Segment.{all_stars}

-- A star stands for any characters, a question mark for one, and another character for itself.
pub data Matches : String → String → Type 0 where
  ends : Matches [] []
  star_none : {a : Char} {s p : String} → (code a == b'*') ≡ true → Matches s p → Matches s (a ∷ p)
  star_more :
      {a c : Char} {s p : String}
      → (code a == b'*') ≡ true
      → Matches s (a ∷ p)
      → Matches (c ∷ s) (a ∷ p)
  one :
      {a c : Char} {s p : String}
      → (code a == b'*') ≡ false
      → ((code a == b'?') || (code a == code c)) ≡ true
      → Matches s p
      → Matches (c ∷ s) (a ∷ p)

-- The first is an end of the second.
pub data Ends : String → String → Type 0 where
  whole : {s : String} → Ends s s
  later : {c : Char} {s t : String} → Ends s t → Ends s (c ∷ t)

-- The pattern has been followed, without a star, from the first pair to the second.
pub data Follows (s p : String) : String → String → Type 0 where
  start : Follows s p s p
  more :
      {c a : Char} {t q : String}
      → Follows s p (c ∷ t) (a ∷ q)
      → (code a == b'*') ≡ false
      → Follows s p t q

pub all_stars-Matches : (p : String) → all_stars p ≡ true → Matches [] p
all_stars-Matches [] h = ends
all_stars-Matches (a ∷ p) h =
    let b = and-eq-true (code a == b'*') (all_stars p) h in star_none b.0 (all_stars-Matches p b.1)

pub star_takes :
    {a : Char} {s t p : String}
    → (code a == b'*') ≡ true
    → Ends s t
    → Matches s (a ∷ p)
    → Matches t (a ∷ p)
star_takes h whole m = m
star_takes h (later e) m = star_more h (star_takes h e m)

pub Matches-all_stars : {p : String} → Matches [] p → all_stars p ≡ true
Matches-all_stars ends = refl
Matches-all_stars (star_none h m) = rw (h, Matches-all_stars m) refl

-- A pattern that does not begin with a star takes a character of its own.
pub Matches-one :
    {a : Char} {s p : String}
    → (code a == b'*') ≡ false
    → Matches s (a ∷ p)
    → (c : Char) × (t : String) × (s ≡ c ∷ t)
      × (((code a == b'?') || (code a == code c)) ≡ true)
      × Matches t p
Matches-one h (star_none e m) = cc (h, e)
Matches-one h (star_more e m) = cc (h, e)
Matches-one h (one {c = c} {s = s} e f m) = (c, s, refl, f, m)

pub Matches-nil : {s : String} → Matches s [] → s ≡ []
Matches-nil ends = refl
