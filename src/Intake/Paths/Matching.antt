-- ===== src/Intake/Paths/Matching.antt =====
-- What the path patterns match.
use ormas_subnet.Common.{
  ◌≡◌, ◌↔◌, refl, inl, inr, Bool, true, false, and-eq-true, or_cases, or_right, Bool-cases, String,
  List, [], ◌∷◌, str_eq,
}
use ormas_subnet.Intake.Segment.{segment_glob_match}
use ormas_subnet.Intake.Segment.Matching.{Matches}
use ormas_subnet.Intake.Segment.Rounds.{segment_glob_match_decides}
use ormas_subnet.Intake.Paths.{
  is_match, on_some_end, first_matches, match_parts, parts_of, glob_path_match,
}

-- "**" stands for any parts, and another token for one part that matches it.
pub data PathMatches : List String → List String → Type 0 where
  ends : PathMatches [] []
  skip :
      {t : String} {ps ts : List String}
      → str_eq t "**" ≡ true
      → PathMatches ps ts
      → PathMatches ps (t ∷ ts)
  take :
      {t p : String} {ps ts : List String}
      → str_eq t "**" ≡ true
      → PathMatches ps (t ∷ ts)
      → PathMatches (p ∷ ps) (t ∷ ts)
  one :
      {t p : String} {ps ts : List String}
      → str_eq t "**" ≡ false
      → Matches p t
      → PathMatches ps ts
      → PathMatches (p ∷ ps) (t ∷ ts)

segment_iff : (p t : String) → (is_match (segment_glob_match p t) ≡ true) ↔ Matches p t
segment_iff p t = let (b, is, right) = segment_glob_match_decides p t in rw is right

all_parts : (t : String) (ps : List String) → str_eq t "**" ≡ true → PathMatches ps (t ∷ [])
all_parts t [] h = skip h ends
all_parts t (p ∷ ps) h = take h (all_parts t ps h)

-- Some end of the path satisfies the test.
on_some_end_sound :
    (f : List String → Bool) (t : String) (ts ps : List String)
    → str_eq t "**" ≡ true
    → ((qs : List String) → f qs ≡ true → PathMatches qs ts)
    → on_some_end f ps ≡ true
    → PathMatches ps (t ∷ ts)
on_some_end_sound f t ts [] h k e = skip h (k [] e)
on_some_end_sound f t ts (p ∷ ps) h k e = elim (or_cases (f (p ∷ ps)) (on_some_end f ps) e) [
  | inl here ↦ skip h (k (p ∷ ps) here)
  | inr on ↦ take h (on_some_end_sound f t ts ps h k on)
]

on_some_end_complete :
    (f : List String → Bool) (t : String) (ts ps : List String)
    → str_eq t "**" ≡ true
    → ((qs : List String) → PathMatches qs ts → f qs ≡ true)
    → PathMatches ps (t ∷ ts)
    → on_some_end f ps ≡ true
on_some_end_complete f t ts [] h k (skip e m) = k [] m
on_some_end_complete f t ts (p ∷ ps) h k (skip e m) = rw (k (p ∷ ps) m) refl
on_some_end_complete f t ts (p ∷ ps) h k (take e m) =
    or_right (f (p ∷ ps)) (on_some_end_complete f t ts ps h k m)
on_some_end_complete f t ts (p ∷ ps) h k (one e s m) = cc (h, e)

Agrees : (List String → Bool) → List String → Type 0
Agrees f ts = (ps : List String) → (f ps ≡ true) ↔ PathMatches ps ts

no_part :
    {t : String} {ts : List String} {b : Bool}
    → str_eq t "**" ≡ false
    → PathMatches [] (t ∷ ts)
    → false ≡ b
no_part n (skip e m) = cc (n, e)

one_part :
    {t p : String} {ps ts : List String}
    → str_eq t "**" ≡ false
    → PathMatches (p ∷ ps) (t ∷ ts)
    → Matches p t × PathMatches ps ts
one_part n (skip e m) = cc (n, e)
one_part n (take e m) = cc (n, e)
one_part n (one e s m) = (s, m)

nothing_left : {p : String} {ps : List String} → PathMatches (p ∷ ps) [] → true ≡ false
nothing_left m = elim m [ ]

first_matches_sound :
    (f : List String → Bool) (t : String) (ts ps : List String)
    → str_eq t "**" ≡ false
    → Agrees f ts
    → (first_matches f t ps ≡ true) ↔ PathMatches ps (t ∷ ts)
unfolding Agrees
first_matches_sound f t ts [] n k = ((λ h. cc h), λ m. no_part n m)
first_matches_sound f t ts (p ∷ ps) n k = (
  (λ h.
      let b = and-eq-true (is_match (segment_glob_match p t)) (f ps) h in
      one n ((segment_iff p t).0 b.0) ((k ps).0 b.1)),
  λ m. let r = one_part n m in rw ((segment_iff p t).1 r.0, (k ps).1 r.1) refl,
)

match_parts-Agrees : (ts : List String) → Agrees (match_parts ts) ts
unfolding Agrees match_parts
match_parts-Agrees [] [] = ((λ h. ends), λ m. refl)
match_parts-Agrees [] (p ∷ ps) = ((λ h. cc h), λ m. cc (nothing_left m))
match_parts-Agrees (t ∷ []) ps = elim (Bool-cases (str_eq t "**")) [
  | inl deep ↦ rw deep ((λ h. all_parts t ps deep), λ m. refl)
  | inr n ↦ rw n (first_matches_sound (match_parts []) t [] ps n (match_parts-Agrees []))
]
match_parts-Agrees (t ∷ u ∷ ts) ps = elim (Bool-cases (str_eq t "**")) [
  | inl deep ↦ rw deep (
    (on_some_end_sound (match_parts (u ∷ ts)) t (u ∷ ts) ps deep
        (λ qs h. (match_parts-Agrees (u ∷ ts) qs).0 h)),
    on_some_end_complete (match_parts (u ∷ ts)) t (u ∷ ts) ps deep
        (λ qs m. (match_parts-Agrees (u ∷ ts) qs).1 m),
  )
  | inr n ↦
      rw n
        (first_matches_sound (match_parts (u ∷ ts)) t (u ∷ ts) ps n (match_parts-Agrees (u ∷ ts)))
]

-- A path matches a pattern exactly when its parts do: "**" stands for any parts, also none, and
-- every other token for one part that matches it.
pub glob_path_match_iff :
    (path pattern : String)
    → (glob_path_match path pattern ≡ true) ↔ PathMatches (parts_of path) (parts_of pattern)
unfolding glob_path_match Agrees
glob_path_match_iff path pattern = match_parts-Agrees (parts_of pattern) (parts_of path)
