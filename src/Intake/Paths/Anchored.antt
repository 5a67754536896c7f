-- ===== src/Intake/Paths/Anchored.antt =====
-- A normalized path stays below the root of the repository.
use Prim.Native.Char.{Char, code}
use Prim.Native.String.{[] as empty, ◌∷◌ as prepend}
use ormas_subnet.Common.{
  ◌≡◌, refl, sym, ap, ◌∙◌, subst, inl, inr, false, ◌||◌, or-eq-false, Bool-cases, if_holds, String,
  List, [], ◌∷◌, Option, none, some, Ensures, Ensures-then, str_eq, All, split, glue, push_head,
  has_code, ◌==◌,
}
use ormas_subnet.Intake.Paths.{
  raw_path, is_rooted, clean_parts, join_parts, joined, normalize_repo_rel_path, with_part,
  pattern_of, validate_allowlist_pattern,
}

-- The part is a name: not empty, not "." or "..", with no slash.
pub record IsPlain (part : String) : Type 0 where
  pub no_slash : has_code b'/' part ≡ false
  pub nonempty : str_eq part "" ≡ false
  pub not_here : str_eq part "." ≡ false
  pub not_up : str_eq part ".." ≡ false

abbrev Slashless : String → Type 0
Slashless p = has_code b'/' p ≡ false

push_head-Slashless :
    (c : Char) (ps : List String)
    → (code c == b'/') ≡ false
    → All Slashless ps
    → All Slashless (push_head c ps)
push_head-Slashless c [] n h = (rw n refl, tt)
push_head-Slashless c (p ∷ ps) n h = (rw (n, h.0) refl, h.1)

split-Slashless : (s : String) → All Slashless (split b'/' s)
split-Slashless empty = (refl, tt)
split-Slashless (prepend c s) =
    if_holds (All Slashless) (code c == b'/') _ _ (λ y. (refl, split-Slashless s))
      (λ n. push_head-Slashless c (split b'/' s) n (split-Slashless s))

split-glue : (p s : String) → Slashless p → split b'/' (glue "/" p s) ≡ p ∷ split b'/' s
split-glue empty s h = refl
split-glue (prepend c p) s h =
    let b = or-eq-false (code c == b'/') (has_code b'/' p) h in rw (b.0, split-glue p s b.1) refl

split_one : (p : String) → Slashless p → split b'/' p ≡ p ∷ []
split_one empty h = refl
split_one (prepend c p) h =
    let b = or-eq-false (code c == b'/') (has_code b'/' p) h in rw (b.0, split_one p b.1) refl

-- What was joined is split again.
pub split-join_parts :
    (p : String) (ps : List String)
    → All Slashless (p ∷ ps)
    → split b'/' (join_parts (p ∷ ps)) ≡ p ∷ ps
split-join_parts p [] h = split_one p h.0
split-join_parts p (q ∷ ps) h =
    split-glue p (join_parts (q ∷ ps)) h.0 ∙ ap (λ qs. p ∷ qs) (split-join_parts q ps h.1)

abbrev IsClean : Option (List String) → Type 0
IsClean none = Unit
IsClean (some ps) = All IsPlain ps

kept : (p : String) (o : Option (List String)) → IsPlain p → IsClean o → IsClean (with_part p o)
kept p none h k = tt
kept p (some ps) h k = (h, k)

clean_parts-IsClean : (ps : List String) → All Slashless ps → IsClean (clean_parts ps)
unfolding clean_parts
clean_parts-IsClean [] h = tt
clean_parts-IsClean (p ∷ ps) h =
    let ih = clean_parts-IsClean ps h.1 in
    if_holds IsClean (str_eq p "" || str_eq p ".") _ _ (λ y. ih)
      λ n.
        if_holds IsClean (str_eq p "..") _ _ (λ y. tt)
          λ m.
            let b = or-eq-false (str_eq p "") (str_eq p ".") n in
            kept p (clean_parts ps)
              (record { no_slash = h.0; nonempty = b.0; not_here = b.1; not_up = m }) ih

Plain-Slashless : (ps : List String) → All IsPlain ps → All Slashless ps
Plain-Slashless [] h = tt
Plain-Slashless (p ∷ ps) h = (h.0.no_slash, Plain-Slashless ps h.1)

-- Every part of the path is a name.
abbrev pub IsAnchored : String → Type 0
IsAnchored path = All IsPlain (split b'/' path)

join_parts-IsAnchored :
    (p : String) (ps : List String) → All IsPlain (p ∷ ps) → IsAnchored (join_parts (p ∷ ps))
join_parts-IsAnchored p ps h =
    subst (All IsPlain) (sym (split-join_parts p ps (Plain-Slashless (p ∷ ps) h))) h

joined-IsAnchored :
    (o : Option (List String)) {r : String} → IsClean o → joined o ≡ some r → IsAnchored r
joined-IsAnchored none h e = cc e
joined-IsAnchored (some []) h e = cc e
joined-IsAnchored (some (p ∷ ps)) {r = r} h e =
    let same : (join_parts (p ∷ ps) ≡ r) = cc e in
    subst IsAnchored same (join_parts-IsAnchored p ps h)

-- Every part of a path that is normalized is a name: it is not empty, not "." or "..", and has no
-- slash.
pub normalize_repo_rel_path-IsAnchored :
    (path : String) {r : String} → normalize_repo_rel_path path ≡ some r → IsAnchored r
unfolding normalize_repo_rel_path
normalize_repo_rel_path-IsAnchored path h =
    elim (Bool-cases (str_eq (raw_path path) "" || is_rooted (raw_path path))) [
      | inl y ↦ cc (rw y at h)
      | inr n ↦
          joined-IsAnchored (clean_parts (split b'/' (raw_path path)))
            (clean_parts-IsClean (split b'/' (raw_path path)) (split-Slashless (raw_path path)))
            (rw n at h)
    ]

pattern_of-IsAnchored : (o : Option (List String)) → IsClean o → Ensures IsAnchored (pattern_of o)
pattern_of-IsAnchored none h = tt
pattern_of-IsAnchored (some []) h = tt
pattern_of-IsAnchored (some (p ∷ ps)) h = join_parts-IsAnchored p ps h

-- So is every part of a pattern that is accepted.
pub validate_allowlist_pattern-IsAnchored :
    (pattern : String) → Ensures IsAnchored (validate_allowlist_pattern pattern)
unfolding validate_allowlist_pattern
validate_allowlist_pattern-IsAnchored pattern = Ensures-then _ _ _ λ g1. Ensures-then _ _ _ λ g2.
    pattern_of-IsAnchored (clean_parts (split b'/' (raw_path pattern)))
      (clean_parts-IsClean (split b'/' (raw_path pattern)) (split-Slashless (raw_path pattern)))
