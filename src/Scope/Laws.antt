-- ===== src/Scope/Laws.antt =====
-- What covering means, and that the three scope checks agree.
use mathlib.Core.List.{List, [], ◌∷◌}
use ormas_subnet.Common.{
  String, ◌≡◌, ◌≢◌, ◌↔◌, ◌⊎◌, inl, inr, refl, true, false, ◌&&◌, not, arith, str_eq, eq_iff,
  starts_with, ends_with, All, all, any, Bool-cases, and-eq-true,
}
use ormas_subnet.Scope.{covered, publication_covered, scope_ok, touches_immutable, public_scope_ok}

-- An entry covers a path: a directory, written with its slash, covers what its name begins, and
-- any other entry covers itself alone.
pub data Covers : String → String → Type 0 where
  directory :
      {entry path : String}
      → entry ≢ ""
      → ends_with b'/' entry ≡ true
      → starts_with entry path ≡ true
      → Covers entry path
  file :
      {entry path : String}
      → entry ≢ ""
      → ends_with b'/' entry ≡ false
      → path ≡ entry
      → Covers entry path

pub data CoveredBy (path : String) : List String → Type 0 where
  here : {entry : String} {rest : List String} → Covers entry path → CoveredBy path (entry ∷ rest)
  there :
      {entry : String} {rest : List String} → CoveredBy path rest → CoveredBy path (entry ∷ rest)

covers-covered :
    (path entry : String) (rest : List String)
    → Covers entry path
    → covered path (entry ∷ rest) ≡ true
unfolding covered
covers-covered path entry rest (directory named slash begins) = ground (arith, eq_iff entry "")
covers-covered path entry rest (file named plain same) =
    ground (arith, eq_iff entry "", eq_iff path entry)

covered-later :
    (path entry : String) (rest : List String)
    → covered path rest ≡ true
    → covered path (entry ∷ rest) ≡ true
unfolding covered
covered-later path entry rest h = ground arith

covered_complete :
    {path : String} {entries : List String} → CoveredBy path entries → covered path entries ≡ true
covered_complete {path} (here {entry} {rest} c) = covers-covered path entry rest c
covered_complete {path} (there {entry} {rest} c) =
    covered-later path entry rest (covered_complete c)

-- the first entry decides, or the others do
covered_cases :
    (path entry : String) (rest : List String)
    → covered path (entry ∷ rest) ≡ true
    → Covers entry path ⊎ (covered path rest ≡ true)
unfolding covered
covered_cases path entry rest h = elim (Bool-cases (str_eq entry "")) [
  | inl empty ↦ inr (ground arith)
  | inr named ↦ elim (Bool-cases (ends_with b'/' entry)) [
    | inl slash ↦ elim (Bool-cases (starts_with entry path)) [
      | inl begins ↦ inl (directory (ground (arith, eq_iff entry "")) slash begins)
      | inr other ↦ inr (ground arith)
    ]
    | inr plain ↦ elim (Bool-cases (str_eq path entry)) [
      | inl same ↦ inl (file (ground (arith, eq_iff entry "")) plain ((eq_iff path entry).0 same))
      | inr other ↦ inr (ground arith)
    ]
  ]
]

covered-nil : (path : String) → covered path [] ≡ true → CoveredBy path []
unfolding covered
covered-nil path h = cc

covered_sound :
    (path : String) (entries : List String) → covered path entries ≡ true → CoveredBy path entries
covered_sound path [] h = covered-nil path h
covered_sound path (entry ∷ rest) h = elim (covered_cases path entry rest h) [
  | inl c ↦ here c
  | inr later ↦ there (covered_sound path rest later)
]

-- The loop accepts a path exactly when some entry of the list covers it.
pub covered_iff :
    (path : String) (entries : List String) → (covered path entries ≡ true) ↔ CoveredBy path entries
covered_iff path entries = (covered_sound path entries, covered_complete)

-- The miner's publication check covers what the skeleton and the validator cover.
pub publication_covered-eq-covered :
    (path : String) (entries : List String)
    → publication_covered path entries ≡ covered path entries
unfolding publication_covered covered
publication_covered-eq-covered path [] = refl
publication_covered-eq-covered path (entry ∷ rest) =
    ground (arith, publication_covered-eq-covered path rest)

each_is_covered :
    (allowed changed : List String)
    → all (λ p. covered p allowed) changed ≡ true
    → All (λ p. CoveredBy p allowed) changed
each_is_covered allowed [] h = tt
each_is_covered allowed (p ∷ ps) h =
    let (now, later) = and-eq-true _ _ h in
    (covered_sound p allowed now, each_is_covered allowed ps later)

each_covers :
    (allowed changed : List String)
    → All (λ p. CoveredBy p allowed) changed
    → all (λ p. covered p allowed) changed ≡ true
each_covers allowed [] h = refl
each_covers allowed (p ∷ ps) (c, cs) = rw (covered_complete c) (each_covers allowed ps cs)

-- The scope check passes exactly when the list of allowed paths is empty, which allows every
-- path, or some entry covers each changed path.
pub scope_ok_iff :
    (allowed changed : List String)
    → (scope_ok allowed changed ≡ true) ↔ ((allowed ≡ []) ⊎ All (λ p. CoveredBy p allowed) changed)
unfolding scope_ok
scope_ok_iff [] changed = (λ h. inl refl, λ h. refl)
scope_ok_iff (a ∷ rest) changed = (
  λ h. inr (each_is_covered (a ∷ rest) changed h),
  λ h. elim h [ inl e ↦ cc | inr each ↦ each_covers (a ∷ rest) changed each ],
)

any-covered :
    (entries changed : List String)
    → any (λ p. publication_covered p entries) changed ≡ any (λ p. covered p entries) changed
any-covered entries [] = refl
any-covered entries (p ∷ ps) = rw (publication_covered-eq-covered p entries, any-covered entries ps)

all-covered :
    (entries changed : List String)
    → all (λ p. publication_covered p entries) changed ≡ all (λ p. covered p entries) changed
all-covered entries [] = refl
all-covered entries (p ∷ ps) = rw (publication_covered-eq-covered p entries, all-covered entries ps)

none_covered : (changed : List String) → any (λ p. covered p []) changed ≡ false
unfolding covered
none_covered [] = refl
none_covered (p ∷ ps) = none_covered ps

-- The miner's publication gate passes exactly the deliveries that the validator does not reject
-- for their scope, whatever the lists of allowed and immutable paths.
pub public_scope_ok-eq-validator :
    (allowed immutable changed : List String)
    → public_scope_ok allowed immutable changed
      ≡ (scope_ok allowed changed && not (touches_immutable immutable changed))
unfolding public_scope_ok scope_ok touches_immutable
public_scope_ok-eq-validator allowed [] changed =
    rw (all-covered allowed changed, any-covered [] changed, none_covered changed)
public_scope_ok-eq-validator allowed (i ∷ rest) changed =
    rw (all-covered allowed changed, any-covered (i ∷ rest) changed)
