-- ===== src/Validator/Shapes/Execution/Laws.antt =====
-- What holds of an assignment whose public execution projection is accepted.
use ormas_subnet.Common.{
  ◌≡◌, refl, ap, ◌<◌, true, false, not, ◌&&◌, ◌||◌, and-eq-true, or-eq-false, not-eq-true, String,
  List, [], ◌∷◌, map, length, Value, null, str, arr, of_list, items, Items, nil, cons, Entries,
  get_or_null, all, All, elem, split, starts_with, has_code, rstrip_slash, Result, ok, Ensures,
  Ensures-bind, Ensures-then, Ensures-eq-ok, guard_passed, arith,
}
use ormas_subnet.Validator.Shapes.Execution.{
  is_commit, is_scope_path, is_scope, packet_of, validate_public, validate_assignment_execution,
  validate_execution_contract_shape, unless_null,
}

-- A relative path, none of whose parts is empty, dots or Git's own directory.
pub record IsContained (path : String) : Type 0 where
  pub relative : starts_with "/" path ≡ false
  pub homeless : starts_with "~" path ≡ false
  pub forward : has_code 92 path ≡ false
  pub parts :
      All (λ p. elem p ("" ∷ "." ∷ ".." ∷ ".git" ∷ []) ≡ false) (split b'/' (rstrip_slash path))

-- A list of such paths that is not empty.
pub record IsScope (value : Value) : Type 0 where
  pub paths : List String
  pub listed : value ≡ arr (of_list (map str paths))
  pub nonempty : 0 < length paths
  pub contained : All IsContained paths

all_parts :
    (ps : List String)
    → all (λ p. not (elem p ("" ∷ "." ∷ ".." ∷ ".git" ∷ []))) ps ≡ true
    → All (λ p. elem p ("" ∷ "." ∷ ".." ∷ ".git" ∷ []) ≡ false) ps
all_parts [] h = tt
all_parts (p ∷ ps) h =
    let b = and-eq-true (not (elem p ("" ∷ "." ∷ ".." ∷ ".git" ∷ []))) _ h in
    (not-eq-true _ b.0, all_parts ps b.1)

path-IsContained : (s : String) → is_scope_path (str s) ≡ true → IsContained s
unfolding is_scope_path
path-IsContained s h =
    let b = and-eq-true (not (starts_with "/" s || starts_with "~" s) && not (has_code 92 s)) _ h in
    let c = and-eq-true (not (starts_with "/" s || starts_with "~" s)) _ b.0 in
    let d = or-eq-false (starts_with "/" s) (starts_with "~" s) (not-eq-true _ c.0) in
    record { relative = d.0; homeless = d.1; forward = not-eq-true _ c.1; parts = all_parts _ b.1 }

-- The texts of a list of scope paths.
scope_texts :
    (vs : Items)
    → all is_scope_path (items vs) ≡ true
    → (paths : List String) × ((vs ≡ of_list (map str paths)) × All IsContained paths)
unfolding is_scope_path
scope_texts nil h = ([], (refl, tt))
scope_texts (cons (str s) vs) h =
    let b = and-eq-true (is_scope_path (str s)) _ h in
    let (paths, (same, contained)) = scope_texts vs b.1 in
    (s ∷ paths, (ap (cons (str s)) same, (path-IsContained s b.0, contained)))
scope_texts (cons _ vs) h = cc h

texts_nonempty :
    (v : Value) (vs : Items) (paths : List String)
    → cons v vs ≡ of_list (map str paths)
    → 0 < length paths
texts_nonempty v vs [] h = cc h
texts_nonempty v vs (p ∷ paths) h = omega arith

scope-IsScope : (v : Value) → is_scope v ≡ true → IsScope v
unfolding is_scope
scope-IsScope (arr nil) h = cc h
scope-IsScope (arr (cons v vs)) h =
    let (paths, (same, contained)) = scope_texts (cons v vs) h in
    record {
      paths = paths;
      listed = ap arr same;
      nonempty = texts_nonempty v vs paths same;
      contained = contained;
    }
scope-IsScope _ h = cc h

-- An assignment of a public execution that may be cloned and run.
pub record IsBound (validate_packet : Entries → Result (Unit {0})) (assignment : Entries)
    (carried : Value) : Type 0 where
  pub contract : Entries
  pub contracted : validate_execution_contract_shape carried ≡ ok contract
  pub base : is_commit (get_or_null "base_commit" assignment) ≡ true
  pub result : is_commit (get_or_null "result_commit" assignment) ≡ true
  pub allowed : IsScope (get_or_null "allowed_paths" assignment)
  pub immutable : IsScope (get_or_null "immutable_paths" assignment)
  pub projected : validate_packet (packet_of assignment contract) ≡ ok tt

module _ (validate_packet : Entries → Result (Unit {0})) (assignment : Entries) where
  public-IsBound :
      (carried : Value)
      → Ensures
          (λ public. IsBound validate_packet assignment carried)
          (validate_public validate_packet assignment carried)
  unfolding validate_public
  public-IsBound carried = Ensures-bind _ _ _ λ contract e. Ensures-then _ _ _ λ g1.
      Ensures-then _ _ _ λ g2. Ensures-then _ _ _ λ g3. Ensures-then _ _ _ λ g4.
        Ensures-then _ _ _ λ g5. record {
          contract = contract;
          contracted = e;
          base = guard_passed _ _ g1;
          result = guard_passed _ _ g2;
          allowed = scope-IsScope _ (guard_passed _ _ g3);
          immutable = scope-IsScope _ (guard_passed _ _ g4);
          projected = g5;
        }

  unless_null-IsBound :
      (carried : Value)
      → unless_null validate_packet assignment carried ≡ ok true
      → IsBound validate_packet assignment carried
  unless_null-IsBound null h = cc h
  unless_null-IsBound carried h =
      Ensures-eq-ok (λ public. IsBound validate_packet assignment carried) _
        (public-IsBound carried) h

  -- An assignment that is accepted for a public execution carries a well-shaped execution contract
  -- and two full commit ids; its allowed and its immutable paths are lists that are not empty, of
  -- relative paths without a part that is empty, dots or Git's own directory; and the projection
  -- of its packet passes the packet's own check, whatever that is.
  pub validate_assignment_execution-IsBound :
      validate_assignment_execution validate_packet assignment ≡ ok true
      → IsBound validate_packet assignment (get_or_null "execution_contract" assignment)
  unfolding validate_assignment_execution
  validate_assignment_execution-IsBound h = unless_null-IsBound _ h
