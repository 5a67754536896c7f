-- ===== src/Offers/Effort.antt =====
-- The effort block and the window offer that pass.
use ormas_subnet.Common.{
  ◌≡◌, refl, true, String, List, [], ◌∷◌, ℕ, pos, Value, int, obj, Entries, end, entry, keys,
  get_or_null, ok, Ensures, Ensures-bind, Ensures-map, Ensures-eq-ok, same_set, arith,
}
use ormas_subnet.Offers.{count_of, effort_of, effort_dictionary, effort_fields, validate_effort}

-- The fields in their order, each with the natural number that `effort` has for it.
abbrev pub IsBlock : Entries → List String → Entries → Type 0
IsBlock effort [] out = out ≡ end
IsBlock effort (f ∷ fields) out =
    (n : ℕ) × (rest : Entries) × (out ≡ entry f (int (pos n)) rest)
    × (get_or_null f effort ≡ int (pos n))
    × IsBlock effort fields rest

count_of-ok : (f : String) (v : Value) {n : ℕ} → count_of f v ≡ ok n → v ≡ int (pos n)
count_of-ok f (int (pos m)) h = cc h
count_of-ok f _ h = cc h

effort_of-IsBlock :
    (effort : Entries) (fields : List String)
    → Ensures (IsBlock effort fields) (effort_of effort fields)
unfolding effort_of
effort_of-IsBlock effort [] = refl
effort_of-IsBlock effort (f ∷ fields) = Ensures-bind _ _ _ λ n e1. Ensures-bind _ _ _ λ rest e2. (
  n,
  rest,
  refl,
  count_of-ok f (get_or_null f effort) e1,
  Ensures-eq-ok (IsBlock effort fields) _ (effort_of-IsBlock effort fields) e2,
)

effort_dictionary-ok :
    (v : Value) {es : Entries}
    → effort_dictionary v ≡ ok es
    → (v ≡ obj es) × (same_set (keys es) effort_fields ≡ true)
effort_dictionary-ok (obj es) h = ground arith
effort_dictionary-ok _ h = cc h

blocks :
    (value : Value)
    → Ensures
        (λ out.
          (effort : Entries) × (value ≡ obj effort)
          × (same_set (keys effort) effort_fields ≡ true)
          × IsBlock effort effort_fields out)
        (validate_effort value)
unfolding validate_effort
blocks value = Ensures-bind _ _ _ λ effort e.
    let d = effort_dictionary-ok value e in
    Ensures-map (IsBlock effort effort_fields) _ (effort_of effort effort_fields)
      (effort_of-IsBlock effort effort_fields) λ out b. (effort, d.0, d.1, b)

-- An effort block that passes is a dictionary of exactly the five fields, and what is returned
-- has the five in their order, each with the natural number that the dictionary has for it.
pub validate_effort-IsBlock :
    (value : Value) {out : Entries}
    → validate_effort value ≡ ok out
    → (effort : Entries) × (value ≡ obj effort)
      × (same_set (keys effort) effort_fields ≡ true)
      × IsBlock effort effort_fields out
validate_effort-IsBlock value h =
    Ensures-eq-ok
      (λ out.
        (effort : Entries) × (value ≡ obj effort)
        × (same_set (keys effort) effort_fields ≡ true)
        × IsBlock effort effort_fields out)
      _ (blocks value) h
