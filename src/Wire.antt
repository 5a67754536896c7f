-- ===== src/Wire.antt =====
-- `snapshot_evidence` of ormas_subnet/protocol.py, on the Python values that it takes apart. A
-- message leaves out the name of the field that it is about.
pub mod Snapshot
mod Tests
use ormas_subnet.Common.{
  Bool, not, String, List, [], ◌∷◌, ℤ, Float, Value, null, boolean, int, float, str, arr, obj,
  Items, nil, cons, Entries, end, entry, elem, value_error, Result, ok, err, ◌>>=◌, ◌>>◌, guard,
}

-- `_FORBIDDEN_RUNNER_WIRE_FIELDS`
abbrev pub forbidden_fields : List String
forbidden_fields =
    "provider_key" ∷ "repo_path" ∷ "raw_source" ∷ "raw_prompt" ∷ "raw_output" ∷ "raw_diff"
    ∷ "tenant_id" ∷ "client_0" ∷ "rao" ∷ []

abbrev pub is_forbidden : String → Bool
is_forbidden k = elem k forbidden_fields

-- A key of a mapping: a `str`, or anything else.
pub data Key : Type 0 where
  text_key : String → Key
  other_key : Key

-- A value of the caller. `other` is a value of any other class.
mutual
  pub data RawEvidence : Type 0 where
    nothing : RawEvidence
    truth : Bool → RawEvidence
    integer : ℤ → RawEvidence
    number : Float → RawEvidence
    text : String → RawEvidence
    list_of : Members → RawEvidence
    tuple_of : Members → RawEvidence
    mapping_of : Pairs → RawEvidence
    other : RawEvidence

  pub data Members : Type 0 where
    no_members : Members
    member : RawEvidence → Members → Members

  pub data Pairs : Type 0 where
    no_pairs : Pairs
    pair : Key → RawEvidence → Pairs → Pairs

abbrev pub checked_key : Key → Result String
checked_key (text_key k) = do
  guard (not (is_forbidden k)) (value_error "forbidden runner V1 field")
  ok k
checked_key other_key = err (value_error "evidence mapping keys must be strings")

unfoldable mutual
  pub snapshot_evidence : RawEvidence → Result Value
  snapshot_evidence nothing = ok null
  snapshot_evidence (truth b) = ok (boolean b)
  snapshot_evidence (integer n) = ok (int n)
  snapshot_evidence (number x) = ok (float x)
  snapshot_evidence (text s) = ok (str s)
  snapshot_evidence (mapping_of ps) = snapshot_pairs ps >>= (λ fs. ok (obj fs))
  snapshot_evidence (list_of ms) = snapshot_members ms >>= (λ ws. ok (arr ws))
  snapshot_evidence (tuple_of ms) = snapshot_members ms >>= (λ ws. ok (arr ws))
  snapshot_evidence other = err (value_error "unsupported evidence value")

  pub snapshot_members : Members → Result Items
  snapshot_members no_members = ok nil
  snapshot_members (member m ms) =
      snapshot_evidence m >>= (λ w. snapshot_members ms >>= (λ ws. ok (cons w ws)))

  -- The keys of a mapping are distinct, so that each adds an entry.
  pub snapshot_pairs : Pairs → Result Entries
  snapshot_pairs no_pairs = ok end
  snapshot_pairs (pair key m ps) =
      checked_key key
      >>= (λ k. snapshot_evidence m >>= (λ w. snapshot_pairs ps >>= (λ fs. ok (entry k w fs))))
