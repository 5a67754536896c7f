-- ===== src/Wire/Tests.antt =====
-- Snapshots of concrete evidence.
use ormas_subnet.Common.{
  ◌≡◌, ◌↔◌, refl, false, pos, Value, int, str, arr, obj, cons, nil, entry, end, ok, is_ok, ◌>>=◌,
  ◌>>◌,
}
use ormas_subnet.Wire.{
  text_key, other_key, RawEvidence, integer, text, tuple_of, mapping_of, no_members, member,
  no_pairs, pair, snapshot_evidence,
}
use ormas_subnet.Wire.Snapshot.{Mirrors, snapshot_evidence_iff}

abbrev evidence : RawEvidence
evidence = mapping_of (
    pair (text_key "paths") (tuple_of (member (text "a") no_members))
      (pair (text_key "n") (integer (pos 1)) no_pairs))

abbrev copy : Value
copy = obj (entry "paths" (arr (cons (str "a") nil)) (entry "n" (int (pos 1)) end))

evidence_passes : snapshot_evidence evidence ≡ ok copy
unfolding snapshot_evidence ◌>>=◌ ◌>>◌
evidence_passes = refl

nested_secret_is_refused :
    is_ok (
      snapshot_evidence (
        mapping_of (
          pair
            (text_key "a")
            (tuple_of
              (member (mapping_of (pair (text_key "raw_diff") (text "x") no_pairs)) no_members))
            no_pairs)))
    ≡ false
unfolding snapshot_evidence ◌>>=◌ ◌>>◌
nested_secret_is_refused = refl

other_keys_are_refused :
    is_ok (snapshot_evidence (mapping_of (pair other_key (text "x") no_pairs))) ≡ false
unfolding snapshot_evidence ◌>>=◌ ◌>>◌
other_keys_are_refused = refl

snapshot_evidence_iff_example : (snapshot_evidence evidence ≡ ok copy) ↔ Mirrors evidence copy
snapshot_evidence_iff_example = snapshot_evidence_iff evidence copy
