-- ===== src/Wire/Snapshot.antt =====
-- A snapshot mirrors the evidence, and holds no forbidden field at any depth.
use ormas_subnet.Common.{
  ◌≡◌, ◌↔◌, refl, ap, false, String, Value, null, boolean, int, float, str, arr, obj, Items, nil,
  cons, Entries, end, entry, ok, Ensures, Ensures-bind, Ensures-then, Ensures-eq-ok, guard_passed,
  not-eq-true, ◌>>=◌, ◌>>◌,
}
use ormas_subnet.Wire.{
  Key, text_key, other_key, RawEvidence, nothing, truth, integer, number, text, list_of, tuple_of,
  mapping_of, other, Members, no_members, member, Pairs, no_pairs, pair, is_forbidden, checked_key,
  snapshot_evidence, snapshot_members, snapshot_pairs,
}

-- The plain value says what the evidence says: a list for a list or a tuple, and a dictionary, its
-- keys in the same order, for a mapping whose keys are texts. No key is forbidden.
abbrev mutual
  pub Mirrors : RawEvidence → Value → Type 0
  Mirrors nothing null = Unit
  Mirrors (truth b) (boolean c) = b ≡ c
  Mirrors (integer m) (int n) = m ≡ n
  Mirrors (number x) (float y) = x ≡ y
  Mirrors (text s) (str t) = s ≡ t
  Mirrors (list_of ms) (arr vs) = MirrorsAll ms vs
  Mirrors (tuple_of ms) (arr vs) = MirrorsAll ms vs
  Mirrors (mapping_of ps) (obj es) = MirrorsPairs ps es
  Mirrors _ _ = ⊥

  pub MirrorsAll : Members → Items → Type 0
  MirrorsAll no_members nil = Unit
  MirrorsAll (member m ms) (cons v vs) = Mirrors m v × MirrorsAll ms vs
  MirrorsAll _ _ = ⊥

  pub MirrorsPairs : Pairs → Entries → Type 0
  MirrorsPairs no_pairs end = Unit
  MirrorsPairs (pair key m ps) (entry k v es) =
      (key ≡ text_key k) × (is_forbidden k ≡ false) × Mirrors m v × MirrorsPairs ps es
  MirrorsPairs _ _ = ⊥

checked_key-ok :
    (key : Key) → Ensures (λ k. (key ≡ text_key k) × (is_forbidden k ≡ false)) (checked_key key)
checked_key-ok (text_key k) =
    Ensures-then _ _ _ λ g. (refl, not-eq-true (is_forbidden k) (guard_passed _ _ g))
checked_key-ok other_key = tt

mutual
  unfolding snapshot_evidence snapshot_members snapshot_pairs

  snapshot-Mirrors : (m : RawEvidence) → Ensures (Mirrors m) (snapshot_evidence m)
  snapshot-Mirrors nothing = tt
  snapshot-Mirrors (truth b) = refl
  snapshot-Mirrors (integer n) = refl
  snapshot-Mirrors (number x) = refl
  snapshot-Mirrors (text s) = refl
  snapshot-Mirrors (list_of ms) =
      Ensures-bind _ _ _ λ ws e. Ensures-eq-ok (MirrorsAll ms) _ (snapshot-MirrorsAll ms) e
  snapshot-Mirrors (tuple_of ms) =
      Ensures-bind _ _ _ λ ws e. Ensures-eq-ok (MirrorsAll ms) _ (snapshot-MirrorsAll ms) e
  snapshot-Mirrors (mapping_of ps) =
      Ensures-bind _ _ _ λ fs e. Ensures-eq-ok (MirrorsPairs ps) _ (snapshot-MirrorsPairs ps) e
  snapshot-Mirrors other = tt

  snapshot-MirrorsAll : (ms : Members) → Ensures (MirrorsAll ms) (snapshot_members ms)
  snapshot-MirrorsAll no_members = tt
  snapshot-MirrorsAll (member m ms) = Ensures-bind _ _ _ λ w e1. Ensures-bind _ _ _ λ ws e2. (
    Ensures-eq-ok (Mirrors m) _ (snapshot-Mirrors m) e1,
    Ensures-eq-ok (MirrorsAll ms) _ (snapshot-MirrorsAll ms) e2,
  )

  snapshot-MirrorsPairs : (ps : Pairs) → Ensures (MirrorsPairs ps) (snapshot_pairs ps)
  snapshot-MirrorsPairs no_pairs = tt
  snapshot-MirrorsPairs (pair key m ps) = Ensures-bind _ _ _ λ k e0. Ensures-bind _ _ _ λ w e1.
      Ensures-bind _ _ _ λ fs e2.
        let named =
          Ensures-eq-ok (λ j. (key ≡ text_key j) × (is_forbidden j ≡ false)) _ (checked_key-ok key)
            e0 in
        (
          named.0,
          named.1,
          Ensures-eq-ok (Mirrors m) _ (snapshot-Mirrors m) e1,
          Ensures-eq-ok (MirrorsPairs ps) _ (snapshot-MirrorsPairs ps) e2,
        )

key_passes :
    (key : Key) (k : String) → key ≡ text_key k → is_forbidden k ≡ false → checked_key key ≡ ok k
unfolding ◌>>◌
key_passes key k e f = rw (e, checked_key, f) refl

mutual
  unfolding snapshot_evidence snapshot_members snapshot_pairs ◌>>=◌

  Mirrors-snapshot : (m : RawEvidence) (v : Value) → Mirrors m v → snapshot_evidence m ≡ ok v
  Mirrors-snapshot nothing null h = refl
  Mirrors-snapshot (truth b) (boolean c) h = ap (λ x. ok (boolean x)) h
  Mirrors-snapshot (integer m) (int n) h = ap (λ x. ok (int x)) h
  Mirrors-snapshot (number x) (float y) h = ap (λ z. ok (float z)) h
  Mirrors-snapshot (text s) (str t) h = ap (λ x. ok (str x)) h
  Mirrors-snapshot (list_of ms) (arr vs) h = rw (MirrorsAll-snapshot ms vs h) refl
  Mirrors-snapshot (tuple_of ms) (arr vs) h = rw (MirrorsAll-snapshot ms vs h) refl
  Mirrors-snapshot (mapping_of ps) (obj es) h = rw (MirrorsPairs-snapshot ps es h) refl
  Mirrors-snapshot _ _ h = absurd h

  MirrorsAll-snapshot : (ms : Members) (vs : Items) → MirrorsAll ms vs → snapshot_members ms ≡ ok vs
  MirrorsAll-snapshot no_members nil h = refl
  MirrorsAll-snapshot (member m ms) (cons v vs) h =
      rw (Mirrors-snapshot m v h.0, MirrorsAll-snapshot ms vs h.1) refl
  MirrorsAll-snapshot _ _ h = absurd h

  MirrorsPairs-snapshot :
      (ps : Pairs) (es : Entries) → MirrorsPairs ps es → snapshot_pairs ps ≡ ok es
  MirrorsPairs-snapshot no_pairs end h = refl
  MirrorsPairs-snapshot (pair key m ps) (entry k v es) h =
      rw (key_passes key k h.0 h.1, Mirrors-snapshot m v h.2, MirrorsPairs-snapshot ps es h.3) refl
  MirrorsPairs-snapshot _ _ h = absurd h

-- A snapshot returns exactly the plain value that mirrors the evidence: lists for lists and tuples,
-- dictionaries for mappings whose keys are texts, and no forbidden key at any depth. RawEvidence that
-- no plain value mirrors raises.
pub snapshot_evidence_iff :
    (value : RawEvidence) (copy : Value) → (snapshot_evidence value ≡ ok copy) ↔ Mirrors value copy
snapshot_evidence_iff value copy =
    (λ h. Ensures-eq-ok (Mirrors value) _ (snapshot-Mirrors value) h, Mirrors-snapshot value copy)
