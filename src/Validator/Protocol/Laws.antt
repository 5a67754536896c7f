-- ===== src/Validator/Protocol/Laws.antt =====
-- The messages of the two decision protocols.
use ormas_subnet.Common.{
  ◌≡◌, ◌≢◌, ◌∙◌, refl, true, false, and-eq-true, String, Entries, concat, hex_of_length, ok,
  Ensures, Ensures-then, Ensures-eq-ok, guard_passed,
}
use ormas_subnet.Validator.Protocol.{
  decision_v1, decision_v2, Signed, domain, envelope, check_signed, decision_signature_message,
}

-- A digest does not begin as the domain of the second protocol does.
digest_apart : (s t : String) → hex_of_length 64 s ≡ true → s ≡ concat domain t → false ≡ true
unfolding hex_of_length
digest_apart s t h e =
    let bad : hex_of_length 64 (concat domain t) ≡ true = rw e at h in (and-eq-true _ _ bad).1

module _ (dumps : Entries → String) where
  -- What a message is under each protocol.
  legacy-Ensures :
      (m : Signed)
      → m.protocol_version ≡ decision_v1
      → Ensures
          (λ s. (s ≡ m.evidence_digest) × (hex_of_length 64 s ≡ true))
          (decision_signature_message dumps m)
  unfolding decision_signature_message
  legacy-Ensures m p = Ensures-then _ _ _ λ g. rw p (refl, guard_passed _ _ g)

  bound-Ensures :
      (m : Signed)
      → m.protocol_version ≡ decision_v2
      → Ensures
          (λ s. (s ≡ concat domain (dumps (envelope m))) × (check_signed m ≡ ok tt))
          (decision_signature_message dumps m)
  unfolding decision_signature_message
  bound-Ensures m p = Ensures-then _ _ _ λ g. rw p (Ensures-then _ _ _ λ c. (refl, c))

  -- The two protocols never sign the same text: whatever the envelopes are, and however they are
  -- written, a message of the first protocol is not a message of the second.
  pub decision_signature_message-apart :
      (m n : Signed) {s t : String}
      → m.protocol_version ≡ decision_v1
      → n.protocol_version ≡ decision_v2
      → decision_signature_message dumps m ≡ ok s
      → decision_signature_message dumps n ≡ ok t
      → s ≢ t
  decision_signature_message-apart m n p q h k = λ same.
      let legacy = Ensures-eq-ok _ _ (legacy-Ensures m p) h in
      let bound = Ensures-eq-ok _ _ (bound-Ensures n q) k in
      cc (digest_apart _ _ legacy.1 (same ∙ bound.0))
