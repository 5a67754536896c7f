-- ===== src/Validator/Review/Laws.antt =====
-- Every assignment that the gate of ormas_subnet/validator.py lets through can be answered.
use ormas_subnet.Common.{
  ◌≡◌, ◌⊎◌, inl, inr, refl, ap, subst, Bool, true, false, not, Bool-cases, Option, Option-cases,
  is_ok, none, some, String, Value, str, Entries, get, get_or_null, require_key, truthy, is_text,
  hex_of_length, str_eq, elem, says, Result, ok, err, value_error, key_error, type_error,
  attribute_error, Ensures, Ensures-bind, Ensures-then, Ensures-eq-ok, guard_passed, guard_holds,
  arith, ◌>>=◌, ◌>>◌, if◌then◌else◌, if_holds, eq_iff,
}
use ormas_subnet.Workdir.{is_safe_component, assignment_id_or_none}
use ormas_subnet.Validator.Shapes.Execution.{is_sha256}
use ormas_subnet.Validator.Protocol.{
  decision_v1, decision_v2, decisions, assignment_decision_protocol, decision_signature_message,
  check_signed, is_generation, is_key_hex, is_expiry,
}
use ormas_subnet.Validator.Review.{
  Calls, Preface, skip, acknowledge, review, digest_of, preface, gate_id, gate_digest,
  gate_protocol, gate_evidence, agreed_protocol, identity_ok, text_of, signed_of, signature_message,
  check_evidence,
}

-- The steps of a chain that pass.
pub then_ok {ℓ} :
    {A : Type ℓ} {g : Result (Unit {0})} {k : Result A} {a : A}
    → g ≡ ok tt
    → k ≡ ok a
    → (g >> k) ≡ ok a
unfolding ◌>>◌
then_ok {g = g} h e = rw h e

-- What an assignment that asks for the second protocol carries.
record IsKeyed (assignment : Entries) : Type 0 where
  nonce : is_sha256 (get_or_null "decision_nonce" assignment) ≡ true
  generation : is_generation (get_or_null "validator_key_generation" assignment) ≡ true
  key : is_key_hex (get_or_null "validator_pubkey_hex" assignment) ≡ true
  expiry : is_expiry (get_or_null "decision_expires_at" assignment) ≡ true

protocol-Ensures :
    (assignment : Entries)
    → Ensures
        (λ p. (p ≡ decision_v1) ⊎ ((p ≡ decision_v2) × IsKeyed assignment))
        (assignment_decision_protocol assignment)
unfolding assignment_decision_protocol
protocol-Ensures assignment =
    if_holds (Ensures (λ p. (p ≡ decision_v1) ⊎ ((p ≡ decision_v2) × IsKeyed assignment)))
      (says decision_v1 (get_or_null "decision_protocol_version" assignment)) _ _
      (λ t. Ensures-then _ _ _ λ g. inl refl)
      λ n.
        if_holds (Ensures (λ p. (p ≡ decision_v1) ⊎ ((p ≡ decision_v2) × IsKeyed assignment)))
          (says decision_v2 (get_or_null "decision_protocol_version" assignment)) _ _
          (λ t. Ensures-then _ _ _ λ g1. Ensures-then _ _ _ λ g2. Ensures-then _ _ _ λ g3.
            Ensures-then _ _ _ λ g4. inr (
              refl,
              record {
                nonce = guard_passed _ _ g1;
                generation = guard_passed _ _ g2;
                key = guard_passed _ _ g3;
                expiry = guard_passed _ _ g4;
              },
            ))
          (λ m. tt)

agreed-Ensures :
    (assignment : Entries)
    → Ensures
        (λ p. (assignment_decision_protocol assignment ≡ ok p) × (identity_ok p assignment ≡ true))
        (agreed_protocol assignment)
unfolding agreed_protocol
agreed-Ensures assignment =
    Ensures-bind _ _ _ λ p e. Ensures-then _ _ _ λ g. (e, guard_passed _ _ g)

-- An assignment that can be answered under a digest.
pub record IsAnswerable (assignment : Entries) (digest : String) : Type 0 where
  pub id : String
  pub named : get_or_null "assignment_id" assignment ≡ str id
  pub safe : is_safe_component id ≡ true
  pub digested : hex_of_length 64 digest ≡ true
  pub protocol : String
  pub agreed : agreed_protocol assignment ≡ ok protocol

abbrev pub Answerable : Entries → Preface → Type 0
Answerable assignment skip = Unit
Answerable assignment (acknowledge digest) = IsAnswerable assignment digest
Answerable assignment (review digest) = IsAnswerable assignment digest

id_is_safe :
    (v : Value) {id : String}
    → assignment_id_or_none v ≡ some id
    → (v ≡ str id) × (is_safe_component id ≡ true)
unfolding assignment_id_or_none
id_is_safe (str s) h = elim (Bool-cases (is_safe_component s)) [
  | inl t ↦ let same : s ≡ _ = cc (rw t at h) in (ap str same, rw (← same) t)
  | inr n ↦ cc (rw n at h)
]
id_is_safe _ h = cc h

is_empty_text : (s : String) → str_eq s "" ≡ true → s ≡ ""
is_empty_text s h = ground (arith, eq_iff s "")

required_id :
    (assignment : Entries) {id : String}
    → get_or_null "assignment_id" assignment ≡ str id
    → require_key "assignment_id" assignment ≡ ok (str id)
required_id assignment h = elim (Option-cases (get "assignment_id" assignment)) [
  | inl n ↦ cc (rw (get_or_null, n) at h)
  | inr (v, e) ↦ let same : v ≡ str _ = rw (get_or_null, e) at h in rw (require_key, e, same)
]

module _ (calls : Calls) (assignment : Entries) where
  gate_evidence-Answerable :
      (r : Result Bool) (digest : String)
      → IsAnswerable assignment digest
      → Ensures (Answerable assignment) (gate_evidence calls r digest)
  gate_evidence-Answerable (ok public) digest h = h
  gate_evidence-Answerable (err (value_error m)) digest h = h
  gate_evidence-Answerable (err key_error) digest h = h
  gate_evidence-Answerable (err type_error) digest h = h
  gate_evidence-Answerable (err attribute_error) digest h = h
  gate_evidence-Answerable (err _) digest h = tt

  gate_protocol-Answerable :
      (r : Result String) (rest : Result Preface)
      → ((p : String) → r ≡ ok p → Ensures (Answerable assignment) rest)
      → Ensures (Answerable assignment) (gate_protocol calls r rest)
  gate_protocol-Answerable (ok p) rest h = h p refl
  gate_protocol-Answerable (err (value_error m)) rest h = tt
  gate_protocol-Answerable (err _) rest h = tt

  gate_digest-Answerable :
      (v : Value) {id : String}
      → get_or_null "assignment_id" assignment ≡ str id
      → is_safe_component id ≡ true
      → Ensures (Answerable assignment) (gate_digest calls v assignment)
  gate_digest-Answerable (str digest) {id} named safe =
      if_holds (Ensures (Answerable assignment)) (hex_of_length 64 digest) _ _
        (λ t. gate_protocol-Answerable (agreed_protocol assignment) _ λ p e.
          gate_evidence-Answerable (check_evidence calls assignment digest) digest (record {
            id = id;
            named = named;
            safe = safe;
            digested = t;
            protocol = p;
            agreed = e;
          }))
        (λ n. tt)
  gate_digest-Answerable _ named safe = tt

  gate_id-Answerable :
      (o : Option String)
      → assignment_id_or_none (get_or_null "assignment_id" assignment) ≡ o
      → Ensures (Answerable assignment) (gate_id calls o assignment)
  gate_id-Answerable none h = tt
  gate_id-Answerable (some id) h =
      let safe = id_is_safe _ h in
      gate_digest-Answerable (get_or_null "evidence_digest_sha256" assignment) safe.0 safe.1

  pub preface-Answerable : Ensures (Answerable assignment) (preface calls assignment)
  unfolding preface
  preface-Answerable = gate_id-Answerable _ refl

  -- The nonce and the identity of the second protocol, as the message takes them.
  nonce_text :
      (v : Value)
      → is_sha256 v ≡ true
      → hex_of_length 64 (if truthy v then text_of calls v else "") ≡ true
  unfolding is_sha256
  nonce_text (str s) h =
      if_holds (λ t. hex_of_length 64 t ≡ true) (not (str_eq s "")) s "" (λ t. h)
        (λ n. cc (rw (is_empty_text s (ground arith)) at h))
  nonce_text _ h = cc h

  identity_text :
      (v : Value) → is_text v ≡ true → str_eq (if truthy v then text_of calls v else "") "" ≡ false
  identity_text (str s) h = elim (Bool-cases (str_eq s "")) [
    | inl t ↦ cc (rw t at h)
    | inr n ↦ rw n n
  ]
  identity_text _ h = cc h

  id_nonempty : (s : String) → is_safe_component s ≡ true → str_eq s "" ≡ false
  unfolding is_safe_component
  id_nonempty s h = elim (Bool-cases (str_eq s "")) [
    | inl t ↦ cc (rw (is_empty_text s t) at h)
    | inr n ↦ n
  ]

  -- The arguments pass the checks of the second protocol.
  signed_passes :
      {digest : String} (decision : String) (h : IsAnswerable assignment digest)
      → identity_ok decision_v2 assignment ≡ true
      → IsKeyed assignment
      → elem decision decisions ≡ true
      → check_signed (signed_of calls assignment decision_v2 h.id digest decision) ≡ ok tt
  unfolding check_signed
  signed_passes decision h identified keyed d = then_ok refl (
      then_ok
        (guard_holds _ _
          (ap not (identity_text (get_or_null "validator_id" assignment) identified)))
        (then_ok (guard_holds _ _ (ap not (id_nonempty h.id h.safe))) (
          then_ok
            (guard_holds _ _ (nonce_text (get_or_null "decision_nonce" assignment) keyed.nonce))
            (then_ok (guard_holds _ _ keyed.generation) (
              then_ok (guard_holds _ _ keyed.key)
                (then_ok (guard_holds _ _ keyed.expiry) (guard_holds _ _ d)))))))

  message_defined :
      {digest : String} (decision : String) (h : IsAnswerable assignment digest)
      → elem decision decisions ≡ true
      → is_ok (
          decision_signature_message calls.dumps
            (signed_of calls assignment h.protocol h.id digest decision))
        ≡ true
  unfolding decision_signature_message ◌>>◌
  message_defined decision h d =
      let agreed = Ensures-eq-ok _ _ (agreed-Ensures assignment) h.agreed in
      elim (Ensures-eq-ok _ _ (protocol-Ensures assignment) agreed.0) [
        | inl e ↦ rw (h.digested, e)
        | inr (e, keyed) ↦
            let identified : identity_ok decision_v2 assignment ≡ true = rw e at agreed.1 in
            rw (h.digested, e, signed_passes decision h identified keyed d)
      ]

  pub signature_message-defined :
      {digest : String} (decision : String)
      → IsAnswerable assignment digest
      → elem decision decisions ≡ true
      → is_ok (signature_message calls assignment digest decision) ≡ true
  unfolding signature_message ◌>>=◌
  signature_message-defined decision h d =
      let agreed = Ensures-eq-ok _ _ (agreed-Ensures assignment) h.agreed in
      let named = required_id assignment h.named in
      rw (agreed.0, named) (message_defined decision h d)

  pub answerable :
      (p : Preface) {digest : String}
      → Answerable assignment p
      → digest_of p ≡ some digest
      → IsAnswerable assignment digest
  answerable skip h e = cc e
  answerable (acknowledge d) h e = subst (IsAnswerable assignment) (cc e) h
  answerable (review d) h e = subst (IsAnswerable assignment) (cc e) h

  -- Whatever the gate does not skip can be answered: for the digest that it returns and for each of
  -- the three decisions, the message to sign is defined.
  pub preface-signature_message :
      (p : Preface) (digest decision : String)
      → preface calls assignment ≡ ok p
      → digest_of p ≡ some digest
      → elem decision decisions ≡ true
      → is_ok (signature_message calls assignment digest decision) ≡ true
  preface-signature_message p digest decision h e d =
      signature_message-defined decision
        (answerable p (Ensures-eq-ok (Answerable assignment) _ preface-Answerable h) e) d
