-- ===== src/Validator/Protocol.antt =====
-- The decision protocol of ormas_subnet/validator.py: which one an assignment asks for
-- (`_assignment_decision_protocol`), and the message that is signed (`decision_signature_message`)
-- over what `json.dumps` makes of its envelope.
pub mod Laws
use Prim.Native.Char.{Char, code}
use Prim.Native.String.{◌∷◌ as prepend, [] as empty}
use ormas_subnet.Common.{
  ℕ, Bool, true, false, not, ◌&&◌, ◌||◌, ◌==◌, String, List, [], ◌∷◌, Value, null, boolean, int,
  float, str, arr, obj, ℤ, pos, int_pos, Entries, end, entry, get_or_null, elem, is_text, says,
  is_decimal, hex_of_length, str_eq, Result, ok, err, value_error, Exc, guard, ◌>>=◌, ◌>>◌,
  if◌then◌else◌, concat,
}
use ormas_subnet.Validator.Shapes.Execution.{is_sha256}

abbrev pub decision_v1 : String
decision_v1 = "ormas-validator-decision-v1"

abbrev pub decision_v2 : String
decision_v2 = "ormas-validator-decision-v2"

-- `re.fullmatch` of a template in which `d` stands for `\d`
abbrev pub fits : String → String → Bool
fits empty empty = true
fits (prepend t template) (prepend c s) =
    (if code t == b'd' then is_decimal (code c) else code t == code c) && fits template s
fits _ _ = false

unfoldable pub is_expiry : Value → Bool
is_expiry (str s) = fits "dddd-dd-ddTdd:dd:ddZ" s
is_expiry _ = false

-- `type(v) is int and v > 0`
abbrev pub is_generation : Value → Bool
is_generation (int n) = int_pos n
is_generation _ = false

-- `bytes.fromhex(v).hex() == v`, of 64 characters: only lowercase digits give themselves back.
unfoldable pub is_key_hex : Value → Bool
is_key_hex (str s) = hex_of_length 64 s
is_key_hex _ = false

abbrev pub is_null : Value → Bool
is_null null = true
is_null _ = false

-- `_assignment_decision_protocol`
unfoldable pub assignment_decision_protocol : Entries → Result String
assignment_decision_protocol assignment =
    if says decision_v1 (get_or_null "decision_protocol_version" assignment)
    then (do
      guard (is_null (get_or_null "decision_nonce" assignment))
          (value_error "invalid legacy decision nonce")
      ok decision_v1)
    else if says decision_v2 (get_or_null "decision_protocol_version" assignment)
    then (do
      guard (is_sha256 (get_or_null "decision_nonce" assignment))
          (value_error "invalid decision nonce")
      guard (is_generation (get_or_null "validator_key_generation" assignment))
          (value_error "invalid validator key generation")
      guard (is_key_hex (get_or_null "validator_pubkey_hex" assignment))
          (value_error "invalid validator public key")
      guard (is_expiry (get_or_null "decision_expires_at" assignment))
          (value_error "invalid decision expiry")
      ok decision_v2)
    else err (value_error "unsupported validator decision protocol")

-- The keyword arguments of `decision_signature_message`.
pub record Signed : Type 0 where
  pub protocol_version : String
  pub validator_id : String
  pub assignment_id : String
  pub decision : String
  pub evidence_digest : String
  pub decision_nonce : String
  pub key_generation : Value
  pub pubkey_hex : Value
  pub expires_at : Value

abbrev pub decisions : List String
decisions = "accept" ∷ "reject" ∷ "error" ∷ []

abbrev pub envelope : Signed → Entries
envelope m = entry "assignment_id" (str m.assignment_id) (
    entry "decision" (str m.decision) (
      entry "decision_expires_at" m.expires_at (
        entry "decision_nonce" (str m.decision_nonce) (
          entry "evidence_digest_sha256" (str m.evidence_digest) (
            entry "protocol_version" (str decision_v2) (
              entry "validator_id" (str m.validator_id) (
                entry "validator_key_generation" m.key_generation
                  (entry "validator_pubkey_hex" m.pubkey_hex end))))))))

-- `_VALIDATOR_DECISION_V2_DOMAIN`
abbrev pub domain : String
domain = "ormas-validator-decision-v2\0"

-- What the second protocol requires of the arguments.
unfoldable pub check_signed : Signed → Result (Unit {0})
check_signed m = do
  guard (str_eq m.protocol_version decision_v2)
      (value_error "unsupported validator decision protocol")
  guard (not (str_eq m.validator_id "")) (value_error "invalid validator identity")
  guard (not (str_eq m.assignment_id "")) (value_error "invalid assignment identity")
  guard (hex_of_length 64 m.decision_nonce) (value_error "invalid decision nonce")
  guard (is_generation m.key_generation) (value_error "invalid validator key generation")
  guard (is_key_hex m.pubkey_hex) (value_error "invalid validator public key")
  guard (is_expiry m.expires_at) (value_error "invalid decision expiry")
  guard (elem m.decision decisions) (value_error "invalid validator decision")

module _ (dumps : Entries → String) where
  unfoldable pub decision_signature_message : Signed → Result String
  decision_signature_message m = do
    guard (hex_of_length 64 m.evidence_digest) (value_error "invalid evidence digest")
    if str_eq m.protocol_version decision_v1
        then ok m.evidence_digest
        else (do check_signed m; ok (concat domain (dumps (envelope m))))
