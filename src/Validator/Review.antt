-- ===== src/Validator/Review.antt =====
-- `ValidatorDaemon` of ormas_subnet/validator.py before and after a review: the gate on the digest
-- (`_preface`), and the message that answers an assignment (`_signature_message`).
pub mod Laws
use Prim.Native.Char.{Char}
use Prim.Native.String.{◌∷◌ as prepend, [] as empty}
use ormas_subnet.Common.{
  Bool, true, false, not, ◌&&◌, ◌||◌, Option, none, some, String, List, [], ◌∷◌, map, Value, null,
  str, arr, obj, Entries, keys, items, get_or_null, require_key, truthy, is_text, hex_of_length,
  str_eq, Result, ok, err, value_error, type_error, Exc, guard, ◌>>=◌, ◌>>◌, if◌then◌else◌,
}
use ormas_subnet.Workdir.{assignment_id_or_none}
use ormas_subnet.Validator.Decide.{is_shape_error}
use ormas_subnet.Validator.Shapes.Execution.{
  Evidence, is_dict, canonical_evidence_fields, validate_assignment_execution,
}
use ormas_subnet.Validator.Protocol.{
  Signed, decision_v2, assignment_decision_protocol, decision_signature_message,
}

-- What the code calls and this library does not define: `str` of a value that is no text,
-- `json.dumps` with sorted keys, SHA-256 in hexadecimal, and the check of a public packet.
pub record Calls : Type 0 where
  pub show : Value → String
  pub dumps : Entries → String
  pub sha256 : String → String
  pub validate_packet : Entries → Result (Unit {0})

-- What `_preface` returns: `skip`, `error` with the digest, or `review` with the digest.
pub data Preface : Type 0 where
  skip : Preface
  acknowledge review : String → Preface

-- The digest that a decision is signed for.
abbrev pub digest_of : Preface → Option String
digest_of skip = none
digest_of (acknowledge digest) = some digest
digest_of (review digest) = some digest

abbrev pub characters : String → List Value
characters empty = []
characters (prepend c s) = str (prepend c "") ∷ characters s

-- `list(v or [])`
abbrev pub listed : Value → Result (List Value)
listed (arr vs) = ok (items vs)
listed (str s) = ok (characters s)
listed (obj es) = ok (map str (keys es))
listed v = if truthy v then err type_error else ok []

-- `v if isinstance(v, dict) else None`
abbrev pub dict_or_null : Value → Value
dict_or_null (obj es) = obj es
dict_or_null _ = null

abbrev pub identity_ok : String → Entries → Bool
identity_ok protocol assignment =
    not (str_eq protocol decision_v2) || is_text (get_or_null "validator_id" assignment)

-- The protocol that an assignment asks for, with the identity that the second one needs.
unfoldable pub agreed_protocol : Entries → Result String
agreed_protocol assignment = do
  protocol ← assignment_decision_protocol assignment
  guard (identity_ok protocol assignment) (value_error "missing validator identity")
  ok protocol

module _ (calls : Calls) where
  -- `str(v)`
  abbrev pub text_of : Value → String
  text_of (str s) = s
  text_of v = calls.show v

  -- `str(assignment[k])`
  abbrev pub required_text : String → Entries → Result String
  required_text k assignment = do v ← require_key k assignment; ok (text_of v)

  -- `str(assignment.get(k) or "")`
  abbrev pub text_or_empty : String → Entries → String
  text_or_empty k assignment =
      if truthy (get_or_null k assignment) then text_of (get_or_null k assignment) else ""

  -- The arguments of `canonical_evidence_fields`, in the order in which they are read.
  unfoldable pub evidence_of : Entries → Result Evidence
  evidence_of assignment = do
    job ← required_text "job_id" assignment
    miner ← required_text "miner_id" assignment
    base ← required_text "base_commit" assignment
    result ← required_text "result_commit" assignment
    command ← required_text "verify_command" assignment
    allowed ← listed (get_or_null "allowed_paths" assignment)
    immutable ← listed (get_or_null "immutable_paths" assignment)
    ok (record {
      job_id = job;
      miner_id = miner;
      base_commit = base;
      result_commit = result;
      repo_url = get_or_null "repo_url" assignment;
      verify_command = command;
      allowed_paths = allowed;
      immutable_paths = immutable;
      toolchain = dict_or_null (get_or_null "toolchain" assignment);
      execution_contract = get_or_null "execution_contract" assignment;
      acceptance_contract = get_or_null "acceptance_contract" assignment;
    })

  abbrev pub evidence_digest_hex : Entries → String
  evidence_digest_hex fields = calls.sha256 (calls.dumps fields)

  -- The evidence is the one of the digest, and a public execution can be projected.
  unfoldable pub check_evidence : Entries → String → Result Bool
  check_evidence assignment digest = do
    evidence ← evidence_of assignment
    fields ← canonical_evidence_fields evidence
    guard (str_eq (evidence_digest_hex fields) digest) (value_error "assignment_evidence_mismatch")
    validate_assignment_execution calls.validate_packet assignment

  abbrev pub gate_evidence : Result Bool → String → Result Preface
  gate_evidence (ok public) digest = ok (review digest)
  gate_evidence (err e) digest = if is_shape_error e then ok (acknowledge digest) else err e

  -- `except ValueError`
  abbrev pub gate_protocol : Result String → Result Preface → Result Preface
  gate_protocol (ok protocol) rest = rest
  gate_protocol (err (value_error m)) rest = ok skip
  gate_protocol (err e) rest = err e

  abbrev pub gate_digest : Value → Entries → Result Preface
  gate_digest (str digest) assignment =
      if hex_of_length 64 digest
      then gate_protocol (agreed_protocol assignment)
          (gate_evidence (check_evidence assignment digest) digest)
      else ok skip
  gate_digest _ assignment = ok skip

  abbrev pub gate_id : Option String → Entries → Result Preface
  gate_id none assignment = ok skip
  gate_id (some id) assignment =
      gate_digest (get_or_null "evidence_digest_sha256" assignment) assignment

  -- `_preface`
  unfoldable pub preface : Entries → Result Preface
  preface assignment =
      gate_id (assignment_id_or_none (get_or_null "assignment_id" assignment)) assignment

  -- The arguments of the message: the fields of the assignment, and what is decided.
  abbrev pub signed_of : Entries → String → String → String → String → Signed
  signed_of assignment protocol id digest decision = record {
    protocol_version = protocol;
    validator_id = text_or_empty "validator_id" assignment;
    assignment_id = id;
    decision = decision;
    evidence_digest = digest;
    decision_nonce = text_or_empty "decision_nonce" assignment;
    key_generation = get_or_null "validator_key_generation" assignment;
    pubkey_hex = get_or_null "validator_pubkey_hex" assignment;
    expires_at = get_or_null "decision_expires_at" assignment;
  }

  -- `_signature_message`
  unfoldable pub signature_message : Entries → String → String → Result String
  signature_message assignment digest decision = do
    protocol ← assignment_decision_protocol assignment
    id ← required_text "assignment_id" assignment
    decision_signature_message calls.dumps (signed_of assignment protocol id digest decision)
