-- ===== src/Validator/Poll/Tests.antt =====
-- A poll of one assignment, whose clone is refused once.
use ormas_subnet.Common.{
  null, ◌≡◌, ◌≢◌, ◌⊎◌, sym, ok_injective, Exc, elem, refl, ℕ, zero, suc, ◌≤◌, true, false, String,
  List, [], ◌∷◌, length, str, int, obj, pos, Entries, end, entry, ok, err, git_error,
  attribute_error, Result, ◌>>=◌, ◌>>◌, is_decimal, hex_of_length, is_ok,
}
use ormas_subnet.Workdir.{is_safe_component, assignment_id_or_none, require_safe_component}
use ormas_subnet.Validator.Shapes.Execution.{
  is_sha256, canonical_evidence_fields, add_execution, add_acceptance,
  validate_assignment_execution,
}
use ormas_subnet.Validator.Protocol.{
  Signed, decisions, decision_v1, decision_v2, is_expiry, is_key_hex, assignment_decision_protocol,
  check_signed, decision_signature_message,
}
use ormas_subnet.Validator.Protocol.Laws.{decision_signature_message-apart}
use ormas_subnet.Validator.Review.{
  Calls, review, preface, agreed_protocol, check_evidence, evidence_of, signature_message,
}
use ormas_subnet.Validator.Review.Laws.{preface-signature_message}
use ormas_subnet.Validator.Poll.{
  Host, after, window_of, clone_from, clone_with_retry, sign_and_post, answer_assignment, mine,
  select, run_once,
}
use ormas_subnet.Validator.Poll.Laws.{IsSound, posts}
use ormas_subnet.Validator.Poll.Sound.{run_once-IsSound}
use ormas_subnet.Validator.Poll.Clone.{is_refused, clone_with_retry-bounded}
use ormas_subnet.Validator.Poll.Answered.{Raises, answer_assignment-posts}

abbrev sha : String
sha = "0123456789abcdef0123456789abcdef0123456789abcdef0123456789abcdef"

abbrev calls : Calls
calls = record {
  show = λ v. "";
  dumps = λ es. "{}";
  sha256 = λ s. sha;
  validate_packet = λ packet. ok tt;
}

abbrev timed : Entries
timed =
    entry "acceptance_contract"
      (obj (entry "policy" (obj (entry "timeout_s" (int (pos 3)) end)) end)) end

abbrev assignment : Entries
assignment = entry "assignment_id" (str "a-1") (
    entry "evidence_digest_sha256" (str sha) (
      entry "decision_protocol_version" (str decision_v2) (
        entry "decision_nonce" (str sha) (
          entry "validator_id" (str "v-1") (
            entry "validator_key_generation" (int (pos 1)) (
              entry "validator_pubkey_hex" (str sha) (
                entry "decision_expires_at" (str "2026-01-02T03:04:05Z") (
                  entry "job_id" (str "j-1") (
                    entry "miner_id" (str "m-1") (
                      entry "base_commit" (str "b") (
                        entry "result_commit" (str "r")
                          (entry "verify_command" (str "pytest") end))))))))))))

abbrev cloned_second : Entries → ℕ → List String → List String × Result String
cloned_second a zero tokens = (tokens, err (git_error "refused"))
cloned_second a (suc n) tokens = (tokens, ok "work")

abbrev host : Host
host = record {
  calls = calls;
  is_protected = false;
  fetch_read_token = λ id. false;
  unexpired = λ id. false;
  list_assignments = ok (obj assignment ∷ []);
  clone = cloned_second;
  second = 10;
  started = 0;
  failed_at = λ n. 1;
  resumed_at = λ n. 11;
  decide = λ a path. ok "accept";
  sign = λ message. "signature";
  post = λ id decision signature. ok tt;
}

gate_passes : preface calls assignment ≡ ok (review sha)
unfolding preface assignment_id_or_none is_safe_component agreed_protocol
    assignment_decision_protocol is_sha256 is_expiry is_key_hex is_decimal hex_of_length
    check_evidence evidence_of canonical_evidence_fields add_execution add_acceptance
    validate_assignment_execution ◌>>=◌ ◌>>◌
gate_passes = refl

preface-signature_message_example : is_ok (signature_message calls assignment sha "reject") ≡ true
preface-signature_message_example =
    preface-signature_message calls assignment (review sha) sha "reject" gate_passes refl refl

run_once-IsSound_example : IsSound host 1 (run_once host [])
run_once-IsSound_example = run_once-IsSound host []

-- The review of a checkout accepts.
decides_known :
    (path decision : String)
    → host.decide assignment path ≡ ok decision
    → elem decision decisions ≡ true
decides_known path decision made = rw (sym (ok_injective made)) refl

-- The clone that is tried again gives the checkout, and it is accepted.
poll_accepts : posts (run_once host []).events ≡ 1
unfolding run_once after mine select answer_assignment preface assignment_id_or_none
    is_safe_component agreed_protocol assignment_decision_protocol is_sha256 is_expiry is_key_hex
    is_decimal hex_of_length check_evidence evidence_of canonical_evidence_fields add_execution
    add_acceptance validate_assignment_execution clone_with_retry clone_from window_of sign_and_post
    require_safe_component signature_message decision_signature_message check_signed ◌>>=◌ ◌>>◌
poll_accepts = refl

answer_assignment-posts_example :
    (posts (answer_assignment host assignment []).events ≡ 1)
    ⊎ ((e : Exc) × ((answer_assignment host assignment []).outcome ≡ err e)
        × Raises host assignment e)
answer_assignment-posts_example =
    answer_assignment-posts host assignment decides_known (review sha) sha [] gate_passes refl

clone_with_retry-bounded_example :
    (length (clone_with_retry host timed []).events ≤ window_of timed)
    × (window_of timed ≤ 15)
    × (is_refused (clone_with_retry host timed []).outcome ≡ false)
clone_with_retry-bounded_example = clone_with_retry-bounded host timed []

abbrev signed_for : String → Signed
signed_for protocol = record {
  protocol_version = protocol;
  validator_id = "v-1";
  assignment_id = "a-1";
  decision = "accept";
  evidence_digest = sha;
  decision_nonce = sha;
  key_generation = int (pos 1);
  pubkey_hex = str sha;
  expires_at = str "2026-01-02T03:04:05Z";
}

legacy_message : decision_signature_message calls.dumps (signed_for decision_v1) ≡ ok sha
unfolding decision_signature_message hex_of_length ◌>>=◌ ◌>>◌
legacy_message = refl

bound_message :
    decision_signature_message calls.dumps (signed_for decision_v2)
    ≡ ok "ormas-validator-decision-v2\0{}"
unfolding decision_signature_message check_signed is_expiry is_key_hex is_decimal hex_of_length
    ◌>>=◌ ◌>>◌
bound_message = refl

decision_signature_message-apart_example : sha ≢ "ormas-validator-decision-v2\0{}"
decision_signature_message-apart_example =
    decision_signature_message-apart calls.dumps (signed_for decision_v1) (signed_for decision_v2)
      refl refl legacy_message bound_message

-- A row that is no dictionary stops the poll, although the loop over the rows would pass it over.
bare_row_raises : mine host (null ∷ obj assignment ∷ []) ≡ err attribute_error
unfolding mine ◌>>=◌
bare_row_raises = refl
