-- ===== src/Validator/Shapes/Tests.antt =====
-- The parts of an assignment at concrete values.
use ormas_subnet.Common.{
  ◌≡◌, refl, true, false, String, List, [], ◌∷◌, Value, null, str, arr, obj, of_list, Entries, end,
  entry, ok, Result, map, ◌>>=◌, ◌>>◌, put, hex_of_length,
}
use ormas_subnet.Validator.Shapes.Toolchain.{check_tokens, is_requirement, run_from, advance}
use ormas_subnet.Validator.Shapes.Execution.{
  Evidence, validate_assignment_execution, validate_public, validate_execution_contract_shape,
  check_packet_fields, is_sha256, is_commit, is_scope, is_scope_path, canonical_evidence_fields,
  add_execution, add_acceptance,
}
use ormas_subnet.Validator.Shapes.Execution.Laws.{IsBound, validate_assignment_execution-IsBound}
use ormas_subnet.Validator.Shapes.Execution.Binding.{
  IsSameEvidence, canonical_evidence_fields-IsSameEvidence,
}

abbrev texts : List String → Value
texts ss = arr (of_list (map str ss))

abbrev toolchain : List String → Entries
toolchain tokens = entry "kind" (str "python") (
    entry "python" (str "3.12")
      (entry "pip_install" (texts tokens) (entry "lock_paths" (texts ("uv.lock" ∷ [])) end)))

option_is_refused : check_tokens (str "--index-url" ∷ []) ≡ false
unfolding check_tokens is_requirement run_from advance
option_is_refused = refl

abbrev pub sha : String
sha = "0123456789abcdef0123456789abcdef0123456789abcdef0123456789abcdef"

abbrev part : Value
part = obj (entry "languages" (texts ("python" ∷ [])) end)

abbrev contract : Entries
contract = entry "schema_version" (str "outcomes.validation-contract.v2") (
    entry "work_packet_sha256" (str sha) (
      entry "execution_environment" part (
        entry "execution_requirements" part
          (entry "verifier_profile" part (entry "verify_base" part end)))))

abbrev assignment : Entries
assignment = entry "base_commit" (str sha) (
    entry "result_commit" (str sha) (
      entry "verify_command" (str "pytest") (
        entry "allowed_paths" (texts ("src/" ∷ [])) (
          entry "immutable_paths" (texts ("tests/frozen" ∷ []))
            (entry "execution_contract" (obj contract) end)))))

abbrev any_packet : Entries → Result (Unit {0})
any_packet packet = ok tt

assignment_passes : validate_assignment_execution any_packet assignment ≡ ok true
unfolding validate_assignment_execution validate_public validate_execution_contract_shape
    check_packet_fields is_sha256 is_commit is_scope is_scope_path hex_of_length ◌>>=◌ ◌>>◌
assignment_passes = refl

validate_assignment_execution-IsBound_example : IsBound any_packet assignment (obj contract)
validate_assignment_execution-IsBound_example =
    validate_assignment_execution-IsBound any_packet assignment assignment_passes

abbrev delivery : Value → Evidence
delivery repo_url = record {
  job_id = "j-1";
  miner_id = "m-1";
  base_commit = sha;
  result_commit = sha;
  repo_url = repo_url;
  verify_command = "pytest";
  allowed_paths = str "src/" ∷ [];
  immutable_paths = [];
  toolchain = obj (toolchain ("pytest" ∷ []));
  execution_contract = obj contract;
  acceptance_contract = null;
}

abbrev fields : Entries
fields = entry "job_id" (str "j-1") (
    entry "miner_id" (str "m-1") (
      entry "base_commit" (str sha) (
        entry "result_commit" (str sha) (
          entry "repo_url" (str "") (
            entry "verify_command" (str "pytest") (
              entry "allowed_paths" (texts ("src/" ∷ [])) (
                entry "immutable_paths" (texts []) (
                  entry "toolchain" (obj (toolchain ("pytest" ∷ [])))
                    (entry "execution_contract" (obj contract) end)))))))))

absent_address : canonical_evidence_fields (delivery null) ≡ ok fields
unfolding canonical_evidence_fields add_execution add_acceptance put
    validate_execution_contract_shape check_packet_fields is_sha256 hex_of_length ◌>>=◌ ◌>>◌
absent_address = refl

empty_address : canonical_evidence_fields (delivery (str "")) ≡ ok fields
unfolding canonical_evidence_fields add_execution add_acceptance put
    validate_execution_contract_shape check_packet_fields is_sha256 hex_of_length ◌>>=◌ ◌>>◌
empty_address = refl

canonical_evidence_fields-IsSameEvidence_example :
    IsSameEvidence (delivery null) (delivery (str ""))
canonical_evidence_fields-IsSameEvidence_example =
    canonical_evidence_fields-IsSameEvidence (delivery null) (delivery (str "")) fields
      absent_address empty_address
