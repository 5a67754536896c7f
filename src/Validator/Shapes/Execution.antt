-- ===== src/Validator/Shapes/Execution.antt =====
-- The execution contract of ormas_subnet/validator.py (`_validate_execution_contract_shape`), the
-- evidence fields that are signed (`canonical_evidence_fields`), and the public execution
-- projection (`validate_assignment_execution`) over what `validate_public_execution_packet` does.
pub mod Laws
pub mod Binding
use Prim.Native.String.{◌++◌ as append}
use ormas_subnet.Common.{
  Bool, true, false, not, ◌&&◌, ◌||◌, ◌==◌, String, List, [], ◌∷◌, Value, null, str, arr, obj,
  of_list, Entries, end, entry, keys, items, get_or_null, put, require_key, truthy, same_set, elem,
  says, all, any, starts_with, has_code, split, rstrip_slash, hex_of_length, Result, ok, err,
  value_error, Exc, guard, ◌>>=◌, ◌>>◌, if◌then◌else◌,
}
use ormas_subnet.Acceptance.Contract.{validate_acceptance_contract}

abbrev pub packet_fields : List String
packet_fields =
    "execution_environment" ∷ "execution_requirements" ∷ "verifier_profile" ∷ "verify_base" ∷ []

abbrev pub execution_contract_keys : List String
execution_contract_keys = "schema_version" ∷ "work_packet_sha256" ∷ packet_fields

-- `isinstance(v, str) and _SHA256_HEX_RE.fullmatch(v)`
unfoldable pub is_sha256 : Value → Bool
is_sha256 (str s) = hex_of_length 64 s
is_sha256 _ = false

abbrev pub is_dict : Value → Bool
is_dict (obj es) = true
is_dict _ = false

abbrev pub dictionary : Value → String → Result Entries
dictionary (obj es) message = ok es
dictionary _ message = err (value_error message)

unfoldable pub check_packet_fields : List String → Entries → Result (Unit {0})
check_packet_fields [] contract = ok tt
check_packet_fields (k ∷ ks) contract =
    let rest = check_packet_fields ks contract in
    do
      guard (is_dict (get_or_null k contract) && truthy (get_or_null k contract))
          (value_error (append "execution_contract." (append k " must be a nonempty dict")))
      rest

unfoldable pub validate_execution_contract_shape : Value → Result Entries
validate_execution_contract_shape value = do
  contract ← dictionary value "execution_contract must be a dict"
  guard (same_set (keys contract) execution_contract_keys)
      (value_error "execution_contract has an unexpected key set")
  guard (says "outcomes.validation-contract.v2" (get_or_null "schema_version" contract))
      (value_error "execution_contract schema_version mismatch")
  guard (is_sha256 (get_or_null "work_packet_sha256" contract))
      (value_error "execution_contract work_packet_sha256 must be 64 lowercase hex chars")
  check_packet_fields packet_fields contract
  ok contract

-- The arguments of `canonical_evidence_fields`.
pub record Evidence : Type 0 where
  pub job_id : String
  pub miner_id : String
  pub base_commit : String
  pub result_commit : String
  pub repo_url : Value
  pub verify_command : String
  pub allowed_paths : List Value
  pub immutable_paths : List Value
  pub toolchain : Value
  pub execution_contract : Value
  pub acceptance_contract : Value

-- `repo_url or ""`
abbrev pub or_empty : Value → Value
or_empty v = if truthy v then v else str ""

abbrev pub required_fields : Evidence → Entries
required_fields e = entry "job_id" (str e.job_id) (
    entry "miner_id" (str e.miner_id) (
      entry "base_commit" (str e.base_commit) (
        entry "result_commit" (str e.result_commit) (
          entry "repo_url" (or_empty e.repo_url) (
            entry "verify_command" (str e.verify_command) (
              entry "allowed_paths" (arr (of_list e.allowed_paths))
                (entry "immutable_paths" (arr (of_list e.immutable_paths)) end)))))))

abbrev pub add_toolchain : Value → Entries → Entries
add_toolchain toolchain fields =
    if is_dict toolchain && truthy toolchain then put "toolchain" toolchain fields else fields

unfoldable pub add_execution : Value → Entries → Result Entries
add_execution null fields = ok fields
add_execution contract fields = do
  checked ← validate_execution_contract_shape contract
  ok (put "execution_contract" contract fields)

unfoldable pub add_acceptance : Value → Entries → Result Entries
add_acceptance null fields = ok fields
add_acceptance contract fields = do
  checked ← validate_acceptance_contract contract
  ok (put "acceptance_contract" (obj checked) fields)

unfoldable pub canonical_evidence_fields : Evidence → Result Entries
canonical_evidence_fields e = do
  fields ← add_execution e.execution_contract (add_toolchain e.toolchain (required_fields e))
  add_acceptance e.acceptance_contract fields

-- `[0-9a-f]{40}|[0-9a-f]{64}`
unfoldable pub is_commit : Value → Bool
is_commit (str s) = hex_of_length 40 s || hex_of_length 64 s
is_commit _ = false

-- A path of the scope: relative, and no part of it is empty, dots or Git's own directory.
unfoldable pub is_scope_path : Value → Bool
is_scope_path (str s) =
    not (starts_with "/" s || starts_with "~" s)
    && not (has_code 92 s)
    && all (λ p. not (elem p ("" ∷ "." ∷ ".." ∷ ".git" ∷ []))) (split b'/' (rstrip_slash s))
is_scope_path _ = false

unfoldable pub is_scope : Value → Bool
is_scope (arr vs) = truthy (arr vs) && all is_scope_path (items vs)
is_scope _ = false

-- `contract["execution_requirements"].get("languages")`
abbrev pub languages_of : Value → Value
languages_of (obj es) = get_or_null "languages" es
languages_of _ = null

-- `packet["toolchain"] = assignment["toolchain"]`, unless it is `None`
abbrev pub with_toolchain : Value → Entries → Entries
with_toolchain null packet = packet
with_toolchain toolchain packet = put "toolchain" toolchain packet

-- The packet that an assignment and its contract project to.
unfoldable pub packet_of : Entries → Entries → Entries
packet_of assignment contract = with_toolchain (get_or_null "toolchain" assignment) (
    entry "execution_environment" (get_or_null "execution_environment" contract) (
      entry "execution_requirements" (get_or_null "execution_requirements" contract) (
        entry "verifier_profile" (get_or_null "verifier_profile" contract) (
          entry "verify_base" (get_or_null "verify_base" contract) (
            entry "verification_command" (get_or_null "verify_command" assignment) (
              entry "task_features"
                (obj (
                  entry "languages" (languages_of (get_or_null "execution_requirements" contract))
                    end))
                (entry "execution_policy"
                  (obj (
                    entry "repo_base_sha" (get_or_null "base_commit" assignment) (
                      entry "allowed_paths" (get_or_null "allowed_paths" assignment)
                        (entry "immutable_paths" (get_or_null "immutable_paths" assignment) end))))
                  end)))))))

module _ (validate_public_execution_packet : Entries → Result (Unit {0})) where
  unfoldable pub validate_public : Entries → Value → Result Bool
  validate_public assignment contract = do
    checked ← validate_execution_contract_shape contract
    guard (is_commit (get_or_null "base_commit" assignment))
        (value_error "public_assignment_commit_required")
    guard (is_commit (get_or_null "result_commit" assignment))
        (value_error "public_assignment_commit_required")
    guard (is_scope (get_or_null "allowed_paths" assignment))
        (value_error "public_assignment_scope_required")
    guard (is_scope (get_or_null "immutable_paths" assignment))
        (value_error "public_assignment_scope_required")
    validate_public_execution_packet (packet_of assignment checked)
    ok true

  abbrev pub unless_null : Entries → Value → Result Bool
  unless_null assignment null = ok false
  unless_null assignment contract = validate_public assignment contract

  unfoldable pub validate_assignment_execution : Entries → Result Bool
  validate_assignment_execution assignment =
      unless_null assignment (get_or_null "execution_contract" assignment)
