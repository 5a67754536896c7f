-- ===== src/Acceptance/Tests.antt =====
-- The claim plan at a concrete value.
use ormas_subnet.Common.{
  ◌≡◌, refl, String, [], ◌∷◌, pos, str, obj, int, arr, of_list, Entries, end, entry, hex_of_length,
  nonblank, is_space, ok, is_ok, false, ◌>>=◌, ◌>>◌,
}
use ormas_subnet.Acceptance.Policy.{
  require_exact_dict, require_nonblank, require_positive_int, is_catalog_digest, check_terms,
  validate_slotted_policy, validate_flat_policy, validate_acceptance_policy, is_operator_run,
  acceptance_task_cell,
}
use ormas_subnet.Acceptance.Contract.{
  validate_subject, is_public_key, validate_validators, check_parties, list_of,
  validate_acceptance_contract,
}
use ormas_subnet.Acceptance.Independence.{IsSoundPlan, validate_acceptance_contract-IsSoundPlan}

abbrev digest : String
digest = "0123456789abcdef0123456789abcdef0123456789abcdef0123456789abcdef"

abbrev policy : Entries
policy = entry "schema_version" (str "ormas.public-acceptance-policy.v3") (
    entry "verification_mode" (str "independent") (
      entry "required_validators" (int (pos 1)) (
        entry "catalog_digest"
          (str "sha256:0123456789abcdef0123456789abcdef0123456789abcdef0123456789abcdef")
          (entry "profile_id" (str "p1") (
            entry "protocol" (str "ormas.public-acceptance-contract.v3")
              (entry "liveness_s" (int (pos 60)) (entry "timeout_s" (int (pos 90)) end)))))))

abbrev subject : String → String → Entries → Entries
subject operator credential more = entry "subject_id" (str operator) (
    entry "operator_id" (str operator)
      (entry "qualification_id" (str "q") (entry "credential_id" (str credential) more)))

abbrev plan_with : String → Entries
plan_with operator = entry "schema_version" (str "ormas.public-acceptance-contract.v3") (
    entry "policy" (obj policy) (
      entry "miner" (obj (subject "m" "c" (entry "miner_id" (str "m1") end))) (
        entry "validators" (arr (of_list (obj (subject operator digest end) ∷ [])))
          (entry "claim_nonce" (str "n") end))))

plan_is_accepted : validate_acceptance_contract (obj (plan_with "v")) ≡ ok (plan_with "v")
unfolding validate_acceptance_contract require_exact_dict require_nonblank require_positive_int
    is_catalog_digest check_terms validate_slotted_policy validate_flat_policy
    validate_acceptance_policy is_operator_run validate_subject is_public_key validate_validators
    check_parties list_of hex_of_length nonblank is_space ◌>>=◌ ◌>>◌
plan_is_accepted = refl

-- The miner's own operator cannot accept its work.
own_operator_is_refused : is_ok (validate_acceptance_contract (obj (plan_with "m"))) ≡ false
unfolding validate_acceptance_contract require_exact_dict require_nonblank require_positive_int
    is_catalog_digest check_terms validate_slotted_policy validate_flat_policy
    validate_acceptance_policy is_operator_run validate_subject is_public_key validate_validators
    check_parties list_of hex_of_length nonblank is_space ◌>>=◌ ◌>>◌
own_operator_is_refused = refl

independent_cell : acceptance_task_cell (obj policy) ≡ ok "task:acceptance/independent-v3"
unfolding acceptance_task_cell require_exact_dict require_nonblank require_positive_int
    is_catalog_digest check_terms validate_slotted_policy validate_flat_policy
    validate_acceptance_policy is_operator_run hex_of_length nonblank is_space ◌>>=◌ ◌>>◌
independent_cell = refl

validate_acceptance_contract-IsSoundPlan_example :
    (obj (plan_with "v") ≡ obj (plan_with "v")) × IsSoundPlan (plan_with "v")
validate_acceptance_contract-IsSoundPlan_example =
    validate_acceptance_contract-IsSoundPlan (obj (plan_with "v")) plan_is_accepted
