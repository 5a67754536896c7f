-- ===== src/Acceptance/Contract.antt =====
-- ormas_subnet/public_acceptance.py: the subjects and the claim plan.
use Prim.Native.String.{◌++◌ as append}
use ormas_subnet.Common.{
  String, Bool, true, false, ◌||◌, not, List, [], ◌∷◌, Value, str, arr, items, Entries, Result, ok,
  err, value_error, guard, ◌>>=◌, ◌>>◌, pos, all, any, length, distinct, map, str_eq, hex_of_length,
  if◌then◌else◌,
}
use ormas_subnet.Acceptance.Policy.{
  contract_v1, contract_v2, contract_v3, is_str, is_int, field, require_exact_dict,
  require_nonblank, validate_acceptance_policy, is_operator_run,
}

abbrev pub contract_keys : List String
contract_keys = "schema_version" ∷ "policy" ∷ "miner" ∷ "validators" ∷ "claim_nonce" ∷ []

abbrev pub validator_keys : List String
validator_keys = "subject_id" ∷ "operator_id" ∷ "qualification_id" ∷ "credential_id" ∷ []

abbrev pub miner_keys : List String
miner_keys = "miner_id" ∷ validator_keys

-- `_ED25519_PUBLIC_KEY_RE.fullmatch` on what `_require_nonblank` has passed
unfoldable pub is_public_key : Value → Bool
is_public_key (str s) = hex_of_length 64 s
is_public_key _ = false

check_nonblank : List String → Entries → String → Result (Unit {0})
check_nonblank [] subject name = ok tt
check_nonblank (k ∷ ks) subject name =
    let rest = check_nonblank ks subject name in
    do require_nonblank (field k subject) (append name (append "." k)); rest

unfoldable pub validate_subject : Bool → Value → Result Entries
unfolding check_nonblank
validate_subject miner value = do
  let name = if miner then "miner" else "validator"
  subject ← require_exact_dict value (if miner then miner_keys else validator_keys) name
  check_nonblank validator_keys subject name
  if miner
      then require_nonblank (field "miner_id" subject) "miner.miner_id"
      else guard (is_public_key (field "credential_id" subject))
          (value_error "validator.credential_id must be a 64 lowercase hex Ed25519 public key")
  ok subject

-- `[_validate_subject(item, miner=False) for item in validators]`
unfoldable pub validate_validators : List Value → Result (List Entries)
validate_validators [] = ok []
validate_validators (item ∷ rest) = do
  checked ← validate_subject false item
  more ← validate_validators rest
  ok (checked ∷ more)

-- the text of a field that `_require_nonblank` has passed
abbrev pub text_of : String → Entries → String
text_of k es = elim (field k es) [ str s ↦ s | _ ↦ "" ]

abbrev pub texts : String → List Entries → List String
texts k es = map (text_of k) es

-- `any(item["operator_id"] != operator for item in checked)` and its opposite
abbrev pub all_from : String → List Entries → Bool
all_from operator checked = all (λ v. str_eq (text_of "operator_id" v) operator) checked

abbrev pub any_from : String → List Entries → Bool
any_from operator checked = any (λ v. str_eq (text_of "operator_id" v) operator) checked

-- what the contract validator checks across the subjects, in the source's order
unfoldable pub check_parties : Entries → Entries → List Entries → Result (Unit {0})
check_parties policy miner checked = do
  guard (not (is_operator_run policy) || all_from (text_of "validator_operator_id" policy) checked)
      (value_error "operator-run validator must belong to the frozen validator operator")
  guard (distinct (texts "subject_id" checked))
      (value_error "validator subject_ids must be distinct")
  guard (distinct (texts "credential_id" checked))
      (value_error "validator credential_ids must be distinct")
  guard (distinct (texts "operator_id" checked))
      (value_error "validator operator_ids must be distinct")
  guard (is_operator_run policy || not (any_from (text_of "operator_id" miner) checked))
      (value_error "validator operators must differ from the miner operator")

unfoldable pub list_of : Value → Result (List Value)
list_of (arr vs) = ok (items vs)
list_of _ = err (value_error "validators must be a list")

unfoldable pub validate_acceptance_contract : Value → Result Entries
validate_acceptance_contract value = do
  contract ← require_exact_dict value contract_keys "acceptance contract"
  guard
      (is_str (field "schema_version" contract) contract_v1
        || is_str (field "schema_version" contract) contract_v2
        || is_str (field "schema_version" contract) contract_v3)
      (value_error "acceptance contract schema_version mismatch")
  policy ← validate_acceptance_policy (field "policy" contract)
  guard (is_str (field "protocol" policy) (text_of "schema_version" contract))
      (value_error "acceptance contract and policy protocol mismatch")
  miner ← validate_subject true (field "miner" contract)
  validators ← list_of (field "validators" contract)
  guard (is_int (field "required_validators" policy) (pos (length validators)))
      (value_error "validators length must equal required_validators")
  checked ← validate_validators validators
  check_parties policy miner checked
  require_nonblank (field "claim_nonce" contract) "claim_nonce"
  ok contract
