-- ===== src/Acceptance/Policy.antt =====
-- ormas_subnet/public_acceptance.py: field checks and the acceptance policy, versions 1 to 3.
use Prim.Native.String.{◌++◌ as append}
use ormas_subnet.Common.{
  String, Bool, true, false, ◌&&◌, ◌||◌, not, none, some, List, [], ◌∷◌, Value, str, obj, int,
  Entries, keys, get_or_null, Result, ok, err, value_error, guard, ◌>>=◌, ◌>>◌, ℤ, pos, int_pos,
  int_eq, same_set, str_eq, nonblank, strip_prefix, hex_of_length, if◌then◌else◌,
}

abbrev pub contract_v1 : String
contract_v1 = "ormas.public-acceptance-contract.v1"

abbrev pub policy_v1 : String
policy_v1 = "ormas.public-acceptance-policy.v1"

abbrev pub contract_v2 : String
contract_v2 = "ormas.public-acceptance-contract.v2"

abbrev pub policy_v2 : String
policy_v2 = "ormas.public-acceptance-policy.v2"

abbrev pub contract_v3 : String
contract_v3 = "ormas.public-acceptance-contract.v3"

abbrev pub policy_v3 : String
policy_v3 = "ormas.public-acceptance-policy.v3"

-- `_POLICY_KEYS - {"max_concurrent_assignments"}`
abbrev pub common_policy_keys : List String
common_policy_keys =
    "schema_version" ∷ "required_validators" ∷ "catalog_digest" ∷ "profile_id" ∷ "protocol"
    ∷ "liveness_s" ∷ "timeout_s" ∷ []

abbrev pub policy_keys : List String
policy_keys = "max_concurrent_assignments" ∷ common_policy_keys

-- `v == s` for a text `s`
abbrev pub is_str : Value → String → Bool
is_str (str t) s = str_eq t s
is_str _ s = false

abbrev pub field : String → Entries → Value
field = get_or_null

unfoldable pub require_exact_dict : Value → List String → String → Result Entries
require_exact_dict (obj es) ks name = do
  guard (same_set (keys es) ks) (value_error (append name " has an unexpected key set"))
  ok es
require_exact_dict _ ks name = err (value_error (append name " must be a dict"))

-- The checks return `None` here: no caller uses the value that the source returns.
unfoldable pub require_nonblank : Value → String → Result (Unit {0})
require_nonblank (str s) name =
    guard (nonblank s) (value_error (append name " must be a nonblank string"))
require_nonblank _ name = err (value_error (append name " must be a nonblank string"))

unfoldable pub require_positive_int : Value → String → Result (Unit {0})
require_positive_int (int n) name =
    guard (int_pos n) (value_error (append name " must be a positive integer"))
require_positive_int _ name = err (value_error (append name " must be a positive integer"))

-- `value != n` on what `_require_positive_int` has passed
abbrev pub is_int : Value → ℤ → Bool
is_int (int n) m = int_eq n m
is_int _ m = false

-- `_CATALOG_DIGEST_RE.fullmatch(digest)` on a `str`
unfoldable pub is_catalog_digest : Value → Bool
is_catalog_digest (str s) = elim (strip_prefix "sha256:" s) [
  | none ↦ false
  | some rest ↦ hex_of_length 64 rest
]
is_catalog_digest _ = false

-- `isinstance(value, dict) and value.get(key) == text`
abbrev pub dict_says : Value → String → String → Bool
dict_says (obj es) key text = is_str (get_or_null key es) text
dict_says _ key text = false

abbrev pub when : Bool → Result (Unit {0}) → Result (Unit {0})
when true r = r
when false r = ok tt

-- what the two policy validators check last, in the source's order
unfoldable pub check_terms : Entries → String → Result (Unit {0})
check_terms policy protocol = do
  guard (is_catalog_digest (field "catalog_digest" policy))
      (value_error "catalog_digest must be sha256: plus 64 lowercase hex chars")
  require_nonblank (field "profile_id" policy) "profile_id"
  guard (is_str (field "protocol" policy) protocol)
      (value_error "acceptance policy protocol mismatch")
  require_positive_int (field "liveness_s" policy) "liveness_s"
  require_positive_int (field "timeout_s" policy) "timeout_s"

abbrev pub slotted_keys : Bool → List String
slotted_keys operator_run =
    if operator_run
    then "validator_operator_id" ∷ "verification_mode" ∷ common_policy_keys
    else "verification_mode" ∷ common_policy_keys

unfoldable pub validate_slotted_policy : Value → Result Entries
validate_slotted_policy value = do
  let operator_run = dict_says value "verification_mode" "operator-run"
  policy ← require_exact_dict value (slotted_keys operator_run) "acceptance policy"
  guard
      (is_str (field "verification_mode" policy) "independent"
        || is_str (field "verification_mode" policy) "operator-run")
      (value_error "acceptance policy verification_mode is unknown")
  require_positive_int (field "required_validators" policy) "required_validators"
  when operator_run (do
    guard (is_int (field "required_validators" policy) (pos 1))
        (value_error "operator-run requires one validator")
    require_nonblank (field "validator_operator_id" policy) "validator_operator_id")
  check_terms policy contract_v3
  ok policy

unfoldable pub is_operator_run : Entries → Bool
is_operator_run policy =
    is_str (get_or_null "protocol" policy) contract_v2
    || (is_str (get_or_null "protocol" policy) contract_v3
        && is_str (get_or_null "verification_mode" policy) "operator-run")

abbrev pub flat_keys : Bool → List String
flat_keys operator_run =
    if operator_run
    then "verification_mode" ∷ "validator_operator_id" ∷ policy_keys
    else policy_keys

-- versions 1 and 2
unfoldable pub validate_flat_policy : Value → Result Entries
validate_flat_policy value = do
  let operator_run = dict_says value "schema_version" policy_v2
  policy ← require_exact_dict value (flat_keys operator_run) "acceptance policy"
  guard
      (is_str (field "schema_version" policy) policy_v1
        || is_str (field "schema_version" policy) policy_v2)
      (value_error "acceptance policy schema_version mismatch")
  require_positive_int (field "required_validators" policy) "required_validators"
  guard
      (not operator_run
        || (is_str (field "verification_mode" policy) "operator-run"
            && is_int (field "required_validators" policy) (pos 1)))
      (value_error "operator-run alpha requires one validator and an explicit verification_mode")
  when operator_run
      (require_nonblank (field "validator_operator_id" policy) "validator_operator_id")
  check_terms policy (if operator_run then contract_v2 else contract_v1)
  guard (is_int (field "max_concurrent_assignments" policy) (pos 1))
      (value_error "max_concurrent_assignments must be 1")
  ok policy

unfoldable pub validate_acceptance_policy : Value → Result Entries
validate_acceptance_policy value =
    if dict_says value "schema_version" policy_v3
    then validate_slotted_policy value
    else validate_flat_policy value

unfoldable pub acceptance_task_cell : Value → Result String
acceptance_task_cell value = do
  policy ← validate_acceptance_policy value
  ok (
      if is_str (field "protocol" policy) contract_v3
      then if is_operator_run policy
        then "task:acceptance/operator-run-v3"
        else "task:acceptance/independent-v3"
      else if is_operator_run policy
      then "task:acceptance/operator-run-v2"
      else "task:acceptance/independent-v1")
