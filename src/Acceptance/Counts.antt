-- ===== src/Acceptance/Counts.antt =====
-- How many validators an accepted policy asks for.
use ormas_subnet.Common.{
  ℕ, ◌<◌, guard, Exc, value_error, if◌then◌else◌, Bool-cases, inl, inr, String, ◌≡◌, refl, true,
  false, ◌&&◌, ◌||◌, not, Value, str, obj, int, Entries, ok, ◌>>◌, pos, arith, Ensures,
  Ensures-bind, Ensures-then,
}
use ormas_subnet.Acceptance.Policy.{
  contract_v1, contract_v2, contract_v3, is_str, is_int, field, validate_acceptance_policy,
  validate_flat_policy, validate_slotted_policy, is_operator_run, check_terms, require_positive_int,
  when, dict_says, policy_v2, policy_v3, require_nonblank,
}
use ormas_subnet.Acceptance.Laws.{is_str-eq-true, require_exact_dict-eq-ok}

-- The number of validators that a valid policy asks for.
pub record IsCounted (policy : Entries) : Type 0 where
  pub count : ℕ
  pub at : field "required_validators" policy ≡ int (pos count)
  pub positive : 0 < count
  pub single : is_operator_run policy ≡ true → count ≡ 1

require_positive_int-pos :
    (v : Value) (name : String)
    → require_positive_int v name ≡ ok tt
    → (n : ℕ) × (v ≡ int (pos n)) × (0 < n)
unfolding require_positive_int
require_positive_int-pos (int (pos n)) name h = (n, refl, ground arith)
require_positive_int-pos _ name h = cc

one_of_is_int : (v : Value) (n : ℕ) → v ≡ int (pos n) → is_int v (pos 1) ≡ true → n ≡ 1
one_of_is_int v n e h = ground arith

check_terms-protocol :
    (policy : Entries) (p : String) → check_terms policy p ≡ ok tt → field "protocol" policy ≡ str p
unfolding check_terms ◌>>◌
check_terms-protocol policy p h = is_str-eq-true _ p (ground arith)

mode_of_run :
    (policy : Entries)
    → field "protocol" policy ≡ str contract_v3
    → is_operator_run policy ≡ true
    → is_str (field "verification_mode" policy) "operator-run" ≡ true
unfolding is_operator_run
mode_of_run policy e h = ground arith

not_run_of_v1 :
    (policy : Entries) → field "protocol" policy ≡ str contract_v1 → is_operator_run policy ≡ false
unfolding is_operator_run
not_run_of_v1 policy e = ground arith

slotted_single :
    (value : Value) (policy : Entries)
    → value ≡ obj policy
    → is_str (field "verification_mode" policy) "operator-run" ≡ true
    → when (dict_says value "verification_mode" "operator-run") (
        guard
          (is_int (field "required_validators" policy) (pos 1))
          (value_error "operator-run requires one validator")
        >> require_nonblank (field "validator_operator_id" policy) "validator_operator_id")
      ≡ ok tt
    → is_int (field "required_validators" policy) (pos 1) ≡ true
unfolding ◌>>◌
slotted_single value policy e mode h = ground arith

slotted-IsCounted : (value : Value) → Ensures IsCounted (validate_slotted_policy value)
unfolding validate_slotted_policy
slotted-IsCounted value = Ensures-bind _ _ _ λ policy exact. Ensures-then _ _ _ λ moded.
    Ensures-then _ _ _ λ positive. Ensures-then _ _ _ λ operator. Ensures-then _ _ _ λ terms.
      let (n, at, above) = require_positive_int-pos _ _ positive in
      let same = require_exact_dict-eq-ok value _ _ exact in
      record {
        count = n;
        at = at;
        positive = above;
        single = λ run.
            let mode = mode_of_run policy (check_terms-protocol _ _ terms) run in
            one_of_is_int _ n at (slotted_single value policy same mode operator);
      }

flat_single :
    (value : Value) (policy : Entries) (e : Exc)
    → value ≡ obj policy
    → is_operator_run policy ≡ true
    → check_terms policy
        (if dict_says value "schema_version" policy_v2 then contract_v2 else contract_v1)
      ≡ ok tt
    → guard
        (not (dict_says value "schema_version" policy_v2)
          || (is_str (field "verification_mode" policy) "operator-run"
              && is_int (field "required_validators" policy) (pos 1)))
        e
      ≡ ok tt
    → is_int (field "required_validators" policy) (pos 1) ≡ true
flat_single value policy e same run terms single =
    elim (Bool-cases (dict_says value "schema_version" policy_v2)) [
      | inl v2 ↦ ground arith
      | inr v1 ↦ ground (arith, not_run_of_v1 policy, check_terms-protocol policy contract_v1)
    ]

flat-IsCounted : (value : Value) → Ensures IsCounted (validate_flat_policy value)
unfolding validate_flat_policy
flat-IsCounted value = Ensures-bind _ _ _ λ policy exact. Ensures-then _ _ _ λ versioned.
    Ensures-then _ _ _ λ positive. Ensures-then _ _ _ λ single. Ensures-then _ _ _ λ operator.
      Ensures-then _ _ _ λ terms. Ensures-then _ _ _ λ slots.
        let (n, at, above) = require_positive_int-pos _ _ positive in
        let same = require_exact_dict-eq-ok value _ _ exact in
        record {
          count = n;
          at = at;
          positive = above;
          single = λ run. one_of_is_int _ n at (flat_single value policy _ same run terms single);
        }

pub validate_acceptance_policy-IsCounted :
    (value : Value) → Ensures IsCounted (validate_acceptance_policy value)
unfolding validate_acceptance_policy
validate_acceptance_policy-IsCounted value =
    elim (dict_says value "schema_version" policy_v3)
      as (λ b.
        Ensures IsCounted
          (if b then validate_slotted_policy value else validate_flat_policy value)) [
            | true ↦ slotted-IsCounted value
            | false ↦ flat-IsCounted value
          ]
