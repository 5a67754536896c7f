-- ===== src/Acceptance/Independence.antt =====
-- Who may accept whose work: the separation of operators in an accepted claim plan.
use ormas_subnet.Common.{
  ℕ, ◌<◌, arr, of_list, String, ◌≡◌, ◌≢◌, true, false, List, [], ◌∷◌, Value, obj, int, Entries, ok,
  ◌>>◌, pos, length, map, arith, All, elem, distinct, eq_iff, Ensures-eq-ok, and-eq-true, ◌∙◌, sym,
}
use ormas_subnet.Acceptance.Policy.{field, validate_acceptance_policy, is_operator_run}
use ormas_subnet.Acceptance.Contract.{
  check_parties, validate_acceptance_contract, text_of, texts, all_from, any_from,
}
use ormas_subnet.Acceptance.Laws.{contract-Parts, validate_subject-Ensures}
use ormas_subnet.Acceptance.Counts.{validate_acceptance_policy-IsCounted}

-- No text of the list occurs twice.
abbrev pub AreDistinct : List String → Type 0
AreDistinct [] = Unit
AreDistinct (x ∷ xs) = All (λ y. x ≢ y) xs × AreDistinct xs

not-elem : (x : String) (xs : List String) → elem x xs ≡ false → All (λ y. x ≢ y) xs
not-elem x [] h = tt
not-elem x (y ∷ ys) h = ground (arith, eq_iff x y, not-elem x ys)

distinct-AreDistinct : (xs : List String) → distinct xs ≡ true → AreDistinct xs
distinct-AreDistinct [] h = tt
distinct-AreDistinct (x ∷ xs) h = ground (arith, not-elem x xs, distinct-AreDistinct xs)

all_from-All :
    (operator : String) (vs : List Entries)
    → all_from operator vs ≡ true
    → All (λ v. text_of "operator_id" v ≡ operator) vs
all_from-All operator [] h = tt
all_from-All operator (v ∷ vs) h =
    let (here, later) = and-eq-true _ _ h in ((eq_iff _ _).0 here, all_from-All operator vs later)

any_from-All :
    (operator : String) (vs : List Entries)
    → any_from operator vs ≡ false
    → All (λ v. text_of "operator_id" v ≢ operator) vs
any_from-All operator [] h = tt
any_from-All operator (v ∷ vs) h =
    let s = text_of "operator_id" v in ground (arith, eq_iff s operator, any_from-All operator vs)

-- What the parties of an accepted plan satisfy.
pub record AreSeparate (policy miner : Entries) (validators : List Entries) : Type 0 where
  pub subjects : AreDistinct (texts "subject_id" validators)
  pub credentials : AreDistinct (texts "credential_id" validators)
  pub operators : AreDistinct (texts "operator_id" validators)
  pub independent :
      is_operator_run policy ≡ false
      → All (λ v. text_of "operator_id" v ≢ text_of "operator_id" miner) validators
  pub named :
      is_operator_run policy ≡ true
      → All (λ v. text_of "operator_id" v ≡ text_of "validator_operator_id" policy) validators

check_parties-AreSeparate :
    (policy miner : Entries) (validators : List Entries)
    → check_parties policy miner validators ≡ ok tt
    → AreSeparate policy miner validators
unfolding check_parties ◌>>◌
check_parties-AreSeparate policy miner validators h = record {
  subjects = distinct-AreDistinct _ (ground arith);
  credentials = distinct-AreDistinct _ (ground arith);
  operators = distinct-AreDistinct _ (ground arith);
  independent = λ alone. any_from-All _ validators (ground arith);
  named = λ operator. all_from-All _ validators (ground arith);
}

counts_agree : {v : Value} {m n : ℕ} → v ≡ int (pos m) → v ≡ int (pos n) → m ≡ n
counts_agree p q = ground arith

-- An accepted claim plan, as a reader of the wire sees it.
pub record IsSoundPlan (contract : Entries) : Type 0 where
  pub policy : Entries
  pub miner : Entries
  pub validators : List Entries
  pub policy_valid : validate_acceptance_policy (field "policy" contract) ≡ ok policy
  pub miner_at : field "miner" contract ≡ obj miner
  pub validators_at : field "validators" contract ≡ arr (of_list (map obj validators))
  pub required : field "required_validators" policy ≡ int (pos (length validators))
  pub nonempty : 0 < length validators
  pub separate : AreSeparate policy miner validators
  pub alone : is_operator_run policy ≡ true → length validators ≡ 1

-- A claim plan that the validator accepts is returned unchanged. Its validators are as many as
-- the policy requires, at least one, with distinct subjects, credentials and operators. Unless
-- the policy is operator-run, no validator has the miner's operator; where it is, there is one
-- validator, and its operator is the one that the policy names.
pub validate_acceptance_contract-IsSoundPlan :
    (value : Value) {contract : Entries}
    → validate_acceptance_contract value ≡ ok contract
    → (value ≡ obj contract) × IsSoundPlan contract
validate_acceptance_contract-IsSoundPlan value h =
    let (same, parts) = Ensures-eq-ok _ _ (contract-Parts value) h in
    let counted = Ensures-eq-ok _ _ (validate_acceptance_policy-IsCounted _) parts.policy_checked in
    let agree : counted.count ≡ length parts.validators = counts_agree counted.at parts.counted in
    (
      same,
      record {
        policy = parts.policy;
        miner = parts.miner;
        validators = parts.validators;
        policy_valid = parts.policy_checked;
        miner_at = Ensures-eq-ok _ _ (validate_subject-Ensures true _) parts.miner_checked;
        validators_at = parts.validators_at;
        required = parts.counted;
        nonempty = rw agree at counted.positive;
        separate = check_parties-AreSeparate _ _ _ parts.parties;
        alone = λ run. sym agree ∙ counted.single run;
      },
    )
