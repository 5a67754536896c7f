-- ===== src/Acceptance/Laws.antt =====
-- Inversion of the successful runs of ormas_subnet/public_acceptance.py.
use ormas_subnet.Common.{
  ℕ, String, ◌≡◌, refl, Bool, true, false, List, [], ◌∷◌, Value, str, obj, int, arr, items, of_list,
  Items, nil, cons, Entries, ok, ◌>>=◌, ◌>>◌, pos, length, length-map, map, arith, same_set, keys,
  Ensures, Ensures-eq-ok, Ensures-bind, Ensures-then, guard_passed, ◌∙◌, ap, eq_iff,
}
use ormas_subnet.Acceptance.Policy.{
  is_str, is_int, field, require_exact_dict, validate_acceptance_policy,
}
use ormas_subnet.Acceptance.Contract.{
  validate_subject, validate_validators, check_parties, validate_acceptance_contract, list_of,
  miner_keys, validator_keys,
}

pub require_exact_dict-Ensures :
    (v : Value) (ks : List String) (name : String)
    → Ensures (λ es. (v ≡ obj es) × (same_set (keys es) ks ≡ true)) (require_exact_dict v ks name)
unfolding require_exact_dict ◌>>◌
require_exact_dict-Ensures (obj es) ks name = ground arith
require_exact_dict-Ensures _ ks name = tt

pub require_exact_dict-eq-ok :
    (v : Value) (ks : List String) (name : String) {es : Entries}
    → require_exact_dict v ks name ≡ ok es
    → v ≡ obj es
require_exact_dict-eq-ok v ks name h =
    (Ensures-eq-ok _ _ (require_exact_dict-Ensures v ks name) h).0

pub validate_subject-Ensures :
    (miner : Bool) (v : Value) → Ensures (λ es. v ≡ obj es) (validate_subject miner v)
unfolding validate_subject ◌>>=◌ ◌>>◌
validate_subject-Ensures true v = ground (arith, require_exact_dict-Ensures v miner_keys "miner")
validate_subject-Ensures false v =
    ground (arith, require_exact_dict-Ensures v validator_keys "validator")

pub validate_validators-Ensures :
    (vs : List Value) → Ensures (λ checked. vs ≡ map obj checked) (validate_validators vs)
unfolding validate_validators ◌>>=◌
validate_validators-Ensures [] = refl
validate_validators-Ensures (v ∷ vs) =
    ground (arith, validate_subject-Ensures false v, validate_validators-Ensures vs)

pub is_str-eq-true : (v : Value) (s : String) → is_str v s ≡ true → v ≡ str s
is_str-eq-true (str t) s h = ground (arith, eq_iff t s)
is_str-eq-true _ s h = cc

pub is_int-eq-true : (v : Value) (n : ℕ) → is_int v (pos n) ≡ true → v ≡ int (pos n)
is_int-eq-true (int (pos m)) n h = ground arith
is_int-eq-true _ n h = cc

of_list-items : (vs : Items) → of_list (items vs) ≡ vs
of_list-items nil = refl
of_list-items (cons v vs) = ap (cons v) (of_list-items vs)

pub list_of-eq-ok : (v : Value) {vs : List Value} → list_of v ≡ ok vs → v ≡ arr (of_list vs)
unfolding list_of
list_of-eq-ok (arr vs) h = ground (arith, of_list-items vs)
list_of-eq-ok _ h = cc

-- The parts of an accepted claim plan, with the checks that it passed.
pub record Parts (contract : Entries) : Type 0 where
  pub policy : Entries
  pub miner : Entries
  pub validators : List Entries
  pub policy_checked : validate_acceptance_policy (field "policy" contract) ≡ ok policy
  pub miner_checked : validate_subject true (field "miner" contract) ≡ ok miner
  pub validators_at : field "validators" contract ≡ arr (of_list (map obj validators))
  pub counted : field "required_validators" policy ≡ int (pos (length validators))
  pub parties : check_parties policy miner validators ≡ ok tt

pub contract-Parts :
    (value : Value)
    → Ensures
        (λ contract. (value ≡ obj contract) × Parts contract)
        (validate_acceptance_contract value)
unfolding validate_acceptance_contract
contract-Parts value = Ensures-bind _ _ _ λ contract exact. Ensures-then _ _ _ λ versioned.
    Ensures-bind _ _ _ λ policy policy_checked. Ensures-then _ _ _ λ agreed.
      Ensures-bind _ _ _ λ miner miner_checked. Ensures-bind _ _ _ λ listed is_list.
        Ensures-then _ _ _ λ counted. Ensures-bind _ _ _ λ checked all_checked.
          Ensures-then _ _ _ λ parties. Ensures-then _ _ _ λ nonce.
            let same =
              Ensures-eq-ok (λ cs. listed ≡ map obj cs) _ (validate_validators-Ensures listed)
                all_checked in
            (
              require_exact_dict-eq-ok value _ _ exact,
              record {
                policy = policy;
                miner = miner;
                validators = checked;
                policy_checked = policy_checked;
                miner_checked = miner_checked;
                validators_at = list_of-eq-ok _ is_list ∙ ap (λ vs. arr (of_list vs)) same;
                counted =
                    is_int-eq-true _ _ (guard_passed _ _ counted)
                    ∙ ap (λ vs. int (pos (length vs))) same
                    ∙ ap (λ n. int (pos n)) (length-map obj checked);
                parties = parties;
              },
            )
