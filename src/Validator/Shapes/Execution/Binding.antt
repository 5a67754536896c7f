-- ===== src/Validator/Shapes/Execution/Binding.antt =====
-- What the evidence fields that a validator signs over tell of the delivery.
use ormas_subnet.Common.{
  ◌≡◌, refl, sym, ap, ◌∙◌, true, false, ◌&&◌, Bool-cases, inl, inr, Option, none, some, String,
  List, [], ◌∷◌, Value, null, str, arr, obj, of_list, items, Entries, get, get-put, truthy, ok,
  Ensures, Ensures-map, Ensures-bind, Ensures-eq-ok, if◌then◌else◌, str_eq,
}
use ormas_subnet.Acceptance.Independence.{validate_acceptance_contract-IsSoundPlan}
use ormas_subnet.Validator.Shapes.Execution.{
  Evidence, is_dict, or_empty, required_fields, add_toolchain, add_execution, add_acceptance,
  canonical_evidence_fields,
}

-- A value that is there unless it is `None`; a toolchain that is there unless it is empty.
abbrev pub given : Value → Option Value
given null = none
given v = some v

abbrev pub given_toolchain : Value → Option Value
given_toolchain v = if is_dict v && truthy v then some v else none

-- What a key holds after another was set, or was not.
abbrev laid : String → Option Value → (String → Option Value) → String → Option Value
laid k none below j = below j
laid k (some v) below j = if str_eq j k then some v else below j

laid_other :
    (k : String) (o : Option Value) (below : String → Option Value) (j : String)
    → str_eq j k ≡ false
    → laid k o below j ≡ below j
laid_other k none below j h = refl
laid_other k (some v) below j h = rw h

laid_same :
    (k : String) (o : Option Value) (below : String → Option Value) (j : String)
    → str_eq j k ≡ true
    → below j ≡ none
    → laid k o below j ≡ o
laid_same k none below j h b = b
laid_same k (some v) below j h b = rw h

add_toolchain-laid :
    (v : Value) (es : Entries) (j : String)
    → get j (add_toolchain v es) ≡ laid "toolchain" (given_toolchain v) (λ i. get i es) j
add_toolchain-laid v es j = elim (Bool-cases (is_dict v && truthy v)) [
  | inl t ↦ rw (t, get-put "toolchain" j v es)
  | inr n ↦ rw n
]

add_execution-laid :
    (v : Value) (es : Entries)
    → Ensures
        (λ out. (j : String) → get j out ≡ laid "execution_contract" (given v) (λ i. get i es) j)
        (add_execution v es)
unfolding add_execution
add_execution-laid null es = λ j. refl
add_execution-laid v es = Ensures-bind _ _ _ λ checked e. λ j. get-put "execution_contract" j v es

add_acceptance-laid :
    (v : Value) (es : Entries)
    → Ensures
        (λ out. (j : String) → get j out ≡ laid "acceptance_contract" (given v) (λ i. get i es) j)
        (add_acceptance v es)
unfolding add_acceptance
add_acceptance-laid null es = λ j. refl
add_acceptance-laid v es = Ensures-bind _ _ _ λ checked e. λ j.
    get-put "acceptance_contract" j (obj checked) es
    ∙ ap (λ w. laid "acceptance_contract" (given w) (λ i. get i es) j)
        (sym (validate_acceptance_contract-IsSoundPlan v e).0)

-- What the fields hold under a key, layer over layer.
abbrev tooled : Evidence → String → Option Value
tooled e = laid "toolchain" (given_toolchain e.toolchain) (λ i. get i (required_fields e))

abbrev executed : Evidence → String → Option Value
executed e = laid "execution_contract" (given e.execution_contract) (tooled e)

abbrev recorded : Evidence → String → Option Value
recorded e = laid "acceptance_contract" (given e.acceptance_contract) (executed e)

laid_over :
    (k : String) (o : Option Value) (f g : String → Option Value) (j : String)
    → f j ≡ g j
    → laid k o f j ≡ laid k o g j
laid_over k none f g j h = h
laid_over k (some v) f g j h = rw h

canonical_evidence_fields-recorded :
    (e : Evidence)
    → Ensures (λ out. (j : String) → get j out ≡ recorded e j) (canonical_evidence_fields e)
unfolding canonical_evidence_fields
canonical_evidence_fields-recorded e =
    let base = add_toolchain e.toolchain (required_fields e) in
    Ensures-bind _ _ _ λ fields h.
      let below =
        Ensures-eq-ok
          (λ out.
            (j : String)
            → get j out
              ≡ laid "execution_contract" (given e.execution_contract) (λ i. get i base) j)
          _ (add_execution-laid e.execution_contract base) h in
      Ensures-map
        (λ out.
          (j : String)
          → get j out
            ≡ laid "acceptance_contract" (given e.acceptance_contract) (λ i. get i fields) j)
        _ _ (add_acceptance-laid e.acceptance_contract fields)
        λ out above. λ j.
          above j
          ∙ laid_over "acceptance_contract" _ (λ i. get i fields) (executed e) j
              (below j
                ∙ laid_over "execution_contract" _ (λ i. get i base) (tooled e) j
                    (add_toolchain-laid e.toolchain (required_fields e) j))

-- A required key is not hidden by the keys that may be added.
recorded_required :
    (e : Evidence) (j : String)
    → str_eq j "toolchain" ≡ false
    → str_eq j "execution_contract" ≡ false
    → str_eq j "acceptance_contract" ≡ false
    → recorded e j ≡ get j (required_fields e)
recorded_required e j t x a =
    laid_other "acceptance_contract" _ (executed e) j a
    ∙ (laid_other "execution_contract" _ (tooled e) j x
        ∙ laid_other "toolchain" (given_toolchain e.toolchain) (λ i. get i (required_fields e)) j t)

recorded_toolchain : (e : Evidence) → recorded e "toolchain" ≡ given_toolchain e.toolchain
recorded_toolchain e =
    laid_other "acceptance_contract" _ (executed e) "toolchain" refl
    ∙ (laid_other "execution_contract" _ (tooled e) "toolchain" refl
        ∙ laid_same "toolchain" _ (λ i. get i (required_fields e)) "toolchain" refl refl)

recorded_execution : (e : Evidence) → recorded e "execution_contract" ≡ given e.execution_contract
recorded_execution e =
    laid_other "acceptance_contract" _ (executed e) "execution_contract" refl
    ∙ laid_same "execution_contract" _ (tooled e) "execution_contract" refl
        (laid_other "toolchain" _ (λ i. get i (required_fields e)) "execution_contract" refl)

recorded_acceptance :
    (e : Evidence) → recorded e "acceptance_contract" ≡ given e.acceptance_contract
recorded_acceptance e = laid_same "acceptance_contract" _ (executed e) "acceptance_contract" refl (
    laid_other "execution_contract" _ (tooled e) "acceptance_contract" refl
    ∙ laid_other "toolchain" _ (λ i. get i (required_fields e)) "acceptance_contract" refl)

given_injective : (v w : Value) → given v ≡ given w → v ≡ w
given_injective null null h = refl
given_injective null _ h = cc h
given_injective _ null h = cc h
given_injective _ _ h = cc h

items-of_list : (vs : List Value) → items (of_list vs) ≡ vs
items-of_list [] = refl
items-of_list (v ∷ vs) = ap (λ rest. v ∷ rest) (items-of_list vs)

texts_agree : {s t : String} → some (str s) ≡ some (str t) → s ≡ t
texts_agree h = cc h

values_agree : {v w : Value} → some v ≡ some w → v ≡ w
values_agree h = cc h

lists_agree : (vs ws : List Value) → some (arr (of_list vs)) ≡ some (arr (of_list ws)) → vs ≡ ws
lists_agree vs ws h =
    let same : of_list vs ≡ of_list ws = cc h in
    sym (items-of_list vs) ∙ (ap items same ∙ items-of_list ws)

-- Two deliveries that the evidence does not tell apart.
pub record IsSameEvidence (a b : Evidence) : Type 0 where
  pub job_id : a.job_id ≡ b.job_id
  pub miner_id : a.miner_id ≡ b.miner_id
  pub base_commit : a.base_commit ≡ b.base_commit
  pub result_commit : a.result_commit ≡ b.result_commit
  pub repo_url : or_empty a.repo_url ≡ or_empty b.repo_url
  pub verify_command : a.verify_command ≡ b.verify_command
  pub allowed_paths : a.allowed_paths ≡ b.allowed_paths
  pub immutable_paths : a.immutable_paths ≡ b.immutable_paths
  pub toolchain : given_toolchain a.toolchain ≡ given_toolchain b.toolchain
  pub execution_contract : a.execution_contract ≡ b.execution_contract
  pub acceptance_contract : a.acceptance_contract ≡ b.acceptance_contract

-- Evidence fields bind what they are made of: two deliveries with the same fields have the same
-- identities, commits, verify command, path lists and contracts; the same address, where an absent
-- one and an empty one are not told apart; and the same toolchain, where one that is empty or no
-- dictionary counts as none.
pub canonical_evidence_fields-IsSameEvidence :
    (a b : Evidence) (fields : Entries)
    → canonical_evidence_fields a ≡ ok fields
    → canonical_evidence_fields b ≡ ok fields
    → IsSameEvidence a b
canonical_evidence_fields-IsSameEvidence a b fields h k =
    let in_a =
      Ensures-eq-ok (λ out. (j : String) → get j out ≡ recorded a j) _
        (canonical_evidence_fields-recorded a) h in
    let in_b =
      Ensures-eq-ok (λ out. (j : String) → get j out ≡ recorded b j) _
        (canonical_evidence_fields-recorded b) k in
    let same : (j : String) → recorded a j ≡ recorded b j = λ j. sym (in_a j) ∙ in_b j in
    let required : (j : String)
        → str_eq j "toolchain" ≡ false
        → str_eq j "execution_contract" ≡ false
        → str_eq j "acceptance_contract" ≡ false
        → get j (required_fields a) ≡ get j (required_fields b) =
      λ j t x c. sym (recorded_required a j t x c) ∙ (same j ∙ recorded_required b j t x c) in
    record {
      job_id = texts_agree (required "job_id" refl refl refl);
      miner_id = texts_agree (required "miner_id" refl refl refl);
      base_commit = texts_agree (required "base_commit" refl refl refl);
      result_commit = texts_agree (required "result_commit" refl refl refl);
      repo_url = values_agree (required "repo_url" refl refl refl);
      verify_command = texts_agree (required "verify_command" refl refl refl);
      allowed_paths = lists_agree _ _ (required "allowed_paths" refl refl refl);
      immutable_paths = lists_agree _ _ (required "immutable_paths" refl refl refl);
      toolchain = sym (recorded_toolchain a) ∙ (same "toolchain" ∙ recorded_toolchain b);
      execution_contract =
          given_injective _ _
            (sym (recorded_execution a) ∙ (same "execution_contract" ∙ recorded_execution b));
      acceptance_contract =
          given_injective _ _
            (sym (recorded_acceptance a) ∙ (same "acceptance_contract" ∙ recorded_acceptance b));
    }
