-- ===== src/Recovery/Turns/Stages.antt =====
-- What the checkpoint and the completion write into a record, and what they keep.
use ormas_subnet.Common.{
  ◌≡◌, refl, sym, ◌∙◌, inl, inr, false, not, ◌&&◌, is_some, pos, String, Value, int, str, Entries,
  get, get_or_null, put, get-put, Bool-cases, str_eq, if◌then◌else◌, if_holds,
}
use ormas_subnet.Recovery.Journal.{Built, with_artifact, versioned, frozen_body, is_null}
use ormas_subnet.Recovery.Turns.{stage_of, IsSameLease}

get_or_null-put :
    (k j : String) (v : Value) (es : Entries)
    → get_or_null k (put j v es) ≡ (if str_eq k j then v else get_or_null k es)
get_or_null-put k j v es = elim (Bool-cases (str_eq k j)) [
  | inl t ↦ rw (get_or_null, get-put j k v es, t)
  | inr n ↦ rw (get_or_null, get-put j k v es, n)
]

put_other :
    (k j : String) (v : Value) (es : Entries)
    → str_eq k j ≡ false
    → get_or_null k (put j v es) ≡ get_or_null k es
put_other k j v es h = get_or_null-put k j v es ∙ rw h

-- A key that the checkpoint does not write.
with_artifact-keeps :
    (k : String) (body : Entries) (built : Built) (result capture : Value)
    → str_eq k "tree_sha" ≡ false
    → str_eq k "artifact_sha256" ≡ false
    → str_eq k "artifact_length" ≡ false
    → str_eq k "capture" ≡ false
    → str_eq k "result" ≡ false
    → str_eq k "stage" ≡ false
    → get_or_null k body ≡ get_or_null k (with_artifact body built result capture)
with_artifact-keeps k body built result capture h1 h2 h3 h4 h5 h6 = sym (
    put_other k "tree_sha" _ _ h1
    ∙ (put_other k "artifact_sha256" _ _ h2
        ∙ (put_other k "artifact_length" _ _ h3
            ∙ (put_other k "capture" _ _ h4
                ∙ (put_other k "result" _ _ h5 ∙ put_other k "stage" _ _ h6)))))

pub with_artifact-IsSameLease :
    (body : Entries) (built : Built) (result capture : Value)
    → IsSameLease body (with_artifact body built result capture)
with_artifact-IsSameLease body built result capture = record {
  task = with_artifact-keeps "task_id" body built result capture refl refl refl refl refl refl;
  lease = with_artifact-keeps "lease_id" body built result capture refl refl refl refl refl refl;
  packet =
      with_artifact-keeps "packet_hash" body built result capture refl refl refl refl refl refl;
  base = with_artifact-keeps "base_commit" body built result capture refl refl refl refl refl refl;
}

pub with_artifact-stage :
    (body : Entries) (built : Built) (result capture : Value)
    → stage_of (with_artifact body built result capture) ≡ str "artifact"
with_artifact-stage body built result capture =
    put_other "stage" "tree_sha" _ _ refl
    ∙ (put_other "stage" "artifact_sha256" _ _ refl
        ∙ (put_other "stage" "artifact_length" _ _ refl
            ∙ (put_other "stage" "capture" _ _ refl
                ∙ (put_other "stage" "result" _ _ refl ∙ get_or_null-put "stage" "stage" _ body))))

-- A key that the completion does not write.
frozen_body-keeps :
    (k : String) (capture body : Entries) (completion : Value)
    → str_eq k "completion" ≡ false
    → str_eq k "stage" ≡ false
    → str_eq k "completion_capture_version" ≡ false
    → get_or_null k body ≡ get_or_null k (frozen_body capture body completion)
frozen_body-keeps k capture body completion h1 h2 h3 = sym (
    put_other k "completion" _ _ h1
    ∙ (put_other k "stage" _ (versioned capture body) h2
        ∙ if_holds (λ b. get_or_null k b ≡ get_or_null k body)
            (is_null (get_or_null "completion_capture_version" body)
              && not (is_some (get "error" capture)))
            (put "completion_capture_version" (int (pos 2)) body) body
            (λ t. put_other k "completion_capture_version" _ _ h3) (λ f. refl)))

pub frozen_body-IsSameLease :
    (capture body : Entries) (completion : Value)
    → IsSameLease body (frozen_body capture body completion)
frozen_body-IsSameLease capture body completion = record {
  task = frozen_body-keeps "task_id" capture body completion refl refl refl;
  lease = frozen_body-keeps "lease_id" capture body completion refl refl refl;
  packet = frozen_body-keeps "packet_hash" capture body completion refl refl refl;
  base = frozen_body-keeps "base_commit" capture body completion refl refl refl;
}

pub frozen_body-stage :
    (capture body : Entries) (completion : Value)
    → stage_of (frozen_body capture body completion) ≡ str "completion"
frozen_body-stage capture body completion =
    put_other "stage" "completion" _ _ refl
    ∙ get_or_null-put "stage" "stage" _ (versioned capture body)
