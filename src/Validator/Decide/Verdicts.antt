-- ===== src/Validator/Decide/Verdicts.antt =====
-- What an accept and a reject of the validator rest on.
use ormas_subnet.Common.{
  ◌≡◌, ap, ◌∙◌, ◌≢◌, ◌⊎◌, ◌↔◌, inl, inr, refl, Bool, true, false, String, some, List, ℤ, pos,
  negsuc, ok, arith,
}
use ormas_subnet.Workdir.{assignment_id_or_none}
use ormas_subnet.Scope.{nul_git_paths, touches_immutable, scope_ok}
use ormas_subnet.Validator.Decide.{
  accept, reject, at_base, at_result, Assignment, Host, judge, is_bad_base, review_toolchain,
  decide,
}
use ormas_subnet.Validator.Decide.Laws.{violates, Judged, decide-decided}

-- What makes a delivery acceptable: a change within its scope, a verifier that is red on the base
-- commit and green on the result, and for a public job the one exit code that the job was frozen
-- with; for an evidence verifier neither run a failed setup.
pub record Deserves (a : Assignment) (h : Host) : Type 0 where
  pub id : String
  pub public_execution : Bool
  pub diff : String
  pub changed : List String
  pub base : ℤ
  pub id_is : assignment_id_or_none a.assignment_id ≡ some id
  pub execution_is : h.execution ≡ ok public_execution
  pub diff_is : h.diff ≡ ok diff
  pub changed_is : nul_git_paths diff ≡ ok changed
  pub untouched : touches_immutable a.immutable_paths changed ≡ false
  pub allowed : scope_ok a.allowed_paths changed ≡ true
  pub provisioned : public_execution ≡ false → h.provision ≡ ok tt
  pub checked_base : h.checkout at_base ≡ ok tt
  pub base_is : h.verify at_base ≡ ok base
  pub red : base ≢ pos 0
  pub red_public : public_execution ≡ true → base ≡ pos 86
  pub red_evidence :
      public_execution ≡ false → a.collects_evidence ≡ true → (base ≢ pos 74) × (base ≢ pos 127)
  pub checked_result : h.checkout at_result ≡ ok tt
  pub green : h.verify at_result ≡ ok (pos 0)

judge_accepts :
    (p evidence : Bool) (base result : ℤ)
    → is_bad_base p evidence base ≡ false
    → judge p evidence base result ≡ accept
    → (result ≡ pos 0)
      × (base ≢ pos 0)
      × (p ≡ true → base ≡ pos 86)
      × (p ≡ false → evidence ≡ true → (base ≢ pos 74) × (base ≢ pos 127))
judge_accepts true evidence (pos b) (pos r) u h = ground arith
judge_accepts true evidence (negsuc b) r u h = ground arith
judge_accepts true evidence (pos b) (negsuc r) u h = ground arith
judge_accepts false evidence (pos b) (pos r) u h = ground arith
judge_accepts false evidence (negsuc b) (pos r) u h = ground arith
judge_accepts false evidence (pos b) (negsuc r) u h = ground arith
judge_accepts false evidence (negsuc b) (negsuc r) u h = ground arith

judge_rejects :
    (p evidence : Bool) (base result : ℤ)
    → is_bad_base p evidence base ≡ false
    → judge p evidence base result ≡ reject
    → ((base ≡ pos 0) ⊎ (result ≢ pos 0)) × (p ≡ true → (base ≡ pos 86) × (result ≡ pos 86))
judge_rejects true evidence (pos b) (pos r) u h = ground arith
judge_rejects true evidence (negsuc b) r u h = ground arith
judge_rejects true evidence (pos b) (negsuc r) u h = ground arith
judge_rejects false evidence (pos b) (pos r) u h = ground arith
judge_rejects false evidence (negsuc b) (pos r) u h = ground arith
judge_rejects false evidence (pos b) (negsuc r) u h = ground arith
judge_rejects false evidence (negsuc b) (negsuc r) u h = ground arith

base_is_used :
    (p evidence : Bool) (base : ℤ)
    → base ≢ pos 0
    → (p ≡ true → base ≡ pos 86)
    → (p ≡ false → evidence ≡ true → (base ≢ pos 74) × (base ≢ pos 127))
    → (is_bad_base p evidence base ≡ false) × (judge p evidence base (pos 0) ≡ accept)
base_is_used true evidence (pos b) n h k = ground arith
base_is_used true evidence (negsuc b) n h k = ground arith
base_is_used false evidence (pos b) n h k = ground arith
base_is_used false evidence (negsuc b) n h k = ground arith

violates-eq-false :
    (a : Assignment) (changed : List String)
    → violates a changed ≡ false
    → (touches_immutable a.immutable_paths changed ≡ false)
      × (scope_ok a.allowed_paths changed ≡ true)
violates-eq-false a changed h = ground arith

Judged-Deserves : (a : Assignment) (h : Host) → Judged a h accept → Deserves a h
Judged-Deserves a h j =
    let v =
      judge_accepts j.public_execution a.collects_evidence j.base j.result j.base_used j.judged in
    let s = violates-eq-false a j.changed j.in_scope in
    record {
      id = j.id;
      public_execution = j.public_execution;
      diff = j.diff;
      changed = j.changed;
      base = j.base;
      id_is = j.id_is;
      execution_is = j.execution_is;
      diff_is = j.diff_is;
      changed_is = j.changed_is;
      untouched = s.0;
      allowed = s.1;
      provisioned = j.provisioned;
      checked_base = j.checked_base;
      base_is = j.base_is;
      red = v.1;
      red_public = v.2;
      red_evidence = v.3;
      checked_result = j.checked_result;
      green = j.result_is ∙ ap ok v.0;
    }

review_toolchain-accept :
    (a : Assignment) (h : Host) (p : Bool) (base : ℤ)
    → (p ≡ false → h.provision ≡ ok tt)
    → h.checkout at_base ≡ ok tt
    → h.verify at_base ≡ ok base
    → is_bad_base p a.collects_evidence base ≡ false
    → h.checkout at_result ≡ ok tt
    → h.verify at_result ≡ ok (pos 0)
    → judge p a.collects_evidence base (pos 0) ≡ accept
    → (review_toolchain a h p).outcome ≡ ok accept
review_toolchain-accept a h true base pr cb vb u cr vr j = rw (cb, vb, u, cr, vr, j) refl
review_toolchain-accept a h false base pr cb vb u cr vr j = rw (pr refl, cb, vb, u, cr, vr, j) refl

-- The validator accepts a delivery exactly when it deserves it: its change lies within its scope,
-- its verifier is red on the base commit and green on the result, and every call of the review
-- returned.
pub decide_accepts_iff :
    (a : Assignment) (h : Host) → ((decide a h).outcome ≡ ok accept) ↔ Deserves a h
unfolding decide
decide_accepts_iff a h = (
  (λ eq. elim (decide-decided a h accept (ground arith) eq) [
    | inl s ↦ ground arith
    | inr j ↦ Judged-Deserves a h j
  ]),
  λ d.
      let s : (violates a d.changed ≡ false) = rw (d.untouched, d.allowed) refl in
      let u =
        base_is_used d.public_execution a.collects_evidence d.base d.red d.red_public
          d.red_evidence in
      let r =
        review_toolchain-accept a h d.public_execution d.base d.provisioned d.checked_base d.base_is
          u.0 d.checked_result d.green u.1 in
      rw (d.id_is, d.execution_is, d.diff_is, d.changed_is, s) r,
)

-- A rejection is never the fault of a failed call: either the diff was read and the change
-- breaks its scope, or both commits were checked out and verified, and the base was green or the
-- result was not; for a public job the two runs ended in its frozen red.
pub decide_rejects :
    (a : Assignment) (h : Host)
    → (decide a h).outcome ≡ ok reject
    → ((out : String) × (changed : List String) × (h.diff ≡ ok out)
        × (nul_git_paths out ≡ ok changed)
        × (violates a changed ≡ true))
      ⊎ ((base : ℤ) × (result : ℤ) × (h.checkout at_base ≡ ok tt)
          × (h.verify at_base ≡ ok base)
          × (h.checkout at_result ≡ ok tt)
          × (h.verify at_result ≡ ok result)
          × ((base ≡ pos 0) ⊎ (result ≢ pos 0))
          × (h.execution ≡ ok true → (base ≡ pos 86) × (result ≡ pos 86)))
decide_rejects a h eq = elim (decide-decided a h reject (ground arith) eq) [
  | inl s ↦ inl s.1
  | inr j ↦
      let v =
        judge_rejects j.public_execution a.collects_evidence j.base j.result j.base_used j.judged in
      inr (
        j.base,
        j.result,
        j.checked_base,
        j.base_is,
        j.checked_result,
        j.result_is,
        v.0,
        λ e. v.1 (cc (e, j.execution_is)),
      )
]
