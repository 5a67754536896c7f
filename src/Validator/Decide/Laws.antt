-- ===== src/Validator/Decide/Laws.antt =====
-- When the validator accepts, when it rejects, and what it runs before.
use ormas_subnet.Common.{
  ◌≡◌, ◌≢◌, ◌⊎◌, inl, inr, refl, Bool, true, false, ◌||◌, not, String, some, List, [], ◌∷◌, ℤ, Exc,
  Result, ok, err, if◌then◌else◌, if_holds, ap, sym, subst, arith, Option-cases,
}
use ormas_subnet.Workdir.{assignment_id_or_none}
use ormas_subnet.Scope.{nul_git_paths, touches_immutable, scope_ok}
use ormas_subnet.Validator.Decide.{
  Decision, Call, reject, error, at_base, at_result, diff_call, Assignment, Host, Review, done,
  try_then, is_git_error, is_shape_error, is_toolchain_error, is_setup_error, judge, is_bad_base,
  review_result, review_base, review_toolchain, review_valid, decide,
}

-- The delivery changes what it must not, or something outside what it may change.
abbrev pub violates : Assignment → List String → Bool
violates a changed =
    touches_immutable a.immutable_paths changed || not (scope_ok a.allowed_paths changed)

-- What has to hold before the review does more than read the diff: the id is a safe name, the diff
-- was read, and its paths break neither of the lists.
abbrev pub MayRun : Assignment → Host → Type 0
MayRun a h =
    (id : String) × (out : String) × (changed : List String) × (assignment_id_or_none
        a.assignment_id
      ≡ some id)
    × (h.diff ≡ ok out)
    × (nul_git_paths out ≡ ok changed)
    × (touches_immutable a.immutable_paths changed ≡ false)
    × (scope_ok a.allowed_paths changed ≡ true)

-- No call, the diff alone, or more where more may run.
abbrev pub RunsInScope : Assignment → Host → List Call → Type 0
RunsInScope a h calls = (calls ≡ []) ⊎ ((calls ≡ diff_call ∷ []) ⊎ MayRun a h)

-- What comes after a call that returned has the property, and so has a review that ends there.
try_then-holds {ℓ} :
    {A : Type ℓ} (P : Review → Type 0) (caught : Exc → Bool) (m : Result A) (rest : A → Review)
    → ((r : Review) → r.calls ≡ [] → P r)
    → ((x : A) → m ≡ ok x → P (rest x))
    → P (try_then caught m rest)
try_then-holds P caught (ok x) rest h k = k x refl
try_then-holds P caught (err e) rest h k =
    if_holds P (caught e) (done error) (record { calls = []; outcome = err e }) (λ t. h _ refl)
      (λ f. h _ refl)

kept_scope :
    (a : Assignment) (changed : List String)
    → violates a changed ≡ false
    → (touches_immutable a.immutable_paths changed ≡ false)
      × (scope_ok a.allowed_paths changed ≡ true)
kept_scope a changed h = ground arith

-- Whatever the calls return or raise, the review makes no call, or it reads the diff and no more,
-- or the id of the assignment is a safe name, the diff was read, and no path of it is immutable and
-- every one is allowed.
pub decide-RunsInScope : (a : Assignment) (h : Host) → RunsInScope a h (decide a h).calls
unfolding decide
decide-RunsInScope a h = elim (Option-cases (assignment_id_or_none a.assignment_id)) [
  | inl n ↦ rw n (inl refl)
  | inr (id, i) ↦
      subst (λ o. RunsInScope a h (review_valid a h o).calls) (sym i)
        (try_then-holds (λ r. RunsInScope a h r.calls) is_shape_error h.execution _ (λ r e. inl e)
          λ p x.
            try_then-holds (λ r. RunsInScope a h (diff_call ∷ r.calls)) is_git_error h.diff _
              (λ r e. inr (inl (ap (λ cs. diff_call ∷ cs) e)))
              λ out d.
                try_then-holds (λ r. RunsInScope a h (diff_call ∷ r.calls)) is_git_error
                  (nul_git_paths out) _ (λ r e. inr (inl (ap (λ cs. diff_call ∷ cs) e)))
                  λ changed g.
                    if_holds (λ r. RunsInScope a h (diff_call ∷ r.calls)) (violates a changed)
                      (done reject) (review_toolchain a h p) (λ t. inr (inl refl))
                      λ f.
                        let s = kept_scope a changed f in
                        inr (inr (id, out, changed, i, d, g, s.0, s.1)))
]

-- A review that came to its end: what each call returned, and that its runs could be used.
pub record Judged (a : Assignment) (h : Host) (d : Decision) : Type 0 where
  pub id : String
  pub public_execution : Bool
  pub diff : String
  pub changed : List String
  pub base : ℤ
  pub result : ℤ
  pub id_is : assignment_id_or_none a.assignment_id ≡ some id
  pub execution_is : h.execution ≡ ok public_execution
  pub diff_is : h.diff ≡ ok diff
  pub changed_is : nul_git_paths diff ≡ ok changed
  pub in_scope : violates a changed ≡ false
  pub provisioned : public_execution ≡ false → h.provision ≡ ok tt
  pub checked_base : h.checkout at_base ≡ ok tt
  pub base_is : h.verify at_base ≡ ok base
  pub base_used : is_bad_base public_execution a.collects_evidence base ≡ false
  pub checked_result : h.checkout at_result ≡ ok tt
  pub result_is : h.verify at_result ≡ ok result
  pub judged : judge public_execution a.collects_evidence base result ≡ d

failed-outcome :
    {Q : Type 0} {d : Decision} (c : Bool) (e : Exc)
    → d ≢ error
    → (if c then done error else record { calls = []; outcome = err e }).outcome ≡ ok d
    → Q
failed-outcome true e n h = ground arith
failed-outcome false e n h = cc

try_then-outcome {ℓ} :
    {A : Type ℓ} {Q : Type 0} {d : Decision} (caught : Exc → Bool) (m : Result A)
    (rest : A → Review)
    → d ≢ error
    → (try_then caught m rest).outcome ≡ ok d
    → ((a : A) → m ≡ ok a → (rest a).outcome ≡ ok d → Q)
    → Q
try_then-outcome caught (ok a) rest n h k = k a refl h
try_then-outcome caught (err e) rest n h k = failed-outcome (caught e) e n h

if-outcome :
    {Q : Type 0} {d e : Decision} (c : Bool) (r : Review)
    → (if c then done e else r).outcome ≡ ok d
    → (c ≡ true → d ≡ e → Q)
    → (c ≡ false → r.outcome ≡ ok d → Q)
    → Q
if-outcome true r h k l = k refl (cc h)
if-outcome false r h k l = l refl h

-- The rest of the review, from the checkout of the base commit.
pub record Ran (a : Assignment) (h : Host) (p : Bool) (d : Decision) : Type 0 where
  pub base : ℤ
  pub result : ℤ
  pub checked_base : h.checkout at_base ≡ ok tt
  pub base_is : h.verify at_base ≡ ok base
  pub base_used : is_bad_base p a.collects_evidence base ≡ false
  pub checked_result : h.checkout at_result ≡ ok tt
  pub result_is : h.verify at_result ≡ ok result
  pub judged : judge p a.collects_evidence base result ≡ d

review_base-Ran :
    (a : Assignment) (h : Host) (p : Bool) (d : Decision)
    → d ≢ error
    → (review_base a h p).outcome ≡ ok d
    → Ran a h p d
review_base-Ran a h p d n eq = try_then-outcome is_git_error (h.checkout at_base) _ n eq λ u cb eq1.
    try_then-outcome is_setup_error (h.verify at_base) _ n eq1 λ base vb eq2.
      if-outcome (is_bad_base p a.collects_evidence base) (review_result a h p base) eq2
        (λ bad err. ground arith)
        λ used eq3. try_then-outcome is_git_error (h.checkout at_result) _ n eq3 λ v cr eq4.
          try_then-outcome is_setup_error (h.verify at_result) _ n eq4 λ result vr eq5. record {
            base = base;
            result = result;
            checked_base = cb;
            base_is = vb;
            base_used = used;
            checked_result = cr;
            result_is = vr;
            judged = cc eq5;
          }

review_toolchain-Ran :
    (a : Assignment) (h : Host) (p : Bool) (d : Decision)
    → d ≢ error
    → (review_toolchain a h p).outcome ≡ ok d
    → Ran a h p d × (p ≡ false → h.provision ≡ ok tt)
review_toolchain-Ran a h true d n eq = (review_base-Ran a h true d n eq, λ f. cc f)
review_toolchain-Ran a h false d n eq =
    try_then-outcome is_toolchain_error h.provision _ n eq
      λ u pr eq1. (review_base-Ran a h false d n eq1, λ f. pr)

pub decide-decided :
    (a : Assignment) (h : Host) (d : Decision)
    → d ≢ error
    → (decide a h).outcome ≡ ok d
    → ((d ≡ reject)
        × ((out : String) × (changed : List String) × (h.diff ≡ ok out)
            × (nul_git_paths out ≡ ok changed)
            × (violates a changed ≡ true)))
      ⊎ Judged a h d
unfolding decide
decide-decided a h d n eq = elim (Option-cases (assignment_id_or_none a.assignment_id)) [
  | inl none_is ↦ ground arith
  | inr some_id ↦ try_then-outcome is_shape_error h.execution _ n (rw some_id.1 at eq) λ p ex eq1.
      try_then-outcome is_git_error h.diff _ n eq1 λ out df eq2.
        try_then-outcome is_git_error (nul_git_paths out) _ n eq2 λ changed ng eq3.
          if-outcome (violates a changed) (review_toolchain a h p) eq3
            (λ bad rej. inl (rej, (out, changed, df, ng, bad)))
            λ good eq4.
              let ran = review_toolchain-Ran a h p d n eq4 in
              inr (record {
                id = some_id.0;
                public_execution = p;
                diff = out;
                changed = changed;
                base = ran.0.base;
                result = ran.0.result;
                id_is = some_id.1;
                execution_is = ex;
                diff_is = df;
                changed_is = ng;
                in_scope = good;
                provisioned = ran.1;
                checked_base = ran.0.checked_base;
                base_is = ran.0.base_is;
                base_used = ran.0.base_used;
                checked_result = ran.0.checked_result;
                result_is = ran.0.result_is;
                judged = ran.0.judged;
              })
]
