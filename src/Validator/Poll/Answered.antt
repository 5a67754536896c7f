-- ===== src/Validator/Poll/Answered.antt =====
-- An assignment that the gate of ormas_subnet/validator.py gives a digest gets its answer.
use ormas_subnet.Common.{
  ◌≡◌, ◌⊎◌, inl, inr, sym, subst, Exc, Bool-cases, false, ok_injective, refl, ℕ, zero, suc, ◌-◌,
  ◌≤◌, true, Option, none, some, String, List, [], ◌∷◌, elem, Entries, get_or_null, Result, ok, err,
  arith, if◌then◌else◌, if_holds, ok_of, Ensures-eq-ok, guard_holds,
}
use ormas_subnet.Workdir.{require_safe_component}
use ormas_subnet.Validator.Decide.{is_git_error}
use ormas_subnet.Validator.Protocol.{decisions}
use ormas_subnet.Validator.Review.{Preface, skip, acknowledge, review, digest_of, preface}
use ormas_subnet.Validator.Review.Laws.{
  IsAnswerable, Answerable, preface-Answerable, signature_message-defined, then_ok,
}
use ormas_subnet.Validator.Poll.{
  Host, Event, Step, decided, signed, posted, quiet, after, attempt, is_over, clone_from,
  clone_with_retry, window_of, sign_and_post, finish, decide_checkout, answer, answer_assignment,
}
use ormas_subnet.Validator.Poll.Laws.{posts, posts-append, answer_assignment-IsSound}

after-posts :
    {A B : Type 0} (es : List Event) (tokens : List String) (r : Result A)
    (rest : A → List String → Step B) {a : A}
    → r ≡ ok a
    → 1 ≤ posts (rest a tokens).events
    → 1 ≤ posts (after es tokens r rest).events
unfolding after
after-posts es tokens r rest {a} e h =
    rw e (omega (arith, posts-append es (rest a tokens).events, h))

-- A step that posts does so in what comes first, too.
after-posted :
    {A B : Type 0} (es : List Event) (tokens : List String) (r : Result A)
    (rest : A → List String → Step B)
    → 1 ≤ posts es
    → 1 ≤ posts (after es tokens r rest).events
unfolding after
after-posted es tokens (ok a) rest h = omega (arith, posts-append es (rest a tokens).events, h)
after-posted es tokens (err e) rest h = h

module _ (host : Host) (assignment : Entries) where
  named-safe :
      {digest : String} (h : IsAnswerable assignment digest)
      → require_safe_component (get_or_null "assignment_id" assignment) "assignment_id" ≡ ok h.id
  unfolding require_safe_component
  named-safe h = rw h.named (then_ok (guard_holds _ _ h.safe) refl)

  sign_and_post-posts :
      (digest decision : String) (tokens : List String)
      → IsAnswerable assignment digest
      → elem decision decisions ≡ true
      → 1 ≤ posts (sign_and_post host assignment digest decision tokens).events
  unfolding sign_and_post
  sign_and_post-posts digest decision tokens h d =
      let message = ok_of _ (signature_message-defined host.calls assignment decision h d) in
      after-posts [] tokens _ _ (named-safe h) (
        after-posts [] tokens _ _ message.1 (
          after-posted (signed message.0 ∷ posted h.id decision (host.sign message.0) ∷ []) tokens _
            _ (omega arith)))

  finish-posts :
      (digest decision : String) (tokens : List String)
      → IsAnswerable assignment digest
      → elem decision decisions ≡ true
      → 1 ≤ posts (finish host assignment digest decision tokens).events
  finish-posts digest decision tokens h d =
      after-posted _ _ (sign_and_post host assignment digest decision tokens).outcome _
        (sign_and_post-posts digest decision tokens h d)

  -- What leaves the answer of this assignment: an exception of some attempt at the clone that is no
  -- refusal of Git, or of the review of some checkout.
  abbrev pub Raises : Exc → Type 0
  Raises e =
      ((n : ℕ) × (ts : List String) × ((host.clone assignment n ts).1 ≡ err e)
        × (is_git_error e ≡ false))
      ⊎ ((path : String) × (host.decide assignment path ≡ err e))

  -- The step posts, or it is left by such an exception.
  abbrev pub Answered : {A : Type 0} → Step A → Type 0
  Answered step = (1 ≤ posts step.events) ⊎ ((e : Exc) × (step.outcome ≡ err e) × Raises e)

  after-Answered :
      {A B : Type 0} (es : List Event) (tokens : List String) (r : Result A)
      (rest : A → List String → Step B)
      → ((a : A) → r ≡ ok a → Answered (rest a tokens))
      → ((e : Exc) → r ≡ err e → Raises e)
      → Answered (after es tokens r rest)
  unfolding after
  after-Answered es tokens (ok a) rest h k = elim (h a refl) [
    | inl p ↦ inl (omega (arith, posts-append es (rest a tokens).events, p))
    | inr raised ↦ inr raised
  ]
  after-Answered es tokens (err e) rest h k = inr (e, refl, k e refl)

  same_exception : (x e : Exc) → ◌≡◌ {A = Result (Option String)} (err x) (err e) → x ≡ e
  same_exception x e h = cc h

  attempt-Raises :
      (n : ℕ) (ts : List String) (r : List String × Result String)
      (again : List String → Step (Option String))
      → (host.clone assignment n ts) ≡ r
      → ((us : List String) (e : Exc) → (again us).outcome ≡ err e → Raises e)
      → (e : Exc) → (attempt host assignment r again).outcome ≡ err e
      → Raises e
  attempt-Raises n ts (tokens, ok path) again same later e h = cc h
  attempt-Raises n ts (tokens, err x) again same later e h = elim (Bool-cases (is_git_error x)) [
    | inl g ↦ later tokens e (rw g at h)
    | inr f ↦
        let same_raised = same_exception x e (rw f at h) in
        inl (n, ts, rw (same, same_raised) refl, rw (sym same_raised) f)
  ]

  clone_from-Raises :
      (more n : ℕ) (tokens : List String) (e : Exc)
      → (clone_from host more n assignment tokens).outcome ≡ err e
      → Raises e
  unfolding clone_from
  clone_from-Raises zero n tokens e h =
      attempt-Raises n tokens (host.clone assignment n tokens) (λ ts. quiet ts (ok none)) refl
        (λ us x k. cc k) e h
  clone_from-Raises (suc more) n tokens e h =
      attempt-Raises n tokens (host.clone assignment n tokens)
        (λ ts.
          if is_over host assignment n
          then quiet ts (ok none)
          else clone_from host more (suc n) assignment ts)
        refl
        (λ us x.
          if_holds (λ step. step.outcome ≡ err x → Raises x) (is_over host assignment n)
            (quiet us (ok none)) _ (λ t k. cc k) (λ f k. clone_from-Raises more (suc n) us x k))
        e h

  module _
      (decides : (path decision : String)
        → host.decide assignment path ≡ ok decision
        → elem decision decisions ≡ true) where
    decide_checkout-Answered :
        (digest : String) (o : Option String) (tokens : List String)
        → IsAnswerable assignment digest
        → Answered (decide_checkout host assignment digest o tokens)
    decide_checkout-Answered digest none tokens h = inl (finish-posts digest "error" tokens h refl)
    decide_checkout-Answered digest (some path) tokens h =
        after-Answered (decided assignment ∷ []) tokens (host.decide assignment path) _
          (λ decision made.
            inl (finish-posts digest decision tokens h (decides path decision made)))
          (λ e raised. inr (path, raised))

    answer-Answered :
        (p : Preface) (digest : String) (tokens : List String)
        → Answerable assignment p
        → digest_of p ≡ some digest
        → Answered (answer host assignment tokens p)
    unfolding clone_with_retry
    answer-Answered skip digest tokens h e = cc e
    answer-Answered (acknowledge d) digest tokens h e = inl (finish-posts d "error" tokens h refl)
    answer-Answered (review d) digest tokens h e =
        after-Answered (clone_with_retry host assignment tokens).events _
          (clone_with_retry host assignment tokens).outcome _
          (λ o cloned. decide_checkout-Answered d o _ h)
          (λ x raised. clone_from-Raises (window_of assignment - 1) 0 tokens x raised)

    -- An assignment that the gate gives a digest is answered with exactly one decision, or the poll
    -- is left by an exception that an attempt at the clone raised and that is no refusal of Git, or
    -- that the review of a checkout raised. What a review returns is one of the three decisions.
    pub answer_assignment-posts :
        (p : Preface) (digest : String) (tokens : List String)
        → preface host.calls assignment ≡ ok p
        → digest_of p ≡ some digest
        → (posts (answer_assignment host assignment tokens).events ≡ 1)
          ⊎ ((e : Exc) × ((answer_assignment host assignment tokens).outcome ≡ err e) × Raises e)
    unfolding answer_assignment
    answer_assignment-posts p digest tokens g e =
        let gated =
          Ensures-eq-ok (Answerable assignment) _ (preface-Answerable host.calls assignment) g in
        let gate_passed =
          after-Answered [] tokens (ok p) (λ q ts. answer host assignment ts q)
            (λ q made.
              subst (λ u. Answered (answer host assignment tokens u)) (ok_injective made)
                (answer-Answered p digest tokens gated e))
            (λ x raised. cc raised) in
        let answered : Answered (answer_assignment host assignment tokens) = rw g gate_passed in
        let one_post = (answer_assignment-IsSound host assignment tokens).few in
        elim answered [ inl h ↦ inl (omega (arith, h, one_post)) | inr raised ↦ inr raised ]
