-- ===== src/Validator/Poll/Laws.antt =====
-- What one poll of ormas_subnet/validator.py attests, signs and posts.
use ormas_subnet.Common.{
  ◌≡◌, refl, ◌⊎◌, inl, inr, ℕ, zero, suc, ◌+◌, ◌-◌, ◌≤◌, true, Option, none, some, String, List, [],
  ◌∷◌, ◌++◌, All, All-append, Entries, get_or_null, Result, ok, err, arith, if◌then◌else◌, if_holds,
  Bool-cases,
}
use ormas_subnet.Workdir.{require_safe_component}
use ormas_subnet.Validator.Decide.{is_git_error}
use ormas_subnet.Validator.Review.{
  Preface, skip, acknowledge, review, digest_of, preface, signature_message,
}
use ormas_subnet.Validator.Poll.{
  Host, Event, Step, attested, cloned, decided, signed, posted, quiet, after, attempt, is_over,
  clone_from, clone_with_retry, window_of, sign_and_post, finish, decide_checkout, answer,
  answer_assignment,
}

abbrev pub posts : List Event → ℕ
posts [] = 0
posts (posted id decision signature ∷ es) = suc (posts es)
posts (e ∷ es) = posts es

pub posts-append : (es fs : List Event) → posts (es ++ fs) ≡ posts es + posts fs
posts-append [] fs = omega arith
posts-append (posted id decision signature ∷ es) fs = omega (arith, posts-append es fs)
posts-append (attested id ∷ es) fs = posts-append es fs
posts-append (cloned a ∷ es) fs = posts-append es fs
posts-append (decided a ∷ es) fs = posts-append es fs
posts-append (signed m ∷ es) fs = posts-append es fs

module _ (host : Host) where
  -- A decision that the gate, and for more than "error" the review, stands behind.
  pub record IsEarned (assignment : Entries) (digest decision : String) : Type 0 where
    pub gate : Preface
    pub gated : preface host.calls assignment ≡ ok gate
    pub digested : digest_of gate ≡ some digest
    pub reviewed :
        (decision ≡ "error")
        ⊎ ((gate ≡ review digest) × ((path : String) × (host.decide assignment path ≡ ok decision)))

  -- A text that was signed for such a decision.
  pub record IsMessage (message : String) : Type 0 where
    pub assignment : Entries
    pub digest : String
    pub decision : String
    pub earned : IsEarned assignment digest decision
    pub said : signature_message host.calls assignment digest decision ≡ ok message

  -- A decision that was posted with the signature of its own message.
  pub record IsPost (id decision signature : String) : Type 0 where
    pub assignment : Entries
    pub digest : String
    pub message : String
    pub named :
        require_safe_component (get_or_null "assignment_id" assignment) "assignment_id" ≡ ok id
    pub earned : IsEarned assignment digest decision
    pub said : signature_message host.calls assignment digest decision ≡ ok message
    pub by_key : signature ≡ host.sign message

  -- What stands behind an event.
  abbrev pub Justified : Event → Type 0
  Justified (attested id) = (host.is_protected ≡ true) × (host.fetch_read_token id ≡ true)
  Justified (cloned assignment) =
      (digest : String) × (preface host.calls assignment ≡ ok (review digest))
  Justified (decided assignment) =
      (digest : String) × (preface host.calls assignment ≡ ok (review digest))
  Justified (signed message) = IsMessage message
  Justified (posted id decision signature) = IsPost id decision signature

  -- Every event is justified, and at most so many are posts.
  pub record IsSound {ℓ} {A : Type ℓ} (n : ℕ) (step : Step A) : Type ℓ where
    pub justified : All Justified step.events
    pub few : posts step.events ≤ n

  pub quiet-IsSound :
      {A : Type 0} (n : ℕ) (tokens : List String) (r : Result A) → IsSound n (quiet tokens r)
  quiet-IsSound n tokens r = record { justified = tt; few = omega arith }

  pub after-IsSound :
      {A B : Type 0} (m n : ℕ) (es : List Event) (tokens : List String) (r : Result A)
      (rest : A → List String → Step B)
      → All Justified es
      → posts es ≤ m
      → ((a : A) → r ≡ ok a → IsSound n (rest a tokens))
      → IsSound (m + n) (after es tokens r rest)
  unfolding after
  after-IsSound m n es tokens (err e) rest j f h = record { justified = j; few = omega arith }
  after-IsSound m n es tokens (ok a) rest j f h =
      let later = h a refl in
      record {
        justified = All-append Justified es _ j later.justified;
        few = omega (arith, posts-append es (rest a tokens).events, later.few);
      }

  sign_and_post-IsSound :
      (assignment : Entries) (digest decision : String) (tokens : List String)
      → IsEarned assignment digest decision
      → IsSound 1 (sign_and_post host assignment digest decision tokens)
  unfolding sign_and_post
  sign_and_post-IsSound assignment digest decision tokens h =
      after-IsSound 0 1 [] tokens _ _ tt (omega arith) λ id named.
        after-IsSound 0 1 [] tokens _ _ tt (omega arith) λ message said.
          after-IsSound 1 0 (signed message ∷ posted id decision (host.sign message) ∷ []) tokens _
            _
            (
              record {
                assignment = assignment;
                digest = digest;
                decision = decision;
                earned = h;
                said = said;
              },
              (
                record {
                  assignment = assignment;
                  digest = digest;
                  message = message;
                  named = named;
                  earned = h;
                  said = said;
                  by_key = refl;
                },
                tt,
              ),
            )
            (omega arith) λ done e. quiet-IsSound 0 tokens (ok tt)

  finish-IsSound :
      (assignment : Entries) (digest decision : String) (tokens : List String)
      → IsEarned assignment digest decision
      → IsSound 1 (finish host assignment digest decision tokens)
  finish-IsSound assignment digest decision tokens h =
      let posting = sign_and_post-IsSound assignment digest decision tokens h in
      after-IsSound 1 0 _ _ (sign_and_post host assignment digest decision tokens).outcome _
        posting.justified posting.few λ done e. quiet-IsSound 0 _ (ok true)

  attempt-IsSound :
      (assignment : Entries) (r : List String × Result String)
      (again : List String → Step (Option String))
      → Justified (cloned assignment)
      → ((ts : List String) → IsSound 0 (again ts))
      → IsSound 0 (attempt host assignment r again)
  attempt-IsSound assignment (tokens, ok path) again h k = record {
    justified = (h, tt);
    few = omega arith;
  }
  attempt-IsSound assignment (tokens, err e) again h k = elim (Bool-cases (is_git_error e)) [
    | inl t ↦ rw t (record { justified = (h, (k tokens).justified); few = (k tokens).few })
    | inr f ↦ rw f (record { justified = (h, tt); few = omega arith })
  ]

  -- The attempts to clone, for an assignment that the gate lets through to a review.
  clone_from-IsSound :
      (more n : ℕ) (assignment : Entries) (tokens : List String)
      → Justified (cloned assignment)
      → IsSound 0 (clone_from host more n assignment tokens)
  unfolding clone_from
  clone_from-IsSound zero n assignment tokens h =
      attempt-IsSound assignment (host.clone assignment n tokens) (λ ts. quiet ts (ok none)) h
        λ ts. quiet-IsSound 0 ts (ok none)
  clone_from-IsSound (suc more) n assignment tokens h =
      attempt-IsSound assignment (host.clone assignment n tokens)
        (λ ts.
          if is_over host assignment n
          then quiet ts (ok none)
          else clone_from host more (suc n) assignment ts)
        h
        λ ts.
          if_holds (IsSound 0) (is_over host assignment n) (quiet ts (ok none)) _
            (λ t. quiet-IsSound 0 ts (ok none))
            (λ f. clone_from-IsSound more (suc n) assignment ts h)

  decide_checkout-IsSound :
      (assignment : Entries) (digest : String) (o : Option String) (tokens : List String)
      → preface host.calls assignment ≡ ok (review digest)
      → IsSound 1 (decide_checkout host assignment digest o tokens)
  decide_checkout-IsSound assignment digest none tokens g =
      finish-IsSound assignment digest "error" tokens
        (record { gate = review digest; gated = g; digested = refl; reviewed = inl refl })
  decide_checkout-IsSound assignment digest (some path) tokens g =
      after-IsSound 0 1 (decided assignment ∷ []) tokens (host.decide assignment path) _
        ((digest, g), tt) (omega arith)
        λ decision d. finish-IsSound assignment digest decision tokens (record {
          gate = review digest;
          gated = g;
          digested = refl;
          reviewed = inr (refl, (path, d));
        })

  answer-IsSound :
      (assignment : Entries) (tokens : List String) (p : Preface)
      → preface host.calls assignment ≡ ok p
      → IsSound 1 (answer host assignment tokens p)
  unfolding clone_with_retry
  answer-IsSound assignment tokens skip g = quiet-IsSound 1 tokens (ok true)
  answer-IsSound assignment tokens (acknowledge digest) g =
      finish-IsSound assignment digest "error" tokens
        (record { gate = acknowledge digest; gated = g; digested = refl; reviewed = inl refl })
  answer-IsSound assignment tokens (review digest) g =
      let checkout =
        clone_from-IsSound (window_of assignment - 1) 0 assignment tokens (digest, g) in
      after-IsSound 0 1 _ _ (clone_with_retry host assignment tokens).outcome _ checkout.justified
        checkout.few λ path e. decide_checkout-IsSound assignment digest path _ g

  pub answer_assignment-IsSound :
      (assignment : Entries) (tokens : List String)
      → IsSound 1 (answer_assignment host assignment tokens)
  unfolding answer_assignment
  answer_assignment-IsSound assignment tokens =
      after-IsSound 0 1 [] tokens (preface host.calls assignment) _ tt (omega arith)
        λ p g. answer-IsSound assignment tokens p g
