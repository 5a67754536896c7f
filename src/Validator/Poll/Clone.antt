-- ===== src/Validator/Poll/Clone.antt =====
-- The clone that is tried again ends, within the time that the assignment gives.
use ormas_subnet.Common.{
  ◌≡◌, refl, ℕ, zero, suc, ◌-◌, ◌≤◌, Bool, false, Option, none, String, List, length, Value, int,
  pos, Entries, Result, ok, err, arith, if◌then◌else◌, if_holds, Bool-cases, inl, inr, get_or_null,
}
use ormas_subnet.Validator.Decide.{is_git_error}
use ormas_subnet.Validator.Poll.{
  Host, Step, quiet, shorter, field_of, window_of, is_over, attempt, clone_from, clone_with_retry,
}

-- A step of the clone: at most so many attempts, and no refusal by Git is left to the caller.
abbrev pub is_refused : Result (Option String) → Bool
is_refused (ok path) = false
is_refused (err e) = is_git_error e

record IsTried (n : ℕ) (step : Step (Option String)) : Type 0 where
  tried : length step.events ≤ n
  contained : is_refused step.outcome ≡ false

module _ (host : Host) (assignment : Entries) where
  attempt-IsTried :
      (n : ℕ) (r : List String × Result String) (again : List String → Step (Option String))
      → ((ts : List String) → IsTried n (again ts))
      → IsTried (suc n) (attempt host assignment r again)
  attempt-IsTried n (tokens, ok path) again h = record { tried = omega arith; contained = refl }
  attempt-IsTried n (tokens, err e) again h = elim (Bool-cases (is_git_error e)) [
    | inl t ↦ rw t (record {
      tried = let b = (h tokens).tried in omega (arith, b);
      contained = (h tokens).contained;
    })
    | inr f ↦ rw f (record { tried = omega arith; contained = f })
  ]

  quiet-IsTried : (n : ℕ) (ts : List String) → IsTried n (quiet ts (ok none))
  quiet-IsTried n ts = record { tried = omega arith; contained = refl }

  clone_from-IsTried :
      (more n : ℕ) (tokens : List String)
      → IsTried (suc more) (clone_from host more n assignment tokens)
  unfolding clone_from
  clone_from-IsTried zero n tokens =
      attempt-IsTried 0 (host.clone assignment n tokens) (λ ts. quiet ts (ok none))
        (quiet-IsTried 0)
  clone_from-IsTried (suc more) n tokens =
      attempt-IsTried (suc more) (host.clone assignment n tokens)
        (λ ts.
          if is_over host assignment n
          then quiet ts (ok none)
          else clone_from host more (suc n) assignment ts)
        λ ts.
          if_holds (IsTried (suc more)) (is_over host assignment n) (quiet ts (ok none))
            (clone_from host more (suc n) assignment ts) (λ t. quiet-IsTried (suc more) ts)
            (λ f. clone_from-IsTried more (suc n) ts)

shorter_bounds : (v : Value) → (1 ≤ shorter v) × (shorter v ≤ 15)
shorter_bounds (int (pos n)) = ground arith
shorter_bounds _ = (omega arith, omega arith)

-- The clone ends after at most fifteen attempts, and after at most as many as the assignment gives
-- it seconds; a refusal by Git is not passed on, and ends in no checkout.
pub clone_with_retry-bounded :
    (host : Host) (assignment : Entries) (tokens : List String)
    → (length (clone_with_retry host assignment tokens).events ≤ window_of assignment)
      × (window_of assignment ≤ 15)
      × (is_refused (clone_with_retry host assignment tokens).outcome ≡ false)
unfolding clone_with_retry window_of
clone_with_retry-bounded host assignment tokens =
    let seconds =
      shorter_bounds
        (field_of "timeout_s" (field_of "policy" (get_or_null "acceptance_contract" assignment))) in
    let step = clone_from-IsTried host assignment (window_of assignment - 1) 0 tokens in
    (omega (arith, step.tried, seconds.0), seconds.1, step.contained)
