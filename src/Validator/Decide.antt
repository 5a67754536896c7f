-- ===== src/Validator/Decide.antt =====
-- `_decide` of ormas_subnet/validator.py: the review of one delivery, over what each call that it
-- makes returns or raises, with the calls in the order in which they were made.
pub mod Laws
pub mod Verdicts
mod Tests
use ormas_subnet.Common.{
  ℕ, ◌||◌, ◌&&◌, not, String, Bool, true, false, Option, none, some, List, [], ◌∷◌, Value, ℤ, pos,
  Exc, value_error, key_error, type_error, attribute_error, os_error, git_error,
  toolchain_unavailable, Result, ok, err, int_eq, if◌then◌else◌,
}
use ormas_subnet.Workdir.{assignment_id_or_none}
use ormas_subnet.Scope.{nul_git_paths, touches_immutable, scope_ok}

pub data Decision : Type 0 where
  accept reject error : Decision

pub data Phase : Type 0 where
  at_base at_result : Phase

pub data Call : Type 0 where
  diff_call provision_call : Call
  checkout_call verify_call : Phase → Call

-- The fields of the assignment that decide. A path list that is absent or `None` is empty.
pub record Assignment : Type 0 where
  pub assignment_id : Value
  pub allowed_paths : List String
  pub immutable_paths : List String
  -- `evidence_root(verify_command) is not None`
  pub collects_evidence : Bool

-- What each call does: `validate_assignment_execution`, `git diff`, `provision_toolchain`,
-- `git checkout` and the verify command, which returns an exit code.
pub record Host : Type 0 where
  pub execution : Result Bool
  pub diff : Result String
  pub provision : Result (Unit {0})
  pub checkout : Phase → Result (Unit {0})
  pub verify : Phase → Result ℤ

-- The calls made, and the decision or an exception that `_decide` does not catch.
pub record Review : Type 0 where
  pub calls : List Call
  pub outcome : Result Decision

abbrev pub done : Decision → Review
done d = record { calls = []; outcome = ok d }

abbrev pub logged : Call → Review → Review
logged c r = record r { calls = c ∷ r.calls }

-- The classes that an `except` clause names.
abbrev pub is_git_error : Exc → Bool
is_git_error (git_error m) = true
is_git_error _ = false

abbrev pub is_shape_error : Exc → Bool
is_shape_error (value_error m) = true
is_shape_error key_error = true
is_shape_error type_error = true
is_shape_error attribute_error = true
is_shape_error _ = false

abbrev pub is_toolchain_error : Exc → Bool
is_toolchain_error (toolchain_unavailable m) = true
is_toolchain_error e = is_shape_error e

abbrev pub is_setup_error : Exc → Bool
is_setup_error (value_error m) = true
is_setup_error os_error = true
is_setup_error _ = false

-- `try: x = call() except ...: return self._review_error(...)`, then the rest.
abbrev pub try_then {ℓ} : {A : Type ℓ} → (Exc → Bool) → Result A → (A → Review) → Review
try_then caught (ok a) rest = rest a
try_then caught (err e) rest =
    if caught e then done error else record { calls = []; outcome = err e }

-- The exit codes of a verifier whose setup failed.
abbrev pub is_setup_exit : ℤ → Bool
is_setup_exit e = int_eq e (pos 74) || int_eq e (pos 127)

abbrev pub judge : Bool → Bool → ℤ → ℤ → Decision
judge true evidence base result =
    if int_eq result (pos 0) then accept else (if int_eq result (pos 86) then reject else error)
judge false evidence base result =
    if evidence && is_setup_exit result
    then error
    else if int_eq base (pos 0)
    then reject
    else (if int_eq result (pos 0) then accept else reject)

-- The base run cannot be used: not the expected red of a public job, or a failed setup.
abbrev pub is_bad_base : Bool → Bool → ℤ → Bool
is_bad_base true evidence base = not (int_eq base (pos 86))
is_bad_base false evidence base = evidence && is_setup_exit base

-- From the checkout of the result commit on.
abbrev pub review_result : Assignment → Host → Bool → ℤ → Review
review_result a h public_execution base = logged (checkout_call at_result) (
    try_then is_git_error (h.checkout at_result) (λ u. logged (verify_call at_result) (
      try_then is_setup_error (h.verify at_result)
        (λ result. done (judge public_execution a.collects_evidence base result)))))

-- From the checkout of the base commit on.
abbrev pub review_base : Assignment → Host → Bool → Review
review_base a h public_execution = logged (checkout_call at_base) (
    try_then is_git_error (h.checkout at_base) (λ u. logged (verify_call at_base) (
      try_then is_setup_error (h.verify at_base) (λ base.
        if is_bad_base public_execution a.collects_evidence base
        then done error
        else review_result a h public_execution base))))

-- A public execution has no toolchain to provision.
abbrev pub review_toolchain : Assignment → Host → Bool → Review
review_toolchain a h true = review_base a h true
review_toolchain a h false =
    logged provision_call (try_then is_toolchain_error h.provision (λ u. review_base a h false))

abbrev pub review_diff : Assignment → Host → Bool → Review
review_diff a h public_execution = logged diff_call (
    try_then is_git_error h.diff (λ out. try_then is_git_error (nul_git_paths out) (λ changed.
      if touches_immutable a.immutable_paths changed || not (scope_ok a.allowed_paths changed)
      then done reject
      else review_toolchain a h public_execution)))

abbrev pub review_valid : Assignment → Host → Option String → Review
review_valid a h none = done error
review_valid a h (some id) =
    try_then is_shape_error h.execution (λ public_execution. review_diff a h public_execution)

unfoldable pub decide : Assignment → Host → Review
decide a h = review_valid a h (assignment_id_or_none a.assignment_id)
