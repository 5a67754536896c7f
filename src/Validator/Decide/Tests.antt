-- ===== src/Validator/Decide/Tests.antt =====
-- The review at concrete assignments.
use ormas_subnet.Common.{
  ◌≡◌, ◌↔◌, ◌⊎◌, ◌≢◌, refl, String, List, [], ◌∷◌, true, false, ℤ, pos, str, Result, ok, ◌>>=◌,
  ◌>>◌,
}
use ormas_subnet.Workdir.{assignment_id_or_none, is_safe_component}
use ormas_subnet.Scope.{nul_git_paths, covered, touches_immutable, scope_ok}
use ormas_subnet.Validator.Decide.{
  accept, reject, Phase, at_base, at_result, diff_call, Assignment, Host, decide,
}
use ormas_subnet.Validator.Decide.Laws.{violates, RunsInScope, decide-RunsInScope}
use ormas_subnet.Validator.Decide.Verdicts.{Deserves, decide_accepts_iff, decide_rejects}

abbrev assignment : Assignment
assignment = record {
  assignment_id = str "a-1";
  allowed_paths = "src/" ∷ [];
  immutable_paths = "src/frozen/" ∷ [];
  collects_evidence = false;
}

abbrev exit_of : ℤ → ℤ → Phase → Result ℤ
exit_of base result at_base = ok base
exit_of base result at_result = ok result

abbrev checked_out : Phase → Result (Unit {0})
checked_out phase = ok tt

-- A host whose verifier exits with these codes, on a change of one path.
abbrev host : String → ℤ → ℤ → Host
host out base result = record {
  execution = ok false;
  diff = ok out;
  provision = ok tt;
  checkout = checked_out;
  verify = exit_of base result;
}

fixed_is_accepted : (decide assignment (host "src/a.py\0" (pos 1) (pos 0))).outcome ≡ ok accept
unfolding decide assignment_id_or_none is_safe_component nul_git_paths covered touches_immutable
    scope_ok ◌>>=◌ ◌>>◌
fixed_is_accepted = refl

green_base_is_rejected : (decide assignment (host "src/a.py\0" (pos 0) (pos 0))).outcome ≡ ok reject
unfolding decide assignment_id_or_none is_safe_component nul_git_paths covered touches_immutable
    scope_ok ◌>>=◌ ◌>>◌
green_base_is_rejected = refl

decide_accepts_iff_example :
    ((decide assignment (host "src/a.py\0" (pos 1) (pos 0))).outcome ≡ ok accept)
    ↔ Deserves assignment (host "src/a.py\0" (pos 1) (pos 0))
decide_accepts_iff_example = decide_accepts_iff assignment (host "src/a.py\0" (pos 1) (pos 0))

decide_rejects_example :
    ((out : String) × (changed : List String) × (ok "src/a.py\0" ≡ ok out)
      × (nul_git_paths out ≡ ok changed)
      × (violates assignment changed ≡ true))
    ⊎ ((base : ℤ) × (result : ℤ) × (checked_out at_base ≡ ok tt)
        × (exit_of (pos 0) (pos 0) at_base ≡ ok base)
        × (checked_out at_result ≡ ok tt)
        × (exit_of (pos 0) (pos 0) at_result ≡ ok result)
        × ((base ≡ pos 0) ⊎ (result ≢ pos 0))
        × (ok false ≡ ok true → (base ≡ pos 86) × (result ≡ pos 86)))
decide_rejects_example =
    decide_rejects assignment (host "src/a.py\0" (pos 0) (pos 0)) green_base_is_rejected

decide-RunsInScope_example :
    RunsInScope assignment
      (host "src/frozen/b.py\0" (pos 1) (pos 0))
      (decide assignment (host "src/frozen/b.py\0" (pos 1) (pos 0))).calls
decide-RunsInScope_example =
    decide-RunsInScope assignment (host "src/frozen/b.py\0" (pos 1) (pos 0))

only_the_diff_is_read :
    (decide assignment (host "src/frozen/b.py\0" (pos 1) (pos 0))).calls ≡ diff_call ∷ []
unfolding decide assignment_id_or_none is_safe_component nul_git_paths covered touches_immutable
    scope_ok ◌>>=◌ ◌>>◌
only_the_diff_is_read = refl
