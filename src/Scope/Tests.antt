-- ===== src/Scope/Tests.antt =====
-- The scope checks at concrete paths.
use ormas_subnet.Common.{◌≡◌, ◌↔◌, ◌⊎◌, ◌&&◌, not, refl, String, List, [], ◌∷◌, true, false, All}
use ormas_subnet.Scope.{covered, scope_ok, touches_immutable, public_scope_ok}
use ormas_subnet.Scope.Laws.{CoveredBy, covered_iff, scope_ok_iff, public_scope_ok-eq-validator}

abbrev allowed : List String
allowed = "src/" ∷ "" ∷ "README.md" ∷ []

abbrev changed : List String
changed = "src/a.py" ∷ "README.md" ∷ []

inside : scope_ok allowed changed ≡ true
unfolding scope_ok covered
inside = refl

-- An entry that is a file covers no other path that begins with it.
outside : scope_ok allowed ("README.md.bak" ∷ []) ≡ false
unfolding scope_ok covered
outside = refl

covered_iff_example : (covered "src/a.py" allowed ≡ true) ↔ CoveredBy "src/a.py" allowed
covered_iff_example = covered_iff "src/a.py" allowed

scope_ok_iff_example :
    (scope_ok allowed changed ≡ true) ↔ ((allowed ≡ []) ⊎ All (λ p. CoveredBy p allowed) changed)
scope_ok_iff_example = scope_ok_iff allowed changed

public_scope_ok-eq-validator_example :
    public_scope_ok allowed ("src/frozen/" ∷ []) changed
    ≡ (scope_ok allowed changed && not (touches_immutable ("src/frozen/" ∷ []) changed))
public_scope_ok-eq-validator_example =
    public_scope_ok-eq-validator allowed ("src/frozen/" ∷ []) changed
