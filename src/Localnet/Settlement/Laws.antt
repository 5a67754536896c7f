-- ===== src/Localnet/Settlement/Laws.antt =====
-- What a completion is settled to, and what is billed for it.
use ormas_subnet.Common.{
  truthy, ◌≡◌, ◌⊎◌, inl, inr, refl, Bool, true, false, ◌&&◌, not, String, [], ◌∷◌, ◌++◌, some, ℕ,
  suc, pos, finite, Value, null, str, Entries, Exc, Result, ok, err, Ensures, Ensures-bind,
  Ensures-then, Bool-cases, Ensures-eq-ok, str_eq, eq_iff, arith, length, if◌then◌else◌,
  get_or_null,
}
use ormas_subnet.Localnet.{Seed, Recorded, Gateway, settled, Step}
use ormas_subnet.Localnet.Settlement.{
  Outcome, no_delivery, valid_commit, or_value, derive_settlement, known_state, Completion,
  read_completion, settle_completion, record_completion, complete_read, handle_complete,
}

-- The delivery was verified, within its scope, and names its commit.
abbrev pub is_delivered : String → Value → Value → Bool
is_delivered state scope_ok commit =
    str_eq state "verified" && truthy scope_ok && valid_commit commit

-- `derive_settlement` with its three tests decided.
abbrev outcome_if : Bool → Bool → Bool → Value → Outcome
outcome_if verified scope commit failure =
    if verified
    then (if not scope
        then no_delivery (str "scope_violation")
        else if not commit
        then no_delivery (str "publish_failed")
        else record { settlement = "paid"; failure_class = null })
    else no_delivery failure

outcome_if-lem :
    (v t c : Bool) (f : Value)
    → (str_eq (outcome_if v t c f).settlement "paid" ≡ (v && t && c))
      × ((v && t && c) ≡ true → (outcome_if v t c f).failure_class ≡ null)
      × ((v && t && c) ≡ false → truthy f ≡ true → truthy (outcome_if v t c f).failure_class ≡ true)
outcome_if-lem true true true f = (refl, λ h. refl, λ h k. cc h)
outcome_if-lem true true false f = (refl, λ h. cc h, λ h k. refl)
outcome_if-lem true false c f = (refl, λ h. cc h, λ h k. refl)
outcome_if-lem false t c f = (refl, λ h. cc h, λ h k. k)

or_value-truthy : (a b : Value) → truthy b ≡ true → truthy (or_value a b) ≡ true
or_value-truthy a b h = elim (Bool-cases (truthy a)) [ inl t ↦ rw t t | inr f ↦ rw f h ]

-- A record of a completion, the n-th, is consistent.
pub record IsConsistent (seed : Seed) (n : ℕ) (r : Recorded) : Type 0 where
  pub numbered : r.receipt.number ≡ suc n
  pub known : (r.verification_state ≡ "verified") ⊎ (r.verification_state ≡ "failed")
  pub paid :
      str_eq r.receipt.settlement "paid"
      ≡ is_delivered r.verification_state r.scope_ok r.result_commit
  pub billed : r.receipt.customer_billed_usd ≡ (
      if is_delivered r.verification_state r.scope_ok r.result_commit
      then seed.outcome_price_usd
      else finite (pos 0) (pos 0))
  pub unclassed :
      is_delivered r.verification_state r.scope_ok r.result_commit ≡ true
      → r.receipt.failure_class ≡ null
  pub classed :
      is_delivered r.verification_state r.scope_ok r.result_commit ≡ false
      → truthy r.receipt.failure_class ≡ true

abbrev IsKnown : String → Type 0
IsKnown s = (s ≡ "verified") ⊎ (s ≡ "failed")

known_state-IsKnown : (v : Value) → Ensures IsKnown (known_state v)
known_state-IsKnown (str s) = ground (arith, eq_iff s "verified", eq_iff s "failed")
known_state-IsKnown _ = tt

IsKnown-truthy : (s : String) → IsKnown s → truthy (str s) ≡ true
IsKnown-truthy s (inl h) = rw h refl
IsKnown-truthy s (inr h) = rw h refl

read_completion-IsKnown : (body : Entries) → Ensures (λ c. IsKnown c.state) (read_completion body)
unfolding read_completion
read_completion-IsKnown body = Ensures-bind _ _ _ λ receipt e1. Ensures-bind _ _ _ λ version e2.
    Ensures-then _ _ _ λ g1. Ensures-bind _ _ _ λ terminal e3. Ensures-bind _ _ _ λ raw e4.
      Ensures-bind _ _ _
        λ state e5. Ensures-eq-ok IsKnown (known_state raw) (known_state-IsKnown raw) e5

settle_completion-IsConsistent :
    (seed : Seed) (n : ℕ) (body : Entries) (c : Completion)
    → IsKnown c.state
    → Ensures (IsConsistent seed n) (settle_completion seed n body c)
unfolding settle_completion derive_settlement
settle_completion-IsConsistent seed n body c k = Ensures-bind _ _ _ λ capture e1.
    Ensures-bind _ _ _ λ commit e2. Ensures-bind _ _ _ λ upstream e3. Ensures-bind _ _ _ λ ref e4.
      Ensures-bind _ _ _ λ changed e5.
        let f = or_value (get_or_null "failure_class" capture) (str c.state) in
        let o =
          outcome_if-lem (str_eq c.state "verified") (truthy (get_or_null "scope_ok" capture))
            (valid_commit commit) f in
        record {
          numbered = refl;
          known = k;
          paid = o.0;
          billed = rw o.0 refl;
          unclassed = o.1;
          classed = λ h. o.2 h (
              or_value-truthy (get_or_null "failure_class" capture) (str c.state)
                (IsKnown-truthy c.state k));
        }

-- The effect of a completion on the record.
abbrev pub Appends : Seed → Gateway → Step → Type 0
Appends seed g s =
    ((e : Exc) × (s.response ≡ err e) × (s.gateway.receipts ≡ g.receipts))
    ⊎ ((r : Recorded) × (s.gateway.receipts ≡ g.receipts ++ (r ∷ []))
        × (s.response
            ≡ ok (record {
              status_code = 200;
              body =
                  settled
                    (if is_delivered r.verification_state r.scope_ok r.result_commit
                      then "done"
                      else "failed")
                    r.receipt;
            }))
        × IsConsistent seed (length g.receipts) r)

settled_answer :
    (seed : Seed) (g : Gateway) (m : Result Recorded)
    → Ensures (IsConsistent seed (length g.receipts)) m
    → Appends seed g (record_completion g m)
settled_answer seed g (err e) h = inl (e, refl, refl)
settled_answer seed g (ok r) h = inr (r, refl, rw h.paid refl, h)

complete_read-Appends :
    (seed : Seed) (g : Gateway) (body : Entries) (m : Result Completion)
    → Ensures (λ c. IsKnown c.state) m
    → Appends seed g (complete_read seed g body m)
complete_read-Appends seed g body (err e) h = inl (e, refl, refl)
complete_read-Appends seed g body (ok c) h =
    settled_answer seed (record g { completed = some body })
      (settle_completion seed (length g.receipts) body c)
      (settle_completion-IsConsistent seed (length g.receipts) body c h)

-- A completion either raises and records nothing, or it appends the next record, which the reply
-- repeats: the record is paid, and the seeded price billed, exactly when the delivery was
-- verified, within scope and names a commit of forty characters, and else nothing is billed and
-- a failure class is named.
pub handle_complete-Appends :
    (seed : Seed) (g : Gateway) (body : Entries) → Appends seed g (handle_complete seed g body)
unfolding handle_complete
handle_complete-Appends seed g body =
    complete_read-Appends seed g body (read_completion body) (read_completion-IsKnown body)
