-- ===== src/Retry/Backoff/Laws.antt =====
-- The pauses of the claim loop: bounded, growing, and reset by a claim that succeeds.
use native.Mathlib.Nat.{pow-suc, pow-zero}
use native.Mathlib.Numerals.{unary_clauses}
use ormas_subnet.Common.{
  ℕ, zero, suc, ◌+◌, ◌-◌, ◌*◌, ◌^◌, ◌≤◌, ◌≡◌, refl, Bool, true, false, none, List, [], ◌∷◌, arith,
  ◌⊎◌, inl, inr, All, Bool-cases, not, ◌||◌, ltb, some, ◌<◌,
}
use ormas_subnet.Retry.Backoff.{
  BackoffConfig, or_else, smaller, float_exponents, claim_refusal_backoff, Round, returned,
  gateway_refused, transport_failed, raised, Daemon, is_credential_refusal, round, run_forever,
  record_refusal, Run,
}

pub cap : BackoffConfig → ℕ → ℕ
cap config interval = or_else config.max (or_else config.base interval)

-- The pause after the n-th refusal in a row, where there is one.
pub pause : BackoffConfig → ℕ → ℕ → ℕ
pause config interval n = smaller (or_else config.base interval * 2 ^ (n - 1)) (cap config interval)

claim_refusal_backoff-le-cap :
    (config : BackoffConfig) (interval n : ℕ) → pause config interval n ≤ cap config interval
unfolding pause
claim_refusal_backoff-le-cap config interval n = ground arith

double_le : (a b p : ℕ) → smaller (a * p) b ≤ smaller (a * (p * 2)) b
double_le a b p = ground arith

power_pos : (k : ℕ) → 1 ≤ 2 ^ k
power_pos zero = ground arith
power_pos (suc k) = rw pow-suc (grind (arith, power_pos k))

le_times : (a b : ℕ) → 1 ≤ b → a ≤ a * b
le_times a zero h = ground arith
le_times a (suc b) h = ground arith

claim_refusal_backoff-pause :
    (config : BackoffConfig) (interval n : ℕ)
    → ltb 1024 n ≡ false
    → claim_refusal_backoff config interval n ≡ some (pause config interval n)
unfolding claim_refusal_backoff pause cap
claim_refusal_backoff-pause config interval n h =
    let low : ltb (n - 1) float_exponents ≡ true = ground arith in rw low

claim_refusal_backoff-over :
    (config : BackoffConfig) (interval n : ℕ)
    → ltb 1024 n ≡ true
    → claim_refusal_backoff config interval n ≡ none
unfolding claim_refusal_backoff
claim_refusal_backoff-over config interval n h =
    let high : ltb (n - 1) float_exponents ≡ false = ground arith in rw high

-- Up to the 1024th refusal in a row there is a pause, and from the 1025th on the product raises. One
-- more refusal never shortens the pause, which never passes the cap; the first pause is the base, or
-- the cap if that is smaller; and with nothing configured every pause is the poll interval.
pub claim_refusal_backoff_bounds :
    (config : BackoffConfig) (interval n : ℕ)
    → (n ≤ 1024 → claim_refusal_backoff config interval n ≡ some (pause config interval n))
      × (1024 < n → claim_refusal_backoff config interval n ≡ none)
      × (pause config interval (suc n) ≤ pause config interval (suc (suc n)))
      × (pause config interval n ≤ cap config interval)
      × (pause config interval 1 ≡ smaller (or_else config.base interval) (cap config interval))
      × (config.base ≡ none → config.max ≡ none → pause config interval n ≡ interval)
unfolding claim_refusal_backoff pause cap
claim_refusal_backoff_bounds config interval n = (
  λ low. claim_refusal_backoff-pause config interval n (ground arith),
  λ high. claim_refusal_backoff-over config interval n (ground arith),
  simp unary_clauses (double_le (or_else config.base interval) (cap config interval) (2 ^ n)),
  claim_refusal_backoff-le-cap config interval n,
  rw pow-zero (ground arith),
  λ b m. rw (b, m) (ground (arith, le_times interval (2 ^ (n - 1)) (power_pos (n - 1)))),
)

-- What ends the loop: a refused credential, a gateway or transport failure that is not the
-- claim's, or any other exception.
pub is_fatal : Round → Bool
is_fatal (returned did_work) = false
is_fatal (gateway_refused at_claim status kind) = not at_claim || is_credential_refusal status
is_fatal (transport_failed at_claim) = not at_claim
is_fatal raised = true

-- The refusals since the last round that returned, the earlier ones of `n` included.
pub streak : ℕ → List Round → ℕ
streak n [] = n
streak n (returned did_work ∷ rounds) = streak 0 rounds
streak n (gateway_refused at_claim status kind ∷ rounds) = streak (n + 1) rounds
streak n (transport_failed at_claim ∷ rounds) = streak n rounds
streak n (raised ∷ rounds) = streak n rounds

-- After `n` refusals in a row, some round is fatal, or some refusal is the 1025th in a row.
pub ends : ℕ → List Round → Bool
ends n [] = false
ends n (returned did_work ∷ rounds) = ends 0 rounds
ends n (gateway_refused at_claim status kind ∷ rounds) =
    is_fatal (gateway_refused at_claim status kind) || ltb 1024 (n + 1) || ends (n + 1) rounds
ends n (transport_failed at_claim ∷ rounds) = not at_claim || ends n rounds
ends n (raised ∷ rounds) = true

abbrev pub IsPause : BackoffConfig → ℕ → ℕ → Type 0
IsPause config interval t = (t ≡ interval) ⊎ (t ≤ cap config interval)

-- What a run over the rounds satisfies.
abbrev pub KeepsClaiming : BackoffConfig → ℕ → ℕ → List Round → Run → Type 0
KeepsClaiming config interval n rounds run =
    (run.stopped ≡ ends n rounds)
    × All (IsPause config interval) run.slept
    × (ends n rounds ≡ false → run.daemon.consecutive ≡ streak n rounds)

-- The loop of the daemon is stopped exactly by a fatal round or by the 1025th refusal in a row,
-- whose backoff raises; each of its pauses is the poll interval or within the cap; and while it is
-- not stopped it has counted the refusals since the last round that returned.
pub run_forever-KeepsClaiming :
    (config : BackoffConfig) (interval : ℕ) (d : Daemon) (rounds : List Round)
    → KeepsClaiming config interval d.consecutive rounds (run_forever config interval d rounds)
unfolding run_forever round is_fatal streak ends
run_forever-KeepsClaiming config interval d [] = (refl, tt, λ h. refl)
run_forever-KeepsClaiming config interval d (returned true ∷ rounds) =
    run_forever-KeepsClaiming config interval (record d { consecutive = 0 }) rounds
run_forever-KeepsClaiming config interval d (returned false ∷ rounds) =
    let ih = run_forever-KeepsClaiming config interval (record d { consecutive = 0 }) rounds in
    (ih.0, (inl refl, ih.1), ih.2)
run_forever-KeepsClaiming config interval d (gateway_refused false status kind ∷ rounds) =
    ground arith
run_forever-KeepsClaiming config interval d (gateway_refused true status kind ∷ rounds) =
    let ih = run_forever-KeepsClaiming config interval (record_refusal d status kind) rounds in
    let low = claim_refusal_backoff-le-cap config interval (d.consecutive + 1) in
    elim (Bool-cases (is_credential_refusal status)) [
      | inl c ↦ rw c (refl, tt, λ h. ground arith)
      | inr c ↦ elim (Bool-cases (ltb 1024 (d.consecutive + 1))) [
        | inl high ↦
            rw (c, claim_refusal_backoff-over config interval (d.consecutive + 1) high, high)
              (refl, tt, λ h. ground arith)
        | inr small ↦
            rw (c, claim_refusal_backoff-pause config interval (d.consecutive + 1) small, small)
              (ih.0, (inr low, ih.1), ih.2)
      ]
    ]
run_forever-KeepsClaiming config interval d (transport_failed false ∷ rounds) = ground arith
run_forever-KeepsClaiming config interval d (transport_failed true ∷ rounds) =
    let ih = run_forever-KeepsClaiming config interval d rounds in (ih.0, (inl refl, ih.1), ih.2)
run_forever-KeepsClaiming config interval d (raised ∷ rounds) = ground arith
