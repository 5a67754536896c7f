-- ===== src/Retry/Completion/Laws.antt =====
-- The completion loop ends, retries in time, and never after a refusal that is final.
use ormas_subnet.Common.{
  ℕ, zero, suc, ◌+◌, ◌*◌, ◌^◌, ◌-◌, ◌≤◌, ◌<◌, ◌≡◌, ◌⊎◌, inl, inr, refl, false, none, some, arith,
  leb, Option-cases, Bool-cases, sym, ap, ◌∙◌,
}
use native.Mathlib.Nat.{add-zero, pow-suc, mul-le-mul_right}
use ormas_subnet.Retry.Completion.{
  Attempt, Ending, raised, Outcome, verdict, retry, stop, complete_with_retry, first_backoff,
}

-- Fuel above the time that is left is enough, since each pause takes at least one unit.
retry_total :
    (fuel : ℕ) (calls : ℕ → Attempt) (deadline n now backoff : ℕ)
    → 0 < backoff
    → deadline < now + fuel
    → 0 < fuel
    → (o : Outcome) × (retry fuel calls deadline n now backoff ≡ some o)
unfolding retry
retry_total zero calls deadline n now backoff b f p = absurd (omega arith)
retry_total (suc fuel) calls deadline n now backoff b f p =
    elim (Option-cases (verdict (calls n).answer)) [
      | inr (ending, e) ↦
          (record { ending = ending; attempts = n + 1; at = now + (calls n).took }, rw e)
      | inl e ↦ elim (Bool-cases (leb deadline (now + (calls n).took + backoff))) [
        | inl late ↦
            (record { ending = raised; attempts = n + 1; at = now + (calls n).took }, rw (e, late))
        | inr early ↦
            rw (e, early)
              (retry_total fuel calls deadline (n + 1) (now + (calls n).took + backoff)
                (backoff * 2) (omega arith) (ground arith) (ground arith))
      ]
    ]

-- `r` pauses, the first of b units
abbrev pub pauses : ℕ → ℕ → ℕ
pauses zero b = 0
pauses (suc r) b = b + pauses r (b * 2)

pauses-pow : (r b : ℕ) → pauses r b + b ≡ b * 2 ^ r
pauses-pow zero b = omega arith
pauses-pow (suc r) b = rw pow-suc (omega (arith, pauses-pow r (b * 2)))

-- When the attempt after r retries begins, from the attempt n at `now`: after the attempts before it,
-- each with its pause.
pub begins : (ℕ → Attempt) → ℕ → ℕ → ℕ → ℕ → ℕ
begins calls n now backoff zero = now
begins calls n now backoff (suc r) =
    begins calls (n + 1) (now + (calls n).took + backoff) (backoff * 2) r

begins-pauses :
    (calls : ℕ → Attempt) (n now backoff r : ℕ)
    → now + pauses r backoff ≤ begins calls n now backoff r
unfolding begins
begins-pauses calls n now backoff zero = omega arith
begins-pauses calls n now backoff (suc r) =
    omega (arith, begins-pauses calls (n + 1) (now + (calls n).took + backoff) (backoff * 2) r)

-- What a run of the loop from its attempt n satisfies.
pub record IsEnding (calls : ℕ → Attempt) (deadline n now backoff : ℕ) (o : Outcome) : Type 0 where
  pub retries : ℕ
  pub made : o.attempts ≡ n + suc retries
  pub retried : (k : ℕ) → k < retries → verdict (calls (n + k)).answer ≡ none
  pub ended :
      (verdict (calls (n + retries)).answer ≡ some o.ending)
      ⊎ ((verdict (calls (n + retries)).answer ≡ none) × (o.ending ≡ raised))
  pub in_time : (retries ≡ 0) ⊎ (begins calls n now backoff retries < deadline)
  pub at_is : o.at ≡ begins calls n now backoff retries + (calls (n + retries)).took

stopped_at :
    (n after : ℕ) (e : Ending) (o : Outcome)
    → stop e n after ≡ some o
    → (o.ending ≡ e) × (o.attempts ≡ n + 1) × (o.at ≡ after)
stopped_at n after e o h = ground arith

retried-step :
    (calls : ℕ → Attempt) (n retries : ℕ)
    → verdict (calls n).answer ≡ none
    → ((k : ℕ) → k < retries → verdict (calls (n + 1 + k)).answer ≡ none)
    → (k : ℕ) → k < suc retries
    → verdict (calls (n + k)).answer ≡ none
retried-step calls n retries e later zero below = rw add-zero e
retried-step calls n retries e later (suc k) below =
    let shift : n + suc k ≡ n + 1 + k = omega arith in rw shift (later k (omega arith))

time_step :
    (calls : ℕ → Attempt) (deadline n next backoff retries : ℕ)
    → leb deadline next ≡ false
    → (retries ≡ 0) ⊎ (begins calls n next backoff retries < deadline)
    → begins calls n next backoff retries < deadline
unfolding begins
time_step calls deadline n next backoff zero early h = ground arith
time_step calls deadline n next backoff (suc retries) early (inl z) = absurd (omega arith)
time_step calls deadline n next backoff (suc retries) early (inr t) = t

IsEnding-step :
    (calls : ℕ → Attempt) (deadline n now backoff : ℕ) (o : Outcome)
    → verdict (calls n).answer ≡ none
    → leb deadline (now + (calls n).took + backoff) ≡ false
    → IsEnding calls deadline (n + 1) (now + (calls n).took + backoff) (backoff * 2) o
    → IsEnding calls deadline n now backoff o
unfolding begins
IsEnding-step calls deadline n now backoff o e early later =
    let shift : (k : ℕ) → n + 1 + k ≡ n + suc k = λ k. omega arith in
    record {
      retries = suc later.retries;
      made = omega arith;
      retried = retried-step calls n later.retries e later.retried;
      ended = rw (sym (shift later.retries)) later.ended;
      in_time = inr (time_step calls deadline (n + 1) _ _ later.retries early later.in_time);
      at_is = rw (sym (shift later.retries)) later.at_is;
    }

retry-IsEnding :
    (fuel : ℕ) (calls : ℕ → Attempt) (deadline n now backoff : ℕ) (o : Outcome)
    → retry fuel calls deadline n now backoff ≡ some o
    → IsEnding calls deadline n now backoff o
unfolding retry begins
retry-IsEnding zero calls deadline n now backoff o h = cc
retry-IsEnding (suc fuel) calls deadline n now backoff o h =
    elim (Option-cases (verdict (calls n).answer)) [
      | inr (ending, e) ↦
          let (same, one, end) = stopped_at n (now + (calls n).took) ending o (rw e at h) in
          record {
            retries = 0;
            made = omega arith;
            retried = λ k below. absurd (omega arith);
            ended = inl (rw add-zero (e ∙ ap some (sym same)));
            in_time = inl refl;
            at_is = rw add-zero end;
          }
      | inl e ↦ elim (Bool-cases (leb deadline (now + (calls n).took + backoff))) [
        | inl late ↦
            let (same, one, end) =
              stopped_at n (now + (calls n).took) raised o (rw (e, late) at h) in
            record {
              retries = 0;
              made = omega arith;
              retried = λ k below. absurd (omega arith);
              ended = inr (rw add-zero e, same);
              in_time = inl refl;
              at_is = rw add-zero end;
            }
        | inr early ↦
            let later =
              retry-IsEnding fuel calls deadline (n + 1) (now + (calls n).took + backoff)
                (backoff * 2) o (rw (e, early) at h) in
            IsEnding-step calls deadline n now backoff o e early later
      ]
    ]

-- One second for each power of two, where the pauses before the last attempt fit in the lease.
power_le :
    (deadline second b p q : ℕ)
    → second ≤ b
    → q + b ≡ b * p
    → q ≤ deadline
    → second * p ≤ deadline + second
power_le deadline second b zero q low e h = omega arith
power_le deadline second b (suc p) q low e h =
    let scaled : second * p ≤ b * p = mul-le-mul_right p low in omega (arith, scaled)

fitting :
    (calls : ℕ → Attempt) (deadline now b retries : ℕ)
    → (retries ≡ 0) ⊎ (begins calls 0 now b retries < deadline)
    → pauses retries b ≤ deadline
fitting calls deadline now b zero t = omega arith
fitting calls deadline now b (suc r) (inl z) = absurd (omega arith)
fitting calls deadline now b (suc r) (inr t) = omega (arith, begins-pauses calls 0 now b (suc r), t)

few_attempts :
    (calls : ℕ → Attempt) (deadline second now b retries attempts : ℕ)
    → second ≤ b
    → attempts ≡ 0 + suc retries
    → (retries ≡ 0) ⊎ (begins calls 0 now b retries < deadline)
    → second * 2 ^ (attempts - 1) ≤ deadline + second
few_attempts calls deadline second now b retries attempts low made t =
    let same : attempts - 1 ≡ retries = omega arith in
    let fits : pauses retries b ≤ deadline = fitting calls deadline now b retries t in
    rw same (power_le deadline second b (2 ^ retries) _ low (pauses-pow retries b) fits)

-- The loop of a whole call ends. It has made one attempt more than it retried, every attempt before
-- the last got an answer that is not final, and the last got the answer that it ends with, or
-- one that is not final and raises. Every retry begins before the deadline of the lease, and the
-- call ends when the last attempt does, which may be later. The pauses double from at least one
-- second, so one second times two to the number of retries is at most the lease and a second. A
-- second takes at least one tick.
pub complete_with_retry-ends :
    (second : ℕ) (calls : ℕ → Attempt) (lease_ttl heartbeat_interval now : ℕ)
    → 0 < second
    → (o : Outcome) × (complete_with_retry second calls lease_ttl heartbeat_interval now ≡ some o)
      × IsEnding calls lease_ttl 0 now (first_backoff second heartbeat_interval) o
      × (second * 2 ^ (o.attempts - 1) ≤ lease_ttl + second)
unfolding complete_with_retry
complete_with_retry-ends second calls lease_ttl heartbeat_interval now some_ticks =
    let b = first_backoff second heartbeat_interval in
    let low : second ≤ b = ground arith in
    let (o, e) =
      retry_total (suc lease_ttl) calls lease_ttl 0 now b (omega (arith, low)) (omega arith)
        (omega arith) in
    let ending = retry-IsEnding (suc lease_ttl) calls lease_ttl 0 now b o e in
    (
      o,
      e,
      ending,
      few_attempts calls lease_ttl second now b ending.retries o.attempts low ending.made
          ending.in_time,
    )
