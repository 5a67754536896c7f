-- ===== src/Retry/Heartbeat/Laws.antt =====
-- The renewals counted and the waits made by the heartbeat thread.
use ormas_subnet.Common.{
  ℕ, suc, ◌+◌, ◌≤◌, ◌≡◌, refl, Bool, true, false, List, [], ◌∷◌, ◌==◌, if◌then◌else◌, arith, ◌||◌,
  ◌⊎◌, inl, inr, Bool-cases,
}
use ormas_subnet.Retry.Heartbeat.{
  Renewal, renewed, refused, failed, Tick, stop_set, elapsed, Keeper, miss, count_renewal,
  at_least_one, start, keep, heartbeat_loop, is_lease_lost,
}

-- The ticks before the stop flag and before the loss of the lease.
pub held : List Tick → List Renewal
held [] = []
held (stop_set ∷ ticks) = []
held (elapsed renewed ∷ ticks) = renewed ∷ held ticks
held (elapsed failed ∷ ticks) = failed ∷ held ticks
held (elapsed (refused status kind) ∷ ticks) =
    let rest = held ticks in if is_lease_lost status kind then [] else refused status kind ∷ rest

pub successes : List Renewal → ℕ
successes [] = 0
successes (renewed ∷ rs) = suc (successes rs)
successes (refused status kind ∷ rs) = successes rs
successes (failed ∷ rs) = successes rs

-- The lease is lost before the flag is set.
pub loses : List Tick → Bool
loses [] = false
loses (stop_set ∷ ticks) = false
loses (elapsed renewed ∷ ticks) = loses ticks
loses (elapsed failed ∷ ticks) = loses ticks
loses (elapsed (refused status kind) ∷ ticks) =
    let rest = loses ticks in if is_lease_lost status kind then true else rest

-- Every wait is the cadence or nothing, and no two in a row are nothing; `z` says that the wait
-- before was nothing.
abbrev pub Spaced : ℕ → Bool → List ℕ → Type 0
Spaced interval z [] = Unit
Spaced interval z (w ∷ ws) =
    ((w ≡ interval) ⊎ ((w ≡ 0) × (z ≡ false))) × Spaced interval (w == 0) ws

-- The next wait is the cadence, or it is the immediate retry of a first failure.
abbrev IsPaced : ℕ → Bool → Keeper → Type 0
IsPaced interval z k =
    (k.wait ≡ interval) ⊎ ((k.wait ≡ 0) × (k.consecutive_failures ≡ 1) × (z ≡ false))

miss-IsPaced :
    (interval : ℕ) (z : Bool) (k : Keeper)
    → 1 ≤ interval
    → IsPaced interval z k
    → IsPaced interval (k.wait == 0) (miss interval k)
miss-IsPaced interval z k h p = ground arith

IsPaced-Spaced :
    (interval : ℕ) (z : Bool) (k : Keeper)
    → IsPaced interval z k
    → (k.wait ≡ interval) ⊎ ((k.wait ≡ 0) × (z ≡ false))
IsPaced-Spaced interval z k (inl h) = inl h
IsPaced-Spaced interval z k (inr h) = inr (h.0, h.2)

keep-Spaced :
    (interval : ℕ) (z : Bool) (k : Keeper) (ticks : List Tick)
    → 1 ≤ interval
    → IsPaced interval z k
    → Spaced interval z (keep interval k ticks).waits
unfolding keep
keep-Spaced interval z k [] h p = tt
keep-Spaced interval z k (stop_set ∷ ticks) h p = (IsPaced-Spaced interval z k p, tt)
keep-Spaced interval z k (elapsed renewed ∷ ticks) h p = (
  IsPaced-Spaced interval z k p,
  keep-Spaced interval (k.wait == 0) (count_renewal interval k) ticks h (inl refl),
)
keep-Spaced interval z k (elapsed failed ∷ ticks) h p = (
  IsPaced-Spaced interval z k p,
  keep-Spaced interval (k.wait == 0) (miss interval k) ticks h (miss-IsPaced interval z k h p),
)
keep-Spaced interval z k (elapsed (refused status kind) ∷ ticks) h p =
    let first = IsPaced-Spaced interval z k p in
    let rest =
      keep-Spaced interval (k.wait == 0) (miss interval k) ticks h
        (miss-IsPaced interval z k h p) in
    elim (Bool-cases (is_lease_lost status kind)) [
      | inl c ↦ rw c (first, tt)
      | inr c ↦ rw c (first, rest)
    ]

keep_counts :
    (interval : ℕ) (k : Keeper) (ticks : List Tick)
    → ((keep interval k ticks).keeper.renewals ≡ k.renewals + successes (held ticks))
      × ((keep interval k ticks).keeper.cancelled ≡ (k.cancelled || loses ticks))
unfolding keep held successes loses
keep_counts interval k [] = ground arith
keep_counts interval k (stop_set ∷ ticks) = ground arith
keep_counts interval k (elapsed renewed ∷ ticks) =
    ground (arith, keep_counts interval (count_renewal interval k) ticks)
keep_counts interval k (elapsed failed ∷ ticks) =
    ground (arith, keep_counts interval (miss interval k) ticks)
keep_counts interval k (elapsed (refused status kind) ∷ ticks) =
    let ih = keep_counts interval (miss interval k) ticks in
    elim (Bool-cases (is_lease_lost status kind)) [ inl c ↦ rw c (ground arith) | inr c ↦ rw c ih ]

-- The heartbeat thread counts exactly the renewals that succeeded before the stop flag or the
-- loss of the lease; it cancels the solver exactly when the lease is lost first; and each of its
-- waits is the cadence, at least one, or the one immediate retry after a wait that was not.
pub heartbeat_loop_keeps_lease :
    (config_interval : ℕ) (ticks : List Tick)
    → ((heartbeat_loop config_interval ticks).keeper.renewals ≡ successes (held ticks))
      × ((heartbeat_loop config_interval ticks).keeper.cancelled ≡ loses ticks)
      × (1 ≤ at_least_one config_interval)
      × Spaced (at_least_one config_interval) false (heartbeat_loop config_interval ticks).waits
unfolding heartbeat_loop
heartbeat_loop_keeps_lease config_interval ticks =
    let i = at_least_one config_interval in
    let positive : (1 ≤ at_least_one config_interval) = ground arith in
    let counts = keep_counts i (start i) ticks in
    (
      ground (arith, counts),
      counts.1,
      positive,
      keep-Spaced i false (start i) ticks positive (inl refl),
    )
