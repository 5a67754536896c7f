-- ===== src/Retry/Tests.antt =====
-- The loops at concrete answers.
use ormas_subnet.Common.{
  ◌≡◌, ◌≤◌, ◌-◌, ◌^◌, ◌+◌, ◌*◌, arith, refl, ℕ, zero, suc, List, [], ◌∷◌, none, some, true, false,
  null, ◌<◌,
}
use ormas_subnet.Retry.Completion.{
  Attempt, accepted, refused, transport, Outcome, complete_with_retry, first_backoff,
}
use ormas_subnet.Retry.Completion.Laws.{IsEnding, complete_with_retry-ends}
use ormas_subnet.Retry.Heartbeat.{
  Tick, elapsed, stop_set, renewed, failed, heartbeat_loop, at_least_one, keep,
}
use ormas_subnet.Retry.Heartbeat.Laws.{held, successes, loses, Spaced, heartbeat_loop_keeps_lease}
use ormas_subnet.Retry.Backoff.{
  BackoffConfig, Round, returned, gateway_refused, Daemon, run_forever, claim_refusal_backoff,
  smaller, round,
}
use ormas_subnet.Retry.Backoff.Laws.{
  cap, pause, KeepsClaiming, claim_refusal_backoff_bounds, run_forever-KeepsClaiming,
}

-- A gateway that is unreachable twice and then accepts.
abbrev third_time : ℕ → Attempt
third_time zero = record { answer = transport; took = 1 }
third_time (suc zero) = record { answer = refused (some 503) none; took = 1 }
third_time (suc (suc n)) = record { answer = accepted null; took = 1 }

complete_with_retry-ends_example :
    (o : Outcome) × (complete_with_retry 2 third_time 600 60 0 ≡ some o)
    × IsEnding third_time 600 0 0 (first_backoff 2 60) o
    × (2 * 2 ^ (o.attempts - 1) ≤ 600 + 2)
complete_with_retry-ends_example = complete_with_retry-ends 2 third_time 600 60 0 (ground arith)

abbrev ticks : List Tick
ticks = elapsed renewed ∷ elapsed failed ∷ elapsed failed ∷ elapsed renewed ∷ stop_set ∷ []

heartbeat_loop_keeps_lease_example :
    ((heartbeat_loop 30 ticks).keeper.renewals ≡ successes (held ticks))
    × ((heartbeat_loop 30 ticks).keeper.cancelled ≡ loses ticks)
    × (1 ≤ at_least_one 30)
    × Spaced (at_least_one 30) false (heartbeat_loop 30 ticks).waits
heartbeat_loop_keeps_lease_example = heartbeat_loop_keeps_lease 30 ticks

first_failure_is_retried_at_once : (heartbeat_loop 30 ticks).waits ≡ 30 ∷ 30 ∷ 0 ∷ 30 ∷ 30 ∷ []
unfolding heartbeat_loop keep
first_failure_is_retried_at_once = refl

abbrev config : BackoffConfig
config = record { base = some 10; max = some 60 }

abbrev daemon : Daemon
daemon = record { consecutive = 0; last_refusal = none }

abbrev rounds : List Round
rounds =
    gateway_refused true (some 429) none
    ∷ gateway_refused true (some 429) none
    ∷ returned false
    ∷ []

pauses_grow : (run_forever config 15 daemon rounds).slept ≡ 10 ∷ 20 ∷ 15 ∷ []
unfolding run_forever round claim_refusal_backoff
pauses_grow = refl

run_forever-KeepsClaiming_example :
    KeepsClaiming config 15 0 rounds (run_forever config 15 daemon rounds)
run_forever-KeepsClaiming_example = run_forever-KeepsClaiming config 15 daemon rounds

-- A daemon that was refused 1024 times in a row is stopped by the next refusal.
refused_once_too_often :
    (run_forever config 15
      (record daemon { consecutive = 1024 })
      (gateway_refused true (some 429) none ∷ [])).stopped
    ≡ true
unfolding run_forever round claim_refusal_backoff
refused_once_too_often = refl

claim_refusal_backoff_bounds_example :
    (3 ≤ 1024 → claim_refusal_backoff config 15 3 ≡ some (pause config 15 3))
    × (1024 < 3 → claim_refusal_backoff config 15 3 ≡ none)
    × (pause config 15 4 ≤ pause config 15 5)
    × (pause config 15 3 ≤ cap config 15)
    × (pause config 15 1 ≡ smaller 10 (cap config 15))
    × (config.base ≡ none → config.max ≡ none → pause config 15 3 ≡ 15)
claim_refusal_backoff_bounds_example = claim_refusal_backoff_bounds config 15 3
