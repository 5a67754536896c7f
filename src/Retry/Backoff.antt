-- ===== src/Retry/Backoff.antt =====
-- `_claim_refusal_backoff_s` and the claim loop `run_forever` of ormas_subnet/skeleton.py. A time
-- is a float of the source, here a number of ticks of which every time that is configured is a
-- multiple: times a power of two it is exact, or larger than every cap.
pub mod Laws
use ormas_subnet.Common.{
  ℕ, zero, suc, ◌+◌, ◌-◌, ◌*◌, ◌^◌, String, Bool, true, false, ◌||◌, Option, none, some, List, [],
  ◌∷◌, ◌==◌, leb, ltb, if◌then◌else◌,
}

-- The part of `MinerConfig` that shapes the pauses.
pub record BackoffConfig : Type 0 where
  pub base : Option ℕ
  pub max : Option ℕ

abbrev pub or_else : Option ℕ → ℕ → ℕ
or_else none d = d
or_else (some n) d = n

abbrev pub smaller : ℕ → ℕ → ℕ
smaller a b = if leb a b then a else b

-- A float times `2 ** k` raises `OverflowError` where the integer is no float, from this k on.
abbrev pub float_exponents : ℕ
float_exponents = 1024

-- The pause, or `none` where the product raises.
unfoldable pub claim_refusal_backoff : BackoffConfig → ℕ → ℕ → Option ℕ
claim_refusal_backoff config interval consecutive =
    let base = or_else config.base interval in
    if ltb (consecutive - 1) float_exponents
    then some (smaller (base * 2 ^ (consecutive - 1)) (or_else config.max base))
    else none

-- What `run_once` does: it returns whether it did work, or raises. The exception is the recorded
-- claim error (`self._claim_error is exc`) or not; a transport error is an `HTTPError` or an
-- `OSError`; anything else that it raises is not caught by the loop.
pub data Round : Type 0 where
  returned : Bool → Round
  gateway_refused : (at_claim : Bool) → (status : Option ℕ) → (kind : Option String) → Round
  transport_failed : (at_claim : Bool) → Round
  raised : Round

pub record Refusal : Type 0 where
  pub status : Option ℕ
  pub kind : Option String

pub record Daemon : Type 0 where
  pub consecutive : ℕ
  pub last_refusal : Option Refusal

-- The daemon goes on, with what it sleeps (`none` when it does not), or stops with the exception.
pub data Next : Type 0 where
  go_on : Daemon → Option ℕ → Next
  stop : Daemon → Next

abbrev pub is_credential_refusal : Option ℕ → Bool
is_credential_refusal none = false
is_credential_refusal (some status) = (status == 401) || (status == 403)

abbrev pub not_work : Bool → ℕ → Option ℕ
not_work true interval = none
not_work false interval = some interval

abbrev pub record_refusal : Daemon → Option ℕ → Option String → Daemon
record_refusal d status kind = record {
  consecutive = d.consecutive + 1;
  last_refusal = some (record { status = status; kind = kind });
}

-- The pause after a refusal. The exception of the backoff is not caught.
abbrev pub back_off : Daemon → Option ℕ → Next
back_off d none = stop d
back_off d (some t) = go_on d (some t)

-- One round of the loop of `run_forever`.
unfoldable pub round : BackoffConfig → ℕ → Daemon → Round → Next
round config interval d (returned did_work) =
    go_on (record d { consecutive = 0 }) (not_work did_work interval)
round config interval d (gateway_refused false status kind) = stop d
round config interval d (gateway_refused true status kind) =
    if is_credential_refusal status
    then stop d
    else back_off (record_refusal d status kind)
        (claim_refusal_backoff config interval (d.consecutive + 1))
round config interval d (transport_failed false) = stop d
round config interval d (transport_failed true) = go_on d (some interval)
round config interval d raised = stop d

-- The loop over the rounds that come: the daemon at its end, what it slept, and whether it was
-- stopped by an exception.
pub record Run : Type 0 where
  pub daemon : Daemon
  pub slept : List ℕ
  pub stopped : Bool

abbrev pub note : Option ℕ → Run → Run
note none r = r
note (some t) r = record r { slept = t ∷ r.slept }

abbrev pub then_loop : (Daemon → Run) → Next → Run
then_loop loop (go_on d pause) = note pause (loop d)
then_loop loop (stop d) = record { daemon = d; slept = []; stopped = true }

unfoldable pub run_forever : BackoffConfig → ℕ → Daemon → List Round → Run
run_forever config interval d [] = record { daemon = d; slept = []; stopped = false }
run_forever config interval d (r ∷ rounds) =
    then_loop (λ d'. run_forever config interval d' rounds) (round config interval d r)
