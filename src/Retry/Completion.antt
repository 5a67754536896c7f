-- ===== src/Retry/Completion.antt =====
-- `_complete_with_retry` of ormas_subnet/skeleton.py. Times are ticks of one clock, read from 0 at
-- the start of the lease, of which `second` make a second: a time of the source is a float, and a
-- multiple of some tick. An attempt is the gateway's answer with the time that the call took.
pub mod Laws
use ormas_subnet.Common.{
  ℕ, zero, suc, ◌+◌, ◌*◌, String, Bool, true, false, ◌&&◌, not, Option, none, some, Value, leb, ltb,
  ◌==◌, str_eq, if◌then◌else◌,
}

-- What one call of `complete_task` does. `transport` is any other exception.
pub data Answer : Type 0 where
  accepted : Value → Answer
  refused : Option ℕ → Option String → Answer
  transport : Answer

pub record Attempt : Type 0 where
  pub answer : Answer
  pub took : ℕ

-- How the loop ends: with the response, with None and `cancelled` set, or with an exception.
pub data Ending : Type 0 where
  completed : Value → Ending
  lease_lost : Ending
  raised : Ending

pub record Outcome : Type 0 where
  pub ending : Ending
  pub attempts : ℕ
  pub at : ℕ

abbrev pub is_lease_lost : Option ℕ → Option String → Bool
is_lease_lost (some status) (some kind) = (status == 409) && str_eq kind "lease_lost"
is_lease_lost _ _ = false

abbrev pub is_terminal : Option ℕ → Bool
is_terminal none = false
is_terminal (some status) = leb 400 status && ltb status 500 && not (status == 409)

-- What an answer asks of the loop: an ending, or another attempt.
unfoldable pub verdict : Answer → Option Ending
verdict (accepted response) = some (completed response)
verdict (refused status kind) =
    if is_lease_lost status kind
    then some lease_lost
    else if is_terminal status
    then some raised
    else none
verdict transport = none

abbrev pub stop : Ending → ℕ → ℕ → Option Outcome
stop e n after = some (record { ending = e; attempts = n + 1; at = after })

-- The tests of the loop in order: an answer that ends it, no time for the pause, another attempt.
abbrev pub settle : Option Ending → Bool → ℕ → ℕ → Option Outcome → Option Outcome
settle (some e) late n after again = stop e n after
settle none true n after again = stop raised n after
settle none false n after again = again

-- `calls n` is the attempt after n others. The result is `none` when the fuel runs out. A sleep
-- that lasts longer than asked counts to the next call's time.
unfoldable pub retry : ℕ → (ℕ → Attempt) → ℕ → ℕ → ℕ → ℕ → Option Outcome
retry zero calls deadline n now backoff = none
retry (suc fuel) calls deadline n now backoff =
    let after = now + (calls n).took in
    let again = retry fuel calls deadline (n + 1) (after + backoff) (backoff * 2) in
    settle (verdict (calls n).answer) (leb deadline (after + backoff)) n after again

-- `max(1.0, heartbeat_interval_s)`
abbrev pub first_backoff : ℕ → ℕ → ℕ
first_backoff second heartbeat_interval =
    if leb heartbeat_interval second then second else heartbeat_interval

-- The whole call: the deadline is the lease's time to live, after `start` = 0.
unfoldable pub complete_with_retry : ℕ → (ℕ → Attempt) → ℕ → ℕ → ℕ → Option Outcome
complete_with_retry second calls lease_ttl heartbeat_interval now =
    retry (suc lease_ttl) calls lease_ttl 0 now (first_backoff second heartbeat_interval)
