-- ===== src/Retry/Heartbeat.antt =====
-- `_heartbeat_loop` of ormas_subnet/skeleton.py: the thread that renews the lease of a task.
pub mod Laws
use ormas_subnet.Common.{
  ℕ, ◌+◌, ◌&&◌, ◌||◌, Bool, true, false, String, Option, none, some, List, [], ◌∷◌, ◌==◌,
  if◌then◌else◌,
}
use text.Mathlib.Text.{◌==◌ as str_eq}

-- What `client.heartbeat_task` does: it returns, or it raises a gateway error or another exception.
pub data Renewal : Type 0 where
  renewed : Renewal
  refused : (status : Option ℕ) → (kind : Option String) → Renewal
  failed : Renewal

-- What `stop.wait(wait_s)` does: the flag is set, or the time passes and the renewal is sent.
pub data Tick : Type 0 where
  stop_set : Tick
  elapsed : Renewal → Tick

pub record Keeper : Type 0 where
  pub renewals : ℕ
  pub consecutive_failures : ℕ
  pub wait : ℕ
  pub cancelled : Bool

abbrev pub is_status : ℕ → Option ℕ → Bool
is_status n none = false
is_status n (some m) = m == n

abbrev pub is_kind : String → Option String → Bool
is_kind k none = false
is_kind k (some s) = str_eq s k

-- `exc.status_code == 409 and exc.error_type == "lease_lost"`
abbrev pub is_lease_lost : Option ℕ → Option String → Bool
is_lease_lost status kind = is_status 409 status && is_kind "lease_lost" kind

-- A failure that is not the loss of the lease.
abbrev pub miss : ℕ → Keeper → Keeper
miss interval k = record k {
  consecutive_failures = k.consecutive_failures + 1;
  wait = if (k.consecutive_failures + 1) == 1 then 0 else interval;
}

abbrev pub count_renewal : ℕ → Keeper → Keeper
count_renewal interval k = record k {
  renewals = k.renewals + 1;
  consecutive_failures = 0;
  wait = interval;
}

-- `interval = max(1.0, heartbeat_interval_s)`
abbrev pub at_least_one : ℕ → ℕ
at_least_one n = if n == 0 then 1 else n

abbrev pub start : ℕ → Keeper
start interval = record {
  renewals = 0;
  consecutive_failures = 0;
  wait = interval;
  cancelled = false;
}

-- What the thread did: the keeper at its end, the waits it made, whether it has returned.
pub record Trace : Type 0 where
  pub keeper : Keeper
  pub waits : List ℕ
  pub returned : Bool

abbrev pub waited : ℕ → Trace → Trace
waited w t = record t { waits = w ∷ t.waits }

abbrev pub lose : Keeper → Keeper
lose k = record k { cancelled = true }

-- The `while` over what comes at each wait.
unfoldable pub keep : ℕ → Keeper → List Tick → Trace
keep interval k [] = record { keeper = k; waits = []; returned = false }
keep interval k (stop_set ∷ ticks) = record { keeper = k; waits = k.wait ∷ []; returned = true }
keep interval k (elapsed renewed ∷ ticks) =
    waited k.wait (keep interval (count_renewal interval k) ticks)
keep interval k (elapsed failed ∷ ticks) = waited k.wait (keep interval (miss interval k) ticks)
keep interval k (elapsed (refused status kind) ∷ ticks) =
    let rest = keep interval (miss interval k) ticks in
    if is_lease_lost status kind
    then record { keeper = lose k; waits = k.wait ∷ []; returned = true }
    else waited k.wait rest

unfoldable pub heartbeat_loop : ℕ → List Tick → Trace
heartbeat_loop config_interval ticks =
    keep (at_least_one config_interval) (start (at_least_one config_interval)) ticks
