-- ===== src/Receipt.antt =====
-- `_build_receipt` and `SolveResult` of ormas_subnet/skeleton.py: the receipt of what a solver
-- reported. A token count is an `int`, None being unknown.
pub mod Laws
mod Tests
use ormas_subnet.Common.{
  ℕ, String, Bool, true, false, ◌&&◌, not, Option, none, some, List, ℤ, pos, Float, str_eq, is_some,
  if◌then◌else◌,
}

-- The fields of `SolveResult` that the skeleton reads.
pub record SolveResult : Type 0 where
  pub result_commit : String
  pub changed_paths : List String
  pub failure_class : Option String
  pub provider : Option String
  pub model : Option String
  pub prompt_tokens : Option ℤ
  pub completion_tokens : Option ℤ
  pub cache_read_input_tokens : Option ℤ
  pub cache_creation_input_tokens : Option ℤ
  pub reasoning_tokens : Option ℤ
  pub upstream_cost_usd : Option Float
  pub generation_ids : List String

-- `TaskReceipt` of ormas_subnet/protocol.py, without `child_model_ids`, which stays ().
pub record TaskReceipt : Type 0 where
  pub lease_id : String
  pub generation_ids : List String
  pub actual_provider : String
  pub model : Option String
  pub prompt_tokens : ℤ
  pub completion_tokens : ℤ
  pub cache_read_input_tokens : ℤ
  pub cache_creation_input_tokens : ℤ
  pub reasoning_tokens : ℤ
  pub upstream_cost_usd : Option Float
  pub finish_reason : Option String
  pub metering_complete : Bool

-- `tokens[name] or 0`
abbrev pub or_zero : Option ℤ → ℤ
or_zero none = pos 0
or_zero (some n) = n

-- `bool(text)`
abbrev pub is_named : Option String → Bool
is_named none = false
is_named (some s) = not (str_eq s "")

unfoldable pub metering_complete : SolveResult → Bool
metering_complete result =
    is_some result.prompt_tokens
    && is_some result.completion_tokens
    && is_some result.cache_read_input_tokens
    && is_some result.cache_creation_input_tokens
    && is_some result.reasoning_tokens
    && is_some result.upstream_cost_usd
    && is_named result.provider

abbrev pub provider_or_unknown : Option String → String
provider_or_unknown none = "unknown"
provider_or_unknown (some s) = if str_eq s "" then "unknown" else s

abbrev pub named_model : Option String → Option String
named_model none = none
named_model (some s) = if str_eq s "" then none else some s

unfoldable pub build_receipt : String → SolveResult → TaskReceipt
unfolding metering_complete
build_receipt lease_id result = record {
  lease_id = lease_id;
  generation_ids = result.generation_ids;
  actual_provider = provider_or_unknown result.provider;
  model = named_model result.model;
  prompt_tokens = or_zero result.prompt_tokens;
  completion_tokens = or_zero result.completion_tokens;
  cache_read_input_tokens = or_zero result.cache_read_input_tokens;
  cache_creation_input_tokens = or_zero result.cache_creation_input_tokens;
  reasoning_tokens = or_zero result.reasoning_tokens;
  upstream_cost_usd = result.upstream_cost_usd;
  finish_reason = if metering_complete result then some "stop" else none;
  metering_complete = metering_complete result;
}
