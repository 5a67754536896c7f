-- ===== src/Receipt/Tests.antt =====
-- The receipt of a concrete result.
use ormas_subnet.Common.{◌≡◌, ◌↔◌, none, some, [], true, pos, finite}
use ormas_subnet.Receipt.{SolveResult, build_receipt}
use ormas_subnet.Receipt.Laws.{IsMeasured, metering_complete_iff}

abbrev result : SolveResult
result = record {
  result_commit = "c";
  changed_paths = [];
  failure_class = none;
  provider = some "p";
  model = none;
  prompt_tokens = some (pos 10);
  completion_tokens = some (pos 3);
  cache_read_input_tokens = some (pos 0);
  cache_creation_input_tokens = some (pos 0);
  reasoning_tokens = some (pos 0);
  upstream_cost_usd = some (finite (pos 1) (pos 0));
  generation_ids = [];
}

metering_complete_iff_example :
    ((build_receipt "l1" result).metering_complete ≡ true)
    ↔ IsMeasured result (build_receipt "l1" result)
metering_complete_iff_example = metering_complete_iff "l1" result
