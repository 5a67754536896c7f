-- ===== src/Receipt/Laws.antt =====
-- A receipt is honest: it says that metering is complete only of a report that is.
use ormas_subnet.Common.{
  String, ◌≡◌, ◌≢◌, ◌↔◌, refl, true, Option, none, some, ℤ, Float, arith, eq_iff, is_some,
}
use ormas_subnet.Receipt.{
  SolveResult, TaskReceipt, build_receipt, or_zero, is_named, provider_or_unknown,
}

-- Every count and the cost were reported, and a provider was named; these are what `receipt` holds.
pub record IsMeasured (result : SolveResult) (receipt : TaskReceipt) : Type 0 where
  pub prompt : result.prompt_tokens ≡ some receipt.prompt_tokens
  pub completion : result.completion_tokens ≡ some receipt.completion_tokens
  pub cache_read : result.cache_read_input_tokens ≡ some receipt.cache_read_input_tokens
  pub cache_creation : result.cache_creation_input_tokens ≡ some receipt.cache_creation_input_tokens
  pub reasoning : result.reasoning_tokens ≡ some receipt.reasoning_tokens
  pub cost :
      (usd : Float) × (result.upstream_cost_usd ≡ some usd) × (receipt.upstream_cost_usd ≡ some usd)
  pub provider : result.provider ≡ some receipt.actual_provider
  pub named : receipt.actual_provider ≢ ""

known : (o : Option ℤ) → is_some o ≡ true → o ≡ some (or_zero o)
known none h = cc
known (some n) h = refl

named-provider :
    (o : Option String)
    → is_named o ≡ true
    → (o ≡ some (provider_or_unknown o)) × (provider_or_unknown o ≢ "")
named-provider none h = cc
named-provider (some s) h = ground (arith, eq_iff s "")

some-eq : (s t : String) → some s ≡ some t → s ≡ t
some-eq s t e = cc

provider-named :
    (o : Option String)
    → o ≡ some (provider_or_unknown o)
    → provider_or_unknown o ≢ ""
    → is_named o ≡ true
provider-named none h n = cc
provider-named (some s) h n = ground (arith, some-eq s (provider_or_unknown (some s)), eq_iff s "")

complete-IsMeasured :
    (lease_id : String) (result : SolveResult)
    → (build_receipt lease_id result).metering_complete ≡ true
    → IsMeasured result (build_receipt lease_id result)
unfolding build_receipt
complete-IsMeasured lease_id result h =
    let (p, n) = named-provider result.provider (ground arith) in
    record {
      prompt = known _ (ground arith);
      completion = known _ (ground arith);
      cache_read = known _ (ground arith);
      cache_creation = known _ (ground arith);
      reasoning = known _ (ground arith);
      cost = ground arith;
      provider = p;
      named = n;
    }

IsMeasured-complete :
    (lease_id : String) (result : SolveResult)
    → IsMeasured result (build_receipt lease_id result)
    → (build_receipt lease_id result).metering_complete ≡ true
unfolding build_receipt
IsMeasured-complete lease_id result m =
    ground (arith, provider-named result.provider m.provider m.named)

-- A receipt says that its metering is complete exactly when the solver reported every token
-- count, the cost and a nonempty provider, and the receipt holds what was reported.
pub metering_complete_iff :
    (lease_id : String) (result : SolveResult)
    → ((build_receipt lease_id result).metering_complete ≡ true)
      ↔ IsMeasured result (build_receipt lease_id result)
metering_complete_iff lease_id result =
    (complete-IsMeasured lease_id result, IsMeasured-complete lease_id result)
