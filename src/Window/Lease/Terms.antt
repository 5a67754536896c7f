-- ===== src/Window/Lease/Terms.antt =====
-- What a lease of ormas_subnet/skeleton.py has to say for the terms of the bid that it is checked
-- against.
use ormas_subnet.Common.{
  ◌≡◌, refl, true, false, and-eq-true, Bool, none, some, String, Value, null, float, obj, Entries,
  get, get_or_null, says, value_eq, if◌then◌else◌, sym,
}
use ormas_subnet.Offers.{as_float}
use ormas_subnet.Window.Programs.{Lease}
use ormas_subnet.Window.Bids.{field_of}
use ormas_subnet.Window.Lease.{price_of, limit_amount, is_frozen}

-- The lease and its draft are for the job of the terms and for the runner, of the kind of the terms.
-- Its price is the price of the terms, or their limit where they have no price; and it has the
-- estimate and the limit of terms of the kind "limit", and none for other terms.
pub record IsFrozen (runner_id : String) (lease : Lease) (terms : Value) : Type 0 where
  pub job : value_eq lease.task_id (field_of "job_id" terms) ≡ true
  pub draft_job : value_eq lease.draft_task_id (field_of "job_id" terms) ≡ true
  pub runner : says runner_id lease.draft_runner_id ≡ true
  pub kind : value_eq lease.offer_kind (field_of "kind" terms) ≡ true
  pub price :
      (es : Entries) (p : Value)
      → terms ≡ obj es
      → get "price_usd" es ≡ some p
      → value_eq lease.outcome_price_usd (float (as_float p)) ≡ true
  pub price_of_limit :
      (es : Entries)
      → terms ≡ obj es
      → get "price_usd" es ≡ none
      → value_eq lease.outcome_price_usd (float (as_float (get_or_null "limit_usd" es))) ≡ true
  pub limited :
      says "limit" (field_of "kind" terms) ≡ true
      → (value_eq lease.estimate_usd (float (as_float (field_of "estimate_usd" terms))) ≡ true)
        × (value_eq lease.limit_usd (float (as_float (field_of "limit_usd" terms))) ≡ true)
  pub unlimited :
      says "limit" (field_of "kind" terms) ≡ false
      → (value_eq lease.estimate_usd null ≡ true) × (value_eq lease.limit_usd null ≡ true)

price_is :
    (amount terms : Value) (es : Entries) (p : Value)
    → value_eq amount (float (as_float (price_of terms))) ≡ true
    → terms ≡ obj es
    → get "price_usd" es ≡ some p
    → value_eq amount (float (as_float p)) ≡ true
price_is amount terms es p h t e =
    let same : price_of terms ≡ p = rw (t, get_or_null, e) refl in rw same at h

limit_is :
    (amount terms : Value) (es : Entries)
    → value_eq amount (float (as_float (price_of terms))) ≡ true
    → terms ≡ obj es
    → get "price_usd" es ≡ none
    → value_eq amount (float (as_float (get_or_null "limit_usd" es))) ≡ true
limit_is amount terms es h t e =
    let same : price_of terms ≡ get_or_null "limit_usd" es = rw (t, e) refl in rw same at h

amount_is :
    (k : String) (amount terms : Value) (b : Bool)
    → value_eq amount (limit_amount k terms) ≡ true
    → says "limit" (field_of "kind" terms) ≡ b
    → value_eq amount (if b then float (as_float (field_of k terms)) else null) ≡ true
amount_is k amount terms b h e = rw (sym e) h

pub is_frozen-IsFrozen :
    (runner_id : String) (lease : Lease) (terms : Value)
    → is_frozen runner_id lease terms ≡ true
    → IsFrozen runner_id lease terms
unfolding is_frozen
is_frozen-IsFrozen runner_id lease terms h =
    let (six, limit) = and-eq-true _ _ h in
    let (five, estimate) = and-eq-true _ _ six in
    let (four, price) = and-eq-true _ _ five in
    let (three, kind) = and-eq-true _ _ four in
    let (two, runner) = and-eq-true _ _ three in
    let (job, draft_job) = and-eq-true _ _ two in
    record {
      job = job;
      draft_job = draft_job;
      runner = runner;
      kind = kind;
      price = λ es p t e. price_is lease.outcome_price_usd terms es p price t e;
      price_of_limit = λ es t e. limit_is lease.outcome_price_usd terms es price t e;
      limited = λ e. (
        amount_is "estimate_usd" lease.estimate_usd terms true estimate e,
        amount_is "limit_usd" lease.limit_usd terms true limit e,
      );
      unlimited = λ e. (
        amount_is "estimate_usd" lease.estimate_usd terms false estimate e,
        amount_is "limit_usd" lease.limit_usd terms false limit e,
      );
    }
