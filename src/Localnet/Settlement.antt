-- ===== src/Localnet/Settlement.antt =====
-- `_derive_settlement` and `_handle_complete` of ormas_subnet/localnet.py.
pub mod Laws
use ormas_subnet.Common.{
  truthy, require_key, index, method_get, Bool, true, false, ◌||◌, not, String, List, [], ◌∷◌, ◌++◌,
  Option, none, some, ℕ, suc, ◌==◌, pos, Float, finite, Value, null, boolean, int, float, str, arr,
  obj, nil, cons, Entries, end, entry, items, get, get_or_null, Exc, key_error, type_error,
  attribute_error, assertion_error, Result, ok, err, ◌>>=◌, ◌>>◌, guard, str_eq, len, length,
  if◌then◌else◌,
}
use ormas_subnet.Localnet.{
  Seed, Receipt, Recorded, Gateway, Reply, settled, Response, Step, answers, raises,
}

pub record Outcome : Type 0 where
  pub settlement : String
  pub failure_class : Value

abbrev pub no_delivery : Value → Outcome
no_delivery failure = record { settlement = "no_delivery"; failure_class = failure }

-- `isinstance(result_commit, str) and len(result_commit) == 40`
abbrev pub valid_commit : Value → Bool
valid_commit (str s) = len s == 40
valid_commit _ = false

-- `a or b`
abbrev pub or_value : Value → Value → Value
or_value a b = if truthy a then a else b

-- The last argument is `capture.get("failure_class")`.
unfoldable pub derive_settlement : String → Value → Value → Value → Outcome
derive_settlement state scope_ok result_commit failure_class =
    if str_eq state "verified"
    then (if not (truthy scope_ok)
        then no_delivery (str "scope_violation")
        else if not (valid_commit result_commit)
        then no_delivery (str "publish_failed")
        else record { settlement = "paid"; failure_class = null })
    else no_delivery (or_value failure_class (str state))

-- `state in {"verified", "failed"}` under an `assert`
abbrev pub known_state : Value → Result String
known_state (str s) = if str_eq s "verified" || str_eq s "failed" then ok s else err assertion_error
known_state (arr vs) = err type_error
known_state (obj es) = err type_error
known_state _ = err assertion_error

abbrev pub is_runner_v1 : Value → Bool
is_runner_v1 (str s) = str_eq s "ormas-runner-v1"
is_runner_v1 _ = false

-- What the handler reads before it sets `self.completed`.
pub record Completion : Type 0 where
  pub receipt : Value
  pub terminal : Value
  pub state : String

unfoldable pub read_completion : Entries → Result Completion
read_completion body = do
  receipt ← require_key "receipt" body
  version ← index "schema_version" receipt
  guard (is_runner_v1 version) assertion_error
  terminal ← require_key "terminal" body
  raw ← index "verification_state" terminal
  state ← known_state raw
  ok (record { receipt = receipt; terminal = terminal; state = state })

-- `[entry.get("path") for entry in paths]`
abbrev pub paths_of : List Value → Result (List Value)
paths_of [] = ok []
paths_of (v ∷ vs) = do p ← method_get "path" v; ps ← paths_of vs; ok (p ∷ ps)

-- The same, for a value that is absent or of another type.
abbrev pub changed_paths : Option Value → Result (List Value)
changed_paths none = ok []
changed_paths (some (arr vs)) = paths_of (items vs)
changed_paths (some (str s)) = if str_eq s "" then ok [] else err attribute_error
changed_paths (some (obj end)) = ok []
changed_paths (some (obj (entry k v es))) = err attribute_error
changed_paths (some _) = err type_error

-- `body.get("capture") or {}`, which must then be a dictionary.
abbrev pub capture_of : Value → Result Entries
capture_of (obj es) = ok es
capture_of v = if truthy v then err attribute_error else ok end

abbrev pub is_paid : Outcome → Bool
is_paid o = str_eq o.settlement "paid"

abbrev pub make_receipt : Seed → ℕ → Outcome → Value → Receipt
make_receipt seed n o upstream = record {
  number = suc n;
  settlement = o.settlement;
  failure_class = o.failure_class;
  customer_billed_usd = if is_paid o then seed.outcome_price_usd else finite (pos 0) (pos 0);
  debit_status = if is_paid o then "delivered" else "none";
  upstream_cost_usd = upstream;
}

abbrev pub outcome_of : Completion → Entries → Value → Outcome
outcome_of c capture commit =
    derive_settlement c.state (get_or_null "scope_ok" capture) commit
      (get_or_null "failure_class" capture)

unfoldable pub settle_completion : Seed → ℕ → Entries → Completion → Result Recorded
settle_completion seed n body c = do
  capture ← capture_of (get_or_null "capture" body)
  commit ← method_get "result_commit" c.terminal
  upstream ← method_get "upstream_cost_usd" c.receipt
  ref ← method_get "result_ref" c.terminal
  changed ← changed_paths (get "changed_paths" capture)
  ok (record {
    verification_state = c.state;
    scope_ok = get_or_null "scope_ok" capture;
    result_commit = commit;
    result_ref = ref;
    changed_paths = changed;
    receipt = make_receipt seed n (outcome_of c capture commit) upstream;
  })

abbrev pub record_completion : Gateway → Result Recorded → Step
record_completion g (err e) = raises g e
record_completion g (ok r) =
    answers (record g { receipts = g.receipts ++ (r ∷ []) }) 200
      (settled (if str_eq r.receipt.settlement "paid" then "done" else "failed") r.receipt)

abbrev pub complete_read : Seed → Gateway → Entries → Result Completion → Step
complete_read seed g body (err e) = raises g e
complete_read seed g body (ok c) =
    record_completion (record g { completed = some body })
      (settle_completion seed (length g.receipts) body c)

unfoldable pub handle_complete : Seed → Gateway → Entries → Step
handle_complete seed g body = complete_read seed g body (read_completion body)
