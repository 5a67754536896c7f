-- ===== src/Localnet.antt =====
-- The in-process gateway of ormas_subnet/localnet.py: its state, and each request as a step.
pub mod Settlement
pub mod Requests
mod Tests
use ormas_subnet.Common.{
  Bool, true, false, not, String, List, [], ◌∷◌, Option, none, some, ℕ, ◌==◌, ℤ, pos, negsuc, Float,
  nan, inf, finite, float_eq, Value, null, boolean, int, float, str, arr, obj, nil, cons, Entries,
  end, entry, items, get, get_or_null, Exc, key_error, type_error, attribute_error, Result, ok, err,
  int_eq, str_eq, if◌then◌else◌,
}

-- The attributes that the constructor sets for good.
pub record Seed : Type 0 where
  pub task_id : String
  pub base_commit : String
  pub verify_command : String
  pub repo_url : String
  pub brief : String
  pub allowed_paths : List String
  pub budget_usd : Float
  pub outcome_price_usd : Float
  pub repo_id : String

-- The part of a receipt that the reply and the record share; `number` is the n of
-- "local_rcpt_n".
pub record Receipt : Type 0 where
  pub number : ℕ
  pub settlement : String
  pub failure_class : Value
  pub customer_billed_usd : Float
  pub debit_status : String
  pub upstream_cost_usd : Value

pub record Recorded : Type 0 where
  pub verification_state : String
  pub scope_ok : Value
  pub result_commit : Value
  pub result_ref : Value
  pub changed_paths : List Value
  pub receipt : Receipt

pub record Gateway : Type 0 where
  pub registered : Option Entries
  pub bound : Option Entries
  pub claims : List Entries
  pub claimed : Bool
  pub heartbeats : List Entries
  pub completed : Option Entries
  pub receipts : List Recorded

abbrev pub fresh : Gateway
fresh = record {
  registered = none;
  bound = none;
  claims = [];
  claimed = false;
  heartbeats = [];
  completed = none;
  receipts = [];
}

-- `LocalResponse`: a JSON body, the answer to a completion, or no body.
pub data Reply : Type 0 where
  no_body : Reply
  json : Entries → Reply
  settled : (status : String) → Receipt → Reply

pub record Response : Type 0 where
  pub status_code : ℕ
  pub body : Reply

-- The gateway after a request, and its response or what it raised.
pub record Step : Type 0 where
  pub gateway : Gateway
  pub response : Result Response

abbrev pub answers : Gateway → ℕ → Reply → Step
answers g n r = record { gateway = g; response = ok (record { status_code = n; body = r }) }

abbrev pub raises : Gateway → Exc → Step
raises g e = record { gateway = g; response = err e }
