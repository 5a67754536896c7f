-- ===== src/Window/Programs.antt =====
-- Programs on the window of ormas_subnet/skeleton.py: they ask the gateway, change the state and
-- save it. What was asked and saved is kept, the last first.
use ormas_subnet.Common.{
  Bool, true, Exc, Option, String, List, [], ◌∷◌, ◌++◌, Value, Entries, Result, ok, err,
}
use ormas_subnet.Window.{Offers, put_bid, put_current}

-- The requests of the client, but the claim.
pub data Call : Type 0 where
  list_queue : Call
  get_offer withdraw_offer : String → Call
  submit_offer : Entries → Call

-- What a claim sends: offers, or the runner's price.
pub data Claim : Type 0 where
  with_offers : List Entries → Claim
  with_ask : Value → Claim

pub data Event : Type 0 where
  asked : Call → Event
  saved : Offers → Event
  claimed : Claim → Event

-- The fields of a lease that the window compares, and of the draft that comes with it.
pub record Lease : Type 0 where
  pub task_id : Value
  pub bid_id : Value
  pub offer_kind : Value
  pub outcome_price_usd : Value
  pub estimate_usd : Value
  pub limit_usd : Value
  pub draft_task_id : Value
  pub draft_runner_id : Value

pub data Saving : Type 0 where
  written : Saving
  not_written not_synced : Exc → Saving

-- The runner's settings, and the world: every answer may depend on all that happened before.
pub record World : Type 0 where
  pub runner_id : String
  pub ask_usd : Value
  pub has_offer_fn : Bool
  pub offer_fn : Value → Result Value
  pub reply : List Event → Call → Result Value
  pub claim_task : List Event → Claim → Result (Option Lease)
  pub save : List Event → Offers → Saving

-- The state in memory, what `_queue_unsupported` says, the offers refused as not for a window, and
-- what has happened.
pub record Memory : Type 0 where
  pub offers : Offers
  pub queue_unsupported : Bool
  pub legacy_offers : List Entries
  pub events : List Event

pub record Run (A : Type 0) : Type 0 where
  pub memory : Memory
  pub outcome : Result A

abbrev pub Program : Type 0 → Type 0
Program A = Memory → Run A

unfoldable pub carry_on : {A B : Type 0} → Memory → Result A → (A → Program B) → Run B
carry_on memory (err e) rest = record { memory = memory; outcome = err e }
carry_on memory (ok a) rest = rest a memory

infixl 5 ◌>>=◌ ◌>>◌
unfoldable pub ◌>>=◌ : {A B : Type 0} → Program A → (A → Program B) → Program B
(program >>= rest) memory = let run = program memory in carry_on run.memory run.outcome rest

unfoldable pub ◌>>◌ : {B : Type 0} → Program (Unit {0}) → Program B → Program B
(program >> rest) memory =
    let run = program memory in carry_on run.memory run.outcome (λ done. rest)

-- What does not touch the window.
abbrev pub lift : {A : Type 0} → Result A → Program A
lift r memory = record { memory = memory; outcome = r }

abbrev pub recall : {A : Type 0} → (Memory → A) → Program A
recall f memory = record { memory = memory; outcome = ok (f memory) }

abbrev pub update : (Memory → Memory) → Program (Unit {0})
update f memory = record { memory = f memory; outcome = ok tt }

-- What comes of a save: the record takes the place of the last one, or the exception leaves the last
-- one (`json.dumps`, the temporary file, `os.replace`), or comes after it was replaced.
abbrev pub after_save : Memory → Saving → Run (Unit {0})
after_save memory written = record {
  memory = record memory { events = saved memory.offers ∷ memory.events };
  outcome = ok tt;
}
after_save memory (not_written e) = record { memory = memory; outcome = err e }
after_save memory (not_synced e) = record {
  memory = record memory { events = saved memory.offers ∷ memory.events };
  outcome = err e;
}

abbrev pub set_pending : Value → Memory → Memory
set_pending v memory = record memory { offers = record memory.offers { pending = v } }

abbrev pub set_bid : String → Entries → Memory → Memory
set_bid id fields memory = record memory {
  offers = record memory.offers { bids = put_bid id fields memory.offers.bids };
}

abbrev pub set_current : String → String → Memory → Memory
set_current job id memory = record memory {
  offers = record memory.offers { current = put_current job id memory.offers.current };
}

abbrev pub add_legacy : Entries → Memory → Memory
add_legacy offer memory = record memory { legacy_offers = memory.legacy_offers ++ (offer ∷ []) }

abbrev pub set_unsupported : Memory → Memory
set_unsupported memory = record memory { queue_unsupported = true }

module _ (world : World) where
  -- `self._save_offers(state)`
  unfoldable pub save_offers : Program (Unit {0})
  save_offers memory = after_save memory (world.save memory.events memory.offers)

  abbrev pub ask : Call → Program (Result Value)
  ask call memory = record {
    memory = record memory { events = asked call ∷ memory.events };
    outcome = ok (world.reply memory.events call);
  }

  -- A request whose refusal is passed on.
  abbrev pub ask_for : Call → Program Value
  ask_for call memory = record {
    memory = record memory { events = asked call ∷ memory.events };
    outcome = world.reply memory.events call;
  }

  abbrev pub claim_with : Claim → Program (Option Lease)
  claim_with claim memory = record {
    memory = record memory { events = claimed claim ∷ memory.events };
    outcome = world.claim_task memory.events claim;
  }
