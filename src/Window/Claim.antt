-- ===== src/Window/Claim.antt =====
-- `_claim_offer_window` of ormas_subnet/skeleton.py: an offer for each job of the queue that wants
-- one, then the claim.
pub mod Steps
pub mod Intent
pub mod Awarded
mod Tests
use ormas_subnet.Common.{
  ℕ, leb, ltb, Bool, true, false, not, ◌&&◌, ◌||◌, ◌==◌, Option, none, some, is_some, String, List,
  [], ◌∷◌, map, Value, null, boolean, str, arr, obj, Entries, end, entry, keys, items, get,
  get_or_null, truthy, is_text, says, value_eq, str_eq, Exc, value_error, type_error,
  recovery_required, gateway_error, attribute_error, put, require_key, Result, ok, err, guard,
  if◌then◌else◌, index, method_get,
}
use ormas_subnet.Validator.Review.{characters}
use ormas_subnet.Offers.{positive_usd, validate_window_offer}
use ormas_subnet.Recovery.{hashable}
use ormas_subnet.Window.{Bid, Offers, File, find_bid, find_current, offer_state}
use ormas_subnet.Window.Programs.{
  World, Memory, Run, Program, Lease, list_queue, submit_offer, withdraw_offer, with_offers,
  with_ask, lift, recall, update, save_offers, set_pending, set_bid, set_current, add_legacy,
  set_unsupported, ask, claim_with, ◌>>=◌, ◌>>◌,
}
use ormas_subnet.Window.Bids.{read_bid, offer_conflict, field_of, is_legacy, says_status, id_of}
use ormas_subnet.Window.Lease.{check_offer_lease}
use ormas_subnet.Window.Place.{
  is_unsupported, no_bids, standing_of, done, missing_pricing, check_award, bid_for,
}

-- `queue.get("jobs", [])`, as a loop takes it
abbrev pub iterated : Value → Result (List Value)
iterated (arr vs) = ok (items vs)
iterated (str s) = ok (characters s)
iterated (obj es) = ok (map str (keys es))
iterated _ = err type_error

abbrev pub jobs_under : Option Value → Result (List Value)
jobs_under none = ok []
jobs_under (some v) = iterated v

abbrev pub jobs_of : Value → Result (List Value)
jobs_of (obj queue) = jobs_under (get "jobs" queue)
jobs_of _ = err attribute_error

module _ (world : World) where
  -- One row of the queue.
  unfoldable pub process_entry : Value → Program (Unit {0})
  process_entry row = do
    job ← lift (index "job_id" row)
    found ← recall (standing_of job)
    standing ← lift found
    if truthy (field_of "awarded_to_you" row)
        then check_award world job row
        else bid_for world job row standing

  unfoldable pub process_entries : List Value → Program (Unit {0})
  process_entries [] = done
  process_entries (row ∷ entries) = do process_entry row; process_entries entries

  abbrev pub pricing_error : Exc
  pricing_error = value_error "offer-window pricing requires a positive ask_usd or offer_fn"

  -- The offers that were refused as not for a window are claimed with at last.
  abbrev pub claim_legacy : List Entries → Program (Option Lease)
  claim_legacy [] = lift (ok none)
  claim_legacy (offer ∷ offers) = do
    claimed ← claim_with world (with_offers (offer ∷ offers))
    check_offer_lease world claimed (offer ∷ offers)

  abbrev pub claim_priced : Option Lease → Program (Option Lease)
  claim_priced (some lease) = check_offer_lease world (some lease) []
  claim_priced none =
      if missing_pricing world
      then lift (err pricing_error)
      else (do offers ← recall (λ memory. memory.legacy_offers); claim_legacy offers)

  -- From the queue on.
  unfoldable pub claim_after : List Value → Program (Option Lease)
  claim_after entries = do
    process_entries entries
    unbid ← recall (λ memory. no_bids memory.offers.bids)
    lift (guard (not (missing_pricing world && unbid)) pricing_error)
    claimed ← claim_with world (with_offers [])
    claim_priced claimed

  -- Without a queue there are no windows, and the claim is at the runner's price.
  unfoldable pub claim_without_queue : Program (Option Lease)
  claim_without_queue = do
    unbid ← recall (λ memory. no_bids memory.offers.bids)
    lift (guard unbid (recovery_required "own offer bids require gateway queue support"))
    update set_unsupported
    claim_with world (with_ask world.ask_usd)

  abbrev pub claim_queued : Result Value → Program (Option Lease)
  claim_queued (err e) = if is_unsupported e then claim_without_queue else lift (err e)
  claim_queued (ok queue) = do entries ← lift (jobs_of queue); claim_after entries

  abbrev pub claim_window : Program (Option Lease)
  claim_window = do
    unsupported ← recall (λ memory. memory.queue_unsupported)
    if unsupported
        then claim_without_queue
        else (do queue ← ask world list_queue; claim_queued queue)

  abbrev pub start : Offers → Bool → Memory
  start offers unsupported = record {
    offers = offers;
    queue_unsupported = unsupported;
    legacy_offers = [];
    events = [];
  }

  abbrev pub run_window : Result Offers → Bool → Run (Option Lease)
  run_window (err e) unsupported = record {
    memory = start (record { bids = []; current = []; pending = null }) unsupported;
    outcome = err e;
  }
  run_window (ok offers) unsupported = claim_window (start offers unsupported)

  -- `_claim_offer_window`, from what stands on disk
  unfoldable pub claim_offer_window : String → File → Bool → Run (Option Lease)
  claim_offer_window gateway file unsupported =
      run_window (offer_state gateway world.runner_id file) unsupported
