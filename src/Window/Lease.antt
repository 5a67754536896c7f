-- ===== src/Window/Lease.antt =====
-- `_check_offer_lease` of ormas_subnet/skeleton.py: a lease is taken on the frozen terms of an own
-- bid.
pub mod Terms
pub mod Frozen
use ormas_subnet.Common.{
  Bool, true, false, not, ◌&&◌, ◌||◌, Option, none, some, is_some, String, List, [], ◌∷◌, Value,
  null, boolean, str, float, arr, obj, Entries, end, entry, get, get_or_null, truthy, is_text, says,
  value_eq, Exc, type_error, recovery_required, Result, ok, err, guard, if◌then◌else◌, index,
  require_key,
}
use ormas_subnet.Offers.{as_float}
use ormas_subnet.Recovery.{hashable}
use ormas_subnet.Window.{Bid, find_bid}
use ormas_subnet.Window.Programs.{
  World, Memory, Program, Lease, lift, recall, update, save_offers, set_bid, set_current, ◌>>=◌,
  ◌>>◌,
}
use ormas_subnet.Window.Bids.{read_bid, field_of, id_of}

-- `next((offer for offer in legacy_offers if offer["job_id"] == lease.task_id), None)`
abbrev pub offer_for : Value → List Entries → Option Entries
offer_for job [] = none
offer_for job (offer ∷ offers) =
    if value_eq (get_or_null "job_id" offer) job then some offer else offer_for job offers

-- `terms.get("price_usd", terms.get("limit_usd"))`
abbrev pub price_of : Value → Value
price_of (obj terms) =
    if is_some (get "price_usd" terms)
    then get_or_null "price_usd" terms
    else get_or_null "limit_usd" terms
price_of _ = null

-- `float(terms[k]) if terms["kind"] == "limit" else None`
abbrev pub limit_amount : String → Value → Value
limit_amount k terms =
    if says "limit" (field_of "kind" terms) then float (as_float (field_of k terms)) else null

-- The lease is for the job, on the kind and at the amounts of the terms.
unfoldable pub is_frozen : String → Lease → Value → Bool
is_frozen runner_id lease terms =
    value_eq lease.task_id (field_of "job_id" terms)
    && value_eq lease.draft_task_id (field_of "job_id" terms)
    && says runner_id lease.draft_runner_id
    && value_eq lease.offer_kind (field_of "kind" terms)
    && value_eq lease.outcome_price_usd (float (as_float (price_of terms)))
    && value_eq lease.estimate_usd (limit_amount "estimate_usd" terms)
    && value_eq lease.limit_usd (limit_amount "limit_usd" terms)

-- The bid that a lease of an offer outside of the window becomes.
abbrev pub legacy_bid : Entries → Entries
legacy_bid terms =
    entry "terms" (obj terms) (entry "status" (str "awarded") (entry "legacy" (boolean true) end))

-- A bid, and whether it was made for this lease.
pub record Backing : Type 0 where
  pub bid : Entries
  pub is_new : Bool

abbrev pub frozen_error : Exc
frozen_error = recovery_required "lease award bid identity or frozen terms mismatch"

abbrev pub known_bid : Value → Memory → Result Bool
known_bid (str id) memory = ok (is_some (find_bid id memory.offers.bids))
known_bid v memory = if hashable v then ok false else err type_error

module _ (world : World) where
  abbrev pub back_with : Option Entries → Program Backing
  back_with none = lift (err (recovery_required "lease has unknown own award bid"))
  back_with (some terms) = lift (ok (record { bid = legacy_bid terms; is_new = true }))

  abbrev pub back_known : Value → Program Backing
  back_known id = do bid ← read_bid world id; lift (ok (record { bid = bid; is_new = false }))

  unfoldable pub backing_of : Lease → List Entries → Program Backing
  backing_of lease legacy_offers = do
    known ← recall (known_bid lease.bid_id)
    is_known ← lift known
    if is_known then back_known lease.bid_id else back_with (offer_for lease.task_id legacy_offers)

  -- A bid that is new is kept under the id that the lease gives it.
  unfoldable pub keep_bid : Lease → Backing → Program (Unit {0})
  keep_bid lease backing =
      if backing.is_new
      then (do
        lift (
            guard (is_text lease.bid_id)
              (recovery_required "legacy offer lease has no bid identity"))
        update (set_bid (id_of lease.bid_id) backing.bid)
        update (set_current (id_of lease.task_id) (id_of lease.bid_id))
        save_offers world)
      else lift (ok tt)

  unfoldable pub check_lease : Lease → List Entries → Program (Option Lease)
  check_lease lease legacy_offers = do
    backing ← backing_of lease legacy_offers
    terms ← lift (index "terms" (obj backing.bid))
    status ← lift (require_key "status" backing.bid)
    lift (guard (says "awarded" status && is_frozen world.runner_id lease terms) frozen_error)
    keep_bid lease backing
    lift (ok (some lease))

  -- `_check_offer_lease`
  abbrev pub check_offer_lease : Option Lease → List Entries → Program (Option Lease)
  check_offer_lease none legacy_offers = lift (ok none)
  check_offer_lease (some lease) legacy_offers = check_lease lease legacy_offers
