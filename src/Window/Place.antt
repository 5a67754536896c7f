-- ===== src/Window/Place.antt =====
-- What `_claim_offer_window` of ormas_subnet/skeleton.py does for one job of the queue.
use ormas_subnet.Common.{
  leb, Bool, true, false, not, ◌&&◌, Option, none, some, is_some, String, List, [], ◌∷◌, Value,
  null, str, obj, Entries, end, entry, get_or_null, is_text, says, value_eq, Exc, value_error,
  type_error, recovery_required, gateway_error, put, require_key, Result, ok, err, guard,
  if◌then◌else◌, index, method_get,
}
use ormas_subnet.Offers.{positive_usd, validate_window_offer}
use ormas_subnet.Recovery.{hashable}
use ormas_subnet.Window.{Bid, find_bid, find_current}
use ormas_subnet.Window.Programs.{
  World, Memory, Program, submit_offer, withdraw_offer, lift, recall, update, save_offers,
  set_pending, set_bid, set_current, add_legacy, ask, ◌>>=◌, ◌>>◌,
}
use ormas_subnet.Window.Bids.{read_bid, offer_conflict, field_of, is_legacy, says_status, id_of}

-- A refusal after which the gateway may have recorded the offer all the same.
abbrev pub is_unknown : Exc → Bool
is_unknown (gateway_error none kind message) = true
is_unknown (gateway_error (some status) kind message) = leb 500 status
is_unknown _ = true

-- The queue is not there: 404 without a type of error.
abbrev pub is_unsupported : Exc → Bool
is_unsupported (gateway_error status none message) = says_status status 404
is_unsupported _ = false

abbrev pub no_bids : List Bid → Bool
no_bids [] = true
no_bids (b ∷ bids) = false

-- The job's current bid: its id, and the bid where it is kept.
pub record Standing : Type 0 where
  pub bid_id : String
  pub bid : Option Entries

abbrev pub standing_under : Option String → List Bid → Standing
standing_under none bids = record { bid_id = ""; bid = none }
standing_under (some id) bids = record { bid_id = id; bid = find_bid id bids }

abbrev pub standing_of : Value → Memory → Result Standing
standing_of (str job) memory =
    ok (standing_under (find_current job memory.offers.current) memory.offers.bids)
standing_of v memory =
    if hashable v then ok (record { bid_id = ""; bid = none }) else err type_error

-- `bid is not None and not bid.get("legacy")`
abbrev pub in_window : Option Entries → Bool
in_window none = false
in_window (some bid) = not (is_legacy bid)

abbrev pub bid_says : String → Option Entries → Bool
bid_says s none = false
bid_says s (some bid) = says s (get_or_null "status" bid)

abbrev pub has_terms : Value → Option Entries → Bool
has_terms offer none = false
has_terms offer (some bid) = value_eq (get_or_null "terms" bid) offer

abbrev pub offer_entries : Value → Entries
offer_entries (obj es) = es
offer_entries _ = end

-- The identity of a new bid: a name that is new, and when its window closes.
abbrev pub is_new_bid : Value → Memory → Bool
is_new_bid response memory =
    is_text (field_of "bid_id" response)
    && not (is_some (find_bid (id_of (field_of "bid_id" response)) memory.offers.bids))
    && is_text (field_of "window_closes_at" response)

abbrev pub new_bid : Value → Value → Entries
new_bid offer response = entry "terms" offer (
    entry "status" (str "open")
      (entry "window_closes_at" (field_of "window_closes_at" response) end))

abbrev pub withdrawn : String → Value
withdrawn id = obj (entry "bid_id" (str id) (entry "status" (str "withdrawn") end))

abbrev pub done : Program (Unit {0})
done = lift (ok tt)

module _ (world : World) where
  abbrev pub missing_pricing : Bool
  missing_pricing = not world.has_offer_fn && not (positive_usd world.ask_usd)

  -- An row that says that the job was awarded to this runner.
  unfoldable pub check_award : Value → Value → Program (Unit {0})
  check_award job row = do
    awarded ← read_bid world (field_of "bid_id" row)
    named ← lift (index "terms" (obj awarded))
    status ← lift (require_key "status" awarded)
    lift (
        guard
          (value_eq (field_of "job_id" named) job
            && says "awarded" status
            && value_eq (get_or_null "award_id" awarded) (field_of "award_id" row))
          (recovery_required "queue award bid identity mismatch"))

  abbrev pub reread : String → Program (Unit {0})
  reread id = do bid ← read_bid world (str id); done

  -- The answer on a withdrawal.
  abbrev pub withdrawal : String → Entries → Result Value → Program (Unit {0})
  withdrawal id bid (err e) = if offer_conflict e "not_open" then reread id else lift (err e)
  withdrawal id bid (ok response) = do
    lift (guard (value_eq response (withdrawn id)) (recovery_required "invalid own bid withdrawal"))
    update (set_bid id (put "status" (str "withdrawn") bid))
    save_offers world

  -- No offer: a bid that is open is withdrawn.
  abbrev pub withdraw : String → Option Entries → Program (Unit {0})
  withdraw id none = done
  withdraw id (some bid) =
      if not (is_legacy bid) && says "open" (get_or_null "status" bid)
      then (do answer ← ask world (withdraw_offer id); withdrawal id bid answer)
      else done

  abbrev pub reread_bid : Standing → Program (Unit {0})
  reread_bid standing = if is_some standing.bid then reread standing.bid_id else done

  -- A refusal after which the gateway has not recorded the offer.
  abbrev pub refused : Value → Standing → Exc → Program (Unit {0})
  refused offer standing e =
      if offer_conflict e "not_offering" && not (in_window standing.bid)
      then update (add_legacy (offer_entries offer))
      else if offer_conflict e "window_closed"
      then reread_bid standing
      else lift (err e)

  -- The answer on an offer that was posted.
  unfoldable pub submission : Value → Value → Standing → Result Value → Program (Unit {0})
  submission job offer standing (err e) =
      if is_unknown e
      then lift (err e)
      else (do update (set_pending null); save_offers world; refused offer standing e)
  submission job offer standing (ok response) = do
    named ← lift (method_get "bid_id" response)
    fresh ← recall (is_new_bid response)
    lift (
        guard fresh
          (recovery_required "offer response has no new bid identity or window_closes_at"))
    update (set_pending null)
    update (set_bid (id_of (field_of "bid_id" response)) (new_bid offer response))
    update (set_current (id_of job) (id_of (field_of "bid_id" response)))
    save_offers world

  -- The intent is saved first.
  unfoldable pub post_offer : Value → Value → Standing → Program (Unit {0})
  post_offer job offer standing = do
    update (set_pending offer)
    save_offers world
    answer ← ask world (submit_offer (offer_entries offer))
    submission job offer standing answer

  unfoldable pub place : Value → Value → Standing → Program (Unit {0})
  place job offer standing = do
    lift (validate_window_offer offer)
    lift (
        guard (value_eq (field_of "job_id" offer) job)
          (value_error "offer job_id must match its queue row"))
    if in_window standing.bid && has_terms offer standing.bid && bid_says "open" standing.bid
        then done
        else post_offer job offer standing

  abbrev pub offered : Value → Value → Standing → Program (Unit {0})
  offered job null standing = withdraw standing.bid_id standing.bid
  offered job offer standing = place job offer standing

  -- The runner's own offer, or a firm one at its price.
  abbrev pub price_entry : Value → Value → Result Value
  price_entry job row =
      if world.has_offer_fn
      then world.offer_fn row
      else ok (
          obj
            (entry "job_id" job (entry "kind" (str "firm") (entry "price_usd" world.ask_usd end))))

  unfoldable pub price_and_place : Value → Value → Standing → Program (Unit {0})
  price_and_place job row standing =
      if missing_pricing
      then done
      else (do offer ← lift (price_entry job row); offered job offer standing)

  -- A bid in the window is read again before it is priced anew.
  unfoldable pub refresh_standing : Standing → Program Standing
  refresh_standing standing =
      if in_window standing.bid
      then (do
        bid ← read_bid world (str standing.bid_id)
        lift (ok (record { bid_id = standing.bid_id; bid = some bid })))
      else lift (ok standing)

  unfoldable pub bid_for : Value → Value → Standing → Program (Unit {0})
  bid_for job row standing = do
    current ← refresh_standing standing
    if in_window current.bid && bid_says "awarded" current.bid
        then done
        else price_and_place job row current
