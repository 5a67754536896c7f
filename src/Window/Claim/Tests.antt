-- ===== src/Window/Claim/Tests.antt =====
-- A claim that makes an offer for the one job of the queue.
use ormas_subnet.Common.{
  ◌≡◌, refl, true, false, none, some, [], ◌∷◌, length, Value, null, str, int, arr, obj, cons, nil,
  pos, end, entry, Result, ok, err, gateway_error, Ensures, value_eq, put, nonblank, is_ok,
}
use ormas_subnet.Common.{◌>>=◌ as ◌and_then◌, ◌>>◌ as ◌then◌}
use ormas_subnet.Offers.{
  validate_window_offer, validate_offers, validate_each, validate_offer, check_amounts,
  positive_usd, float_of_nat, exponent_of,
}
use ormas_subnet.Window.{
  Bid, absent, parsed, offer_state, read_offers, read_bids, read_current, put_bid, put_current,
}
use ormas_subnet.Window.Kept.{IsKept, IsAnswered, offer_state-IsKept}
use ormas_subnet.Window.Programs.{
  Call, list_queue, get_offer, withdraw_offer, submit_offer, World, Memory, Lease, written,
  save_offers, carry_on, ◌>>=◌, ◌>>◌,
}
use ormas_subnet.Window.Lease.{check_lease, backing_of, keep_bid, is_frozen}
use ormas_subnet.Window.Bids.{read_bid, refresh_bid, check_status}
use ormas_subnet.Window.Place.{
  place, post_offer, submission, price_and_place, refresh_standing, bid_for,
}
use ormas_subnet.Window.Traced.{Traced}
use ormas_subnet.Window.Claim.{
  start, process_entry, process_entries, claim_after, claim_offer_window,
}
use ormas_subnet.Window.Claim.Intent.{IsIdle, claim_offer_window-Traced, claim_offer_window-IsIdle}
use ormas_subnet.Window.Claim.Awarded.{IsAward, claim_offer_window-IsAward}

abbrev queue : Value
queue = obj (entry "jobs" (arr (cons (obj (entry "job_id" (str "j-1") end)) nil)) end)

abbrev recorded : Value
recorded = obj (entry "bid_id" (str "b-1") (entry "window_closes_at" (str "12:00") end))

abbrev awarded : Value
awarded = obj (
    entry "bid_id" (str "b-1") (entry "status" (str "awarded") (entry "award_id" (str "aw-1") end)))

abbrev reply : Call → Result Value
reply list_queue = ok queue
reply (submit_offer offer) = ok recorded
reply (get_offer id) = ok awarded
reply (withdraw_offer id) = err (gateway_error (some 409) (some "not_open") "")

abbrev world : World
world = record {
  runner_id = "r-1";
  ask_usd = int (pos 5);
  has_offer_fn = false;
  offer_fn = λ v. ok null;
  reply = λ events call. reply call;
  claim_task = λ events claim. ok none;
  save = λ events offers. written;
}

-- The queue, the intent, the post, the bid and the claim.
five_events : length (claim_offer_window world "https://gateway" absent false).memory.events ≡ 5
unfolding claim_offer_window offer_state claim_after process_entries process_entry bid_for
    refresh_standing price_and_place place post_offer submission validate_window_offer
    validate_offers validate_each validate_offer check_amounts positive_usd put_bid put_current
    carry_on save_offers ◌>>=◌ ◌>>◌ ◌and_then◌ ◌then◌ value_eq nonblank
five_events = refl

claim_offer_window-Traced_example :
    Traced world (claim_offer_window world "https://gateway" absent false).memory.events
claim_offer_window-Traced_example = claim_offer_window-Traced world "https://gateway" absent false

abbrev firm : Value
firm =
    obj
      (entry "job_id" (str "j-1") (entry "kind" (str "firm") (entry "price_usd" (int (pos 5)) end)))

abbrev kept_with : Value → Value
kept_with pending = obj (
    entry "gateway" (str "https://gateway") (
      entry "runner_id" (str "r-1") (
        entry "bids"
          (obj (entry "b-1" (obj (entry "terms" firm (entry "status" (str "open") end))) end))
          (entry "current" (obj (entry "j-1" (str "b-1") end)) (entry "pending" pending end)))))

offer_state-IsKept_example :
    Ensures
      (λ offers. IsKept offers × IsAnswered (parsed (kept_with null)))
      (offer_state "https://gateway" "r-1" (parsed (kept_with null)))
offer_state-IsKept_example = offer_state-IsKept "https://gateway" "r-1" (parsed (kept_with null))

claim_offer_window-IsIdle_example :
    IsIdle (claim_offer_window world "https://gateway" (parsed (kept_with firm)) false)
claim_offer_window-IsIdle_example =
    claim_offer_window-IsIdle world "https://gateway" (kept_with firm) firm false refl (λ e. cc e)

abbrev lease : Lease
lease = record {
  task_id = str "j-1";
  bid_id = str "b-1";
  offer_kind = str "firm";
  outcome_price_usd = int (pos 5);
  estimate_usd = null;
  limit_usd = null;
  draft_task_id = str "j-1";
  draft_runner_id = str "r-1";
}

abbrev own_bid : Bid
own_bid = record { bid_id = "b-1"; fields = entry "terms" firm (entry "status" (str "open") end) }

abbrev memory : Memory
memory = start world (record { bids = own_bid ∷ []; current = []; pending = null }) false

lease_is_taken : is_ok (check_lease world lease [] memory).outcome ≡ true
unfolding check_lease backing_of keep_bid is_frozen read_bid refresh_bid check_status put_bid put
    float_of_nat exponent_of carry_on save_offers ◌>>=◌ ◌>>◌ ◌and_then◌ ◌then◌ value_eq
lease_is_taken = refl

-- A world that has nothing in its queue and awards the lease.
abbrev awarding_reply : Call → Result Value
awarding_reply list_queue = ok (obj end)
awarding_reply call = reply call

abbrev awarding : World
awarding = record {
  runner_id = "r-1";
  ask_usd = int (pos 5);
  has_offer_fn = false;
  offer_fn = λ v. ok null;
  reply = λ events call. awarding_reply call;
  claim_task = λ events claim. ok (some lease);
  save = λ events offers. written;
}

award_is_returned :
    (claim_offer_window awarding "https://gateway" (parsed (kept_with null)) false).outcome
    ≡ ok (some lease)
unfolding claim_offer_window offer_state read_offers read_bids read_current claim_after
    process_entries check_lease backing_of keep_bid is_frozen read_bid refresh_bid check_status
    validate_window_offer validate_offers validate_each validate_offer check_amounts positive_usd
    put_bid put_current put float_of_nat exponent_of carry_on save_offers ◌>>=◌ ◌>>◌ ◌and_then◌
    ◌then◌ value_eq nonblank
award_is_returned = refl

claim_offer_window-IsAward_example :
    Ensures
      (λ o.
        IsAward awarding o
          (claim_offer_window awarding "https://gateway" (parsed (kept_with null)) false).memory)
      (claim_offer_window awarding "https://gateway" (parsed (kept_with null)) false).outcome
claim_offer_window-IsAward_example =
    claim_offer_window-IsAward awarding "https://gateway" (parsed (kept_with null)) false
