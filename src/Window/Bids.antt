-- ===== src/Window/Bids.antt =====
-- `_read_bid` and `_offer_conflict` of ormas_subnet/skeleton.py: the gateway's word on an own bid.
use ormas_subnet.Common.{
  ℕ, ◌==◌, Bool, false, not, ◌&&◌, ◌||◌, Option, none, some, String, List, [], ◌∷◌, Value, null,
  str, obj, Entries, get_or_null, put, truthy, is_text, elem, says, str_eq, method_get, value_eq,
  Exc, type_error, recovery_required, gateway_error, Result, ok, err, guard, if◌then◌else◌,
  require_key,
}
use ormas_subnet.Common.{◌>>=◌ as ◌and_then◌, ◌>>◌ as ◌then◌}
use ormas_subnet.Recovery.{hashable}
use ormas_subnet.Window.{find_bid}
use ormas_subnet.Window.Programs.{
  World, Memory, Program, get_offer, lift, recall, update, save_offers, set_bid, ask_for, ◌>>=◌,
  ◌>>◌,
}

abbrev pub says_status : Option ℕ → ℕ → Bool
says_status none n = false
says_status (some m) n = m == n

abbrev pub says_type : Option String → String → Bool
says_type none s = false
says_type (some t) s = str_eq t s

-- `_offer_conflict`
abbrev pub offer_conflict : Exc → String → Bool
offer_conflict (gateway_error status kind said) message =
    says_status status 409
    && (says_type kind message || (says_type kind "conflict_error" && str_eq said message))
offer_conflict _ message = false

abbrev pub statuses : List String
statuses =
    "open" ∷ "awarded" ∷ "not_awarded" ∷ "withdrawn" ∷ "replaced" ∷ "no_capacity" ∷ "award_lapsed"
    ∷ []

abbrev pub is_status : Value → Bool
is_status (str s) = elem s statuses
is_status _ = false

-- `status not in {...}`, of a value that a set can look for
abbrev pub known_status : Value → Result Bool
known_status v = if hashable v then ok (is_status v) else err type_error

abbrev pub invalid_bid : Exc
invalid_bid = recovery_required "invalid own bid status or award identity"

-- An award that was seen may lapse, and stays the same award till then.
abbrev pub keeps_award : Value → Value → Value → Value → Bool
keeps_award was status held award =
    not (says "awarded" was)
    || says "award_lapsed" status
    || (says "awarded" status && value_eq held award)

-- The checks of the answer on a bid.
unfoldable pub check_status : String → Entries → Value → Result (Unit {0})
check_status id bid response = method_get "status" response and_then λ status.
    method_get "award_id" response and_then λ award. method_get "bid_id" response and_then λ named.
    guard (says id named) invalid_bid then known_status status and_then λ known.
    guard known invalid_bid
    then guard (not (says "awarded" status) || is_text award) invalid_bid
    then require_key "status" bid
    and_then λ was. guard (keeps_award was status (get_or_null "award_id" bid) award) invalid_bid

abbrev pub field_of : String → Value → Value
field_of k (obj es) = get_or_null k es
field_of k _ = null

-- `bid["status"] = status; bid["award_id"] = award`
abbrev pub with_status : Entries → Value → Entries
with_status bid response =
    put "award_id" (field_of "award_id" response) (put "status" (field_of "status" response) bid)

abbrev pub bid_of : Value → Memory → Result Entries
bid_of (str id) memory = elim (find_bid id memory.offers.bids) [
  | none ↦ err (recovery_required "unknown own award bid")
  | some bid ↦ ok bid
]
bid_of v memory =
    if hashable v then err (recovery_required "unknown own award bid") else err type_error

abbrev pub id_of : Value → String
id_of (str s) = s
id_of _ = ""

abbrev pub is_legacy : Entries → Bool
is_legacy bid = truthy (get_or_null "legacy" bid)

module _ (world : World) where
  -- The part after the look-up, for a bid that the gateway keeps.
  unfoldable pub refresh_bid : String → Entries → Program Entries
  refresh_bid id bid = do
    response ← ask_for world (get_offer id)
    lift (check_status id bid response)
    update (set_bid id (with_status bid response))
    save_offers world
    lift (ok (with_status bid response))

  -- `_read_bid`
  unfoldable pub read_bid : Value → Program Entries
  read_bid id = do
    found ← recall (bid_of id)
    bid ← lift found
    if is_legacy bid then lift (ok bid) else refresh_bid (id_of id) bid
