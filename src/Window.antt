-- ===== src/Window.antt =====
-- The offer window of ormas_subnet/skeleton.py: the own bids of a runner, the record of them on
-- disk (`_offer_state`, `_save_offers`), and a claim as a program that asks the gateway and saves.
pub mod Kept
pub mod Programs
pub mod Bids
pub mod Lease
pub mod Place
pub mod Traced
pub mod Claim
use ormas_subnet.Common.{
  Bool, true, false, not, ◌&&◌, ◌||◌, Option, none, some, String, List, [], ◌∷◌, Value, null, str,
  arr, obj, Entries, end, entry, ◌>>=◌, ◌>>◌, keys, get_or_null, require_key, index, truthy, elem,
  says, str_eq, Result, ok, err, Exc, value_error, key_error, type_error, recovery_required, guard,
  is_ok, if◌then◌else◌,
}
use ormas_subnet.Offers.{validate_window_offer}

-- An own bid with its `terms`, `status`, `award_id` and `legacy`, under its id.
pub record Bid : Type 0 where
  pub bid_id : String
  pub fields : Entries

-- The job whose bid this is.
pub record Current : Type 0 where
  pub job_id : String
  pub bid_id : String

-- The `state` of the window.
pub record Offers : Type 0 where
  pub bids : List Bid
  pub current : List Current
  pub pending : Value

abbrev pub find_bid : String → List Bid → Option Entries
find_bid id [] = none
find_bid id (b ∷ bids) = if str_eq id b.bid_id then some b.fields else find_bid id bids

-- `state["bids"][id] = fields`
unfoldable pub put_bid : String → Entries → List Bid → List Bid
put_bid id fields [] = record { bid_id = id; fields = fields } ∷ []
put_bid id fields (b ∷ bids) =
    let rest = put_bid id fields bids in
    if str_eq id b.bid_id then record { bid_id = id; fields = fields } ∷ bids else b ∷ rest

abbrev pub find_current : String → List Current → Option String
find_current job [] = none
find_current job (c ∷ cs) = if str_eq job c.job_id then some c.bid_id else find_current job cs

unfoldable pub put_current : String → String → List Current → List Current
put_current job id [] = record { job_id = job; bid_id = id } ∷ []
put_current job id (c ∷ cs) =
    let rest = put_current job id cs in
    if str_eq job c.job_id then record { job_id = job; bid_id = id } ∷ cs else c ∷ rest

-- What stands under "offers.json": nothing, a file that is not private, one that does not parse,
-- or the value that it parses to.
pub data File : Type 0 where
  absent unsafe broken : File
  parsed : Value → File

abbrev pub corrupt : Exc
corrupt = recovery_required "offer recovery record is corrupt"

-- `except (ValueError, KeyError, TypeError)`
abbrev pub as_corrupt : {A : Type 0} → Result A → Result A
as_corrupt (err (value_error m)) = err corrupt
as_corrupt (err key_error) = err corrupt
as_corrupt (err type_error) = err corrupt
as_corrupt r = r

abbrev pub dictionary_or_mismatch : Value → Result Entries
dictionary_or_mismatch (obj es) = ok es
dictionary_or_mismatch _ = err (recovery_required "offer recovery identity mismatch")

abbrev pub dictionary : Value → Result Entries
dictionary (obj es) = ok es
dictionary _ = err type_error

-- Each bid has a name and terms that are an offer.
unfoldable pub read_bids : Entries → Result (List Bid)
read_bids end = ok []
read_bids (entry id bid bids) =
    let more = read_bids bids in
    do
      guard (not (str_eq id "")) (value_error "invalid bid identity")
      terms ← index "terms" bid
      validate_window_offer terms
      fields ← dictionary bid
      rest ← more
      ok (record { bid_id = id; fields = fields } ∷ rest)

-- `state["bids"][bid_id]`
abbrev pub bid_at : Value → List Bid → Result Entries
bid_at (str id) bids = elim (find_bid id bids) [ none ↦ err key_error | some fields ↦ ok fields ]
bid_at (arr vs) bids = err type_error
bid_at (obj es) bids = err type_error
bid_at _ bids = err key_error

abbrev pub text_of : Value → String
text_of (str s) = s
text_of _ = ""

-- Each current bid is a bid for the job that it stands under.
unfoldable pub read_current : Entries → List Bid → Result (List Current)
read_current end bids = ok []
read_current (entry job id current) bids =
    let more = read_current current bids in
    do
      bid ← bid_at id bids
      terms ← require_key "terms" bid
      named ← index "job_id" terms
      guard (says job named) (value_error "invalid bid job identity")
      rest ← more
      ok (record { job_id = job; bid_id = text_of id } ∷ rest)

abbrev pub is_null : Value → Bool
is_null null = true
is_null _ = false

-- A record of this gateway and runner, with no offer whose answer is unknown.
unfoldable pub read_offers : String → String → Value → Result Offers
read_offers gateway runner_id state = do
  owner ← index "gateway" state
  guard (says gateway owner) (recovery_required "offer recovery identity mismatch")
  runner ← index "runner_id" state
  guard (says runner_id runner) (recovery_required "offer recovery identity mismatch")
  listed ← index "bids" state
  bid_entries ← dictionary_or_mismatch listed
  named ← index "current" state
  current_entries ← dictionary_or_mismatch named
  bids ← read_bids bid_entries
  current ← read_current current_entries bids
  pending ← index "pending" state
  guard (is_null pending)
      (recovery_required "offer POST outcome unknown; recover own bid identity before claiming")
  ok (record { bids = bids; current = current; pending = null })

-- `_offer_state`
unfoldable pub offer_state : String → String → File → Result Offers
offer_state gateway runner_id absent = ok (record { bids = []; current = []; pending = null })
offer_state gateway runner_id unsafe = err (recovery_required "offer recovery record is unsafe")
offer_state gateway runner_id broken = err corrupt
offer_state gateway runner_id (parsed state) = as_corrupt (read_offers gateway runner_id state)
