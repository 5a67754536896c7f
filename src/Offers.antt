-- ===== src/Offers.antt =====
-- The offers and effort blocks of ormas_subnet/client.py, before they are sent.
pub mod Laws
pub mod Effort
mod Tests
use Prim.Native.String.{◌++◌ as append}
use ormas_subnet.Common.{
  ℕ, zero, suc, leb, ltb, ◌==◌, ◌^◌, ◌-◌, ◌+◌, ◌/◌, ◌%◌, ◌*◌, Bool, true, false, not, ◌&&◌, ◌||◌,
  String, List, [], ◌∷◌, length, Option, none, some, ℤ, pos, negsuc, Float, finite, is_finite,
  float_pos, float_le, int_pos, int_neg, Value, null, int, float, str, arr, obj, cons, nil, end,
  entry, Entries, items, keys, get_or_null, elem, same_set, Exc, value_error, Result, ok, err,
  ◌>>=◌, ◌>>◌, guard, str_eq, nonblank, if◌then◌else◌,
}

-- `CLAIM_PAGE_LIMIT`
abbrev pub claim_page_limit : ℕ
claim_page_limit = 20

-- `float(n)` raises `OverflowError` from half a unit below 2 ** 1024 on.
abbrev pub fits_float : ℕ → Bool
fits_float n = ltb n (2 ^ 1024 - 2 ^ 970)

-- `_positive_usd`
unfoldable pub positive_usd : Value → Bool
positive_usd (int (pos n)) = fits_float n && ltb 0 n
positive_usd (float x) = is_finite x && float_pos x
positive_usd _ = false

-- The least e from `e` on with n below 2 ** (53 + e).
unfoldable pub exponent_of : ℕ → ℕ → ℕ → ℕ
exponent_of zero e n = e
exponent_of (suc fuel) e n =
    let later = exponent_of fuel (e + 1) n in if ltb n (2 ^ (53 + e)) then e else later

-- The nearest multiple of 2 ** e, ties to the even one, over 2 ** e.
abbrev pub nearest : ℕ → ℕ → ℕ
nearest n e =
    if ltb (2 ^ e) (n % 2 ^ e * 2) || ((n % 2 ^ e * 2 == 2 ^ e) && (n / 2 ^ e % 2 == 1))
    then n / 2 ^ e + 1
    else n / 2 ^ e

-- `float(n)` for a positive number: 53 bits, for which 971 exponents suffice.
unfoldable pub float_of_nat : ℕ → Float
unfolding exponent_of
float_of_nat n =
    let e = exponent_of 971 0 n in
    if e == 0 then finite (pos n) (pos 0) else finite (pos (nearest n e)) (pos e)

-- `float(v)` and v itself, of an amount that `_positive_usd` has passed
abbrev pub as_float : Value → Float
as_float (int (pos n)) = float_of_nat n
as_float (float x) = x
as_float _ = finite (pos 0) (pos 0)

abbrev pub exactly : Value → Float
exactly (int n) = finite n (pos 0)
exactly (float x) = x
exactly _ = finite (pos 0) (pos 0)

abbrev pub offer_dictionary : Value → Result Entries
offer_dictionary (obj es) = ok es
offer_dictionary _ = err (value_error "each offer must be a dict")

-- The job that an offer names, which none before it named.
abbrev pub job_of : List String → Value → Result String
job_of seen (str s) =
    if not (str_eq s "") && not (elem s seen)
    then ok s
    else err (value_error "each offer needs a unique non-empty string job_id")
job_of seen _ = err (value_error "each offer needs a unique non-empty string job_id")

abbrev pub is_kind : String → Value → Bool
is_kind k (str s) = str_eq s k
is_kind k _ = false

abbrev pub fields_of : Value → Result (List String)
fields_of kind =
    if is_kind "firm" kind
    then ok ("price_usd" ∷ [])
    else if is_kind "limit" kind
    then ok ("estimate_usd" ∷ "limit_usd" ∷ [])
    else err (value_error "offer kind must be 'firm' or 'limit'")

abbrev pub keys_message : List String → String
keys_message (f ∷ []) = "a firm offer has exactly job_id, kind and price_usd"
keys_message fields = "a limit offer has exactly job_id, kind and estimate_usd and limit_usd"

unfoldable pub check_amounts : Entries → List String → Result (Unit {0})
check_amounts offer [] = ok tt
check_amounts offer (f ∷ fields) =
    let rest = check_amounts offer fields in
    do
      guard (positive_usd (get_or_null f offer))
          (value_error (append f " must be a finite, positive number"))
      rest

unfoldable pub validate_offer : List String → Value → Result String
validate_offer seen value = do
  offer ← offer_dictionary value
  job ← job_of seen (get_or_null "job_id" offer)
  fields ← fields_of (get_or_null "kind" offer)
  guard (same_set (keys offer) ("job_id" ∷ "kind" ∷ fields)) (value_error (keys_message fields))
  check_amounts offer fields
  guard
      (not (is_kind "limit" (get_or_null "kind" offer))
        || float_le (as_float (get_or_null "estimate_usd" offer))
            (as_float (get_or_null "limit_usd" offer)))
      (value_error "estimate_usd must be at most limit_usd")
  ok job

-- The loop over the offers: the jobs that were seen.
unfoldable pub validate_each : List String → List Value → Result (List String)
validate_each seen [] = ok seen
validate_each seen (v ∷ offers) = do job ← validate_offer seen v; validate_each (job ∷ seen) offers

abbrev pub offer_list : Value → Result (List Value)
offer_list (arr vs) =
    if leb (length (items vs)) claim_page_limit
    then ok (items vs)
    else err (value_error "offers must be a list of at most 20 entries")
offer_list _ = err (value_error "offers must be a list of at most 20 entries")

-- `_validate_offers`, which returns `None`; here the jobs, the last one first.
unfoldable pub validate_offers : Value → Result (List String)
validate_offers value = do offers ← offer_list value; validate_each [] offers

abbrev pub is_nonblank : Value → Bool
is_nonblank (str s) = nonblank s
is_nonblank _ = false

-- `_validate_window_offer`, whose amounts are compared as they are.
unfoldable pub validate_window_offer : Value → Result (Unit {0})
validate_window_offer value = do
  jobs ← validate_offers (arr (cons value nil))
  offer ← offer_dictionary value
  guard (is_nonblank (get_or_null "job_id" offer)) (value_error "job_id must be a non-empty string")
  guard
      (not (is_kind "limit" (get_or_null "kind" offer))
        || float_le (exactly (get_or_null "estimate_usd" offer))
            (exactly (get_or_null "limit_usd" offer)))
      (value_error "estimate_usd must be at most limit_usd")
  ok tt

abbrev pub effort_fields : List String
effort_fields = "attempts" ∷ "model_turns" ∷ "models_used" ∷ "output_tokens" ∷ "total_tokens" ∷ []

abbrev pub count_of : String → Value → Result ℕ
count_of f (int (pos n)) = ok n
count_of f _ = err (value_error (append "effort." (append f " must be a non-negative integer")))

-- The block of these fields.
unfoldable pub effort_of : Entries → List String → Result Entries
effort_of effort [] = ok end
effort_of effort (f ∷ fields) =
    let later = effort_of effort fields in
    do n ← count_of f (get_or_null f effort); rest ← later; ok (entry f (int (pos n)) rest)

abbrev pub effort_dictionary : Value → Result Entries
effort_dictionary (obj es) =
    if same_set (keys es) effort_fields
    then ok es
    else err (
        value_error
          "effort has exactly the fields attempts, model_turns, models_used, output_tokens, total_tokens")
effort_dictionary _ = err (value_error "effort must be a mapping of the five count fields")

-- `_validate_effort`
unfoldable pub validate_effort : Value → Result Entries
validate_effort value = do effort ← effort_dictionary value; effort_of effort effort_fields
