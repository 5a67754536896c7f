-- ===== src/Offers/Tests.antt =====
-- Offers and effort at concrete values.
use ormas_subnet.Common.{
  ◌≡◌, refl, true, false, String, [], ◌∷◌, same_set, keys, pos, finite, Value, str, int, float, arr,
  cons, nil, obj, Entries, end, entry, ok, is_ok, ◌>>=◌, ◌>>◌,
}
use ormas_subnet.Offers.{
  positive_usd, check_amounts, validate_offer, validate_each, validate_offers, float_of_nat,
  exponent_of, effort_of, effort_fields, validate_effort,
}
use ormas_subnet.Offers.Laws.{Sent, validate_offers-AreOffers}
use ormas_subnet.Offers.Effort.{IsBlock, validate_effort-IsBlock}

abbrev firm : String → Value
firm job =
    obj (entry "job_id" (str job) (entry "kind" (str "firm") (entry "price_usd" (int (pos 2)) end)))

abbrev limit : Value
limit = obj (
    entry "job_id" (str "j2") (
      entry "kind" (str "limit") (
        entry "estimate_usd" (float (finite (pos 1) (pos 0)))
          (entry "limit_usd" (float (finite (pos 3) (pos 0))) end))))

two_offers : validate_offers (arr (cons (firm "j1") (cons limit nil))) ≡ ok ("j2" ∷ "j1" ∷ [])
unfolding validate_offers validate_each validate_offer check_amounts positive_usd ◌>>=◌ ◌>>◌
two_offers = refl

same_job_twice : is_ok (validate_offers (arr (cons (firm "j1") (cons (firm "j1") nil)))) ≡ false
unfolding validate_offers validate_each validate_offer check_amounts positive_usd ◌>>=◌ ◌>>◌
same_job_twice = refl

validate_offers-AreOffers_example : Sent (arr (cons (firm "j1") (cons limit nil)))
validate_offers-AreOffers_example =
    validate_offers-AreOffers (arr (cons (firm "j1") (cons limit nil))) two_offers

abbrev effort : Entries
effort = entry "attempts" (int (pos 1)) (
    entry "model_turns" (int (pos 4)) (
      entry "models_used" (int (pos 1))
        (entry "output_tokens" (int (pos 900)) (entry "total_tokens" (int (pos 2000)) end))))

effort_passes : validate_effort (obj effort) ≡ ok effort
unfolding validate_effort effort_of ◌>>=◌ ◌>>◌
effort_passes = refl

validate_effort-IsBlock_example :
    (given : Entries) × (obj effort ≡ obj given)
    × (same_set (keys given) effort_fields ≡ true)
    × IsBlock given effort_fields effort
validate_effort-IsBlock_example = validate_effort-IsBlock (obj effort) effort_passes

rounds_to_even : float_of_nat 9007199254740993 ≡ finite (pos 4503599627370496) (pos 1)
unfolding float_of_nat exponent_of
rounds_to_even = refl
