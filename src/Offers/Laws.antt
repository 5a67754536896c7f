-- ===== src/Offers/Laws.antt =====
-- What a list of offers that is sent satisfies.
use ormas_subnet.Common.{
  ◌≡◌, ◌≤◌, ◌⊎◌, inl, inr, refl, true, false, not, ◌||◌, String, List, [], ◌∷◌, length, distinct,
  elem, same_set, keys, All, Value, str, arr, obj, Entries, get_or_null, float_le, ok, Ensures,
  Ensures-bind, Ensures-then, Ensures-eq-ok, Ensures-map, subst, guard_passed, arith, str_eq,
  Bool-cases, ◌>>◌, or-eq-false, eq_iff,
}
use ormas_subnet.Offers.{
  claim_page_limit, positive_usd, as_float, offer_dictionary, job_of, is_kind, fields_of,
  check_amounts, validate_offer, validate_each, offer_list, validate_offers,
}

-- A dictionary of a firm or of a limit offer for the job, with no other key.
pub record IsOffer (v : Value) (job : String) : Type 0 where
  pub offer : Entries
  pub offer_is : v ≡ obj offer
  pub named : str_eq job "" ≡ false
  pub job_is : get_or_null "job_id" offer ≡ str job
  pub terms :
      ((is_kind "firm" (get_or_null "kind" offer) ≡ true)
        × (same_set (keys offer) ("job_id" ∷ "kind" ∷ "price_usd" ∷ []) ≡ true)
        × (positive_usd (get_or_null "price_usd" offer) ≡ true))
      ⊎ ((is_kind "limit" (get_or_null "kind" offer) ≡ true)
          × (same_set (keys offer) ("job_id" ∷ "kind" ∷ "estimate_usd" ∷ "limit_usd" ∷ []) ≡ true)
          × (positive_usd (get_or_null "estimate_usd" offer) ≡ true)
          × (positive_usd (get_or_null "limit_usd" offer) ≡ true)
          × (float_le
                (as_float (get_or_null "estimate_usd" offer))
                (as_float (get_or_null "limit_usd" offer))
              ≡ true))

offer_dictionary-ok : (v : Value) {es : Entries} → offer_dictionary v ≡ ok es → v ≡ obj es
offer_dictionary-ok (obj es) h = cc h
offer_dictionary-ok _ h = cc h

job_of-ok :
    (seen : List String) (v : Value) {job : String}
    → job_of seen v ≡ ok job
    → (v ≡ str job) × (str_eq job "" ≡ false) × (elem job seen ≡ false)
job_of-ok seen (str s) h = ground arith
job_of-ok seen _ h = cc h

fields_of-ok :
    (kind : Value) {fields : List String}
    → fields_of kind ≡ ok fields
    → ((is_kind "firm" kind ≡ true) × (fields ≡ "price_usd" ∷ []))
      ⊎ ((is_kind "limit" kind ≡ true) × (fields ≡ "estimate_usd" ∷ "limit_usd" ∷ []))
fields_of-ok kind h = ground arith

amounts_positive :
    (offer : Entries) (fields : List String)
    → check_amounts offer fields ≡ ok tt
    → All (λ f. positive_usd (get_or_null f offer) ≡ true) fields
unfolding check_amounts ◌>>◌
amounts_positive offer [] h = tt
amounts_positive offer (f ∷ fields) h = elim (Bool-cases (positive_usd (get_or_null f offer))) [
  | inl p ↦ (p, amounts_positive offer fields (rw p at h))
  | inr n ↦ cc (rw n at h)
]

terms_of :
    (offer : Entries) (fields : List String)
    → ((is_kind "firm" (get_or_null "kind" offer) ≡ true) × (fields ≡ "price_usd" ∷ []))
      ⊎ ((is_kind "limit" (get_or_null "kind" offer) ≡ true)
          × (fields ≡ "estimate_usd" ∷ "limit_usd" ∷ []))
    → same_set (keys offer) ("job_id" ∷ "kind" ∷ fields) ≡ true
    → All (λ f. positive_usd (get_or_null f offer) ≡ true) fields
    → (not (is_kind "limit" (get_or_null "kind" offer))
        || float_le
            (as_float (get_or_null "estimate_usd" offer))
            (as_float (get_or_null "limit_usd" offer)))
      ≡ true
    → ((is_kind "firm" (get_or_null "kind" offer) ≡ true)
        × (same_set (keys offer) ("job_id" ∷ "kind" ∷ "price_usd" ∷ []) ≡ true)
        × (positive_usd (get_or_null "price_usd" offer) ≡ true))
      ⊎ ((is_kind "limit" (get_or_null "kind" offer) ≡ true)
          × (same_set (keys offer) ("job_id" ∷ "kind" ∷ "estimate_usd" ∷ "limit_usd" ∷ []) ≡ true)
          × (positive_usd (get_or_null "estimate_usd" offer) ≡ true)
          × (positive_usd (get_or_null "limit_usd" offer) ≡ true)
          × (float_le
                (as_float (get_or_null "estimate_usd" offer))
                (as_float (get_or_null "limit_usd" offer))
              ≡ true))
terms_of offer fields (inl firm) k p o =
    let q = subst (All (λ f. positive_usd (get_or_null f offer) ≡ true)) firm.1 p in
    let s = subst (λ fs. same_set (keys offer) ("job_id" ∷ "kind" ∷ fs) ≡ true) firm.1 k in
    inl (firm.0, s, q.0)
terms_of offer fields (inr limit) k p o =
    let q = subst (All (λ f. positive_usd (get_or_null f offer) ≡ true)) limit.1 p in
    let s = subst (λ fs. same_set (keys offer) ("job_id" ∷ "kind" ∷ fs) ≡ true) limit.1 k in
    inr (limit.0, s, q.0, q.1.0, rw limit.0 at o)

validate_offer-IsOffer :
    (seen : List String) (v : Value)
    → Ensures (λ job. IsOffer v job × (elem job seen ≡ false)) (validate_offer seen v)
unfolding validate_offer
validate_offer-IsOffer seen v = Ensures-bind _ _ _ λ offer e1. Ensures-bind _ _ _ λ job e2.
    Ensures-bind _ _ _ λ fields e3. Ensures-then _ _ _ λ g1. Ensures-then _ _ _ λ g2.
      Ensures-then _ _ _ λ g3.
        let j = job_of-ok seen (get_or_null "job_id" offer) e2 in
        (
          record {
            offer = offer;
            offer_is = offer_dictionary-ok v e1;
            named = j.1;
            job_is = j.0;
            terms =
                terms_of offer fields (fields_of-ok (get_or_null "kind" offer) e3)
                  (guard_passed _ _ g1) (amounts_positive offer fields g2) (guard_passed _ _ g3);
          },
          j.2,
        )

-- The values are offers for these jobs, one for each.
abbrev pub AreOffersFor : List Value → List String → Type 0
AreOffersFor [] [] = Unit
AreOffersFor (v ∷ vs) (job ∷ jobs) = IsOffer v job × AreOffersFor vs jobs
AreOffersFor _ _ = ⊥

-- Offers for distinct jobs, none of which was seen before.
Covered : List String → List Value → Type 0
Covered seen offers =
    (jobs : List String) × AreOffersFor offers jobs
    × (distinct jobs ≡ true)
    × All (λ job. elem job seen ≡ false) jobs

str_eq-swap : (s t : String) → str_eq s t ≡ false → str_eq t s ≡ false
str_eq-swap s t h = ground (arith, eq_iff s t, eq_iff t s)

-- None of these names is the job, and none was seen, where none is among the job and those seen.
unseen :
    (job : String) (seen jobs : List String)
    → All (λ j. elem j (job ∷ seen) ≡ false) jobs
    → (elem job jobs ≡ false) × All (λ j. elem j seen ≡ false) jobs
unseen job seen [] h = (refl, tt)
unseen job seen (j ∷ jobs) h =
    let b = or-eq-false (str_eq j job) (elem j seen) h.0 in
    let ih = unseen job seen jobs h.1 in (rw (str_eq-swap j job b.0) ih.0, (b.1, ih.1))

validate_each-Covered :
    (seen : List String) (offers : List Value)
    → Ensures (λ all. Covered seen offers) (validate_each seen offers)
unfolding validate_each Covered
validate_each-Covered seen [] = ([], tt, refl, tt)
validate_each-Covered seen (v ∷ offers) = Ensures-bind _ _ _ λ job e.
    let o =
      Ensures-eq-ok (λ j. IsOffer v j × (elem j seen ≡ false)) _ (validate_offer-IsOffer seen v)
        e in
    Ensures-map (λ all. Covered (job ∷ seen) offers) (λ all. Covered seen (v ∷ offers))
      (validate_each (job ∷ seen) offers) (validate_each-Covered (job ∷ seen) offers)
      λ all c.
        let u = unseen job seen c.0 c.3 in (job ∷ c.0, (o.0, c.1), rw (u.0, c.2) refl, (o.1, u.1))

abbrev pub Sent : Value → Type 0
Sent value =
    (offers : List Value) × (jobs : List String) × (offer_list value ≡ ok offers)
    × (length offers ≤ claim_page_limit)
    × AreOffersFor offers jobs
    × (distinct jobs ≡ true)

offer_list-ok :
    (value : Value) {offers : List Value}
    → offer_list value ≡ ok offers
    → length offers ≤ claim_page_limit
offer_list-ok (arr vs) h = ground arith
offer_list-ok _ h = cc h

validate_offers-Sent : (value : Value) → Ensures (λ all. Sent value) (validate_offers value)
unfolding validate_offers Covered
validate_offers-Sent value = Ensures-bind _ _ _ λ offers e.
    Ensures-map (λ all. Covered [] offers) (λ all. Sent value) (validate_each [] offers)
      (validate_each-Covered [] offers) λ all c. (offers, c.0, e, offer_list-ok value e, c.1, c.2)

-- A value that passes is a list of at most twenty offers, each a dictionary that names its job,
-- firm with a positive price or limited with a positive estimate that is at most its limit, with no
-- key besides; and no two of the offers name the same job.
pub validate_offers-AreOffers :
    (value : Value) {seen : List String} → validate_offers value ≡ ok seen → Sent value
validate_offers-AreOffers value h =
    Ensures-eq-ok (λ all. Sent value) _ (validate_offers-Sent value) h
