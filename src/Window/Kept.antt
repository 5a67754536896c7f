-- ===== src/Window/Kept.antt =====
-- The record of own bids that ormas_subnet/skeleton.py reads back before it claims.
use ormas_subnet.Common.{
  ◌≡◌, refl, sym, ◌∙◌, subst, Bool, true, false, Option, none, some, Option-cases, inl, inr, String,
  List, [], ◌∷◌, All, Value, null, boolean, int, float, str, arr, obj, Entries, end, entry,
  get_or_null, index, says, require_key, str_eq, Result, ok, err, Exc, Ensures, Ensures-bind,
  Ensures-then, Ensures-map, Ensures-eq-ok, guard_passed, arith, ◌>>=◌, ◌>>◌, eq_iff, Bool-cases,
}
use ormas_subnet.Common
use ormas_subnet.Offers.{validate_window_offer}
use ormas_subnet.Window.{
  Bid, Current, Offers, File, absent, unsafe, broken, parsed, as_corrupt, find_bid, dictionary,
  bid_at, text_of, is_null, read_bids, read_current, read_offers, offer_state,
}

-- A bid whose terms are an offer of the window.
abbrev pub IsOffer : Bid → Type 0
IsOffer b =
    (terms : Value) × ((get_or_null "terms" b.fields ≡ terms)
      × (validate_window_offer terms ≡ ok tt))

-- The current bid of a job is kept, and it is a bid for this job.
abbrev pub IsCurrent : List Bid → Current → Type 0
IsCurrent bids c =
    (fields : Entries) × (terms : Entries) × (find_bid c.bid_id bids ≡ some fields)
    × (get_or_null "terms" fields ≡ obj terms)
    × (says c.job_id (get_or_null "job_id" terms) ≡ true)

-- A record that a claim may go on from.
pub record IsKept (offers : Offers) : Type 0 where
  pub answered : offers.pending ≡ null
  pub priced : All IsOffer offers.bids
  pub linked : All (IsCurrent offers.bids) offers.current

require_key-get :
    (k : String) (es : Entries) → Ensures (λ v. get_or_null k es ≡ v) (require_key k es)
require_key-get k es = elim (Option-cases (Common.get k es)) [
  | inl n ↦ rw (require_key, n) tt
  | inr (v, e) ↦ rw (require_key, get_or_null, e) refl
]

-- `bid["terms"]` of a bid that is a dictionary.
index-dictionary :
    (k : String) (v w : Value) (es : Entries)
    → index k v ≡ ok w
    → dictionary v ≡ ok es
    → get_or_null k es ≡ w
index-dictionary k (obj fs) w es i d =
    let same : fs ≡ es = cc d in
    subst (λ x. get_or_null k x ≡ w) same
      (Ensures-eq-ok (λ x. get_or_null k fs ≡ x) _ (require_key-get k fs) i)
index-dictionary k _ w es i d = cc d

read_bids-AreOffers : (bids : Entries) → Ensures (All IsOffer) (read_bids bids)
unfolding read_bids
read_bids-AreOffers end = tt
read_bids-AreOffers (entry id bid bids) = Ensures-then _ _ _ λ g1. Ensures-bind _ _ _ λ terms i.
    Ensures-then _ _ _ λ v. Ensures-bind _ _ _ λ fields d. Ensures-bind _ _ _ λ rest r. (
      (terms, (index-dictionary "terms" bid terms fields i d, v)),
      Ensures-eq-ok _ _ (read_bids-AreOffers bids) r,
    )

bid_at-found :
    (v : Value) (bids : List Bid)
    → Ensures (λ fields. find_bid (text_of v) bids ≡ some fields) (bid_at v bids)
bid_at-found (str id) bids = elim (Option-cases (find_bid id bids)) [
  | inl n ↦ rw (bid_at, n) tt
  | inr (v, e) ↦ rw (bid_at, e) refl
]
bid_at-found _ bids = tt

-- A value that has a job under "job_id".
abbrev Names : Value → Value → Type 0
Names v job = (terms : Entries) × ((v ≡ obj terms) × (get_or_null "job_id" terms ≡ job))

index-Names : (v : Value) → Ensures (Names v) (index "job_id" v)
index-Names (obj terms) =
    Ensures-map (λ job. get_or_null "job_id" terms ≡ job) (Names (obj terms)) _
      (require_key-get "job_id" terms) λ job e. (terms, (refl, e))
index-Names _ = tt

read_current-AreCurrent :
    (current : Entries) (bids : List Bid)
    → Ensures (All (IsCurrent bids)) (read_current current bids)
unfolding read_current
read_current-AreCurrent end bids = tt
read_current-AreCurrent (entry job id current) bids = Ensures-bind _ _ _ λ fields b.
    Ensures-bind _ _ _ λ terms t. Ensures-bind _ _ _ λ named n. Ensures-then _ _ _ λ g.
      Ensures-bind _ _ _ λ rest r.
        let names = Ensures-eq-ok (Names terms) _ (index-Names terms) n in
        let found =
          Ensures-eq-ok (λ f. find_bid (text_of id) bids ≡ some f) _ (bid_at-found id bids) b in
        let at =
          Ensures-eq-ok (λ v. get_or_null "terms" fields ≡ v) _ (require_key-get "terms" fields)
            t in
        (
          (
            fields,
            names.0,
            found,
            at ∙ names.1.0,
            subst (λ v. says job v ≡ true) (sym names.1.1) (guard_passed _ _ g),
          ),
          Ensures-eq-ok (All (IsCurrent bids)) _ (read_current-AreCurrent current bids) r,
        )

null_pending : (v : Value) → is_null v ≡ true → ok v ≡ ok null
null_pending null h = refl
null_pending _ h = cc h

read_offers-IsKept :
    (gateway runner_id : String) (state : Value)
    → Ensures
        (λ offers. IsKept offers × (index "pending" state ≡ ok null))
        (read_offers gateway runner_id state)
unfolding read_offers
read_offers-IsKept gateway runner_id state = Ensures-bind _ _ _ λ owner e1. Ensures-then _ _ _ λ g1.
    Ensures-bind _ _ _ λ runner e2. Ensures-then _ _ _ λ g2. Ensures-bind _ _ _ λ listed e3.
      Ensures-bind _ _ _ λ bid_entries e4. Ensures-bind _ _ _ λ named e5.
        Ensures-bind _ _ _ λ current_entries e6. Ensures-bind _ _ _ λ bids e7.
          Ensures-bind _ _ _ λ current e8. Ensures-bind _ _ _ λ pending e9. Ensures-then _ _ _ λ g3.
            (
              record {
                answered = refl;
                priced = Ensures-eq-ok (All IsOffer) _ (read_bids-AreOffers bid_entries) e7;
                linked =
                    Ensures-eq-ok (All (IsCurrent bids)) _
                      (read_current-AreCurrent current_entries bids) e8;
              },
              e9 ∙ null_pending pending (guard_passed _ _ g3),
            )

as_corrupt-Ensures :
    {A : Type 0} (P : A → Type 0) (r : Result A) → Ensures P r → Ensures P (as_corrupt r)
as_corrupt-Ensures P (ok a) h = h
as_corrupt-Ensures P (err (Common.value_error m)) h = tt
as_corrupt-Ensures P (err Common.key_error) h = tt
as_corrupt-Ensures P (err Common.type_error) h = tt
as_corrupt-Ensures P (err _) h = tt

-- No offer is pending in the file.
abbrev pub IsAnswered : File → Type 0
IsAnswered (parsed state) = index "pending" state ≡ ok null
IsAnswered file = Unit

-- A record that is read back has no pending offer: the terms of each bid are an offer of the window,
-- and the current bid of each job is among the bids, with terms for this job. A file in which an
-- offer is pending is never read back.
pub offer_state-IsKept :
    (gateway runner_id : String) (file : File)
    → Ensures (λ offers. IsKept offers × IsAnswered file) (offer_state gateway runner_id file)
unfolding offer_state
offer_state-IsKept gateway runner_id absent =
    (record { answered = refl; priced = tt; linked = tt }, tt)
offer_state-IsKept gateway runner_id unsafe = tt
offer_state-IsKept gateway runner_id broken = tt
offer_state-IsKept gateway runner_id (parsed state) =
    as_corrupt-Ensures (λ offers. IsKept offers × (index "pending" state ≡ ok null)) _
      (read_offers-IsKept gateway runner_id state)
