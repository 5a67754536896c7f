-- ===== src/Window/Claim/Steps.antt =====
-- The steps of a claim of ormas_subnet/skeleton.py, each of which saves what it intends.
use ormas_subnet.Common.{
  ◌≡◌, refl, sym, ap, subst, ◌∙◌, not, ◌&&◌, Option, none, some, is_some, String, List, Value, null,
  str, obj, Entries, Exc, Result, ok, err, if_holds, Bool-cases, inl, inr, get_or_null, says,
  Ensures, Ensures-bind, Ensures-then, Ensures-eq-ok,
}
use ormas_subnet.Offers.{validate_window_offer, offer_dictionary}
use ormas_subnet.Window.Programs.{World, Memory, Lease, lift, set_pending, ◌>>=◌, ◌>>◌, carry_on}
use ormas_subnet.Window.Bids.{read_bid, refresh_bid, is_legacy, offer_conflict, id_of}
use ormas_subnet.Window.Lease.{
  Backing, backing_of, back_known, back_with, keep_bid, check_lease, check_offer_lease, offer_for,
}
use ormas_subnet.Window.Place.{
  Standing, is_unknown, in_window, has_terms, bid_says, check_award, reread, withdrawal, withdraw,
  reread_bid, refused, submission, post_offer, place, offered, price_and_place, refresh_standing,
  bid_for, missing_pricing, done,
}
use ormas_subnet.Window.Traced.{
  Traced, IsLeft, Keeps, is_known, is_settled, lift-Keeps, recall-Keeps, bind-Keeps, then-Keeps,
  checked-Keeps, update-Keeps, save_offers-Keeps, save_then-IsLeft, get_offer-Keeps,
  withdraw_offer-Keeps,
}

-- What passes as an offer is a dictionary.
offer_dictionary-eq-ok :
    (v : Value) {offer : Entries} → offer_dictionary v ≡ ok offer → v ≡ obj offer
offer_dictionary-eq-ok (obj es) h = cc h
offer_dictionary-eq-ok _ h = cc h

window_offer-dictionary :
    (v : Value) → Ensures (λ u. (offer : Entries) × (v ≡ obj offer)) (validate_window_offer v)
unfolding validate_window_offer
window_offer-dictionary v = Ensures-bind _ _ _ λ jobs e.
    Ensures-bind _ _ _ λ offer d.
      Ensures-then _ _ _ λ g1. Ensures-then _ _ _ λ g2. (offer, offer_dictionary-eq-ok v d)

module _ (world : World) where
  refresh_bid-Keeps : (id : String) (bid : Entries) → Keeps world (refresh_bid world id bid)
  unfolding refresh_bid
  refresh_bid-Keeps id bid = bind-Keeps world _ _ (get_offer-Keeps world id) λ response.
      then-Keeps world _ _ (lift-Keeps world _) (
        then-Keeps world _ _ (update-Keeps world _ λ memory. refl)
          (then-Keeps world _ _ (save_offers-Keeps world) (lift-Keeps world _)))

  read_bid-Keeps : (id : Value) → Keeps world (read_bid world id)
  unfolding read_bid
  read_bid-Keeps id = bind-Keeps world _ _ (recall-Keeps world _) λ found.
      bind-Keeps world _ _ (lift-Keeps world _) λ bid.
        if_holds (Keeps world) (is_legacy bid) (lift (ok bid)) (refresh_bid world (id_of id) bid)
          (λ t. lift-Keeps world _) (λ f. refresh_bid-Keeps (id_of id) bid)

  back_with-Keeps : (o : Option Entries) → Keeps world (back_with world o)
  back_with-Keeps none = lift-Keeps world _
  back_with-Keeps (some terms) = lift-Keeps world _

  keep_bid-Keeps : (lease : Lease) (backing : Backing) → Keeps world (keep_bid world lease backing)
  unfolding keep_bid
  keep_bid-Keeps lease backing =
      if_holds (Keeps world) backing.is_new _ (lift (ok tt))
        (λ t. then-Keeps world _ _ (lift-Keeps world _) (
          then-Keeps world _ _ (update-Keeps world _ λ memory. refl)
            (then-Keeps world _ _ (update-Keeps world _ λ memory. refl) (save_offers-Keeps world))))
        (λ f. lift-Keeps world _)

  pub check_offer_lease-Keeps :
      (o : Option Lease) (legacy_offers : List Entries)
      → Keeps world (check_offer_lease world o legacy_offers)
  unfolding check_lease backing_of
  check_offer_lease-Keeps none legacy_offers = lift-Keeps world _
  check_offer_lease-Keeps (some lease) legacy_offers =
      bind-Keeps world _ _
        (bind-Keeps world _ _ (recall-Keeps world _) λ known.
          bind-Keeps world _ _ (lift-Keeps world _) λ is_known.
            if_holds (Keeps world) is_known (back_known world lease.bid_id)
              (back_with world (offer_for lease.task_id legacy_offers))
              (λ t. bind-Keeps world _ _ (read_bid-Keeps lease.bid_id) λ bid. lift-Keeps world _)
              (λ f. back_with-Keeps (offer_for lease.task_id legacy_offers)))
        λ backing. bind-Keeps world _ _ (lift-Keeps world _) λ terms.
          bind-Keeps world _ _ (lift-Keeps world _) λ status.
            then-Keeps world _ _ (lift-Keeps world _)
              (then-Keeps world _ _ (keep_bid-Keeps lease backing) (lift-Keeps world _))

  reread-Keeps : (id : String) → Keeps world (reread world id)
  reread-Keeps id = bind-Keeps world _ _ (read_bid-Keeps (str id)) λ bid. lift-Keeps world _

  pub check_award-Keeps : (job row : Value) → Keeps world (check_award world job row)
  unfolding check_award
  check_award-Keeps job row = bind-Keeps world _ _ (read_bid-Keeps _) λ awarded.
      bind-Keeps world _ _ (lift-Keeps world _)
        λ named. bind-Keeps world _ _ (lift-Keeps world _) λ status. lift-Keeps world _

  withdrawal-Keeps :
      (id : String) (bid : Entries) (r : Result Value) → Keeps world (withdrawal world id bid r)
  withdrawal-Keeps id bid (err e) =
      if_holds (Keeps world) (offer_conflict e "not_open") (reread world id) (lift (err e))
        (λ t. reread-Keeps id) (λ f. lift-Keeps world _)
  withdrawal-Keeps id bid (ok response) =
      then-Keeps world _ _ (lift-Keeps world _)
        (then-Keeps world _ _ (update-Keeps world _ λ memory. refl) (save_offers-Keeps world))

  withdraw-Keeps : (id : String) (o : Option Entries) → Keeps world (withdraw world id o)
  withdraw-Keeps id none = lift-Keeps world _
  withdraw-Keeps id (some bid) =
      if_holds (Keeps world) (not (is_legacy bid) && says "open" (get_or_null "status" bid)) _ done
        (λ t.
          bind-Keeps world _ _ (withdraw_offer-Keeps world id)
            λ answer. withdrawal-Keeps id bid answer)
        (λ f. lift-Keeps world _)

  refused-Keeps :
      (offer : Value) (standing : Standing) (e : Exc) → Keeps world (refused world offer standing e)
  refused-Keeps offer standing e =
      if_holds (Keeps world) (offer_conflict e "not_offering" && not (in_window standing.bid)) _ _
        (λ t. update-Keeps world _ λ memory. refl)
        (λ f.
          if_holds (Keeps world) (offer_conflict e "window_closed") (reread_bid world standing)
            (lift (err e))
            (λ t.
              if_holds (Keeps world) (is_some standing.bid) (reread world standing.bid_id) done
                (λ b. reread-Keeps standing.bid_id) (λ b. lift-Keeps world _))
            (λ n. lift-Keeps world _))

  -- The answer on a post: only a known one is gone on from.
  submission-IsLeft :
      (job offer : Value) (standing : Standing) (r : Result Value) (memory : Memory)
      → Traced world memory.events
      → is_settled world memory.events ≡ is_known r
      → IsLeft world (submission world job offer standing r memory)
  unfolding submission
  submission-IsLeft job offer standing (err e) memory t s = elim (Bool-cases (is_unknown e)) [
    | inl y ↦ rw y (record { left = t; goes_on = λ o. cc o })
    | inr n ↦ rw n (
        then-Keeps world _ _ (update-Keeps world (set_pending null) λ m. refl)
          (then-Keeps world _ _ (save_offers-Keeps world) (refused-Keeps offer standing e)) memory
          (record { settled = s ∙ ap not n; traced = t }))
  ]
  submission-IsLeft job offer standing (ok response) memory t s =
      bind-Keeps world _ _ (lift-Keeps world _)
        (λ named. bind-Keeps world _ _ (recall-Keeps world _) λ fresh.
          then-Keeps world _ _ (lift-Keeps world _) (
            then-Keeps world _ _ (update-Keeps world _ λ m. refl) (
              then-Keeps world _ _ (update-Keeps world _ λ m. refl)
                (then-Keeps world _ _ (update-Keeps world _ λ m. refl) (save_offers-Keeps world)))))
        memory (record { settled = s; traced = t })

  post_offer-Keeps :
      (job : Value) (offer : Entries) (standing : Standing)
      → Keeps world (post_offer world job (obj offer) standing)
  unfolding post_offer ◌>>=◌ ◌>>◌ carry_on
  post_offer-Keeps job offer standing memory h =
      save_then-IsLeft world (set_pending (obj offer) memory) _
        (record { settled = h.settled; traced = h.traced })
        (submission-IsLeft job (obj offer) standing _ _
          (
            (record memory.offers { pending = obj offer }, (refl, refl)),
            (refl, (tt, (h.settled, h.traced))),
          )
          refl)

  place-Keeps :
      (job offer : Value) (standing : Standing) → Keeps world (place world job offer standing)
  unfolding place
  place-Keeps job offer standing = checked-Keeps world (validate_window_offer offer) _ λ passed.
      then-Keeps world _ _ (lift-Keeps world _) (
        if_holds (Keeps world)
          (in_window standing.bid && has_terms offer standing.bid && bid_says "open" standing.bid)
          done (post_offer world job offer standing) (λ t. lift-Keeps world _)
          (λ f.
            let (fields, is) =
              Ensures-eq-ok (λ u. (es : Entries) × (offer ≡ obj es)) _
                (window_offer-dictionary offer) passed in
            subst (λ v. Keeps world (post_offer world job v standing)) (sym is)
              (post_offer-Keeps job fields standing)))

  offered-Keeps :
      (job offer : Value) (standing : Standing) → Keeps world (offered world job offer standing)
  offered-Keeps job null standing = withdraw-Keeps standing.bid_id standing.bid
  offered-Keeps job offer standing = place-Keeps job offer standing

  pub bid_for-Keeps :
      (job row : Value) (standing : Standing) → Keeps world (bid_for world job row standing)
  unfolding bid_for refresh_standing price_and_place
  bid_for-Keeps job row standing =
      bind-Keeps world _ _
        (if_holds (Keeps world) (in_window standing.bid) _ (lift (ok standing))
          (λ t.
            bind-Keeps world _ _ (read_bid-Keeps (str standing.bid_id)) λ bid. lift-Keeps world _)
          (λ f. lift-Keeps world _))
        λ current.
          if_holds (Keeps world) (in_window current.bid && bid_says "awarded" current.bid) done _
            (λ t. lift-Keeps world _)
            (λ f.
              if_holds (Keeps world) (missing_pricing world) done _ (λ m. lift-Keeps world _)
                (λ n.
                  bind-Keeps world _ _ (lift-Keeps world _)
                    λ offer. offered-Keeps job offer current))
