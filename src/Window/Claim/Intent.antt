-- ===== src/Window/Claim/Intent.antt =====
-- A claim of ormas_subnet/skeleton.py saves each offer as its intent before it posts it.
use ormas_subnet.Common.{
  ◌≡◌, ◌≢◌, refl, is_ok, is_ok-false, ok_injective, index, sym, ◌∙◌, Bool, false, Option, none,
  some, String, List, [], ◌∷◌, Value, null, Entries, Result, ok, err, if_holds, truthy,
}
use ormas_subnet.Window.{Offers, File, parsed, offer_state}
use ormas_subnet.Window.Kept.{offer_state-IsKept}
use ormas_subnet.Window.Programs.{World, Run, Lease, lift}
use ormas_subnet.Window.Bids.{field_of}
use ormas_subnet.Window.Place.{is_unsupported, missing_pricing}
use ormas_subnet.Window.Claim.{
  process_entry, process_entries, claim_legacy, claim_priced, claim_after, claim_without_queue,
  claim_queued, claim_window, run_window, claim_offer_window,
}
use ormas_subnet.Window.Traced.{
  Traced, Keeps, lift-Keeps, recall-Keeps, bind-Keeps, then-Keeps, update-Keeps, claim_with-Keeps,
  list_queue-Keeps,
}
use ormas_subnet.Window.Claim.Steps.{bid_for-Keeps, check_award-Keeps, check_offer_lease-Keeps}

-- Nothing was done, and no lease was claimed.
abbrev pub IsIdle : Run (Option Lease) → Type 0
IsIdle run = (run.memory.events ≡ []) × (is_ok run.outcome ≡ false)

module _ (world : World) where
  process_entries-Keeps : (rows : List Value) → Keeps world (process_entries world rows)
  unfolding process_entries process_entry
  process_entries-Keeps [] = lift-Keeps world _
  process_entries-Keeps (row ∷ rows) =
      then-Keeps world _ _
        (bind-Keeps world _ _ (lift-Keeps world _) λ job.
          bind-Keeps world _ _ (recall-Keeps world _) λ found.
            bind-Keeps world _ _ (lift-Keeps world _) λ standing.
              if_holds (Keeps world) (truthy (field_of "awarded_to_you" row)) _ _
                (λ t. check_award-Keeps world job row) (λ f. bid_for-Keeps world job row standing))
        (process_entries-Keeps rows)

  claim_legacy-Keeps : (offers : List Entries) → Keeps world (claim_legacy world offers)
  claim_legacy-Keeps [] = lift-Keeps world _
  claim_legacy-Keeps (offer ∷ offers) =
      bind-Keeps world _ _ (claim_with-Keeps world _)
        λ claimed. check_offer_lease-Keeps world claimed (offer ∷ offers)

  claim_priced-Keeps : (o : Option Lease) → Keeps world (claim_priced world o)
  claim_priced-Keeps (some lease) = check_offer_lease-Keeps world (some lease) []
  claim_priced-Keeps none =
      if_holds (Keeps world) (missing_pricing world) _ _ (λ t. lift-Keeps world _)
        (λ f. bind-Keeps world _ _ (recall-Keeps world _) λ offers. claim_legacy-Keeps offers)

  claim_after-Keeps : (rows : List Value) → Keeps world (claim_after world rows)
  unfolding claim_after
  claim_after-Keeps rows = then-Keeps world _ _ (process_entries-Keeps rows) (
      bind-Keeps world _ _ (recall-Keeps world _) λ unbid.
        then-Keeps world _ _ (lift-Keeps world _)
          (bind-Keeps world _ _ (claim_with-Keeps world _) λ claimed. claim_priced-Keeps claimed))

  claim_without_queue-Keeps : Keeps world (claim_without_queue world)
  unfolding claim_without_queue
  claim_without_queue-Keeps = bind-Keeps world _ _ (recall-Keeps world _) λ unbid.
      then-Keeps world _ _ (lift-Keeps world _)
        (then-Keeps world _ _ (update-Keeps world _ λ memory. refl) (claim_with-Keeps world _))

  claim_queued-Keeps : (r : Result Value) → Keeps world (claim_queued world r)
  claim_queued-Keeps (err e) =
      if_holds (Keeps world) (is_unsupported e) (claim_without_queue world) (lift (err e))
        (λ t. claim_without_queue-Keeps) (λ f. lift-Keeps world _)
  claim_queued-Keeps (ok queue) =
      bind-Keeps world _ _ (lift-Keeps world _) λ rows. claim_after-Keeps rows

  claim_window-Keeps : Keeps world (claim_window world)
  claim_window-Keeps = bind-Keeps world _ _ (recall-Keeps world _) λ unsupported.
      if_holds (Keeps world) unsupported (claim_without_queue world) _
        (λ t. claim_without_queue-Keeps)
        (λ f. bind-Keeps world _ _ (list_queue-Keeps world) λ queue. claim_queued-Keeps queue)

  run_window-Traced :
      (r : Result Offers) (unsupported : Bool)
      → Traced world (run_window world r unsupported).memory.events
  run_window-Traced (err e) unsupported = tt
  run_window-Traced (ok offers) unsupported =
      (claim_window-Keeps _ (record { settled = refl; traced = tt })).left

  -- Whatever the gateway answers, a claim posts an offer only while the record that it saved last
  -- names this offer as pending; and a post whose answer leaves it open whether the gateway has
  -- recorded the offer is the last thing that the claim does.
  pub claim_offer_window-Traced :
      (gateway : String) (file : File) (unsupported : Bool)
      → Traced world (claim_offer_window world gateway file unsupported).memory.events
  unfolding claim_offer_window
  claim_offer_window-Traced gateway file unsupported =
      run_window-Traced (offer_state gateway world.runner_id file) unsupported

  blocked :
      (r : Result Offers) (unsupported : Bool)
      → is_ok r ≡ false
      → IsIdle (run_window world r unsupported)
  blocked (err e) unsupported h = (refl, refl)
  blocked (ok offers) unsupported h = cc h

  -- While the record on disk has an offer whose answer is unknown, a claim raises, and asks the
  -- gateway for nothing and saves nothing.
  pub claim_offer_window-IsIdle :
      (gateway : String) (state pending : Value) (unsupported : Bool)
      → index "pending" state ≡ ok pending
      → pending ≢ null
      → IsIdle (claim_offer_window world gateway (parsed state) unsupported)
  unfolding claim_offer_window
  claim_offer_window-IsIdle gateway state pending unsupported h n =
      blocked (offer_state gateway world.runner_id (parsed state)) unsupported (
        is_ok-false _ _ (offer_state-IsKept gateway world.runner_id (parsed state))
          λ offers kept. elim (n (ok_injective (sym h ∙ kept.1))) [ ])
