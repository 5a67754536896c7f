-- ===== src/Window/Claim/Awarded.antt =====
-- What a claim of ormas_subnet/skeleton.py returns is the award of an own bid, unless the gateway
-- has no queue.
use ormas_subnet.Common.{
  ◌≡◌, refl, ◌⊎◌, inl, inr, Bool, true, not, ◌&&◌, if_holds, Option, none, some, String, List, [],
  ◌∷◌, Value, Entries, Result, ok, err, Ensures, guard, guard_passed,
}
use ormas_subnet.Window.{Bid, Offers, File, offer_state}
use ormas_subnet.Window.Programs.{
  World, Memory, Program, Lease, with_ask, with_offers, lift, claim_with, carry_on, list_queue, ask,
  recall, ◌>>=◌, ◌>>◌,
}
use ormas_subnet.Window.Lease.{check_lease, check_offer_lease}
use ormas_subnet.Window.Lease.Frozen.{Post, check-Post, IsBacked, check_lease-IsBacked}
use ormas_subnet.Window.Place.{is_unsupported, no_bids, missing_pricing}
use ormas_subnet.Window.Claim.{
  pricing_error, claim_legacy, claim_priced, claim_after, claim_without_queue, claim_queued,
  process_entries, run_window, claim_offer_window, jobs_of,
}

carried :
    {A B : Type 0} (Q : B → Memory → Type 0) (memory : Memory) (r : Result A) (rest : A → Program B)
    → ((a : A) (m : Memory) → Post Q (rest a m))
    → Post Q (carry_on memory r rest)
unfolding carry_on
carried Q memory (ok a) rest h = h a memory
carried Q memory (err e) rest h = tt

-- After any program, whatever it returns and leaves in the memory.
any-Post :
    {A B : Type 0} (Q : B → Memory → Type 0) (program : Program A) (rest : A → Program B)
    (memory : Memory)
    → ((a : A) (m : Memory) → Post Q (rest a m))
    → Post Q ((program >>= rest) memory)
unfolding ◌>>=◌
any-Post Q program rest memory h = carried Q (program memory).memory (program memory).outcome rest h

then-Post :
    {B : Type 0} (Q : B → Memory → Type 0) (program : Program (Unit {0})) (rest : Program B)
    (memory : Memory)
    → ((m : Memory) → Post Q (rest m))
    → Post Q ((program >> rest) memory)
unfolding ◌>>◌
then-Post Q program rest memory h =
    carried Q (program memory).memory (program memory).outcome (λ done. rest) (λ a m. h m)

no_bids-empty : (bids : List Bid) → no_bids bids ≡ true → bids ≡ []
no_bids-empty [] h = refl
no_bids-empty (b ∷ bids) h = cc h

module _ (world : World) where
  -- No lease; a lease that an own bid backs; or, from a gateway without a queue and with no bid of
  -- the runner's, a lease at the runner's price.
  abbrev pub IsAward : Option Lease → Memory → Type 0
  IsAward o memory =
      (o ≡ none)
      ⊎ (((lease : Lease) × (o ≡ some lease) × IsBacked world lease memory)
          ⊎ ((memory.queue_unsupported ≡ true) × (memory.offers.bids ≡ [])))

  taken-IsAward :
      (lease : Lease) (memory : Memory) (r : Result (Option Lease))
      → Ensures (λ o. (o ≡ some lease) × IsBacked world lease memory) r
      → Ensures (λ o. IsAward o memory) r
  taken-IsAward lease memory (ok o) h = inr (inl (lease, h.0, h.1))
  taken-IsAward lease memory (err e) h = tt

  check_offer_lease-IsAward :
      (o : Option Lease) (legacy : List Entries) (memory : Memory)
      → Post IsAward (check_offer_lease world o legacy memory)
  check_offer_lease-IsAward none legacy memory = inl refl
  check_offer_lease-IsAward (some lease) legacy memory =
      taken-IsAward lease (check_lease world lease legacy memory).memory
        (check_lease world lease legacy memory).outcome
        (check_lease-IsBacked world lease legacy memory)

  claim_legacy-IsAward :
      (offers : List Entries) (memory : Memory) → Post IsAward (claim_legacy world offers memory)
  claim_legacy-IsAward [] memory = inl refl
  claim_legacy-IsAward (offer ∷ offers) memory =
      any-Post IsAward (claim_with world (with_offers (offer ∷ offers))) _ memory
        λ claimed m. check_offer_lease-IsAward claimed (offer ∷ offers) m

  claim_priced-IsAward :
      (o : Option Lease) (memory : Memory) → Post IsAward (claim_priced world o memory)
  claim_priced-IsAward (some lease) memory = check_offer_lease-IsAward (some lease) [] memory
  claim_priced-IsAward none memory =
      if_holds (λ program. Post IsAward (program memory)) (missing_pricing world)
        (lift (err (pricing_error world))) _ (λ t. tt)
        λ f.
          any-Post IsAward (recall (λ m. m.legacy_offers)) _ memory
            λ offers m. claim_legacy-IsAward offers m

  claim_after-IsAward :
      (entries : List Value) (memory : Memory) → Post IsAward (claim_after world entries memory)
  unfolding claim_after
  claim_after-IsAward entries memory =
      then-Post IsAward (process_entries world entries) _ memory λ m.
        any-Post IsAward (recall (λ n. no_bids n.offers.bids)) _ m λ unbid n.
          then-Post IsAward (lift (guard (not (missing_pricing world && unbid)) _)) _ n λ k.
            any-Post IsAward (claim_with world (with_offers [])) _ k
              λ claimed l. claim_priced-IsAward claimed l

  -- The claim at the runner's price is the last step, and leaves the bids as they are.
  priced-IsAward :
      (memory : Memory) (r : Result (Option Lease))
      → memory.queue_unsupported ≡ true
      → memory.offers.bids ≡ []
      → Ensures (λ o. IsAward o memory) r
  priced-IsAward memory (ok o) u b = inr (inr (u, b))
  priced-IsAward memory (err e) u b = tt

  claim_without_queue-IsAward : (memory : Memory) → Post IsAward (claim_without_queue world memory)
  unfolding claim_without_queue ◌>>=◌ ◌>>◌ carry_on
  claim_without_queue-IsAward memory =
      check-Post IsAward (guard (no_bids memory.offers.bids) _) _ memory λ passed.
        priced-IsAward _ (world.claim_task memory.events (with_ask world.ask_usd)) refl
          (no_bids-empty memory.offers.bids (guard_passed _ _ passed))

  claim_queued-IsAward :
      (r : Result Value) (memory : Memory) → Post IsAward (claim_queued world r memory)
  claim_queued-IsAward (err e) memory =
      if_holds (λ program. Post IsAward (program memory)) (is_unsupported e)
        (claim_without_queue world) (lift (err e)) (λ t. claim_without_queue-IsAward memory)
        (λ f. tt)
  claim_queued-IsAward (ok queue) memory =
      any-Post IsAward (lift (jobs_of queue)) _ memory λ entries m. claim_after-IsAward entries m

  run_window-IsAward :
      (r : Result Offers) (unsupported : Bool) → Post IsAward (run_window world r unsupported)
  run_window-IsAward (err e) unsupported = tt
  run_window-IsAward (ok offers) unsupported =
      any-Post IsAward (recall (λ m. m.queue_unsupported)) _ _ λ no_queue m.
        if_holds (λ program. Post IsAward (program m)) no_queue (claim_without_queue world) _
          (λ t. claim_without_queue-IsAward m)
          λ f. any-Post IsAward (ask world list_queue) _ m λ queue n. claim_queued-IsAward queue n

  -- Whatever stands on disk and the gateway answers, a claim that returns has no lease, or a lease
  -- that an own bid backs: the bid is kept under the id of the lease and its status is awarded, and
  -- the lease is for its job, of its kind, for this runner and at its amounts. Only where the
  -- gateway has no queue, and no bid is kept, the lease is not checked.
  pub claim_offer_window-IsAward :
      (gateway : String) (file : File) (unsupported : Bool)
      → Ensures
          (λ o. IsAward o (claim_offer_window world gateway file unsupported).memory)
          (claim_offer_window world gateway file unsupported).outcome
  unfolding claim_offer_window
  claim_offer_window-IsAward gateway file unsupported =
      run_window-IsAward (offer_state gateway world.runner_id file) unsupported
