-- ===== src/Window/Traced.antt =====
-- Programs of the window of ormas_subnet/skeleton.py that save what they intend before they post it,
-- and do nothing more after a post whose answer is unknown.
use ormas_subnet.Common.{
  ◌≡◌, refl, Bool, true, not, Option, none, some, String, List, [], ◌∷◌, Value, obj, Entries,
  Result, ok, err, is_ok,
}
use ormas_subnet.Window.{Offers}
use ormas_subnet.Window.Programs.{
  list_queue, get_offer, withdraw_offer, submit_offer, Claim, Event, asked, saved, World, Memory,
  Run, Program, carry_on, ◌>>=◌, ◌>>◌, lift, recall, update, save_offers, Saving, written,
  not_written, not_synced, after_save, ask, ask_for, claim_with,
}
use ormas_subnet.Window.Place.{is_unknown}

-- The record on disk.
abbrev pub last_saved : List Event → Option Offers
last_saved [] = none
last_saved (saved offers ∷ events) = some offers
last_saved (event ∷ events) = last_saved events

-- The record on disk names the offer as the one whose answer is unknown.
abbrev pub IsIntended : Entries → List Event → Type 0
IsIntended offer events =
    (offers : Offers) × ((last_saved events ≡ some offers) × (offers.pending ≡ obj offer))

abbrev pub Fits : Event → List Event → Type 0
Fits (asked (submit_offer offer)) events = IsIntended offer events
Fits event events = Unit

-- The answer says whether the gateway has recorded the offer.
abbrev pub is_known : Result Value → Bool
is_known (ok response) = true
is_known (err e) = not (is_unknown e)

module _ (world : World) where
  -- The last event is no post whose answer is unknown.
  abbrev pub is_settled : List Event → Bool
  is_settled (asked (submit_offer offer) ∷ events) =
      is_known (world.reply events (submit_offer offer))
  is_settled events = true

  -- Every post follows its intent, and only the last one may have an unknown answer.
  abbrev pub Traced : List Event → Type 0
  Traced [] = Unit
  Traced (event ∷ events) = Fits event events × ((is_settled events ≡ true) × Traced events)

  -- A program may go on, and what it leaves.
  pub record IsLive (events : List Event) : Type 0 where
    pub settled : is_settled events ≡ true
    pub traced : Traced events

  pub record IsLeft {A : Type 0} (run : Run A) : Type 0 where
    pub left : Traced run.memory.events
    pub goes_on : is_ok run.outcome ≡ true → is_settled run.memory.events ≡ true

  abbrev pub Keeps : {A : Type 0} → Program A → Type 0
  Keeps program = (memory : Memory) → IsLive memory.events → IsLeft (program memory)

  pub lift-Keeps : {A : Type 0} (r : Result A) → Keeps (lift r)
  lift-Keeps r memory h = record { left = h.traced; goes_on = λ o. h.settled }

  pub recall-Keeps : {A : Type 0} (f : Memory → A) → Keeps (recall f)
  recall-Keeps f memory h = record { left = h.traced; goes_on = λ o. h.settled }

  carry_on-IsLeft :
      {A B : Type 0} (memory : Memory) (r : Result A) (rest : A → Program B)
      → Traced memory.events
      → (is_ok r ≡ true → is_settled memory.events ≡ true)
      → ((a : A) → Keeps (rest a))
      → IsLeft (carry_on memory r rest)
  unfolding carry_on
  carry_on-IsLeft memory (err e) rest t s h = record { left = t; goes_on = λ o. cc }
  carry_on-IsLeft memory (ok a) rest t s h = h a memory (record { settled = s refl; traced = t })

  pub bind-Keeps :
      {A B : Type 0} (program : Program A) (rest : A → Program B)
      → Keeps program
      → ((a : A) → Keeps (rest a))
      → Keeps (program >>= rest)
  unfolding ◌>>=◌
  bind-Keeps program rest p h memory live =
      let run = p memory live in
      carry_on-IsLeft (program memory).memory (program memory).outcome rest run.left run.goes_on h

  pub then-Keeps :
      {B : Type 0} (program : Program (Unit {0})) (rest : Program B)
      → Keeps program
      → Keeps rest
      → Keeps (program >> rest)
  unfolding ◌>>◌
  then-Keeps program rest p h memory live =
      let run = p memory live in
      carry_on-IsLeft (program memory).memory (program memory).outcome (λ done. rest) run.left
        run.goes_on λ done. h

  -- After a check, what it found holds.
  pub checked-Keeps :
      {B : Type 0} (r : Result (Unit {0})) (rest : Program B)
      → (r ≡ ok tt → Keeps rest)
      → Keeps (lift r >> rest)
  unfolding ◌>>◌ carry_on
  checked-Keeps (ok u) rest h memory live = h refl memory live
  checked-Keeps (err e) rest h memory live = record { left = live.traced; goes_on = λ o. cc }

  pub update-Keeps :
      (f : Memory → Memory)
      → ((memory : Memory) → (f memory).events ≡ memory.events)
      → Keeps (update f)
  update-Keeps f same memory h = record {
    left = rw (same memory) h.traced;
    goes_on = λ o. rw (same memory) h.settled;
  }

  after_save-IsLeft :
      (memory : Memory) (s : Saving) → IsLive memory.events → IsLeft (after_save memory s)
  after_save-IsLeft memory written h = record {
    left = (tt, (h.settled, h.traced));
    goes_on = λ o. refl;
  }
  after_save-IsLeft memory (not_written e) h = record { left = h.traced; goes_on = λ o. cc }
  after_save-IsLeft memory (not_synced e) h = record {
    left = (tt, (h.settled, h.traced));
    goes_on = λ o. cc;
  }

  pub save_offers-Keeps : Keeps (save_offers world)
  unfolding save_offers
  save_offers-Keeps memory h = after_save-IsLeft memory (world.save memory.events memory.offers) h

  saved-IsLeft :
      {B : Type 0} (memory : Memory) (s : Saving) (rest : Program B)
      → IsLive memory.events
      → IsLeft (rest (record memory { events = saved memory.offers ∷ memory.events }))
      → IsLeft (carry_on (after_save memory s).memory (after_save memory s).outcome (λ done. rest))
  unfolding carry_on
  saved-IsLeft memory written rest h k = k
  saved-IsLeft memory (not_written e) rest h k = record { left = h.traced; goes_on = λ o. cc }
  saved-IsLeft memory (not_synced e) rest h k = record {
    left = (tt, (h.settled, h.traced));
    goes_on = λ o. cc;
  }

  -- What comes after a save finds the record on disk, or is not reached.
  pub save_then-IsLeft :
      {B : Type 0} (memory : Memory) (rest : Program B)
      → IsLive memory.events
      → IsLeft (rest (record memory { events = saved memory.offers ∷ memory.events }))
      → IsLeft ((save_offers world >> rest) memory)
  unfolding save_offers ◌>>◌
  save_then-IsLeft memory rest h k =
      saved-IsLeft memory (world.save memory.events memory.offers) rest h k

  pub claim_with-Keeps : (claim : Claim) → Keeps (claim_with world claim)
  claim_with-Keeps claim memory h = record {
    left = (tt, (h.settled, h.traced));
    goes_on = λ o. refl;
  }

  -- The requests that do not post.
  pub get_offer-Keeps : (id : String) → Keeps (ask_for world (get_offer id))
  get_offer-Keeps id memory h = record { left = (tt, (h.settled, h.traced)); goes_on = λ o. refl }

  pub withdraw_offer-Keeps : (id : String) → Keeps (ask world (withdraw_offer id))
  withdraw_offer-Keeps id memory h = record {
    left = (tt, (h.settled, h.traced));
    goes_on = λ o. refl;
  }

  pub list_queue-Keeps : Keeps (ask world list_queue)
  list_queue-Keeps memory h = record { left = (tt, (h.settled, h.traced)); goes_on = λ o. refl }
