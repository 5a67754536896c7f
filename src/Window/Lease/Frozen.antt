-- ===== src/Window/Lease/Frozen.antt =====
-- The lease that `_check_offer_lease` of ormas_subnet/skeleton.py passes is the award of an own bid.
use ormas_subnet.Common.{
  ◌≡◌, refl, ◌⊎◌, inl, inr, true, ◌&&◌, and-eq-true, Bool-cases, if_holds, Option, Option-cases,
  none, some, String, List, [], ◌∷◌, Value, str, obj, Entries, index, require_key, says, is_text,
  Result, ok, err, guard, guard_passed, Ensures, str_eq, eq_refl,
}
use ormas_subnet.Window.{Bid, find_bid, put_bid}
use ormas_subnet.Window.Programs.{
  World, Memory, Run, Program, Lease, get_offer, ask_for, save_offers, Saving, written, not_written,
  not_synced, after_save, lift, carry_on, ◌>>=◌, ◌>>◌,
}
use ormas_subnet.Window.Bids.{
  read_bid, refresh_bid, bid_of, id_of, is_legacy, with_status, check_status,
}
use ormas_subnet.Window.Lease.Terms.{IsFrozen, is_frozen-IsFrozen}
use ormas_subnet.Window.Lease.{
  Backing, is_frozen, known_bid, offer_for, back_with, back_known, backing_of, keep_bid,
  check_lease, frozen_error,
}

find_bid-put_bid :
    (id : String) (bid : Entries) (bids : List Bid) → find_bid id (put_bid id bid bids) ≡ some bid
unfolding put_bid
find_bid-put_bid id bid [] = rw (eq_refl id)
find_bid-put_bid id bid (b ∷ bids) = elim (Bool-cases (str_eq id b.bid_id)) [
  | inl t ↦ rw t (rw (eq_refl id))
  | inr n ↦ rw n (rw n (find_bid-put_bid id bid bids))
]

-- What holds of a value that is returned, and of the memory then.
abbrev pub Post : {A : Type 0} → (A → Memory → Type 0) → Run A → Type 0
Post Q run = Ensures (λ a. Q a run.memory) run.outcome

pub carry_on-Post :
    {A B : Type 0} (P : A → Memory → Type 0) (Q : B → Memory → Type 0) (memory : Memory)
    (r : Result A) (rest : A → Program B)
    → Ensures (λ a. P a memory) r
    → ((a : A) (m : Memory) → P a m → Post Q (rest a m))
    → Post Q (carry_on memory r rest)
unfolding carry_on
carry_on-Post P Q memory (ok a) rest h k = k a memory h
carry_on-Post P Q memory (err e) rest h k = tt

pub bind-Post :
    {A B : Type 0} (P : A → Memory → Type 0) (Q : B → Memory → Type 0) (program : Program A)
    (rest : A → Program B) (memory : Memory)
    → Post P (program memory)
    → ((a : A) (m : Memory) → P a m → Post Q (rest a m))
    → Post Q ((program >>= rest) memory)
unfolding ◌>>=◌
bind-Post P Q program rest memory h k =
    carry_on-Post P Q (program memory).memory (program memory).outcome rest h k

-- After what leaves the memory as it is, what it found holds.
pub lift-Post :
    {A B : Type 0} (Q : B → Memory → Type 0) (r : Result A) (rest : A → Program B) (memory : Memory)
    → ((a : A) → r ≡ ok a → Post Q (rest a memory))
    → Post Q ((lift r >>= rest) memory)
unfolding ◌>>=◌ carry_on
lift-Post Q (ok a) rest memory h = h a refl
lift-Post Q (err e) rest memory h = tt

pub check-Post :
    {B : Type 0} (Q : B → Memory → Type 0) (r : Result (Unit {0})) (rest : Program B)
    (memory : Memory)
    → (r ≡ ok tt → Post Q (rest memory))
    → Post Q ((lift r >> rest) memory)
unfolding ◌>>◌ carry_on
check-Post Q (ok u) rest memory h = h refl
check-Post Q (err e) rest memory h = tt

-- The bid is kept under the id.
abbrev Holds : Value → Entries → Memory → Type 0
Holds v bid memory = (id : String) × ((v ≡ str id) × (find_bid id memory.offers.bids ≡ some bid))

bid_of-Holds : (v : Value) (memory : Memory) → Ensures (λ bid. Holds v bid memory) (bid_of v memory)
bid_of-Holds (str id) memory = elim (Option-cases (find_bid id memory.offers.bids)) [
  | inl n ↦ rw (bid_of, n) tt
  | inr (bid, e) ↦ rw (bid_of, e) (id, (refl, e))
]
bid_of-Holds _ memory = tt

answered : {A : Type 0} (r : Result A) → Ensures (λ a. Unit {0}) r
answered (ok a) = tt
answered (err e) = tt

-- A bid that is new, or kept under the id of the lease.
abbrev IsBacking : Lease → Backing → Memory → Type 0
IsBacking lease b memory = (b.is_new ≡ true) ⊎ Holds lease.bid_id b.bid memory

named_id :
    (v : Value) (bid : Entries) (bids : List Bid)
    → find_bid (id_of v) bids ≡ some bid
    → is_text v ≡ true
    → (id : String) × ((v ≡ str id) × (find_bid id bids ≡ some bid))
named_id (str id) bid bids f t = (id, (refl, f))
named_id _ bid bids f t = cc t

module _ (world : World) where
  -- A lease that its bid backs: the bid is kept under its id, it is awarded, and the lease has the
  -- terms of the bid.
  pub record IsBacked (lease : Lease) (memory : Memory) : Type 0 where
    pub bid : Entries
    pub terms : Value
    pub kept : Holds lease.bid_id bid memory
    pub termed : index "terms" (obj bid) ≡ ok terms
    pub status : Value
    pub stated : require_key "status" bid ≡ ok status
    pub awarded : says "awarded" status ≡ true
    pub frozen : IsFrozen world.runner_id lease terms

  -- What is returned is the lease, and its bid backs it.
  abbrev pub IsTaken : Lease → Option Lease → Memory → Type 0
  IsTaken lease o memory = (o ≡ some lease) × IsBacked lease memory

  after_save-Post :
      {B : Type 0} (Q : B → Memory → Type 0) (memory : Memory) (s : Saving) (rest : Program B)
      → ((m : Memory) → m.offers ≡ memory.offers → Post Q (rest m))
      → Post Q (carry_on (after_save memory s).memory (after_save memory s).outcome (λ done. rest))
  unfolding carry_on
  after_save-Post Q memory written rest h = h _ refl
  after_save-Post Q memory (not_written e) rest h = tt
  after_save-Post Q memory (not_synced e) rest h = tt

  -- A save leaves the record in memory as it is.
  save_then-Post :
      {B : Type 0} (Q : B → Memory → Type 0) (memory : Memory) (rest : Program B)
      → ((m : Memory) → m.offers ≡ memory.offers → Post Q (rest m))
      → Post Q ((save_offers world >> rest) memory)
  unfolding save_offers ◌>>◌
  save_then-Post Q memory rest h =
      after_save-Post Q memory (world.save memory.events memory.offers) rest h

  saving-Post :
      (Q : Unit {0} → Memory → Type 0) (memory : Memory) (s : Saving)
      → ((m : Memory) → m.offers ≡ memory.offers → Q tt m)
      → Post Q (after_save memory s)
  saving-Post Q memory written h = h _ refl
  saving-Post Q memory (not_written e) h = tt
  saving-Post Q memory (not_synced e) h = tt

  save-Post :
      (Q : Unit {0} → Memory → Type 0) (memory : Memory)
      → ((m : Memory) → m.offers ≡ memory.offers → Q tt m)
      → Post Q (save_offers world memory)
  unfolding save_offers
  save-Post Q memory h = saving-Post Q memory (world.save memory.events memory.offers) h

  refresh_bid-Holds :
      (id : String) (bid : Entries) (memory : Memory)
      → Post (Holds (str id)) (refresh_bid world id bid memory)
  unfolding refresh_bid ◌>>◌ carry_on
  refresh_bid-Holds id bid memory =
      bind-Post (λ response m. Unit {0}) (Holds (str id)) (ask_for world (get_offer id)) _ memory
        (answered (world.reply memory.events (get_offer id)))
        λ response m u. check-Post (Holds (str id)) (check_status id bid response) _ m λ passed.
          save_then-Post (Holds (str id)) _ _ λ n same.
            rw same (id, (refl, find_bid-put_bid id (with_status bid response) m.offers.bids))

  refresh_bid-Holds_value :
      (v : Value) (bid : Entries) (memory : Memory)
      → Holds v bid memory
      → Post (Holds v) (refresh_bid world (id_of v) bid memory)
  refresh_bid-Holds_value (str id) bid memory h = refresh_bid-Holds id bid memory
  refresh_bid-Holds_value _ bid memory h = cc h.1.0

  read_bid-Holds : (v : Value) (memory : Memory) → Post (Holds v) (read_bid world v memory)
  unfolding read_bid ◌>>=◌ carry_on
  read_bid-Holds v memory =
      carry_on-Post (λ bid m. Holds v bid m) (Holds v) memory (bid_of v memory) _
        (bid_of-Holds v memory)
        λ bid m h.
          if_holds (λ program. Post (Holds v) (program m)) (is_legacy bid) (lift (ok bid))
            (refresh_bid world (id_of v) bid) (λ t. h) (λ f. refresh_bid-Holds_value v bid m h)

  back_with-IsBacking :
      (lease : Lease) (o : Option Entries) (memory : Memory)
      → Post (IsBacking lease) (back_with world o memory)
  back_with-IsBacking lease none memory = tt
  back_with-IsBacking lease (some terms) memory = inl refl

  backing_of-IsBacking :
      (lease : Lease) (legacy_offers : List Entries) (memory : Memory)
      → Post (IsBacking lease) (backing_of world lease legacy_offers memory)
  unfolding backing_of ◌>>=◌ carry_on
  backing_of-IsBacking lease legacy_offers memory =
      carry_on-Post (λ known m. Unit {0}) (IsBacking lease) memory (known_bid lease.bid_id memory) _
        (answered (known_bid lease.bid_id memory))
        λ is_known m u.
          if_holds (λ program. Post (IsBacking lease) (program m)) is_known
            (back_known world lease.bid_id)
            (back_with world (offer_for lease.task_id legacy_offers))
            (λ t.
              bind-Post (Holds lease.bid_id) (IsBacking lease) (read_bid world lease.bid_id) _ m
                (read_bid-Holds lease.bid_id m) λ bid n h. inr h)
            (λ f. back_with-IsBacking lease (offer_for lease.task_id legacy_offers) m)

  keep_bid-Holds :
      (lease : Lease) (b : Backing) (memory : Memory)
      → IsBacking lease b memory
      → Post (λ u m. Holds lease.bid_id b.bid m) (keep_bid world lease b memory)
  unfolding keep_bid ◌>>◌ carry_on
  keep_bid-Holds lease b memory h = elim (Bool-cases b.is_new) [
    | inl t ↦ rw t (
        check-Post (λ u m. Holds lease.bid_id b.bid m) (guard (is_text lease.bid_id) _) _ memory
          λ passed.
            save-Post (λ u m. Holds lease.bid_id b.bid m) _
              λ m same. rw same (
                named_id lease.bid_id _ _
                  (find_bid-put_bid (id_of lease.bid_id) b.bid memory.offers.bids)
                  (guard_passed _ _ passed)))
    | inr f ↦ rw f (elim h [ inl t ↦ cc (t, f) | inr k ↦ k ])
  ]

  keep_then-IsBacked :
      (lease : Lease) (b : Backing) (memory : Memory) (terms status : Value)
      → IsBacking lease b memory
      → index "terms" (obj b.bid) ≡ ok terms
      → require_key "status" b.bid ≡ ok status
      → says "awarded" status ≡ true
      → is_frozen world.runner_id lease terms ≡ true
      → Post (IsTaken lease) ((keep_bid world lease b >> lift (ok (some lease))) memory)
  unfolding ◌>>◌
  keep_then-IsBacked lease b memory terms status h e s a f =
      carry_on-Post (λ u m. Holds lease.bid_id b.bid m) (IsTaken lease)
        (keep_bid world lease b memory).memory (keep_bid world lease b memory).outcome _
        (keep_bid-Holds lease b memory h)
        λ u m kept. (
          refl,
          record {
            bid = b.bid;
            terms = terms;
            kept = kept;
            termed = e;
            status = status;
            stated = s;
            awarded = a;
            frozen = is_frozen-IsFrozen world.runner_id lease terms f;
          },
        )

  -- A lease that the check of the window returns is the one that was claimed, and an own bid backs
  -- it: afterwards the bid is kept under the id of the lease, its status is awarded, and the lease
  -- is for its job, of its kind, for this runner and at its amounts.
  pub check_lease-IsBacked :
      (lease : Lease) (legacy_offers : List Entries) (memory : Memory)
      → Ensures
          (λ o. IsTaken lease o (check_lease world lease legacy_offers memory).memory)
          (check_lease world lease legacy_offers memory).outcome
  unfolding check_lease
  check_lease-IsBacked lease legacy_offers memory =
      bind-Post (IsBacking lease) (IsTaken lease) (backing_of world lease legacy_offers) _ memory
        (backing_of-IsBacking lease legacy_offers memory)
        λ b m h. lift-Post (IsTaken lease) (index "terms" (obj b.bid)) _ m λ terms e.
          lift-Post (IsTaken lease) (require_key "status" b.bid) _ m λ status s.
            check-Post (IsTaken lease)
              (guard (says "awarded" status && is_frozen world.runner_id lease terms) frozen_error)
              _ m
              λ passed.
                let checks =
                  and-eq-true (says "awarded" status) (is_frozen world.runner_id lease terms)
                    (guard_passed _ _ passed) in
                keep_then-IsBacked lease b m terms status h e s checks.0 checks.1
