-- ===== src/LogStore/Hub/Feeds.antt =====
-- pkg/logstore/hub.go: what a reader of the hub is owed.
use casa_os_app_management.Prelude.{
  ◌+◌, ◌-◌, ◌*◌, ◌^◌, ◌≤◌, ◌<◌, ◌≡◌, inl, inr, refl, Bool, false, Option, List, [], ◌∷◌, ◌++◌,
  arith, Bool-cases, length, length-append, length-drop, Sub, nil,
}
use casa_os_app_management.LogStore.Hub.{
  queue_size, Offer, finish, wait, lag, item, publish_to, wants, unsubscribe,
}
use casa_os_app_management.LogStore.Hub.Steps.{
  Feed, Turn, published, picked, woken, taken, cancelled, opened, turn, turns, pending, take_offer,
  OfferOk, Inv,
}
use casa_os_app_management.LogStore.Hub.Publish.{accept-Inv}
use casa_os_app_management.LogStore.Hub.Drain.{pick-Inv, lag-Inv, item-Inv}

module _ {Matcher Line Event : Type 0} (f : Feed Matcher Line Event) (v : Inv f)
    (few : length f.accepted < 2 ^ 64) where
  take-Inv :
      (o : Offer Line Event)
      → OfferOk o f
      → Inv (take_offer o f) × (length (take_offer o f).accepted ≡ length f.accepted)
  take-Inv finish ok = (v, refl)
  take-Inv wait ok = (v, refl)
  take-Inv (lag n) ok = (lag-Inv f v n ok, refl)
  take-Inv (item m id) ok = (item-Inv f v m id ok few, refl)

  wake-Inv : Inv (record f { sub = record (f.sub) { wake = false }; offer = wait })
  wake-Inv = record {
    core = record {
      fits = v.core.fits;
      counted = v.core.counted;
      popped_range = v.core.popped_range;
      in_order = v.core.in_order;
      offer_ok = tt;
    };
    small = v.small;
    short = v.short;
  }

  closed_offer :
      (o : Offer Line Event) → OfferOk o f → OfferOk o (record f { sub = unsubscribe f.sub })
  unfolding unsubscribe
  closed_offer finish ok = tt
  closed_offer wait ok = tt
  closed_offer (lag n) ok = ok
  closed_offer (item m id) ok = ok

  cancel-Inv : Inv (record f { sub = unsubscribe f.sub })
  unfolding unsubscribe
  cancel-Inv = record {
    core = record {
      fits = v.core.fits;
      counted = v.core.counted;
      popped_range = v.core.popped_range;
      in_order = v.core.in_order;
      offer_ok = closed_offer f.offer v.core.offer_ok;
    };
    small = v.small;
    short = v.short;
  }

module _ {Matcher Line Event : Type 0} (match : Matcher → Line → Bool)
    (match_event : Matcher → Event → Bool) where
  turn-Inv :
      (t : Turn Line Event) (f : Feed Matcher Line Event)
      → Inv f
      → length f.accepted < 2 ^ 64
      → Inv (turn match match_event t f)
        × (length (turn match match_event t f).accepted ≤ length f.accepted + 1)
  unfolding turn publish_to
  turn-Inv (published m) f v few = elim (Bool-cases (wants match match_event f.sub.match m)) [
    | inl passes ↦ rw passes (accept-Inv m f v, omega (arith, length-append f.accepted (m ∷ [])))
    | inr stays ↦ rw stays (v, omega arith)
  ]
  turn-Inv picked f v few = (pick-Inv f v, omega arith)
  turn-Inv woken f v few = (wake-Inv f v few, omega arith)
  turn-Inv taken f v few =
      let (i, same) = take-Inv f v few f.offer v.core.offer_ok in (i, omega (arith, same))
  turn-Inv cancelled f v few = (cancel-Inv f v few, omega arith)

  turns-Inv :
      (ts : List (Turn Line Event)) (f : Feed Matcher Line Event)
      → Inv f
      → length f.accepted + length ts < 2 ^ 64
      → Inv (turns match match_event ts f)
  unfolding turns
  turns-Inv [] f v few = v
  turns-Inv (t ∷ ts) f v few =
      let (i, grown) = turn-Inv t f v (omega arith) in
      turns-Inv ts (turn match match_event t f) i (omega (arith, grown))

  opened-Inv : (m : Option Matcher) → Inv (opened {Line = Line} {Event = Event} m)
  unfolding opened
  opened-Inv m = record {
    core = record {
      fits = omega arith;
      counted = refl;
      popped_range = omega arith;
      in_order = nil;
      offer_ok = tt;
    };
    small = omega arith;
    short = omega arith;
  }

  -- However publishing, draining, reading and cancelling interleave, in fewer than 2^64 turns, every
  -- message let through for a subscriber is accounted for once: the reader has it, a lag message told
  -- of its drop, its drop is still to be told, or it is in the queue.
  pub hub_accounts :
      (m : Option Matcher) (ts : List (Turn Line Event))
      → length ts < 2 ^ 64
      → let f = turns match match_event ts (opened m) in
        length f.accepted
        ≡ length f.received + f.reported + f.sub.dropped + (length f.sub.q - f.sub.head)
  hub_accounts m ts few =
      (turns-Inv ts (opened m) (opened-Inv m) (unfold opened in omega arith)).core.counted

  -- What the reader received, followed by what is queued for it, is what was let through for it in
  -- the order of publishing, with some left out and none twice.
  pub hub_in_order :
      (m : Option Matcher) (ts : List (Turn Line Event))
      → length ts < 2 ^ 64
      → let f = turns match match_event ts (opened m) in
        Sub (f.received ++ pending f.sub) f.accepted
  hub_in_order m ts few =
      (turns-Inv ts (opened m) (opened-Inv m) (unfold opened in omega arith)).core.in_order

  -- The queue of a subscriber never holds more than `QueueSize` messages, and its backing array has
  -- fewer than twice as many slots in use.
  pub hub_bounded :
      (m : Option Matcher) (ts : List (Turn Line Event))
      → length ts < 2 ^ 64
      → let f = turns match match_event ts (opened m) in
        (length (pending f.sub) ≤ queue_size) × (length f.sub.q < 2 * queue_size)
  hub_bounded m ts few =
      let v = turns-Inv ts (opened m) (opened-Inv m) (unfold opened in omega arith) in
      let f = turns match match_event ts (opened m) in
      (omega (arith, v.small, length-drop f.sub.head f.sub.q), v.short)
