-- ===== src/LogStore/Hub/Steps.antt =====
-- pkg/logstore/hub.go: one subscriber, its drain and its reader, in any interleaving.
use casa_os_app_management.Prelude.{
  ℕ, ◌+◌, ◌-◌, ◌*◌, ◌^◌, ◌≤◌, ◌<◌, ◌≡◌, Bool, false, Option, some, List, [], ◌∷◌, ◌++◌,
  if◌then◌else◌, length, drop, get_elem?, Sub,
}
use casa_os_app_management.LogStore.Hub.{
  Message, queue_size, u64, Subscriber, subscribe, enqueue, wants, publish_to, Offer, finish, wait,
  lag, item, pick, settle, unsubscribe,
}

-- A subscriber with what happened to it: what `drain` offers just now, the messages that were let
-- through for it, those that its reader received, and the drops that lag messages told the reader of.
pub record Feed (Matcher Line Event : Type 0) : Type 0 where
  pub sub : Subscriber Matcher Line Event
  pub offer : Offer Line Event
  pub accepted : List (Message Line Event)
  pub received : List (Message Line Event)
  pub reported : ℕ

-- One turn of one of the goroutines: `Publish`, the locked part of `drain` before an offer, a wake-up
-- that makes it start again, the reader taking what is offered, and the cancel function.
pub data Turn (Line Event : Type 0) : Type 0 where
  published : Message Line Event → Turn Line Event
  picked : Turn Line Event
  woken : Turn Line Event
  taken : Turn Line Event
  cancelled : Turn Line Event

module _ {Matcher Line Event : Type 0} where
  -- the messages in the queue, oldest first
  abbrev pub pending : Subscriber Matcher Line Event → List (Message Line Event)
  pending s = drop s.head s.q

  abbrev pub take_offer : Offer Line Event → Feed Matcher Line Event → Feed Matcher Line Event
  take_offer finish f = f
  take_offer wait f = f
  take_offer (lag n) f = record f {
    sub = settle (lag n) f.sub;
    offer = wait;
    reported = f.reported + n;
  }
  take_offer (item m id) f = record f {
    sub = settle (item m id) f.sub;
    offer = wait;
    received = f.received ++ m ∷ [];
  }

  unfoldable pub opened : Option Matcher → Feed Matcher Line Event
  unfolding subscribe
  opened m = record { sub = subscribe m; offer = wait; accepted = []; received = []; reported = 0 }

  abbrev pub accept : Message Line Event → Feed Matcher Line Event → Feed Matcher Line Event
  accept m f = record f { sub = enqueue m f.sub; accepted = f.accepted ++ m ∷ [] }

module _ {Matcher Line Event : Type 0} (match : Matcher → Line → Bool)
    (match_event : Matcher → Event → Bool) where
  unfoldable pub turn : Turn Line Event → Feed Matcher Line Event → Feed Matcher Line Event
  turn (published m) f =
      let sub' = publish_to match match_event m f.sub in
      record f {
        sub = sub';
        accepted =
            if wants match match_event f.sub.match m then f.accepted ++ m ∷ [] else f.accepted;
      }
  turn picked f = record f { offer = pick f.sub }
  turn woken f = record f { sub = record (f.sub) { wake = false }; offer = wait }
  turn taken f = take_offer f.offer f
  turn cancelled f = record f { sub = unsubscribe f.sub }

  unfoldable pub turns : List (Turn Line Event) → Feed Matcher Line Event → Feed Matcher Line Event
  turns [] f = f
  turns (t ∷ ts) f = turns ts (turn t f)

module _ {Matcher Line Event : Type 0} where
  -- What an offer of a message promises: the message is still the oldest in the queue, unless a drop
  -- after the pick took it out, which `dropped` and `popped` then count.
  abbrev pub OfferOk : Offer Line Event → Feed Matcher Line Event → Type 0
  OfferOk finish f = Unit {0}
  OfferOk wait f = Unit {0}
  OfferOk (lag n) f = n ≤ f.sub.dropped
  OfferOk (item m id) f =
      (f.sub.popped ≡ u64 (id + f.sub.dropped))
      × (id < 2 ^ 64)
      × (f.sub.dropped ≡ 0 → get_elem? f.sub.q f.sub.head ≡ some m)
      × (0 < f.sub.dropped → Sub (f.received ++ m ∷ pending f.sub) f.accepted)

  -- what every step keeps
  pub record Core (f : Feed Matcher Line Event) : Type 0 where
    pub fits : f.sub.head ≤ length f.sub.q
    pub counted :
        length f.accepted
        ≡ length f.received + f.reported + f.sub.dropped + (length f.sub.q - f.sub.head)
    pub popped_range : f.sub.popped < 2 ^ 64
    pub in_order : Sub (f.received ++ pending f.sub) f.accepted
    pub offer_ok : OfferOk f.offer f

  pub record Inv (f : Feed Matcher Line Event) : Type 0 where
    pub core : Core f
    pub small : length f.sub.q - f.sub.head ≤ queue_size
    pub short : length f.sub.q < 2 * queue_size
