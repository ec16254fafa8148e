-- ===== src/LogStore/Hub.antt =====
-- pkg/logstore/hub.go: what a subscriber's queue keeps of the messages published.
--
-- Everything under `Hub.mu` is one step on `Subscriber`; `drain` has the lock in `pick` and in
-- `settle`, and none while it offers the message in between. The matcher is a parameter: it is that of
-- pkg/logstore/query.go.
pub mod Steps
mod Publish
mod Drain
pub mod Feeds
mod Examples
use casa_os_app_management.Prelude.{
  ℕ, zero, suc, ◌+◌, ◌-◌, ◌*◌, ◌/◌, ◌%◌, ◌^◌, ◌≤◌, ◌<◌, min, max, String, ◌≡◌, ◌≢◌, ◌↔◌, ◌⊎◌, inl,
  inr, refl, sym, ap, subst, ◌∙◌, Bool, true, false, not, ◌&&◌, ◌||◌, Option, none, some, List, [],
  ◌∷◌, ◌++◌, map, arith, eq_iff, eq_refl, ◌==◌, ltb, leb, ◌=ℕ◌, if◌then◌else◌, leb→le, ltb→lt,
  Bool-cases, Option-cases, length, take, drop, length-append, length-take, length-drop,
  take-append-drop, count, any, keep, count-append, count-le-length, any-pos, any_none, get_elem?,
  set, count-set, count-pos, snoc-ne-nil, All, All-append, All-map, str_le, codes, str_le_total,
  str_le_trans, insert, insertion_sort, IsSorted, insertion_sort-IsSorted, count-insertion_sort,
  length-insertion_sort,
}
use casa_os_app_management.Prelude.Map
use casa_os_app_management.Prelude.Map.{
  Map, get-assign, get-delete, keys, IsMap, IsMap-assign, IsMap-delete, any-keys, count-keys,
}

pub record Message (Line Event : Type 0) : Type 0 where
  pub t : String
  pub line : Option Line
  pub event : Option Event
  pub dropped : ℕ

-- `QueueSize`
abbrev pub queue_size : ℕ
queue_size = 10000

-- a `uint64`
abbrev pub u64 : ℕ → ℕ
u64 n = n % 2 ^ 64

-- What `subscriber` holds behind the lock; its channels are the steps of `drain`. `wake` is the one
-- slot of the channel of that name.
pub record Subscriber (Matcher Line Event : Type 0) : Type 0 where
  pub match : Option Matcher
  pub wake : Bool
  pub q : List (Message Line Event)
  pub head : ℕ
  pub popped : ℕ
  pub dropped : ℕ
  pub closed : Bool

module _ {Line Event : Type 0} where
  abbrev pub blank : Message Line Event
  blank = record { t = ""; line = none; event = none; dropped = 0 }

  abbrev pub lag_of : ℕ → Message Line Event
  lag_of n = record { t = "lag"; line = none; event = none; dropped = n }

module _ {Matcher Line Event : Type 0} where
  -- `Subscribe`: a subscriber before anything is published
  unfoldable pub subscribe : Option Matcher → Subscriber Matcher Line Event
  subscribe m = record {
    match = m;
    wake = false;
    q = [];
    head = 0;
    popped = 0;
    dropped = 0;
    closed = false;
  }

  -- a full queue drops its oldest message
  unfoldable pub make_room : Subscriber Matcher Line Event → Subscriber Matcher Line Event
  make_room s =
      if length s.q - s.head =ℕ queue_size
      then record s {
        q = set s.q s.head blank;
        head = s.head + 1;
        popped = u64 (s.popped + 1);
        dropped = s.dropped + 1;
      }
      else s

  -- so that the backing array stays bounded
  unfoldable pub compact : Subscriber Matcher Line Event → Subscriber Matcher Line Event
  compact s = if leb queue_size s.head then record s { q = drop s.head s.q; head = 0 } else s

  unfoldable pub enqueue :
      Message Line Event → Subscriber Matcher Line Event → Subscriber Matcher Line Event
  unfolding make_room compact
  enqueue m s = let s' = compact (make_room s) in record s' { q = s'.q ++ m ∷ []; wake = true }

module _ {Matcher Line Event : Type 0} (match : Matcher → Line → Bool)
    (match_event : Matcher → Event → Bool) where
  -- the `switch` of `Publish`: whether the subscriber's filter lets the message through
  unfoldable pub wants : Option Matcher → Message Line Event → Bool
  wants none m = true
  wants (some f) m =
      if m.t == "line"
      then elim m.line [ none ↦ true | some l ↦ match f l ]
      else if m.t == "event"
      then elim m.event [ none ↦ true | some e ↦ match_event f e ]
      else true

  unfoldable pub publish_to :
      Message Line Event → Subscriber Matcher Line Event → Subscriber Matcher Line Event
  unfolding wants enqueue
  publish_to m s = if wants s.match m then enqueue m s else s

  unfoldable pub publish :
      Message Line Event
      → List (Subscriber Matcher Line Event)
      → List (Subscriber Matcher Line Event)
  unfolding publish_to
  publish m [] = []
  publish m (s ∷ ss) = publish_to m s ∷ publish m ss

-- what `drain` found to offer, and how it knows the message again
pub data Offer (Line Event : Type 0) : Type 0 where
  finish : Offer Line Event
  wait : Offer Line Event
  lag : ℕ → Offer Line Event
  item : Message Line Event → ℕ → Offer Line Event

module _ {Matcher Line Event : Type 0} where
  -- the first locked part of `drain`'s loop; `len(s.q) > s.head` is when there is a message at `head`
  unfoldable pub pick : Subscriber Matcher Line Event → Offer Line Event
  pick s =
      if s.closed
      then finish
      else if ltb 0 s.dropped
      then lag s.dropped
      else elim (get_elem? s.q s.head) [ none ↦ wait | some m ↦ item m s.popped ]

  -- taking the message at `head` off the queue
  unfoldable pub pop : Subscriber Matcher Line Event → Subscriber Matcher Line Event
  pop s =
      let q' = set s.q s.head blank in
      let s' = record s { q = q'; head = s.head + 1; popped = u64 (s.popped + 1) } in
      if s'.head =ℕ length q' then record s' { q = []; head = 0 } else s'

  -- The second locked part, after a message was sent. `dropped` is an `int`: where Go would take it
  -- below 0, it stays at 0 here.
  unfoldable pub settle :
      Offer Line Event → Subscriber Matcher Line Event → Subscriber Matcher Line Event
  unfolding pop
  settle finish s = s
  settle wait s = s
  settle (lag n) s = record s { dropped = s.dropped - n }
  settle (item m id) s =
      if not (s.popped =ℕ id)
      then record s { dropped = s.dropped - 1 }
      else if ltb s.head (length s.q)
      then pop s
      else s

  -- the cancel function that `Subscribe` returns, without the channel that it closes
  unfoldable pub unsubscribe : Subscriber Matcher Line Event → Subscriber Matcher Line Event
  unsubscribe s = record s { closed = true }
