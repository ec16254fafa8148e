-- ===== src/LogStore/Hub/Examples.antt =====
-- Runs of pkg/logstore/hub.go, and its theorems at concrete turns.
use casa_os_app_management.Prelude.{
  ℕ, ◌+◌, ◌-◌, ◌*◌, ◌≤◌, ◌<◌, ◌≡◌, refl, Bool, none, some, List, [], ◌∷◌, ◌++◌, arith, ltb, length,
  Sub,
}
use casa_os_app_management.LogStore.Hub.{Message, queue_size, publish_to, pick, settle, unsubscribe}
use casa_os_app_management.LogStore.Hub.Steps.{
  Feed, Turn, published, picked, woken, taken, opened, turn, turns, pending,
}
use casa_os_app_management.LogStore.Hub.Feeds.{hub_accounts, hub_in_order, hub_bounded}

-- lines are numbers, and a matcher lets the small ones through
abbrev line : ℕ → Message ℕ ℕ
line n = record { t = "line"; line = some n; event = none; dropped = 0 }

abbrev below : ℕ → ℕ → Bool
below bound n = ltb n bound

abbrev morning : List (Turn ℕ ℕ)
morning =
    published (line 1)
    ∷ picked
    ∷ published (line 7)
    ∷ published (line 2)
    ∷ taken
    ∷ woken
    ∷ picked
    ∷ []

abbrev feed_after : Feed ℕ ℕ ℕ
feed_after = turns below below morning (opened (some 5))

-- the line 7 is filtered out, the line 1 was read, the line 2 is offered
morning_lem :
    (feed_after.received ≡ line 1 ∷ [])
    × (pending feed_after.sub ≡ line 2 ∷ [])
    × (feed_after.accepted ≡ line 1 ∷ line 2 ∷ [])
unfolding turns turn opened publish_to pick settle unsubscribe
morning_lem = (refl, refl, refl)

hub_accounts_example :
    length feed_after.accepted
    ≡ length feed_after.received
      + feed_after.reported
      + feed_after.sub.dropped
      + (length feed_after.sub.q - feed_after.sub.head)
hub_accounts_example = hub_accounts below below (some 5) morning (omega arith)

hub_in_order_example : Sub (feed_after.received ++ pending feed_after.sub) feed_after.accepted
hub_in_order_example = hub_in_order below below (some 5) morning (omega arith)

hub_bounded_example :
    (length (pending feed_after.sub) ≤ queue_size) × (length feed_after.sub.q < 2 * queue_size)
hub_bounded_example = hub_bounded below below (some 5) morning (omega arith)
