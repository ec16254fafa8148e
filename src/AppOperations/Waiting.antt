-- ===== src/AppOperations/Waiting.antt =====
-- service/app_operations.go: `beginWaiting`, which waits its turn for an app.
use casa_os_app_management.Prelude.{
  ℕ, ◌+◌, ◌*◌, ◌/◌, ◌≤◌, ◌<◌, String, ◌≡◌, Bool, true, false, Option, none, some, List, [], ◌∷◌,
  arith, ltb, if◌then◌else◌, length,
}
use casa_os_app_management.AppOperations.{Registry, Claim, granted, refused, begin}

-- `howOftenToAskAgain` is 250 ms; times are in milliseconds
abbrev pub how_often_to_ask_again : ℕ
how_often_to_ask_again = 250

-- one round of the loop: the registry that `Begin` meets, the clock that the deadline is compared
-- with, and whether the `select` took `ctx.Done()`
pub record Round : Type 0 where
  pub registry : Registry
  pub now : ℕ
  pub cancelled : Bool

module _ (app kind : String) (deadline : ℕ) where
  -- `none`: the rounds are over and it still waits
  unfoldable pub rounds_from : List Round → Option (Claim × Registry)
  rounds_from [] = none
  rounds_from (a ∷ later) =
      let (answer, r) = begin app kind a.registry in
      elim answer [
        | granted h ↦ some (granted h, r)
        | refused e ↦
            if ltb deadline a.now
            then some (refused e, r)
            else if a.cancelled
            then some (refused e, r)
            else rounds_from later
      ]

unfoldable pub begin_waiting : String → String → ℕ → ℕ → List Round → Option (Claim × Registry)
unfolding rounds_from
begin_waiting app kind start patience rounds = rounds_from app kind (start + patience) rounds

-- `time.After` lets at least its duration pass between two rounds
abbrev pub IsPaced : ℕ → List Round → Type 0
IsPaced earliest [] = Unit
IsPaced earliest (a ∷ later) = (earliest ≤ a.now) × IsPaced (a.now + how_often_to_ask_again) later

abbrev pub has_answer : Option (Claim × Registry) → Bool
has_answer none = false
has_answer (some answer) = true

rounds_from_end :
    (app kind : String) (deadline earliest : ℕ) (rounds : List Round)
    → IsPaced earliest rounds
    → earliest ≤ deadline + how_often_to_ask_again
    → deadline + how_often_to_ask_again < earliest + length rounds * how_often_to_ask_again
    → has_answer (rounds_from app kind deadline rounds) ≡ true
unfolding rounds_from
rounds_from_end app kind deadline earliest [] p near h = absurd (omega arith)
rounds_from_end app kind deadline earliest (a ∷ later) p near h =
    ground (arith, rounds_from_end app kind deadline (a.now + how_often_to_ask_again) later p.1)

-- A wait ends, whoever holds the app meanwhile: of rounds that come at least 250 ms apart, two more than
-- the patience holds whole gaps of 250 ms are enough for an answer.
pub begin_waiting_ends :
    (app kind : String) (start patience : ℕ) (rounds : List Round)
    → IsPaced start rounds
    → patience / how_often_to_ask_again + 2 ≤ length rounds
    → has_answer (begin_waiting app kind start patience rounds) ≡ true
unfolding begin_waiting
begin_waiting_ends app kind start patience rounds p h =
    rounds_from_end app kind (start + patience) start rounds p (omega arith) (omega arith)
