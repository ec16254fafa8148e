-- ===== src/GitApps/Webhook/Waits.antt =====
-- service/git_webhook_receive.go: the goroutines that wait keep the invariant of the queue.
use casa_os_app_management.Prelude.{
  ◌<◌, String, ◌≡◌, inl, inr, refl, ◌∙◌, true, false, List, arith, eq_iff, eq_refl, ◌==◌,
  Bool-cases, any, any-pos,
}
use casa_os_app_management.Prelude.Map
use casa_os_app_management.Prelude.Map.{
  Map, get-assign, get-delete, keys, IsMap, IsMap-assign, IsMap-delete, any-keys, count-keys,
}
use casa_os_app_management.GitApps.Webhook.{
  Queue, is_pending, is_within, without_one, look, Turn, given_up, unprepared, prepared, end_turn,
}
use casa_os_app_management.GitApps.Webhook.Invariant.{
  waiting, Inv, waiting-without_one, start_at-Inv, start_other-Inv, start_check-Inv,
}

-- a goroutine stands in a list that it is found in
pub found_in :
    (a : String) (names : List String) → any (λ b. b == a) names ≡ true → 0 < waiting a names
found_in a names h = any-pos (λ b. b == a) names h

pub one_less :
    (a : String) (names : List String) → waiting a names ≡ 1 → waiting a (without_one a names) ≡ 0
one_less a names h = waiting-without_one a a names ∙ rw (eq_refl a) (omega (arith, h))

pub same_without :
    (a b : String) (names : List String)
    → (b == a) ≡ false
    → waiting a (without_one b names) ≡ waiting a names
same_without a b names other =
    let other' : (a == b) ≡ false = ground (arith, other, eq_iff a b, eq_iff b a) in
    waiting-without_one a b names ∙ rw other' refl

pub look_own :
    (a : String) (q : Queue) → Inv a q → any (λ b. b == a) q.window ≡ true → Inv a (look a q)
unfolding look is_pending
look_own a q v found =
    let some_one = found_in a q.window found in
    let owed : is_pending a q ≡ true = ground (arith, v.one_waits, some_one) in
    let none_in_turn : waiting a q.turns ≡ 0 = ground (arith, v.one_waits, some_one, owed) in
    let one_in_window : waiting a q.window ≡ 1 = ground (arith, v.one_waits, none_in_turn, owed) in
    elim (Bool-cases (is_within (Map.get a q.last) q.now)) [
      | inl w ↦ rw (owed, w) v
      | inr out ↦
          rw (owed, out)
            (record {
              one_waits =
                  rw (eq_refl a, owed)
                    (omega (arith, one_less a q.window one_in_window, none_in_turn));
              newest_last = v.newest_last;
              not_later = v.not_later;
              turn_after = rw out (ground arith);
              spaced = v.spaced;
            })
    ]

pub look_other : (a b : String) (q : Queue) → Inv a q → (b == a) ≡ false → Inv a (look b q)
unfolding look is_pending
look_other a b q v other = elim (Bool-cases (is_pending b q)) [
  | inr free ↦ rw free (record {
    one_waits = rw (same_without a b q.window other) v.one_waits;
    newest_last = v.newest_last;
    not_later = v.not_later;
    turn_after = v.turn_after;
    spaced = v.spaced;
  })
  | inl owed ↦ elim (Bool-cases (is_within (Map.get b q.last) q.now)) [
    | inl w ↦ rw (owed, w) v
    | inr out ↦
        rw (owed, out)
          (record {
            one_waits = rw (other, same_without a b q.window other) v.one_waits;
            newest_last = v.newest_last;
            not_later = v.not_later;
            turn_after = rw other v.turn_after;
            spaced = v.spaced;
          })
  ]
]

pub end_turn_own :
    (turn : Turn) (a : String) (q : Queue)
    → Inv a q
    → any (λ b. b == a) q.turns ≡ true
    → Inv a (end_turn turn a q)
unfolding end_turn is_pending
end_turn_own turn a q v found =
    let some_one = found_in a q.turns found in
    let owed : is_pending a q ≡ true = ground (arith, v.one_waits, some_one) in
    let none_in_window : waiting a q.window ≡ 0 = ground (arith, v.one_waits, some_one, owed) in
    let one_in_turn : waiting a q.turns ≡ 1 = ground (arith, v.one_waits, none_in_window, owed) in
    let outside : is_within (Map.get a q.last) q.now ≡ false =
      ground (arith, v.turn_after, one_in_turn) in
    let left = one_less a q.turns one_in_turn in
    let done : Inv a
        (record q { pending = Map.delete a q.pending; turns = without_one a q.turns }) =
      record {
        one_waits =
            rw (Map.get-delete a a q.pending, eq_refl a) (omega (arith, none_in_window, left));
        newest_last = v.newest_last;
        not_later = v.not_later;
        turn_after = rw left refl;
        spaced = v.spaced;
      } in
    by_outcome turn done outside left
  where
    by_outcome :
        (turn : Turn)
        → Inv a (record q { pending = Map.delete a q.pending; turns = without_one a q.turns })
        → is_within (Map.get a q.last) q.now ≡ false
        → waiting a (without_one a q.turns) ≡ 0
        → Inv a (end_turn turn a q)
    by_outcome prepared done outside left =
        start_check-Inv a a _ (start_at-Inv a a _ done (eq_refl a) outside left)
    by_outcome unprepared done outside left = start_at-Inv a a _ done (eq_refl a) outside left
    by_outcome given_up done outside left = done

pub end_turn_other :
    (turn : Turn) (a b : String) (q : Queue)
    → Inv a q
    → (b == a) ≡ false
    → Inv a (end_turn turn b q)
unfolding end_turn is_pending
end_turn_other turn a b q v other = by_outcome turn (record {
  one_waits = rw (Map.get-delete b a q.pending, other, same_without a b q.turns other) v.one_waits;
  newest_last = v.newest_last;
  not_later = v.not_later;
  turn_after = rw (same_without a b q.turns other) v.turn_after;
  spaced = v.spaced;
})
  where
    by_outcome :
        (turn : Turn)
        → Inv a (record q { pending = Map.delete b q.pending; turns = without_one b q.turns })
        → Inv a (end_turn turn b q)
    by_outcome prepared done = start_check-Inv a b _ (start_other-Inv a b _ done other)
    by_outcome unprepared done = start_other-Inv a b _ done other
    by_outcome given_up done = done
