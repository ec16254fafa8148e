-- ===== src/GitApps/Webhook/Invariant.antt =====
-- service/git_webhook_receive.go: what holds of the checks that webhooks started and queued.
use casa_os_app_management.Prelude.{
  ℕ, ◌+◌, ◌-◌, String, ◌≡◌, refl, ◌∙◌, Bool, true, false, not, ◌&&◌, Option, none, some, List, [],
  ◌∷◌, arith, eq_iff, eq_refl, ◌==◌, ltb, leb, if◌then◌else◌, count,
}
use casa_os_app_management.Prelude.Map
use casa_os_app_management.Prelude.Map.{
  Map, get-assign, get-delete, keys, IsMap, IsMap-assign, IsMap-delete, any-keys, count-keys,
}
use casa_os_app_management.GitApps.Webhook.{
  Queue, no_checks, is_pending, is_within, start_at, start_check, without_one, time_passes, step,
}

-- the newest of the times that are listed with an app
abbrev pub newest : String → List (String × ℕ) → Option ℕ
newest app [] = none
newest app ((a, t) ∷ starts) =
    let earlier = newest app starts in if a == app then some t else earlier

-- whether every time that is listed with the app is at least the debounce after the one before it
abbrev pub is_spaced : String → List (String × ℕ) → Bool
is_spaced app [] = true
is_spaced app ((a, t) ∷ starts) =
    let earlier = is_spaced app starts in
    if a == app then not (is_within (newest app starts) t) && earlier else earlier

abbrev pub waiting : String → List String → ℕ
waiting app names = count (λ a. a == app) names

abbrev pub has_come : Option ℕ → ℕ → Bool
has_come none now = true
has_come (some t) now = leb t now

-- What holds of an app: a goroutine waits for it exactly while one is pending, and never a second; a
-- wait for the app itself begins outside the window of the newest check.
pub record Inv (app : String) (q : Queue) : Type 0 where
  pub one_waits : waiting app q.window + waiting app q.turns ≡ (if is_pending app q then 1 else 0)
  pub newest_last : newest app q.starts ≡ Map.get app q.last
  pub not_later : has_come (Map.get app q.last) q.now ≡ true
  pub turn_after : (ltb 0 (waiting app q.turns) && is_within (Map.get app q.last) q.now) ≡ false
  pub spaced : is_spaced app q.starts ≡ true

-- a goroutine that ends its wait, of this app or of another
pub waiting-without_one :
    (a b : String) (names : List String)
    → waiting a (without_one b names) ≡ (if a == b then waiting a names - 1 else waiting a names)
unfolding without_one
waiting-without_one a b [] = ground arith
waiting-without_one a b (c ∷ names) =
    ground (arith, waiting-without_one a b names, eq_iff a b, eq_iff c b, eq_iff c a, eq_iff b a)

pub no_checks-Inv : (app : String) (now : ℕ) → Inv app (no_checks now)
unfolding is_pending Map.get
no_checks-Inv app now = record {
  one_waits = refl;
  newest_last = refl;
  not_later = refl;
  turn_after = refl;
  spaced = refl;
}

pub time_passes-Inv :
    (app : String) (n : ℕ) (q : Queue) → Inv app q → Inv app (step (time_passes n) q)
unfolding step is_pending
time_passes-Inv app n q v = record {
  one_waits = v.one_waits;
  newest_last = v.newest_last;
  not_later = later (Map.get app q.last) v.not_later;
  turn_after = after (waiting app q.turns) (Map.get app q.last) v.turn_after;
  spaced = v.spaced;
}
  where
    later : (o : Option ℕ) → has_come o q.now ≡ true → has_come o (q.now + n) ≡ true
    later none h = refl
    later (some t) h = ground arith

    after :
        (k : ℕ) (o : Option ℕ)
        → (ltb 0 k && is_within o q.now) ≡ false
        → (ltb 0 k && is_within o (q.now + n)) ≡ false
    after k none h = ground arith
    after k (some t) h = ground arith

-- a write to `last` for `b` outside the window, while no goroutine waits for `b` itself
pub start_at-Inv :
    (a b : String) (q : Queue)
    → Inv a q
    → (b == a) ≡ true
    → is_within (Map.get a q.last) q.now ≡ false
    → waiting a q.turns ≡ 0
    → Inv a (start_at b q)
unfolding is_pending
start_at-Inv a b q v same outside none_waits =
    let now_last : Map.get a (Map.assign b q.now q.last) ≡ some q.now =
      Map.get-assign b a q.now q.last ∙ rw same refl in
    record {
      one_waits = v.one_waits;
      newest_last = rw (same, now_last) refl;
      not_later = rw now_last (ground arith);
      turn_after = rw none_waits refl;
      spaced = rw (same, v.newest_last, outside, v.spaced) refl;
    }

pub start_other-Inv : (a b : String) (q : Queue) → Inv a q → (b == a) ≡ false → Inv a (start_at b q)
unfolding is_pending
start_other-Inv a b q v other =
    let same_last : Map.get a (Map.assign b q.now q.last) ≡ Map.get a q.last =
      Map.get-assign b a q.now q.last ∙ rw other refl in
    record {
      one_waits = v.one_waits;
      newest_last = rw (other, same_last) v.newest_last;
      not_later = rw same_last v.not_later;
      turn_after = rw same_last v.turn_after;
      spaced = rw other v.spaced;
    }

-- the start of a check itself changes none of what the invariant is about
pub start_check-Inv : (a b : String) (q : Queue) → Inv a q → Inv a (start_check b q)
unfolding is_pending
start_check-Inv a b q v = record {
  one_waits = v.one_waits;
  newest_last = v.newest_last;
  not_later = v.not_later;
  turn_after = v.turn_after;
  spaced = v.spaced;
}

-- a goroutine for `b` begins to wait, for the window to close or for the app
abbrev pub queue_in : Bool → String → Queue → Queue
queue_in true b q = record q { pending = Map.assign b true q.pending; window = b ∷ q.window }
queue_in false b q = record q { pending = Map.assign b true q.pending; turns = b ∷ q.turns }

pub queue_in-Inv :
    (for_window : Bool) (a : String) (q : Queue)
    → Inv a q
    → is_pending a q ≡ false
    → (not for_window && is_within (Map.get a q.last) q.now) ≡ false
    → Inv a (queue_in for_window a q)
unfolding is_pending
queue_in-Inv true a q v free outside = record {
  one_waits = rw (Map.get-assign a a true q.pending, eq_refl a) (ground (arith, v.one_waits, free));
  newest_last = v.newest_last;
  not_later = v.not_later;
  turn_after = v.turn_after;
  spaced = v.spaced;
}
queue_in-Inv false a q v free outside = record {
  one_waits = rw (Map.get-assign a a true q.pending, eq_refl a) (ground (arith, v.one_waits, free));
  newest_last = v.newest_last;
  not_later = v.not_later;
  turn_after = rw outside (ground arith);
  spaced = v.spaced;
}

pub queue_in_other-Inv :
    (for_window : Bool) (a b : String) (q : Queue)
    → Inv a q
    → (b == a) ≡ false
    → Inv a (queue_in for_window b q)
unfolding is_pending
queue_in_other-Inv true a b q v other = record {
  one_waits = rw (Map.get-assign b a true q.pending, other) v.one_waits;
  newest_last = v.newest_last;
  not_later = v.not_later;
  turn_after = v.turn_after;
  spaced = v.spaced;
}
queue_in_other-Inv false a b q v other = record {
  one_waits = rw (Map.get-assign b a true q.pending, other) v.one_waits;
  newest_last = v.newest_last;
  not_later = v.not_later;
  turn_after = rw other v.turn_after;
  spaced = v.spaced;
}
