-- ===== src/LogStore/Query/Pager/Windows.antt =====
-- pkg/logstore/query.go: the window of a query, and that of the query for the page after it.
use casa_os_app_management.Prelude.{
  ℕ, ◌≤◌, ◌≡◌, ◌⊎◌, inl, inr, refl, sym, ap, ◌∙◌, Bool, true, false, not, ◌&&◌, ◌||◌, Option, none,
  some, arith, ltb, ◌=ℕ◌, if◌then◌else◌,
}
use Prim.Native.Nat.{Ordering}
use casa_os_app_management.LogStore.Query.Cursor.{Cursor}
use casa_os_app_management.LogStore.Query.Pager.{
  Query, compare_to, is_lt, is_gt, Item, cursor_of, is_some, Verdict, skipped, past, inside,
  is_early, is_late, is_not_before, forwards, backwards, window_of, window,
}
use casa_os_app_management.LogStore.Query.Pager.Order.{
  Ahead, ◌≺◌, flip, flip-compare_to, ≺_trans, ≺-le,
}

abbrev pub lets_in : Verdict → Bool
lets_in skipped = false
lets_in past = false
lets_in inside = true

-- the query for the page after one that ends at a cursor
abbrev pub moved : Option Cursor → Query → Cursor → Query
moved (some after) q c = record q { after = some c }
moved none q c = record q { before = some c }

abbrev pub next_query : Query → Cursor → Query
next_query q c = moved q.after q c

-- what the bounds of a forwards walk leave, but for its cursor
abbrev fwd_bounds : Query → ℕ → ℕ → Bool
fwd_bounds q hold at = not (is_early q at) && not (ltb hold at || is_late q at)

lets_in-forwards :
    (q : Query) (hold : ℕ) (after c : Cursor)
    → lets_in (forwards q hold after c) ≡ (is_gt (compare_to c after) && fwd_bounds q hold c.at)
unfolding forwards
lets_in-forwards q hold after c =
    tests (is_gt (compare_to c after)) (is_early q c.at) (ltb hold c.at || is_late q c.at)
  where
    tests :
        (a b d : Bool)
        → lets_in (if not a || b then skipped else if d then past else inside)
          ≡ (a && (not b && not d))
    tests true true true = refl
    tests true true false = refl
    tests true false true = refl
    tests true false false = refl
    tests false b d = refl

-- what those of a backwards walk leave
abbrev bwd_bounds : Query → ℕ → ℕ → Bool
bwd_bounds q hold at =
    not (is_late q at)
    && (not (not (is_some q.before) && (q.until =ℕ 0 && ltb hold at)) && not (is_early q at))

lets_in-backwards :
    (q : Query) (hold : ℕ) (c : Cursor)
    → lets_in (backwards q hold c) ≡ (not (is_not_before q.before c) && bwd_bounds q hold c.at)
unfolding backwards
lets_in-backwards q hold c =
    tests (is_not_before q.before c) (is_late q c.at)
      (not (is_some q.before) && (q.until =ℕ 0 && ltb hold c.at)) (is_early q c.at)
  where
    tests :
        (a b d e : Bool)
        → lets_in (if a || b then skipped else if d then skipped else if e then past else inside)
          ≡ (not a && (not b && (not d && not e)))
    tests true b d e = refl
    tests false true d e = refl
    tests false false true e = refl
    tests false false false true = refl
    tests false false false false = refl

-- a comparison that is later is one that is earlier the other way round
is_gt_flip : (a b : Cursor) → a ≺ b → is_gt (compare_to b a) ≡ true
is_gt_flip a b h = rw (flip-compare_to a b, h) refl

is_gt_lt : (a b : Cursor) → is_gt (compare_to b a) ≡ true → a ≺ b
is_gt_lt a b h = by_order (compare_to b a) (compare_to a b) (flip-compare_to b a) h
  where
    by_order : (o p : Ordering) → p ≡ flip o → is_gt o ≡ true → p ≡ Ordering.lt
    by_order Ordering.gt p e h = e
    by_order Ordering.lt p e h = cc
    by_order Ordering.eq p e h = cc

is_lt-≺ : (a b : Cursor) → is_lt (compare_to a b) ≡ true → a ≺ b
is_lt-≺ a b h = by_order (compare_to a b) h
  where
    by_order : (o : Ordering) → is_lt o ≡ true → o ≡ Ordering.lt
    by_order Ordering.lt h = refl
    by_order Ordering.gt h = cc
    by_order Ordering.eq h = cc

-- if the tests of a conjunction hold, each does
both : (a b : Bool) → (a && b) ≡ true → (a ≡ true) × (b ≡ true)
both true b h = (refl, h)
both false b h = cc

abbrev moved_after : Option Cursor → Cursor → Option Cursor
moved_after (some after) c = some c
moved_after none c = none

window-moved :
    (after : Option Cursor) (q : Query) (hold : ℕ) (c d : Cursor)
    → q.after ≡ after
    → window (moved after q c) hold d ≡ window_of (moved_after after c) (moved after q c) hold d
unfolding window
window-moved (some after) q hold c d e = refl
window-moved none q hold c d e = ap (λ a. window_of a (record q { before = some c }) hold d) e

-- a line that a forwards window holds lies behind its cursor
behind_after :
    (q : Query) (hold : ℕ) (after z : Cursor) → lets_in (forwards q hold after z) ≡ true → after ≺ z
behind_after q hold after z h =
    is_gt_lt after z
      (both (is_gt (compare_to z after)) (fwd_bounds q hold z.at)
        (sym (lets_in-forwards q hold after z) ∙ h)).0

fwd_same :
    (q : Query) (hold : ℕ) (after z y : Cursor)
    → lets_in (forwards q hold after z) ≡ true
    → z ≺ y
    → lets_in (forwards (record q { after = some z }) hold z y) ≡ lets_in (forwards q hold after y)
fwd_same q hold after z y h ahead =
    let later = is_gt_flip after y (≺_trans after z y (behind_after q hold after z h) ahead) in
    lets_in-forwards (record q { after = some z }) hold z y
    ∙ (ap (λ b. b && fwd_bounds q hold y.at) (is_gt_flip z y ahead ∙ sym later)
        ∙ sym (lets_in-forwards q hold after y))

-- a line before one that is before the cursor of a backwards walk is so too
before_stays :
    (before : Option Cursor) (z y : Cursor)
    → not (is_not_before before z) ≡ true
    → y ≺ z
    → is_not_before before y ≡ false
before_stays none z y h ahead = refl
before_stays (some before) z y h ahead =
    let earlier : is_lt (compare_to z before) ≡ true = ground arith in
    rw (≺_trans y z before ahead (is_lt-≺ z before earlier)) refl

bwd_same :
    (q : Query) (hold : ℕ) (z y : Cursor)
    → lets_in (backwards q hold z) ≡ true
    → y ≺ z
    → lets_in (backwards (record q { before = some z }) hold y) ≡ lets_in (backwards q hold y)
bwd_same q hold z y h ahead =
    let (free, bounds) =
      both (not (is_not_before q.before z)) (bwd_bounds q hold z.at)
        (sym (lets_in-backwards q hold z) ∙ h) in
    let held =
      both (not (not (is_some q.before) && (q.until =ℕ 0 && ltb hold z.at))) (not (is_early q z.at))
        (both (not (is_late q z.at)) _ bounds).1 in
    lets_in-backwards (record q { before = some z }) hold y
    ∙ (rw
          (
            ahead,
            before_stays q.before z y free ahead,
            not_held (not (is_some q.before)) (q.until =ℕ 0) z.at y.at held.0 (≺-le y z ahead),
          )
          refl
        ∙ sym (lets_in-backwards q hold y))
  where
    not_held :
        (a b : Bool) (z y : ℕ)
        → not (a && (b && ltb hold z)) ≡ true
        → y ≤ z
        → (a && (b && ltb hold y)) ≡ false
    not_held a b z y h le = ground arith

-- Behind the last line of a page, the next page sees what this query would.
pub next_same :
    (after : Option Cursor) (q : Query) (hold : ℕ) (z y : Item)
    → q.after ≡ after
    → lets_in (window_of after q hold (cursor_of z)) ≡ true
    → Ahead after z y
    → lets_in (window (moved after q (cursor_of z)) hold (cursor_of y))
      ≡ lets_in (window_of after q hold (cursor_of y))
unfolding window_of
next_same (some after) q hold z y e h ahead =
    ap lets_in (window-moved (some after) q hold (cursor_of z) (cursor_of y) e)
    ∙ fwd_same q hold after (cursor_of z) (cursor_of y) h ahead
next_same none q hold z y e h ahead =
    ap lets_in (window-moved none q hold (cursor_of z) (cursor_of y) e)
    ∙ bwd_same q hold (cursor_of z) (cursor_of y) h ahead

-- a line at or before a cursor is not behind it
not_behind : (y z : Cursor) → (y ≡ z) ⊎ (y ≺ z) → is_gt (compare_to y z) ≡ false
not_behind y z (inl e) = rw e (tie (compare_to z z) (flip-compare_to z z))
  where
    tie : (o : Ordering) → o ≡ flip o → is_gt o ≡ false
    tie Ordering.lt h = refl
    tie Ordering.eq h = refl
    tie Ordering.gt h = cc
not_behind y z (inr h) = rw h refl

not_earlier : (y z : Cursor) → (y ≡ z) ⊎ (z ≺ y) → is_lt (compare_to y z) ≡ false
not_earlier y z (inl e) = rw e (tie (compare_to z z) (flip-compare_to z z))
  where
    tie : (o : Ordering) → o ≡ flip o → is_lt o ≡ false
    tie Ordering.lt h = cc
    tie Ordering.eq h = refl
    tie Ordering.gt h = refl
not_earlier y z (inr h) = rw (flip-compare_to z y, h) refl

-- Up to the last line of a page, the next page sees nothing.
pub next_not :
    (after : Option Cursor) (q : Query) (hold : ℕ) (z y : Item)
    → q.after ≡ after
    → (cursor_of y ≡ cursor_of z) ⊎ Ahead after y z
    → lets_in (window (moved after q (cursor_of z)) hold (cursor_of y)) ≡ false
unfolding window_of
next_not (some after) q hold z y e h =
    ap lets_in (window-moved (some after) q hold (cursor_of z) (cursor_of y) e)
    ∙ (lets_in-forwards (record q { after = some (cursor_of z) }) hold (cursor_of z) (cursor_of y)
        ∙ rw (not_behind (cursor_of y) (cursor_of z) h) refl)
next_not none q hold z y e h =
    ap lets_in (window-moved none q hold (cursor_of z) (cursor_of y) e)
    ∙ (lets_in-backwards (record q { before = some (cursor_of z) }) hold (cursor_of y)
        ∙ rw (not_earlier (cursor_of y) (cursor_of z) h) refl)

-- what ends a walk
fwd_past :
    (q : Query) (hold : ℕ) (after c : Cursor)
    → forwards q hold after c ≡ past
    → (ltb hold c.at || is_late q c.at) ≡ true
unfolding forwards
fwd_past q hold after c h =
    tests (not (is_gt (compare_to c after)) || is_early q c.at) (ltb hold c.at || is_late q c.at) h
  where
    tests : (a b : Bool) → (if a then skipped else if b then past else inside) ≡ past → b ≡ true
    tests true b h = cc
    tests false true h = refl
    tests false false h = cc

bwd_past : (q : Query) (hold : ℕ) (c : Cursor) → backwards q hold c ≡ past → is_early q c.at ≡ true
unfolding backwards
bwd_past q hold c h =
    tests (is_not_before q.before c || is_late q c.at)
      (not (is_some q.before) && (q.until =ℕ 0 && ltb hold c.at)) (is_early q c.at) h
  where
    tests :
        (a b d : Bool)
        → (if a then skipped else if b then skipped else if d then past else inside) ≡ past
        → d ≡ true
    tests true b d h = cc
    tests false true d h = cc
    tests false false true h = refl
    tests false false false h = cc

-- Once the walk is past its bounds, no line behind is inside.
pub past_stays :
    (after : Option Cursor) (q : Query) (hold : ℕ) (x y : Item)
    → window_of after q hold (cursor_of x) ≡ past
    → Ahead after x y
    → lets_in (window_of after q hold (cursor_of y)) ≡ false
unfolding window_of
past_stays (some after) q hold x y h ahead =
    let c = cursor_of y in
    let stays : (ltb hold c.at || is_late q c.at) ≡ true =
      later (cursor_of x).at c.at (fwd_past q hold after (cursor_of x) h)
        (≺-le (cursor_of x) c ahead) in
    lets_in-forwards q hold after c
    ∙ rw stays (none_left (is_gt (compare_to c after)) (not (is_early q c.at)))
  where
    later :
        (s t : ℕ) → (ltb hold s || is_late q s) ≡ true → s ≤ t → (ltb hold t || is_late q t) ≡ true
    later s t h le = ground arith

    none_left : (a b : Bool) → (a && (b && false)) ≡ false
    none_left a b = ground arith
past_stays none q hold x y h ahead =
    let c = cursor_of y in
    let stays : is_early q c.at ≡ true =
      earlier c.at (cursor_of x).at (bwd_past q hold (cursor_of x) h)
        (≺-le c (cursor_of x) ahead) in
    lets_in-backwards q hold c
    ∙ rw stays (none_left (not (is_not_before q.before c)) (not (is_late q c.at)) _)
  where
    earlier : (s t : ℕ) → is_early q t ≡ true → s ≤ t → is_early q s ≡ true
    earlier s t h le = ground arith

    none_left : (a b d : Bool) → (a && (b && (d && false))) ≡ false
    none_left a b d = ground arith
