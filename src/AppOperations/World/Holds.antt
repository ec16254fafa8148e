-- ===== src/AppOperations/World/Holds.antt =====
-- service/app_operations.go: `Begin`, its `end` and `handOver` keep the invariant.
use casa_os_app_management.Prelude.{ℕ, String, ◌≡◌, true, some, arith, eq_iff, get_elem?, count-set}
use casa_os_app_management.Prelude.Map.{IsMap-assign, IsMap-delete, get-assign, get-delete}
use casa_os_app_management.AppOperations.{Hold, begin, end_hold, marks_of, held, hand_over}
use casa_os_app_management.AppOperations.World.{World, keep_hold, call_end, holds_app, Inv}

pub claim-Inv :
    (app kind : String) (w : World) → Inv w → Inv (keep_hold w (begin app kind w.registry))
unfolding begin held marks_of
claim-Inv app kind w v = record {
  one_hold =
      λ a. ground (arith, v.one_hold a, get-assign app a kind w.registry.running, eq_iff app a);
  same_marks = λ a k. ground (arith, v.same_marks a k);
  no_empty = λ a. ground (arith, v.no_empty a);
  one_entry = ground (arith, v.one_entry, IsMap-assign app kind w.registry.running);
}

module _ (w : World) (i : ℕ) (h : Hold) (at : get_elem? w.holds i ≡ some h) (v : Inv w) where
  pub release-Inv : Inv (call_end w i (some h))
  unfolding end_hold held marks_of
  release-Inv = record {
    one_hold = λ a. ground (
      arith,
      v.one_hold a,
      v.one_hold h.app,
      count-set (holds_app a) w.holds i h (record h { over = true }) at,
      count-set (holds_app a) w.holds i h h at,
      get-delete h.app a w.registry.running,
      eq_iff h.app a,
    );
    same_marks = λ a k. ground (arith, v.same_marks a k);
    no_empty = λ a. ground (arith, v.no_empty a);
    one_entry = ground (arith, v.one_entry, IsMap-delete h.app w.registry.running);
  }

pub rename-Inv :
    (app kind : String) (w : World)
    → Inv w
    → Inv (record w { registry = hand_over app kind w.registry })
unfolding hand_over held marks_of
rename-Inv app kind w v = record {
  one_hold =
      λ a. ground (arith, v.one_hold a, get-assign app a kind w.registry.running, eq_iff app a);
  same_marks = λ a k. ground (arith, v.same_marks a k);
  no_empty = λ a. ground (arith, v.no_empty a);
  one_entry = ground (arith, v.one_entry, IsMap-assign app kind w.registry.running);
}
