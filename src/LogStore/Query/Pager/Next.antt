-- ===== src/LogStore/Query/Pager/Next.antt =====
-- pkg/logstore/query.go: a page and the pages after it leave out no line and repeat none.
use casa_os_app_management.Prelude.{
  ℕ, ◌<◌, ◌≡◌, ◌⊎◌, inl, inr, refl, sym, ap, subst, ◌∙◌, Bool, true, false, ◌&&◌, some, List, [],
  ◌∷◌, ◌++◌, map, arith, if◌then◌else◌, length, length-append, keep, All,
}
use mathlib.Core.List.{append_assoc, map-append}
use casa_os_app_management.LogStore.Query.Cursor.{Cursor}
use casa_os_app_management.LogStore.Query.Filter.{Matcher}
use casa_os_app_management.LogStore.Query.Pager.{
  Query, PageLine, Item, cursor_of, window, is_wanted, page_line, new_pager,
}
use casa_os_app_management.LogStore.Query.Pager.Order.{Ahead}
use casa_os_app_management.LogStore.Query.Pager.Merge.{IsAscending}
use casa_os_app_management.LogStore.Query.Pager.Merged.{take_all}
use casa_os_app_management.LogStore.Query.Pager.Windows.{lets_in, next_query, next_same, next_not}
use casa_os_app_management.LogStore.Query.Pager.Pages.{
  is_answer, answers, keep-append, run, run-Outcome,
}

module _ (m : Matcher) (q : Query) (hold : ℕ) where
  abbrev on_next : Item → Item → Bool
  on_next z = is_answer m hold (next_query q (cursor_of z))

  no_answer : (z y : Item) → (cursor_of y ≡ cursor_of z) ⊎ Ahead q.after y z → on_next z y ≡ false
  no_answer z y h = ap (λ b. b && is_wanted m y) (next_not q.after q hold z y refl h)

  in_front :
      (y z : Item) (taken left : List Item)
      → All (Ahead q.after y) (taken ++ z ∷ left)
      → Ahead q.after y z
  in_front y z [] left (h, hs) = h
  in_front y z (x ∷ taken) left (h, hs) = in_front y z taken left hs

  -- the next page asks for nothing up to the line at which this one is full
  up_to_z :
      (z : Item) (taken left : List Item)
      → IsAscending q.after (taken ++ z ∷ left)
      → keep (on_next z) (taken ++ z ∷ []) ≡ []
  up_to_z z [] left asc = rw (no_answer z z (inl refl)) refl
  up_to_z z (y ∷ taken) left (ahead, asc) =
      rw (no_answer z y (inr (in_front y z taken left ahead))) (up_to_z z taken left asc)

  next_here :
      (z y : Item)
      → lets_in (window q hold (cursor_of z)) ≡ true
      → Ahead q.after z y
      → lets_in (window (next_query q (cursor_of z)) hold (cursor_of y))
        ≡ lets_in (window q hold (cursor_of y))
  unfolding window
  next_here z y h a = next_same q.after q hold z y refl h a

  -- and behind it for what this one would ask for
  behind_z :
      (z : Item) (left : List Item)
      → lets_in (window q hold (cursor_of z)) ≡ true
      → All (Ahead q.after z) left
      → keep (on_next z) left ≡ keep (is_answer m hold q) left
  behind_z z [] h ahead = refl
  behind_z z (y ∷ left) h (a, ahead) =
      same_keep (ap (λ b. b && is_wanted m y) (next_here z y h a)) (behind_z z left h ahead)
    where
      same_keep :
          on_next z y ≡ is_answer m hold q y
          → keep (on_next z) left ≡ keep (is_answer m hold q) left
          → keep (on_next z) (y ∷ left) ≡ keep (is_answer m hold q) (y ∷ left)
      same_keep e f =
          ap (λ b. if b then y ∷ keep (on_next z) left else keep (on_next z) left) e
          ∙ ap (λ l. if is_answer m hold q y then y ∷ l else l) f

  behind_split :
      (z : Item) (taken left : List Item)
      → IsAscending q.after (taken ++ z ∷ left)
      → All (Ahead q.after z) left
  behind_split z [] left (h, hs) = h
  behind_split z (y ∷ taken) left (h, hs) = behind_split z taken left hs

answers-append :
    (m : Matcher) (hold : ℕ) (q : Query) (xs ys : List Item)
    → answers m hold q (xs ++ ys) ≡ answers m hold q xs ++ answers m hold q ys
answers-append m hold q xs ys =
    ap (map page_line) (keep-append (is_answer m hold q) xs ys)
    ∙ map-append page_line (keep (is_answer m hold q) xs) (keep (is_answer m hold q) ys)

module _ (encoded_size : PageLine → ℕ) (m : Matcher) (limit : ℕ) (q : Query) (hold : ℕ) where
  -- A page of lines in the order of the walk either is not full, and then holds every line that the query
  -- asks for, or is full and has a last cursor: then it holds at least one line, and the query asks for
  -- the lines of the page and, behind them, those that the same query from that cursor asks for. The
  -- last second is held back at the same time in both.
  pub pages_lem :
      (xs : List Item)
      → IsAscending q.after xs
      → let p = take_all encoded_size m limit q hold new_pager xs in
        ((p.full ≡ false) × (p.lines ≡ answers m hold q xs))
        ⊎ ((p.full ≡ true)
            × (c : Cursor) × (p.last ≡ some c)
            × (0 < length p.lines)
            × (answers m hold q xs ≡ p.lines ++ answers m hold (next_query q c) xs))
  pages_lem xs asc = elim (run-Outcome encoded_size m limit q hold new_pager xs asc refl refl) [
    | inl h ↦ inl h
    | inr (full, inr idle) ↦ absurd (omega (arith, idle.2))
    | inr (full, inl s) ↦
        let z = s.z in
        let split : xs ≡ (s.taken ++ z ∷ []) ++ s.left =
          s.split ∙ sym (append_assoc s.taken (z ∷ []) s.left) in
        let asc' = subst (IsAscending q.after) s.split asc in
        let front = s.taken ++ z ∷ [] in
        inr (
          full,
          cursor_of z,
          s.last,
          subst (λ l. 0 < length l) (sym s.lines) (answered s.taken z s.answered),
          ap (answers m hold q) split
              ∙ (answers-append m hold q front s.left
                  ∙ (ap (λ l. l ++ answers m hold q s.left) (sym s.lines)
                      ∙ ap (λ l. (run encoded_size m limit q hold new_pager xs).lines ++ l)
                          (sym (
                            ap (answers m hold (next_query q (cursor_of z))) split
                            ∙ (answers-append m hold (next_query q (cursor_of z)) front s.left
                                ∙ (ap
                                      (λ l.
                                        map page_line l
                                        ++ answers m hold (next_query q (cursor_of z)) s.left)
                                      (up_to_z m q hold z s.taken s.left asc')
                                    ∙ ap (map page_line) (
                                        behind_z m q hold z s.left (inside_of z s.answered)
                                          (behind_split m q hold z s.taken s.left asc')))))))),
        )
  ]
    where
      inside_of :
          (z : Item) → is_answer m hold q z ≡ true → lets_in (window q hold (cursor_of z)) ≡ true
      inside_of z h = left_of (lets_in (window q hold (cursor_of z))) (is_wanted m z) h
        where
          left_of : (a b : Bool) → (a && b) ≡ true → a ≡ true
          left_of true b h = refl
          left_of false b h = cc

      answered :
          (taken : List Item) (z : Item)
          → is_answer m hold q z ≡ true
          → 0 < length (answers m hold q (taken ++ z ∷ []))
      answered taken z h =
          let one : answers m hold q (z ∷ []) ≡ page_line z ∷ [] = rw h refl in
          omega (
            arith,
            ap length (answers-append m hold q taken (z ∷ [])),
            length-append (answers m hold q taken) (answers m hold q (z ∷ [])),
            ap length one,
          )
