-- ===== src/LogStore/Query/Pager/Merged.antt =====
-- pkg/logstore/query.go: a merged day is in order and whole, and `readDay` goes through it.
use casa_os_app_management.Prelude.{
  ℕ, zero, suc, ◌+◌, ◌≤◌, ◌≡◌, inl, inr, refl, sym, ap, subst, ◌∙◌, Bool, true, false, Option, none,
  some, List, [], ◌∷◌, ◌++◌, arith, if◌then◌else◌, Option-cases, length, count, All, All-append,
  sum_by, sum_by-append,
}
use casa_os_app_management.LogStore.Query.Reader.{Rec}
use casa_os_app_management.LogStore.Query.Cursor.{Cursor}
use casa_os_app_management.LogStore.Query.Filter.{Matcher}
use casa_os_app_management.LogStore.Query.Pager.{
  LogFile, Query, PageLine, Pager, Item, Source, pick, advance, take_head, read_day,
}
use casa_os_app_management.LogStore.Query.Pager.Order.{Ahead, Differ}
use casa_os_app_management.LogStore.Query.Pager.Merge.{
  items_of, file_of, merge, merge_round, IsAscending, IsBehind, IsDay, Picked, IsSpent, pick-cases,
}

-- the source that a line is taken from, and those around it, after that
abbrev left :
    {after : Option Cursor} {sources : List Source} {k : ℕ} {x : Item}
    → Picked after 0 sources k x
    → List Source
left {x = x} p = p.before ++ (x.0, p.rest) ∷ p.later

advance_at :
    (before later : List Source) (file : LogFile) (r : Rec) (rs : List Rec)
    → advance (length before) (before ++ (file, r ∷ rs) ∷ later) ≡ before ++ (file, rs) ∷ later
unfolding advance
advance_at [] later file r rs = refl
advance_at (s ∷ before) later file r rs = ap (◌∷◌ s) (advance_at before later file r rs)

advance-Picked :
    (after : Option Cursor) (sources : List Source) (k : ℕ) (x : Item)
    (p : Picked after 0 sources k x)
    → advance k sources ≡ left p
advance-Picked after sources k x p =
    let place : k ≡ length p.before = omega (arith, p.place) in
    ap (λ n. advance n sources) place
    ∙ (ap (advance (length p.before)) p.split ∙ advance_at p.before p.later x.0 x.1 p.rest)

-- what holds of the sources around it and of the source holds of all
All-middle {ℓ} :
    (P : Source → Type ℓ) (before later : List Source) (s : Source)
    → All P before
    → P s
    → All P later
    → All P (before ++ s ∷ later)
All-middle P before later s hb h hl = All-append P before (s ∷ later) hb (h, hl)

All-swap {ℓ} :
    (P : Source → Type ℓ) (before later : List Source) (s t : Source)
    → (P s → P t)
    → All P (before ++ s ∷ later)
    → All P (before ++ t ∷ later)
All-swap P [] later s t f (h, hs) = (f h, hs)
All-swap P (u ∷ before) later s t f (h, hs) = (h, All-swap P before later s t f hs)

-- a day from which a head is taken is still one
IsDay-tail :
    (after : Option Cursor) (before later : List Source) (file : LogFile) (r : Rec) (rs : List Rec)
    → IsDay after (before ++ (file, r ∷ rs) ∷ later)
    → IsDay after (before ++ (file, rs) ∷ later)
IsDay-tail after [] later file r rs (h, d, day) = (h.1, d, day)
IsDay-tail after (s ∷ before) later file r rs (h, d, day) = (
  h,
  All-swap (λ t. Differ (file_of s) (file_of t)) before later (file, r ∷ rs) (file, rs) (λ e. e) d,
  IsDay-tail after before later file r rs day,
)

IsDay-left :
    (after : Option Cursor) (sources : List Source) (k : ℕ) (x : Item)
    (p : Picked after 0 sources k x)
    → IsDay after sources
    → IsDay after (left p)
IsDay-left after sources k x p day =
    IsDay-tail after p.before p.later x.0 x.1 p.rest (subst (IsDay after) p.split day)

-- how many lines pass a test
abbrev pub count_lines : (Item → Bool) → List Source → ℕ
count_lines p = sum_by (λ s. count p (items_of s))

-- the rounds that `read_days` gives a day are one for each of its lines
enough_rounds :
    (sources : List Source) → count_lines (λ x. true) sources ≡ sum_by (λ s. length s.1) sources
enough_rounds [] = refl
enough_rounds ((file, rs) ∷ sources) = omega (arith, all_of rs, enough_rounds sources)
  where
    all_of : (rs : List Rec) → count (λ x. true) (items_of (file, rs)) ≡ length rs
    all_of [] = refl
    all_of (r ∷ rs) = omega (arith, all_of rs)

module _ (q : Query) where
  merge-none :
      (fuel : ℕ) (sources : List Source)
      → pick q 0 none sources ≡ none
      → merge q (suc fuel) sources ≡ []
  unfolding merge
  merge-none fuel sources e = ap (merge_round (merge q fuel) sources) e

  merge-some :
      (fuel : ℕ) (sources : List Source) (k : ℕ) (x : Item)
      → pick q 0 none sources ≡ some (k, x)
      → (p : Picked q.after 0 sources k x) → merge q (suc fuel) sources ≡ x ∷ merge q fuel (left p)
  unfolding merge
  merge-some fuel sources k x e p =
      ap (merge_round (merge q fuel) sources) e
      ∙ ap (λ s. x ∷ merge q fuel s) (advance-Picked q.after sources k x p)

  -- what holds of every line of a day holds of every item of the merge
  merge-All {ℓ} :
      (P : Item → Type ℓ) (fuel : ℕ) (sources : List Source)
      → IsDay q.after sources
      → All (λ s. All P (items_of s)) sources
      → All P (merge q fuel sources)
  unfolding merge
  merge-All P zero sources day h = tt
  merge-All P (suc fuel) sources day h = elim (pick-cases q 0 sources day) [
    | inl e ↦ subst (All P) (sym (merge-none fuel sources e.0)) tt
    | inr (k, x, e, p) ↦
        let parts = subst (All (λ s. All P (items_of s))) p.split h in
        subst (All P) (sym (merge-some fuel sources k x e p)) (
          here p.before p.later x.0 x.1 p.rest parts,
          merge-All P fuel (left p) (IsDay-left q.after sources k x p day) (
              All-swap (λ s. All P (items_of s)) p.before p.later (x.0, x.1 ∷ p.rest) (x.0, p.rest)
                (λ t. t.1) parts),
        )
  ]
    where
      here :
          (before later : List Source) (file : LogFile) (r : Rec) (rs : List Rec)
          → All (λ s. All P (items_of s)) (before ++ (file, r ∷ rs) ∷ later)
          → P (file, r)
      here [] later file r rs (h, hs) = h.0
      here (s ∷ before) later file r rs (h, hs) = here before later file r rs hs

  pub merge-IsAscending :
      (fuel : ℕ) (sources : List Source)
      → IsDay q.after sources
      → IsAscending q.after (merge q fuel sources)
  unfolding merge
  merge-IsAscending zero sources day = tt
  merge-IsAscending (suc fuel) sources day = elim (pick-cases q 0 sources day) [
    | inl e ↦ subst (IsAscending q.after) (sym (merge-none fuel sources e.0)) tt
    | inr (k, x, e, p) ↦
        let day' = IsDay-left q.after sources k x p day in
        subst (IsAscending q.after) (sym (merge-some fuel sources k x e p)) (
          merge-All (Ahead q.after x) fuel (left p) day' (
              All-middle (IsBehind q.after x) p.before p.later (x.0, p.rest) p.before_behind
                p.rest_behind p.later_behind),
          merge-IsAscending fuel (left p) day',
        )
  ]

  spent_none :
      (p : Item → Bool) (sources : List Source) → IsSpent q sources → count_lines p sources ≡ 0
  spent_none p [] h = refl
  spent_none p (s ∷ sources) (h, hs) = omega (arith, ap (count p) h, spent_none p sources hs)

  left_fewer :
      (t : Item → Bool) (sources : List Source) (k : ℕ) (x : Item)
      (p : Picked q.after 0 sources k x)
      → count_lines t sources ≡ count_lines t (left p) + (if t x then 1 else 0)
  left_fewer t sources k x p =
      ap (count_lines t) p.split
      ∙ ground (
        arith,
        sum_by-append (λ s. count t (items_of s)) p.before ((x.0, x.1 ∷ p.rest) ∷ p.later),
        sum_by-append (λ s. count t (items_of s)) p.before ((x.0, p.rest) ∷ p.later),
      )

  count_le_all :
      (t : Item → Bool) (sources : List Source)
      → count_lines t sources ≤ count_lines (λ x. true) sources
  count_le_all t [] = omega arith
  count_le_all t (s ∷ sources) = omega (arith, fewer (items_of s), count_le_all t sources)
    where
      fewer : (xs : List Item) → count t xs ≤ count (λ x. true) xs
      fewer [] = omega arith
      fewer (x ∷ xs) = ground (arith, fewer xs)

  -- with a round for each line, the merge loses none and makes up none
  count-merge :
      (t : Item → Bool) (fuel : ℕ) (sources : List Source)
      → IsDay q.after sources
      → count_lines (λ x. true) sources ≤ fuel
      → count t (merge q fuel sources) ≡ count_lines t sources
  unfolding merge
  count-merge t zero sources day h = omega (arith, h, count_le_all t sources)
  count-merge t (suc fuel) sources day h = elim (pick-cases q 0 sources day) [
    | inl e ↦ ap (count t) (merge-none fuel sources e.0) ∙ sym (spent_none t sources e.1)
    | inr (k, x, e, p) ↦
        let rest =
          count-merge t fuel (left p) (IsDay-left q.after sources k x p day)
            (omega (arith, h, left_fewer (λ y. true) sources k x p)) in
        ap (count t) (merge-some fuel sources k x e p)
        ∙ ground (arith, rest, left_fewer t sources k x p)
  ]

module _ (encoded_size : PageLine → ℕ) (m : Matcher) (limit : ℕ) (q : Query) (hold : ℕ) where
  -- the heads that are taken one after the other, until the pager is done
  unfoldable pub take_all : Pager → List Item → Pager
  take_all p [] = p
  take_all p (x ∷ xs) =
      let rest = take_all (take_head encoded_size m limit q hold p x) xs in
      if p.done then p else rest

  read_day-merge :
      (fuel : ℕ) (p : Pager) (sources : List Source)
      → read_day encoded_size m limit q hold fuel p sources ≡ take_all p (merge q fuel sources)
  unfolding read_day merge take_all
  read_day-merge zero p sources = refl
  read_day-merge (suc fuel) p sources = elim (Option-cases (pick q 0 none sources)) [
    | inl e ↦ rw e (same p.done)
    | inr ((k, x), e) ↦ rw e (
        ap (λ r. if p.done then p else r)
          (read_day-merge fuel (take_head encoded_size m limit q hold p x) (advance k sources)))
  ]
    where
      same : (b : Bool) → (if b then p else p) ≡ p
      same true = refl
      same false = refl

  -- The loop of `readDay`, given a round for each line, takes the lines of the day one after the other in
  -- the order of the walk until the pager is done: the list that it goes through holds each line as often
  -- as the sources do, in order. Each source is in order itself, and no two are of one file.
  pub read_day_lem :
      (fuel : ℕ) (p : Pager) (sources : List Source)
      → IsDay q.after sources
      → count_lines (λ x. true) sources ≤ fuel
      → (xs : List Item) × (read_day encoded_size m limit q hold fuel p sources ≡ take_all p xs)
        × IsAscending q.after xs
        × ((t : Item → Bool) → count t xs ≡ count_lines t sources)
  read_day_lem fuel p sources day h = (
    merge q fuel sources,
    read_day-merge fuel p sources,
    merge-IsAscending q fuel sources day,
    λ t. count-merge q t fuel sources day h,
  )
