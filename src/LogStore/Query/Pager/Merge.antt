-- ===== src/LogStore/Query/Pager/Merge.antt =====
-- pkg/logstore/query.go: the heads that `readDay` takes, one after the other, are the lines of the day
-- in the order of the walk.
use casa_os_app_management.Prelude.{
  ℕ, zero, suc, ◌+◌, ◌≡◌, ◌⊎◌, inl, inr, refl, sym, ap, subst, Option, none, some, List, [], ◌∷◌,
  ◌++◌, map, arith, length, All,
}
use casa_os_app_management.LogStore.Line.{Bytes}
use casa_os_app_management.LogStore.Query.Reader.{Rec}
use casa_os_app_management.LogStore.Query.Cursor.{Cursor}
use casa_os_app_management.LogStore.Query.Pager.{
  LogFile, Query, Item, Source, better, pick, advance,
}
use casa_os_app_management.LogStore.Query.Pager.Order.{
  Ahead, Ahead-trans, Differ, Differ-sym, first-cases,
}

abbrev pub items_of : Source → List Item
items_of (file, rs) = map (λ r. (file, r)) rs

abbrev pub file_of : Source → Bytes
file_of (file, rs) = file.rel

abbrev pub merge_round : (List Source → List Item) → List Source → Option (ℕ × Item) → List Item
merge_round later sources none = []
merge_round later sources (some (i, x)) = x ∷ later (advance i sources)

-- the heads in the order in which they are picked
unfoldable pub merge : Query → ℕ → List Source → List Item
merge q zero sources = []
merge q (suc fuel) sources = merge_round (merge q fuel) sources (pick q 0 none sources)

-- each item comes before all that follow it
abbrev pub IsAscending : Option Cursor → List Item → Type 0
IsAscending after [] = Unit
IsAscending after (x ∷ xs) = All (Ahead after x) xs × IsAscending after xs

-- all lines of a source are behind an item
abbrev pub IsBehind : Option Cursor → Item → Source → Type 0
IsBehind after x s = All (Ahead after x) (items_of s)

-- Every source is in order, and no two are of one file.
abbrev pub IsDay : Option Cursor → List Source → Type 0
IsDay after [] = Unit
IsDay after (s ∷ sources) =
    IsAscending after (items_of s)
    × All (λ t. Differ (file_of s) (file_of t)) sources
    × IsDay after sources

-- What is picked: a head with the sources before it and behind it, and all other lines behind it.
pub record Picked (after : Option Cursor) (i : ℕ) (sources : List Source) (k : ℕ) (x : Item)
    : Type 0 where
  pub before : List Source
  pub rest : List Rec
  pub later : List Source
  pub place : k ≡ i + length before
  pub split : sources ≡ before ++ (x.0, x.1 ∷ rest) ∷ later
  pub before_behind : All (IsBehind after x) before
  pub rest_behind : All (Ahead after x) (items_of (x.0, rest))
  pub later_behind : All (IsBehind after x) later

-- the same with one more source in front
pub Picked-cons :
    (after : Option Cursor) (i : ℕ) (s : Source) (sources : List Source) (k : ℕ) (x : Item)
    → IsBehind after x s
    → Picked after (suc i) sources k x
    → Picked after i (s ∷ sources) k x
Picked-cons after i s sources k x h p = record {
  before = s ∷ p.before;
  rest = p.rest;
  later = p.later;
  place = omega (arith, p.place);
  split = ap (◌∷◌ s) p.split;
  before_behind = (h, p.before_behind);
  rest_behind = p.rest_behind;
  later_behind = p.later_behind;
}

-- what comes behind an item comes behind one that is ahead of it
behind_trans :
    (after : Option Cursor) (x y : Item) (xs : List Item)
    → Ahead after x y
    → All (Ahead after y) xs
    → All (Ahead after x) xs
behind_trans after x y [] h k = tt
behind_trans after x y (z ∷ zs) h (k, ks) =
    (Ahead-trans after x y z h k, behind_trans after x y zs h ks)

module _ (q : Query) where
  -- The best head so far keeps its place, or a head behind it takes it.
  abbrev Outcome : ℕ → ℕ → Item → List Source → ℕ → Item → Type 0
  Outcome i j b sources k x =
      ((k ≡ j) × (x ≡ b) × All (IsBehind q.after b) sources)
      ⊎ (Ahead q.after x b × Picked q.after i sources k x)

  abbrev Outcomes : ℕ → ℕ → Item → List Source → Type 0
  Outcomes i j b sources =
      (k : ℕ) × (x : Item) × (pick q i (some (j, b)) sources ≡ some (k, x))
      × Outcome i j b sources k x

  head-Picked :
      (i : ℕ) (file : LogFile) (r : Rec) (rs : List Rec) (sources : List Source)
      → All (Ahead q.after (file, r)) (items_of (file, rs))
      → All (IsBehind q.after (file, r)) sources
      → Picked q.after i ((file, r ∷ rs) ∷ sources) i (file, r)
  head-Picked i file r rs sources h hs = record {
    before = [];
    rest = rs;
    later = sources;
    place = omega arith;
    split = refl;
    before_behind = tt;
    rest_behind = h;
    later_behind = hs;
  }

  -- the first head keeps its place or loses it to one behind the others
  first_pick :
      (i : ℕ) (file : LogFile) (r : Rec) (rs : List Rec) (sources : List Source) (k : ℕ) (x : Item)
      → All (Ahead q.after (file, r)) (items_of (file, rs))
      → Outcome (suc i) i (file, r) sources k x
      → Picked q.after i ((file, r ∷ rs) ∷ sources) k x
  first_pick i file r rs sources k x hs (inl (ek, ex, behind)) =
      subst (λ y. Picked q.after i ((file, r ∷ rs) ∷ sources) k y) (sym ex)
        (subst (λ n. Picked q.after i ((file, r ∷ rs) ∷ sources) n (file, r)) (sym ek)
          (head-Picked i file r rs sources hs behind))
  first_pick i file r rs sources k x hs (inr (ahead, p)) =
      Picked-cons q.after i (file, r ∷ rs) sources k x
        (ahead, behind_trans q.after x (file, r) (items_of (file, rs)) ahead hs) p

  -- so does a head that took the place of the best one
  take_over :
      (i : ℕ) (b : Item) (file : LogFile) (r : Rec) (rs : List Rec) (sources : List Source) (k : ℕ)
      (x : Item)
      → Ahead q.after (file, r) b
      → All (Ahead q.after (file, r)) (items_of (file, rs))
      → Outcome (suc i) i (file, r) sources k x
      → Ahead q.after x b × Picked q.after i ((file, r ∷ rs) ∷ sources) k x
  take_over i b file r rs sources k x h hs out =
      (ahead out, first_pick i file r rs sources k x hs out)
    where
      ahead : Outcome (suc i) i (file, r) sources k x → Ahead q.after x b
      ahead (inl (ek, ex, behind)) = subst (λ y. Ahead q.after y b) (sym ex) h
      ahead (inr (closer, p)) = Ahead-trans q.after x (file, r) b closer h

  pick_from :
      (i j : ℕ) (b : Item) (sources : List Source)
      → IsDay q.after sources
      → All (λ t. Differ (b.0).rel (file_of t)) sources
      → Outcomes i j b sources
  unfolding pick better
  pick_from i j b [] day differ = (j, b, refl, inl (refl, refl, tt))
  pick_from i j b ((file, []) ∷ sources) day differ =
      let (k, x, e, out) = pick_from (suc i) j b sources day.2 differ.1 in
      (
        k,
        x,
        e,
        elim out [
          | inl h ↦ inl (h.0, h.1, (tt, h.2))
          | inr h ↦ inr (h.0, Picked-cons q.after i (file, []) sources k x tt h.1)
        ],
      )
  pick_from i j b ((file, r ∷ rs) ∷ sources) day differ =
      elim (first-cases q (file, r) b (Differ-sym (b.0).rel file.rel differ.0)) [
        | inl c ↦
            let (k, x, e, out) = pick_from (suc i) i (file, r) sources day.2 day.1 in
            (k, x, rw c.0 e, inr (take_over i b file r rs sources k x c.1 day.0.0 out))
        | inr c ↦
            let (k, x, e, out) = pick_from (suc i) j b sources day.2 differ.1 in
            (
              k,
              x,
              rw c.0 e,
              elim out [
                | inl h ↦ inl (
                  h.0,
                  h.1,
                  ((c.1, behind_trans q.after b (file, r) (items_of (file, rs)) c.1 day.0.0), h.2),
                )
                | inr h ↦
                    let ahead = Ahead-trans q.after x b (file, r) h.0 c.1 in
                    inr (
                      h.0,
                      Picked-cons q.after i (file, r ∷ rs) sources k x
                          (
                            ahead,
                            behind_trans q.after x (file, r) (items_of (file, rs)) ahead day.0.0,
                          )
                          h.1,
                    )
              ],
            )
      ]

  -- no source has a line left
  abbrev pub IsSpent : List Source → Type 0
  IsSpent = All (λ s. items_of s ≡ [])

  -- A day of which a head is picked, or of which nothing is left.
  pub pick-cases :
      (i : ℕ) (sources : List Source)
      → IsDay q.after sources
      → ((pick q i none sources ≡ none) × IsSpent sources)
        ⊎ ((k : ℕ) × (x : Item) × (pick q i none sources ≡ some (k, x))
            × Picked q.after i sources k x)
  unfolding pick better
  pick-cases i [] day = inl (refl, tt)
  pick-cases i ((file, []) ∷ sources) day = elim (pick-cases (suc i) sources day.2) [
    | inl h ↦ inl (h.0, (refl, h.1))
    | inr (k, x, e, p) ↦ inr (k, x, e, Picked-cons q.after i (file, []) sources k x tt p)
  ]
  pick-cases i ((file, r ∷ rs) ∷ sources) day =
      let (k, x, e, out) = pick_from (suc i) i (file, r) sources day.2 day.1 in
      inr (k, x, e, first_pick i file r rs sources k x day.0.0 out)
