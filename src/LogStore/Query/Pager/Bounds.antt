-- ===== src/LogStore/Query/Pager/Bounds.antt =====
-- pkg/logstore/query.go: how large a page is at most.
use casa_os_app_management.Prelude.{
  ℕ, zero, suc, ◌+◌, ◌≤◌, ◌<◌, ◌≡◌, ◌⊎◌, inl, inr, refl, sym, subst, Bool, true, false, ◌&&◌, ◌||◌,
  Option, none, some, List, [], ◌∷◌, ◌++◌, arith, ltb, ◌=ℕ◌, if◌then◌else◌, Bool-cases,
  Option-cases, length, length-append, sum_by, sum_by-append,
}
use casa_os_app_management.LogStore.Query.Cursor.{Cursor}
use casa_os_app_management.LogStore.Query.Filter.{Matcher}
use casa_os_app_management.LogStore.Query.Pager.{
  Query, PageLine, Pager, Item, Source, limit_of, cursor_of, Verdict, skipped, past, inside, window,
  is_wanted, page_line, append_line, take_judged, take_head, new_pager, max_lines_bytes, day_round,
  read_day, read_days, pick, advance,
}

-- the bytes of a line on the page, with the comma behind it
abbrev pub cost : (PageLine → ℕ) → PageLine → ℕ
cost encoded_size l = encoded_size l + 1

module _ (encoded_size : PageLine → ℕ) (m : Matcher) (limit : ℕ) where
  -- The pager counts what its lines cost, keeps within both limits, and goes on only below the limit of
  -- lines.
  pub record IsBounded (p : Pager) : Type 0 where
    pub counted : p.bytes ≡ sum_by (cost encoded_size) p.lines
    pub within_lines : length p.lines ≤ limit
    pub within_bytes : (p.bytes ≤ max_lines_bytes) ⊎ (length p.lines ≤ 1)
    pub goes_on : p.done ≡ false → length p.lines < limit

  -- a line that fits is counted in
  grown :
      (p : Pager) (l : PageLine) (last : Option Cursor) (stop full : Bool)
      → (length (p.lines ++ l ∷ []) =ℕ limit) ≡ stop
      → (ltb 0 (length p.lines) && ltb max_lines_bytes (p.bytes + cost encoded_size l)) ≡ false
      → length p.lines < limit
      → IsBounded p
      → IsBounded (record {
        lines = p.lines ++ l ∷ [];
        bytes = p.bytes + cost encoded_size l;
        last = last;
        full = full;
        done = stop || p.done;
      })
  grown p l last stop full h fits below b =
      let more : length (p.lines ++ l ∷ []) ≡ length p.lines + 1 = length-append p.lines (l ∷ []) in
      record {
        counted = omega (arith, b.counted, sum_by-append (cost encoded_size) p.lines (l ∷ []));
        within_lines = omega (arith, more, below);
        within_bytes =
            room (length p.lines) (length (p.lines ++ l ∷ [])) (p.bytes + cost encoded_size l) more
              fits;
        goes_on = λ going.
            open_still (length (p.lines ++ l ∷ [])) stop p.done h going
              (omega (arith, more, below));
      }
    where
      room :
          (n n' bytes : ℕ)
          → n' ≡ n + 1
          → (ltb 0 n && ltb max_lines_bytes bytes) ≡ false
          → (bytes ≤ max_lines_bytes) ⊎ (n' ≤ 1)
      room zero n' bytes e f = inr (omega (arith, e))
      room (suc n) n' bytes e f = inl (ground arith)

      open_still :
          (n : ℕ) (stop done : Bool)
          → (n =ℕ limit) ≡ stop
          → (stop || done) ≡ false
          → n ≤ limit
          → n < limit
      open_still n stop done e going le = ground arith

  append_line-IsBounded :
      (p : Pager) (x : Item)
      → p.done ≡ false
      → IsBounded p
      → IsBounded (append_line encoded_size m limit p x)
  unfolding append_line
  append_line-IsBounded p x going b =
      let l = page_line x in
      elim (Bool-cases
        (ltb 0 (length p.lines) && ltb max_lines_bytes (p.bytes + cost encoded_size l))) [
          | inl e ↦ rw e (record {
            counted = b.counted;
            within_lines = b.within_lines;
            within_bytes = b.within_bytes;
            goes_on = λ h. absurd (cc h);
          })
          | inr e ↦ rw e (
              grown p l (some (cursor_of x)) (length (p.lines ++ l ∷ []) =ℕ limit) _ refl e
                (b.goes_on going) b)
        ]

  take_judged-IsBounded :
      (v : Verdict) (p : Pager) (x : Item)
      → p.done ≡ false
      → IsBounded p
      → IsBounded (take_judged encoded_size m limit v p x)
  unfolding take_judged
  take_judged-IsBounded skipped p x going b = b
  take_judged-IsBounded past p x going b = record {
    counted = b.counted;
    within_lines = b.within_lines;
    within_bytes = b.within_bytes;
    goes_on = λ h. absurd (cc h);
  }
  take_judged-IsBounded inside p x going b = elim (Bool-cases (is_wanted m x)) [
    | inl e ↦ subst IsBounded (sym (on_if (is_wanted m x) e)) (append_line-IsBounded p x going b)
    | inr e ↦ subst IsBounded (sym (off_if (is_wanted m x) e)) b
  ]
    where
      on_if :
          (w : Bool)
          → w ≡ true
          → (if w then append_line encoded_size m limit p x else p)
            ≡ append_line encoded_size m limit p x
      on_if true h = refl
      on_if false h = cc

      off_if : (w : Bool) → w ≡ false → (if w then append_line encoded_size m limit p x else p) ≡ p
      off_if false h = refl
      off_if true h = cc

  module _ (q : Query) (hold : ℕ) where
    read_day-IsBounded :
        (fuel : ℕ) (p : Pager) (sources : List Source)
        → IsBounded p
        → IsBounded (read_day encoded_size m limit q hold fuel p sources)
    unfolding read_day take_head
    read_day-IsBounded zero p sources b = b
    read_day-IsBounded (suc fuel) p sources b = elim (Bool-cases p.done) [
      | inl e ↦ subst IsBounded (sym (on_if p.done e)) b
      | inr e ↦
          subst IsBounded (sym (off_if p.done e)) (elim (Option-cases (pick q 0 none sources)) [
            | inl k ↦ subst (λ o. IsBounded (next o)) (sym k) b
            | inr ((i, x), k) ↦
                subst (λ o. IsBounded (next o)) (sym k)
                  (read_day-IsBounded fuel (take_head encoded_size m limit q hold p x)
                    (advance i sources)
                    (take_judged-IsBounded (window q hold (cursor_of x)) p x e b))
          ])
    ]
      where
        next : Option (ℕ × Item) → Pager
        next =
            day_round encoded_size m limit q hold (read_day encoded_size m limit q hold fuel) p
              sources

        on_if : (w : Bool) → w ≡ true → (if w then p else next (pick q 0 none sources)) ≡ p
        on_if true h = refl
        on_if false h = cc

        off_if :
            (w : Bool)
            → w ≡ false
            → (if w then p else next (pick q 0 none sources)) ≡ next (pick q 0 none sources)
        off_if false h = refl
        off_if true h = cc

  module _ (q : Query) (hold : ℕ) where
    read_days-IsBounded :
        (p : Pager) (days : List (List Source))
        → IsBounded p
        → IsBounded (read_days encoded_size m limit q hold p days)
    unfolding read_days
    read_days-IsBounded p [] b = b
    read_days-IsBounded p (sources ∷ days) b =
        let fuel = sum_by (λ s. length s.1) sources in
        let p' = read_day encoded_size m limit q hold fuel p sources in
        let b' = read_day-IsBounded q hold fuel p sources b in
        either p'.done p' (read_days encoded_size m limit q hold p' days) b'
          (read_days-IsBounded p' days b')
      where
        either :
            (w : Bool) (x y : Pager) → IsBounded x → IsBounded y → IsBounded (if w then x else y)
        either true x y bx by_y = bx
        either false x y bx by_y = by_y

-- Whatever limit is asked for and however many days are read, a page has at most that many lines and at
-- most 1000, 500 where none is given; and the lines cost at most 1.75 MiB together, unless there is one
-- line only.
pub page-IsBounded :
    (encoded_size : PageLine → ℕ) (m : Matcher) (asked : ℕ) (q : Query) (hold : ℕ)
    (days : List (List Source))
    → let p = read_days encoded_size m (limit_of asked) q hold new_pager days in
      (length p.lines ≤ 1000)
      × (length p.lines ≤ (if asked =ℕ 0 then 500 else asked))
      × ((sum_by (cost encoded_size) p.lines ≤ max_lines_bytes) ⊎ (length p.lines ≤ 1))
page-IsBounded encoded_size m asked q hold days =
    let (thousand, own, some_room) = limit_bounds asked in
    let lines = (read_days encoded_size m (limit_of asked) q hold new_pager days).lines in
    let b = read_days-IsBounded encoded_size m (limit_of asked) q hold new_pager days (record {
      counted = refl;
      within_lines = omega arith;
      within_bytes = inr (omega arith);
      goes_on = λ h. some_room;
    }) in
    (
      omega (arith, b.within_lines, thousand),
      omega (arith, b.within_lines, own),
      subst (λ n. (n ≤ max_lines_bytes) ⊎ (length lines ≤ 1)) b.counted b.within_bytes,
    )
  where
    limit_bounds :
        (n : ℕ)
        → (limit_of n ≤ 1000) × (limit_of n ≤ (if n =ℕ 0 then 500 else n)) × (0 < limit_of n)
    limit_bounds n = ground arith
