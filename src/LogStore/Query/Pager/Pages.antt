-- ===== src/LogStore/Query/Pager/Pages.antt =====
-- pkg/logstore/query.go: what a walk over lines in order leaves in the pager.
use casa_os_app_management.Prelude.{
  ℕ, ◌+◌, ◌<◌, ◌≡◌, ◌⊎◌, inl, inr, refl, sym, ap, subst, ◌∙◌, Bool, true, false, ◌&&◌, ◌||◌, some,
  List, [], ◌∷◌, ◌++◌, map, arith, ltb, ◌=ℕ◌, Bool-cases, length, length-append, keep, All,
}
use mathlib.Core.List.{append_assoc, append-nil}
use casa_os_app_management.LogStore.Query.Filter.{Matcher}
use casa_os_app_management.LogStore.Query.Pager.{
  Query, PageLine, Pager, Item, cursor_of, Verdict, skipped, past, inside, window, is_wanted,
  page_line, append_line, take_judged, take_head, max_lines_bytes,
}
use casa_os_app_management.LogStore.Query.Pager.Order.{Ahead}
use casa_os_app_management.LogStore.Query.Pager.Merge.{IsAscending}
use casa_os_app_management.LogStore.Query.Pager.Merged.{take_all}
use casa_os_app_management.LogStore.Query.Pager.Windows.{lets_in, past_stays}

Verdict-cases : (v : Verdict) → (v ≡ skipped) ⊎ (v ≡ past) ⊎ (v ≡ inside)
Verdict-cases skipped = inl refl
Verdict-cases past = inr (inl refl)
Verdict-cases inside = inr (inr refl)

-- the lines that a query asks for
abbrev pub is_answer : Matcher → ℕ → Query → Item → Bool
is_answer m hold q x = lets_in (window q hold (cursor_of x)) && is_wanted m x

abbrev pub answers : Matcher → ℕ → Query → List Item → List PageLine
answers m hold q xs = map page_line (keep (is_answer m hold q) xs)

pub keep-append {ℓ} :
    {A : Type ℓ} (p : A → Bool) (xs ys : List A) → keep p (xs ++ ys) ≡ keep p xs ++ keep p ys
keep-append p [] ys = refl
keep-append p (x ∷ xs) ys = ground (arith, keep-append p xs ys)

module _ (encoded_size : PageLine → ℕ) (m : Matcher) (limit : ℕ) (q : Query) (hold : ℕ) where
  abbrev pub run : Pager → List Item → Pager
  run = take_all encoded_size m limit q hold

  -- The page is full at `z`, and what is behind `z` is left.
  pub record Stops (p : Pager) (xs : List Item) (p' : Pager) : Type 0 where
    pub taken : List Item
    pub z : Item
    pub left : List Item
    pub split : xs ≡ taken ++ z ∷ left
    pub answered : is_answer m hold q z ≡ true
    pub last : p'.last ≡ some (cursor_of z)
    pub lines : p'.lines ≡ p.lines ++ answers m hold q (taken ++ z ∷ [])

  abbrev pub Idle : Pager → Pager → Type 0
  Idle p p' = (p'.lines ≡ p.lines) × (p'.last ≡ p.last) × (0 < length p.lines)

  abbrev pub Outcome : Pager → List Item → Pager → Type 0
  Outcome p xs p' =
      ((p'.full ≡ false) × (p'.lines ≡ p.lines ++ answers m hold q xs))
      ⊎ ((p'.full ≡ true) × (Stops p xs p' ⊎ Idle p p'))

  -- a head that is no answer changes no outcome
  not_taken :
      (p : Pager) (x : Item) (xs : List Item) (p' : Pager)
      → is_answer m hold q x ≡ false
      → Outcome p xs p'
      → Outcome p (x ∷ xs) p'
  not_taken p x xs p' off (inl (full, lines)) = inl (full, lines ∙ rw off refl)
  not_taken p x xs p' off (inr (full, inr idle)) = inr (full, inr idle)
  not_taken p x xs p' off (inr (full, inl s)) = inr (
    full,
    inl (record {
      taken = x ∷ s.taken;
      z = s.z;
      left = s.left;
      split = ap (◌∷◌ x) s.split;
      answered = s.answered;
      last = s.last;
      lines = s.lines ∙ rw off refl;
    }),
  )

  with_taken :
      (p p1 : Pager) (x : Item) (ys : List Item)
      → is_answer m hold q x ≡ true
      → p1.lines ≡ p.lines ++ page_line x ∷ []
      → p1.lines ++ answers m hold q ys ≡ p.lines ++ answers m hold q (x ∷ ys)
  with_taken p p1 x ys on lines1 =
      let shown : page_line x ∷ answers m hold q ys ≡ answers m hold q (x ∷ ys) = rw on refl in
      ap (λ l. l ++ answers m hold q ys) lines1
      ∙ (append_assoc p.lines (page_line x ∷ []) (answers m hold q ys)
          ∙ ap (λ l. p.lines ++ l) shown)

  -- a head that is appended
  taken_on :
      (p p1 : Pager) (x : Item) (xs : List Item) (p' : Pager)
      → is_answer m hold q x ≡ true
      → p1.lines ≡ p.lines ++ page_line x ∷ []
      → p1.last ≡ some (cursor_of x)
      → Outcome p1 xs p'
      → Outcome p (x ∷ xs) p'
  taken_on p p1 x xs p' on lines1 last1 (inl (full, lines)) =
      inl (full, lines ∙ with_taken p p1 x xs on lines1)
  taken_on p p1 x xs p' on lines1 last1 (inr (full, inl s)) = inr (
    full,
    inl (record {
      taken = x ∷ s.taken;
      z = s.z;
      left = s.left;
      split = ap (◌∷◌ x) s.split;
      answered = s.answered;
      last = s.last;
      lines = s.lines ∙ with_taken p p1 x (s.taken ++ s.z ∷ []) on lines1;
    }),
  )
  taken_on p p1 x xs p' on lines1 last1 (inr (full, inr idle)) = inr (
    full,
    inl (record {
      taken = [];
      z = x;
      left = xs;
      split = refl;
      answered = on;
      last = idle.1 ∙ last1;
      lines = idle.0 ∙ (sym (append-nil p1.lines) ∙ with_taken p p1 x [] on lines1);
    }),
  )

  -- a pager that is done takes nothing
  run_done : (p : Pager) (xs : List Item) → p.done ≡ true → run p xs ≡ p
  unfolding take_all
  run_done p [] h = refl
  run_done p (x ∷ xs) h = rw h refl

  run_on :
      (p : Pager) (x : Item) (xs : List Item)
      → p.done ≡ false
      → run p (x ∷ xs) ≡ run (take_head encoded_size m limit q hold p x) xs
  unfolding take_all
  run_on p x xs h = rw h refl

  -- nothing is asked for behind the end of a walk
  none_behind :
      (x : Item) (ys : List Item)
      → window q hold (cursor_of x) ≡ past
      → All (Ahead q.after x) ys
      → answers m hold q ys ≡ []
  unfolding window
  none_behind x [] e h = refl
  none_behind x (y ∷ ys) e (h, hs) = rw (past_stays q.after q hold x y e h) (none_behind x ys e hs)

  judged :
      (p : Pager) (x : Item) (v : Verdict)
      → window q hold (cursor_of x) ≡ v
      → take_head encoded_size m limit q hold p x ≡ take_judged encoded_size m limit v p x
  unfolding take_head
  judged p x v e = ap (λ w. take_judged encoded_size m limit w p x) e

  -- what follows when every later pager keeps its promise
  abbrev Later : List Item → Type 0
  Later xs = (p : Pager) → p.full ≡ false → p.done ≡ false → Outcome p xs (run p xs)

  skipped-Outcome :
      (p : Pager) (x : Item) (xs : List Item)
      → window q hold (cursor_of x) ≡ skipped
      → Outcome p xs (run p xs)
      → Outcome p (x ∷ xs) (run (take_judged encoded_size m limit skipped p x) xs)
  unfolding take_judged
  skipped-Outcome p x xs e out = not_taken p x xs (run p xs) (rw e refl) out

  past-Outcome :
      (p : Pager) (x : Item) (xs : List Item)
      → All (Ahead q.after x) xs
      → window q hold (cursor_of x) ≡ past
      → p.full ≡ false
      → Outcome p (x ∷ xs) (run (take_judged encoded_size m limit past p x) xs)
  unfolding take_judged
  past-Outcome p x xs ahead e full =
      let none_left : answers m hold q (x ∷ xs) ≡ [] = rw e (none_behind x xs e ahead) in
      subst (Outcome p (x ∷ xs)) (sym (run_done (record p { done = true }) xs refl))
        (inl (full, sym (append-nil p.lines) ∙ ap (λ l. p.lines ++ l) (sym none_left)))

  -- a line that does not fit, or the line that fills the page, or one more
  append-Outcome :
      (p : Pager) (x : Item) (xs : List Item)
      → is_answer m hold q x ≡ true
      → p.full ≡ false
      → p.done ≡ false
      → Later xs
      → Outcome p (x ∷ xs) (run (append_line encoded_size m limit p x) xs)
  unfolding append_line
  append-Outcome p x xs on full done later =
      let cost = encoded_size (page_line x) + 1 in
      elim (Bool-cases (ltb 0 (length p.lines) && ltb max_lines_bytes (p.bytes + cost))) [
        | inl e ↦ rw e (
            subst (Outcome p (x ∷ xs))
              (sym (run_done (record p { full = true; done = true }) xs refl))
              (inr (refl, inr (refl, refl, some_lines (length p.lines) _ e))))
        | inr e ↦ rw e (stop_or_go (length (p.lines ++ page_line x ∷ []) =ℕ limit))
      ]
    where
      some_lines : (n : ℕ) (b : Bool) → (ltb 0 n && b) ≡ true → 0 < n
      some_lines n b h = ground arith

      stop_or_go :
          (stop : Bool)
          → Outcome p (x ∷ xs) (
              run
                (record {
                  lines = p.lines ++ page_line x ∷ [];
                  bytes = p.bytes + (encoded_size (page_line x) + 1);
                  last = some (cursor_of x);
                  full = stop || p.full;
                  done = stop || p.done;
                })
                xs)
      stop_or_go true =
          let p1 : Pager = record {
            lines = p.lines ++ page_line x ∷ [];
            bytes = p.bytes + (encoded_size (page_line x) + 1);
            last = some (cursor_of x);
            full = true;
            done = true;
          } in
          subst (Outcome p (x ∷ xs)) (sym (run_done p1 xs refl)) (
            taken_on p p1 x xs p1 on refl refl (
              inr
                (refl, inr (refl, refl, omega (arith, length-append p.lines (page_line x ∷ []))))))
      stop_or_go false = taken_on p _ x xs _ on refl refl (later _ full done)

  inside_wanted :
      (p : Pager) (x : Item)
      → is_wanted m x ≡ true
      → take_judged encoded_size m limit inside p x ≡ append_line encoded_size m limit p x
  unfolding take_judged
  inside_wanted p x w = rw w refl

  inside_other :
      (p : Pager) (x : Item)
      → is_wanted m x ≡ false
      → take_judged encoded_size m limit inside p x ≡ p
  unfolding take_judged
  inside_other p x w = rw w refl

  inside-Outcome :
      (p : Pager) (x : Item) (xs : List Item)
      → window q hold (cursor_of x) ≡ inside
      → p.full ≡ false
      → p.done ≡ false
      → Later xs
      → Outcome p (x ∷ xs) (run (take_judged encoded_size m limit inside p x) xs)
  inside-Outcome p x xs e full done later = elim (Bool-cases (is_wanted m x)) [
    | inl w ↦
        subst (λ r. Outcome p (x ∷ xs) (run r xs)) (sym (inside_wanted p x w))
          (append-Outcome p x xs (rw (e, w) refl) full done later)
    | inr w ↦
        subst (λ r. Outcome p (x ∷ xs) (run r xs)) (sym (inside_other p x w))
          (not_taken p x xs (run p xs) (rw (e, w) refl) (later p full done))
  ]

  pub run-Outcome :
      (p : Pager) (xs : List Item)
      → IsAscending q.after xs
      → p.full ≡ false
      → p.done ≡ false
      → Outcome p xs (run p xs)
  unfolding take_all
  run-Outcome p [] asc full done = inl (full, sym (append-nil p.lines))
  run-Outcome p (x ∷ xs) (ahead, asc) full done =
      let later : Later xs = λ p1 f d. run-Outcome p1 xs asc f d in
      subst (Outcome p (x ∷ xs)) (sym (run_on p x xs done))
        (elim (Verdict-cases (window q hold (cursor_of x))) [
          | inl e ↦
              subst (λ r. Outcome p (x ∷ xs) (run r xs)) (sym (judged p x skipped e))
                (skipped-Outcome p x xs e (later p full done))
          | inr (inl e) ↦
              subst (λ r. Outcome p (x ∷ xs) (run r xs)) (sym (judged p x past e))
                (past-Outcome p x xs ahead e full)
          | inr (inr e) ↦
              subst (λ r. Outcome p (x ∷ xs) (run r xs)) (sym (judged p x inside e))
                (inside-Outcome p x xs e full done later)
        ])
