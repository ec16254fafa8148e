-- ===== src/GitApps/State/History.antt =====
-- service/git_app_state.go: the history and its images.
use casa_os_app_management.Prelude.{
  ℕ, zero, suc, ◌≤◌, String, ◌≡◌, inl, inr, refl, sym, ap, ◌∙◌, Bool, true, false, not, ◌&&◌,
  Option, none, some, List, [], ◌∷◌, ◌++◌, arith, eq_iff, eq_refl, ◌==◌, leb, if◌then◌else◌, leb→le,
  Bool-cases, length, take, drop, count, any, str_le, str_le_total, str_le_trans, IsSorted,
  insertion_sort-IsSorted, count-insertion_sort,
}
use casa_os_app_management.GitApps.State.{
  GitHistoryEntry, GitApp, git_history_length, images_of, images_running, is_among, removable_from,
  record_entry, has_run, entry_from, history_entry,
}

count-removable_from :
    (kept images : List String) (s : String)
    → count (λ x. x == s) (removable_from kept images)
      ≡ (if is_among s images && not (is_among s kept) then 1 else 0)
unfolding removable_from
count-removable_from kept [] s = refl
count-removable_from kept (image ∷ images) s = elim (Bool-cases (image == s)) [
  | inl e ↦
      let p : s ≡ image = sym ((eq_iff image s).0 e) in
      rw p (
        ground (
          arith,
          eq_refl image,
          count-removable_from kept images image,
          count-removable_from (image ∷ kept) images image,
        ))
  | inr e ↦
      ground
        (arith, count-removable_from kept images s, count-removable_from (image ∷ kept) images s)
]

-- an image that the entries which leave name, and neither a remaining one nor the running version does
abbrev pub is_removable : String → GitHistoryEntry → GitApp → Bool
is_removable s entry st =
    let history = entry ∷ st.history in
    is_among s (images_of (drop git_history_length history))
    && not (is_among s (images_of (take git_history_length history) ++ images_running st.deployed))

short_take :
    {A : Type 0} → (n : ℕ) (xs : List A) → length xs ≤ n → (take n xs ≡ xs) × (drop n xs ≡ [])
short_take zero [] h = (refl, refl)
short_take zero (x ∷ xs) h = absurd (omega (arith, h))
short_take (suc n) [] h = (refl, refl)
short_take (suc n) (x ∷ xs) h =
    let (all, left) = short_take n xs (omega (arith, h)) in (ap (◌∷◌ x) all, left)

-- Recording a version leaves the newest three entries, the version first, and returns, sorted and once
-- each, the images of the entries that left which neither a remaining entry nor the running version
-- names.
pub record_entry_lem :
    (entry : GitHistoryEntry) (st : GitApp) (s : String)
    → ((record_entry entry st).1.history ≡ take git_history_length (entry ∷ st.history))
      × (IsSorted str_le (record_entry entry st).0
          × (count (λ x. x == s) (record_entry entry st).0
              ≡ (if is_removable s entry st then 1 else 0)))
unfolding record_entry
record_entry_lem entry st s =
    let history = entry ∷ st.history in
    let kept = images_of (take git_history_length history) ++ images_running st.deployed in
    let gone = images_of (drop git_history_length history) in
    elim (Bool-cases (leb (length history) git_history_length)) [
      | inl e ↦
          let (all, left) =
            short_take git_history_length history (leb→le (length history) git_history_length e) in
          rw e (
            sym all,
            (
              tt,
              ap (λ gone. if is_among s (images_of gone) && not (is_among s kept) then 1 else 0)
                  (sym left),
            ),
          )
      | inr e ↦ rw e (
        refl,
        (
          insertion_sort-IsSorted str_le str_le_total str_le_trans (removable_from kept gone),
          count-insertion_sort str_le (λ x. x == s) (removable_from kept gone)
              ∙ count-removable_from kept gone s,
        ),
      )
    ]

abbrev pub is_some : Option GitHistoryEntry → Bool
is_some none = false
is_some (some e) = true

abbrev pub did_run : Option GitHistoryEntry → Bool
did_run none = false
did_run (some e) = has_run e

abbrev pub is_for : String → Option GitHistoryEntry → Bool
is_for commit none = true
is_for commit (some e) = e.commit == commit

entry_from-some :
    (commit : String) (n : GitHistoryEntry) (es : List GitHistoryEntry)
    → (n.commit == commit) ≡ true
    → has_run n ≡ false
    → (is_some (entry_from commit (some n) es) ≡ true)
      × ((did_run (entry_from commit (some n) es) ≡ any (λ e. e.commit == commit && has_run e) es)
          × (is_for commit (entry_from commit (some n) es) ≡ true))
unfolding entry_from
entry_from-some commit n [] c r = (refl, (r, c))
entry_from-some commit n (e ∷ es) c r = elim (Bool-cases (e.commit == commit)) [
  | inr d ↦ rw d (entry_from-some commit n es c r)
  | inl d ↦ elim (Bool-cases (has_run e)) [
    | inl h ↦ rw (d, h) (refl, (h, d))
    | inr h ↦ rw (d, h) (entry_from-some commit n es c r)
  ]
]

entry_from-none :
    (commit : String) (es : List GitHistoryEntry)
    → (is_some (entry_from commit none es) ≡ any (λ e. e.commit == commit) es)
      × ((did_run (entry_from commit none es) ≡ any (λ e. e.commit == commit && has_run e) es)
          × (is_for commit (entry_from commit none es) ≡ true))
unfolding entry_from
entry_from-none commit [] = (refl, (refl, refl))
entry_from-none commit (e ∷ es) = elim (Bool-cases (e.commit == commit)) [
  | inr d ↦ rw d (entry_from-none commit es)
  | inl d ↦ elim (Bool-cases (has_run e)) [
    | inl h ↦ rw (d, h) (refl, (h, d))
    | inr h ↦ rw (d, h) (entry_from-some commit e es d h)
  ]
]

-- The entry that a revert to a commit goes back to is one for that commit; there is one exactly if the
-- history has an entry for the commit, and it is of a version that ran exactly if the history has one.
pub history_entry_lem :
    (commit : String) (st : GitApp)
    → (is_some (history_entry commit st) ≡ any (λ e. e.commit == commit) st.history)
      × ((did_run (history_entry commit st) ≡ any (λ e. e.commit == commit && has_run e) st.history)
          × (is_for commit (history_entry commit st) ≡ true))
unfolding history_entry
history_entry_lem commit st = entry_from-none commit st.history
