-- ===== src/Backup/Retention/Laws.antt =====
-- service/backup_retention.go: what stays.
use casa_os_app_management.Prelude.{
  ℕ, ◌+◌, ◌-◌, ◌≤◌, min, String, ◌≡◌, inl, inr, refl, sym, ap, subst, ◌∙◌, Bool, true, ◌||◌, List,
  [], ◌∷◌, ◌++◌, arith, leb, ◌=ℕ◌, if◌then◌else◌, Bool-cases, length, take, drop, length-take,
  length-drop, take-append-drop, count, count-append, All, str_le, str_le_total, str_le_trans,
  IsSorted, insertion_sort-IsSorted, count-insertion_sort, length-insertion_sort,
  All-tail_of_append,
}
use casa_os_app_management.Backup.Retention.{sort_strings, runs_to_purge}

-- what a retention leaves of the sorted stamps
abbrev pub left_of : List String → ℕ → List String
left_of stamps kept = drop (length (runs_to_purge stamps kept)) (sort_strings stamps)

-- every item of the first list is at most each one of the second
abbrev pub AreBefore : List String → List String → Type 0
AreBefore gone stays = All (λ s. All (λ t. str_le s t ≡ true) stays) gone

IsSorted-append : (xs ys : List String) → IsSorted str_le (xs ++ ys) → AreBefore xs ys
IsSorted-append [] ys h = tt
IsSorted-append (x ∷ xs) ys h =
    (All-tail_of_append (λ t. str_le x t ≡ true) xs ys h.0, IsSorted-append xs ys h.1)

-- how many go
number_gone : ℕ → ℕ → ℕ
number_gone n kept = if kept =ℕ 0 || leb n kept then 0 else n - kept

runs_to_purge-take :
    (stamps : List String) (kept : ℕ)
    → runs_to_purge stamps kept ≡ take (number_gone (length stamps) kept) (sort_strings stamps)
unfolding runs_to_purge number_gone
runs_to_purge-take stamps kept = elim (Bool-cases (kept =ℕ 0 || leb (length stamps) kept)) [
  | inl e ↦ rw e refl
  | inr e ↦ rw (e, length-insertion_sort str_le stamps) refl
]

number_gone-le : (n kept : ℕ) → number_gone n kept ≤ n
unfolding number_gone
number_gone-le n kept = ground arith

number_left : (n kept : ℕ) → n - number_gone n kept ≡ (if kept =ℕ 0 then n else min kept n)
unfolding number_gone
number_left n kept = ground arith

length-runs_to_purge :
    (stamps : List String) (kept : ℕ)
    → length (runs_to_purge stamps kept) ≡ number_gone (length stamps) kept
length-runs_to_purge stamps kept =
    ap length (runs_to_purge-take stamps kept)
    ∙ omega (
      arith,
      length-take (number_gone (length stamps) kept) (sort_strings stamps),
      length-insertion_sort str_le stamps,
      number_gone-le (length stamps) kept,
    )

purged_then_left :
    (stamps : List String) (kept : ℕ)
    → runs_to_purge stamps kept ++ left_of stamps kept ≡ sort_strings stamps
purged_then_left stamps kept =
    rw (length-runs_to_purge stamps kept, runs_to_purge-take stamps kept)
      (take-append-drop (number_gone (length stamps) kept) (sort_strings stamps))

-- Each stamp is as often among the runs to delete and those left together as it is given; one to delete
-- is at most, that is as old as, each one left; and with a retention as many runs are left as it keeps,
-- or all of them if there are fewer, and all without one.
pub runs_to_purge_lem :
    (stamps : List String) (kept : ℕ) (p : String → Bool)
    → (count p (runs_to_purge stamps kept) + count p (left_of stamps kept) ≡ count p stamps)
      × (AreBefore (runs_to_purge stamps kept) (left_of stamps kept)
          × (length (left_of stamps kept)
              ≡ (if kept =ℕ 0 then length stamps else min kept (length stamps))))
runs_to_purge_lem stamps kept p =
    let gone = runs_to_purge stamps kept in
    let stays = left_of stamps kept in
    let whole : gone ++ stays ≡ sort_strings stamps = purged_then_left stamps kept in
    (
      sym (count-append p gone stays) ∙ (ap (count p) whole ∙ count-insertion_sort str_le p stamps),
      (
        IsSorted-append gone stays (
            subst (IsSorted str_le) (sym whole)
              (insertion_sort-IsSorted str_le str_le_total str_le_trans stamps)),
        length-drop (length gone) (sort_strings stamps)
            ∙ rw (length-runs_to_purge stamps kept, length-insertion_sort str_le stamps)
                (number_left (length stamps) kept),
      ),
    )
