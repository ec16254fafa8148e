-- ===== src/GitApps/State/Attempts.antt =====
-- service/git_app_state.go: a commit that was tried.
use casa_os_app_management.Prelude.{
  ℕ, suc, ◌+◌, ◌-◌, ◌≤◌, ◌<◌, String, ◌≡◌, inl, inr, refl, ap, subst, ◌∙◌, true, false, ◌||◌, List,
  [], ◌∷◌, ◌++◌, arith, eq_refl, ◌==◌, ltb, ltb→lt, Bool-cases, length, drop, length-append,
  drop-append,
}
use mathlib.Core.List.{append_assoc}
use casa_os_app_management.GitApps.State.{GitApp, git_attempted_length, is_among, attempt}

abbrev pub attempts : List String → GitApp → GitApp
attempts [] st = st
attempts (c ∷ cs) st = attempts cs (attempt c st)

-- `c` has at most `k` commits behind it
pub record IsRecent (c : String) (k : ℕ) (cs : List String) : Type 0 where
  pub older : List String
  pub newer : List String
  pub parts : cs ≡ older ++ c ∷ newer
  pub few : length newer ≤ k

is_among-middle : (c : String) (xs ys : List String) → is_among c (xs ++ c ∷ ys) ≡ true
is_among-middle c [] ys = ground (arith, eq_refl c)
is_among-middle c (x ∷ xs) ys = ground (arith, is_among-middle c xs ys)

pub IsRecent-is_among :
    (c : String) (k : ℕ) (cs : List String) → IsRecent c k cs → is_among c cs ≡ true
IsRecent-is_among c k cs r = ap (is_among c) r.parts ∙ is_among-middle c r.older r.newer

-- putting another commit last, and dropping the first ones beyond the limit
IsRecent-snoc :
    (c d : String) (k : ℕ) (cs : List String) → IsRecent c k cs → IsRecent c (suc k) (cs ++ d ∷ [])
IsRecent-snoc c d k cs r = record {
  older = r.older;
  newer = r.newer ++ d ∷ [];
  parts = ap (λ x. x ++ d ∷ []) r.parts ∙ append_assoc r.older (c ∷ r.newer) (d ∷ []);
  few = omega (arith, length-append r.newer (d ∷ []), r.few);
}

IsRecent-drop :
    (c : String) (k n : ℕ) (cs : List String)
    → IsRecent c k cs
    → n + suc k ≤ length cs
    → IsRecent c k (drop n cs)
IsRecent-drop c k n cs r h =
    let long : length cs ≡ length r.older + suc (length r.newer) =
      ap length r.parts ∙ length-append r.older (c ∷ r.newer) in
    record {
      older = drop n r.older;
      newer = r.newer;
      parts =
          ap (drop n) r.parts ∙ drop-append r.older (c ∷ r.newer) n (omega (arith, h, long, r.few));
      few = r.few;
    }

-- `c` stays while fewer than 20 others are tried after it
IsRecent-attempt :
    (c d : String) (k : ℕ) (st : GitApp)
    → suc k < git_attempted_length
    → IsRecent c k st.attempted
    → IsRecent c (suc k) (attempt d st).attempted
unfolding attempt
IsRecent-attempt c d k st h r =
    let long = length-append st.attempted (d ∷ []) in
    elim (Bool-cases (d == "" || is_among d st.attempted)) [
      | inl e ↦
          rw e (record {
            older = r.older;
            newer = r.newer;
            parts = r.parts;
            few = omega (arith, r.few);
          })
      | inr e ↦ elim (Bool-cases (ltb git_attempted_length (length (st.attempted ++ d ∷ [])))) [
        | inl f ↦
            rw (e, f)
              (IsRecent-drop c (suc k) (length (st.attempted ++ d ∷ []) - git_attempted_length)
                (st.attempted ++ d ∷ []) (IsRecent-snoc c d k st.attempted r)
                (omega (
                  arith,
                  h,
                  long,
                  ltb→lt git_attempted_length (length (st.attempted ++ d ∷ [])) f,
                )))
        | inr f ↦ rw (e, f) (IsRecent-snoc c d k st.attempted r)
      ]
    ]

-- a commit tried for the first time
pub attempt-IsRecent :
    (c : String) (st : GitApp)
    → (c == "") ≡ false
    → is_among c st.attempted ≡ false
    → IsRecent c 0 (attempt c st).attempted
unfolding attempt
attempt-IsRecent c st h n =
    let all : IsRecent c 0 (st.attempted ++ c ∷ []) = record {
      older = st.attempted;
      newer = [];
      parts = refl;
      few = omega arith;
    } in
    elim (Bool-cases (ltb git_attempted_length (length (st.attempted ++ c ∷ [])))) [
      | inl f ↦
          rw (h, n, f)
            (IsRecent-drop c 0 (length (st.attempted ++ c ∷ []) - git_attempted_length)
              (st.attempted ++ c ∷ []) all
              (omega (arith, ltb→lt git_attempted_length (length (st.attempted ++ c ∷ [])) f)))
      | inr f ↦ rw (h, n, f) all
    ]

pub IsRecent-attempts :
    (c : String) (cs : List String) (k : ℕ) (st : GitApp)
    → k + length cs < git_attempted_length
    → IsRecent c k st.attempted
    → IsRecent c (k + length cs) (attempts cs st).attempted
IsRecent-attempts c [] k st h r = subst (λ n. IsRecent c n st.attempted) (omega arith) r
IsRecent-attempts c (d ∷ cs) k st h r =
    subst (λ n. IsRecent c n (attempts cs (attempt d st)).attempted) (omega arith)
      (IsRecent-attempts c cs (suc k) (attempt d st) (omega (arith, h))
        (IsRecent-attempt c d k st (omega (arith, h)) r))
