-- ===== src/GitApps/Automatic/Laws.antt =====
-- service/git_deploy.go: what is never deployed automatically.
use casa_os_app_management.Prelude.{
  ◌+◌, ◌<◌, String, ◌≡◌, refl, sym, ap, ◌∙◌, Bool, true, false, Option, none, some, List, ◌∷◌,
  arith, eq_iff, ◌==◌, length,
}
use casa_os_app_management.GitApps.State.{
  GitApp, GitDeployment, GitCheck, git_attempted_length, is_among, attempt,
}
use casa_os_app_management.GitApps.State.Attempts.{
  attempts, IsRecent-is_among, IsRecent-attempts, attempt-IsRecent,
}
use casa_os_app_management.GitApps.Automatic.{
  with_both, is_moved, may_deploy, git_may_deploy_automatically, git_tag_moved, git_tag_higher,
  is_higher, git_tag_version,
}

with_both-false :
    (o : Option GitDeployment) (p : Option GitCheck) (test : GitDeployment → GitCheck → Bool)
    → ((d : GitDeployment) (k : GitCheck) → o ≡ some d → p ≡ some k → test d k ≡ false)
    → with_both o p test ≡ false
with_both-false none p test h = refl
with_both-false (some d) none test h = refl
with_both-false (some d) (some k) test h = h d k refl refl

with_both-true :
    (o : Option GitDeployment) (p : Option GitCheck) (test : GitDeployment → GitCheck → Bool)
    (d : GitDeployment) (k : GitCheck)
    → o ≡ some d
    → p ≡ some k
    → with_both o p test ≡ true
    → test d k ≡ true
with_both-true o p test d k e f h = sym (rw (e, f) refl) ∙ h

abbrev check_or : GitCheck → Option GitCheck → GitCheck
check_or k none = k
check_or k (some l) = l

some_inj : (k l : GitCheck) → Path (Option GitCheck) (some k) (some l) → k ≡ l
some_inj k l h = ap (λ o. check_or k o) h

module _ {V : Type 0} (strict_new_version : String → Option V) (greater_than : V → V → Bool) where
  may_deploy-among :
      (st : GitApp) (d : GitDeployment) (k : GitCheck)
      → is_among k.remote_commit st.attempted ≡ true
      → may_deploy strict_new_version greater_than st d k ≡ false
  unfolding may_deploy
  may_deploy-among st d k h = ground (arith, h)

  -- A commit that was tried, and not before that, is not deployed automatically while fewer than 20
  -- commits are tried after it: not by an app with the list of the tried ones that these left, whatever
  -- else it remembers, whose last check saw the commit.
  pub never_twice :
      (c : String) (cs : List String) (st st' : GitApp) (k : GitCheck)
      → (c == "") ≡ false
      → is_among c st.attempted ≡ false
      → length cs < git_attempted_length
      → st'.attempted ≡ (attempts (c ∷ cs) st).attempted
      → st'.check ≡ some k
      → k.remote_commit ≡ c
      → git_may_deploy_automatically strict_new_version greater_than st' ≡ false
  unfolding git_may_deploy_automatically
  never_twice c cs st st' k h n few tried sees same =
      let recent =
        IsRecent-attempts c cs 0 (attempt c st) (omega (arith, few)) (attempt-IsRecent c st h n) in
      let there : is_among k.remote_commit st'.attempted ≡ true =
        ap (λ x. is_among x st'.attempted) same
        ∙ (ap (is_among c) tried
            ∙ IsRecent-is_among c (0 + length cs) (attempts cs (attempt c st)).attempted recent) in
      with_both-false st'.deployed st'.check (may_deploy strict_new_version greater_than st')
        (λ d l e f. may_deploy-among st' d l (
          ap (λ x. is_among x st'.attempted)
            (ap (λ q. q.remote_commit) (some_inj l k (sym f ∙ sees)))
          ∙ there))

  is_higher_self :
      (o : Option V)
      → ((v : V) → greater_than v v ≡ false)
      → is_higher strict_new_version greater_than o o ≡ false
  is_higher_self none h = refl
  is_higher_self (some v) h = h v

  may_deploy-moved :
      (st : GitApp) (d : GitDeployment) (k : GitCheck)
      → ((v : V) → greater_than v v ≡ false)
      → is_moved st d k ≡ true
      → may_deploy strict_new_version greater_than st d k ≡ false
  unfolding may_deploy git_tag_higher
  may_deploy-moved st d k irreflexive h =
      let same : k.remote_tag ≡ d.tag = (eq_iff k.remote_tag d.tag).0 (ground (arith, h)) in
      let not_up : git_tag_higher strict_new_version greater_than k.remote_tag d.tag ≡ false =
        ap (λ t. git_tag_higher strict_new_version greater_than t d.tag) same
        ∙ is_higher_self (git_tag_version strict_new_version greater_than d.tag) irreflexive in
      ground (arith, h, not_up)

  -- With an order in which no version is greater than itself: where the last check found the deployed tag
  -- on another commit, nothing is deployed automatically.
  pub moved_tag_stays :
      (st : GitApp)
      → ((v : V) → greater_than v v ≡ false)
      → git_tag_moved st ≡ true
      → git_may_deploy_automatically strict_new_version greater_than st ≡ false
  unfolding git_may_deploy_automatically git_tag_moved
  moved_tag_stays st irreflexive moved =
      with_both-false st.deployed st.check (may_deploy strict_new_version greater_than st)
        (λ d k e f.
          may_deploy-moved st d k irreflexive
            (with_both-true st.deployed st.check (is_moved st) d k e f moved))
