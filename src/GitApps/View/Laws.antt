-- ===== src/GitApps/View/Laws.antt =====
-- service/git_app_view.go and service/git_deploy.go: what is deployed automatically is shown as new.
use casa_os_app_management.Prelude.{
  String, ◌≡◌, inl, inr, ap, Bool, true, false, Option, none, some, arith, eq_iff, ◌==◌, Bool-cases,
}
use casa_os_app_management.GitApps.State.{GitApp, GitDeployment, GitCheck}
use casa_os_app_management.GitApps.Automatic.{
  with_both, git_tag_higher, git_tag_version, is_higher, trim_v, may_deploy,
  git_may_deploy_automatically,
}
use casa_os_app_management.GitApps.View.{is_new, git_new_commits}

with_both_mono :
    (o : Option GitDeployment) (p : Option GitCheck) (f g : GitDeployment → GitCheck → Bool)
    → ((d : GitDeployment) (k : GitCheck) → f d k ≡ true → g d k ≡ true)
    → with_both o p f ≡ true
    → with_both o p g ≡ true
with_both_mono none p f g h e = ground (arith, e)
with_both_mono (some d) none f g h e = ground (arith, e)
with_both_mono (some d) (some k) f g h e = h d k e

module _ {V : Type 0} (strict_new_version : String → Option V) (greater_than : V → V → Bool) where
  -- no tag is not higher than any
  none_not_higher :
      (b : String)
      → strict_new_version "" ≡ none
      → git_tag_higher strict_new_version greater_than "" b ≡ false
  unfolding git_tag_higher git_tag_version trim_v
  none_not_higher b no_version =
      ap
        (λ a.
          is_higher strict_new_version greater_than a
            (git_tag_version strict_new_version greater_than b))
        no_version

  higher_is_named :
      (a b : String)
      → strict_new_version "" ≡ none
      → git_tag_higher strict_new_version greater_than a b ≡ true
      → (a == "") ≡ false
  higher_is_named a b no_version h = elim (Bool-cases (a == "")) [
    | inr e ↦ e
    | inl e ↦ ground (
      arith,
      h,
      ap (λ t. git_tag_higher strict_new_version greater_than t b) ((eq_iff a "").0 e),
      none_not_higher b no_version,
    )
  ]

  is_new_if_deployed :
      (st : GitApp) (d : GitDeployment) (k : GitCheck)
      → strict_new_version "" ≡ none
      → may_deploy strict_new_version greater_than st d k ≡ true
      → is_new strict_new_version greater_than st d k ≡ true
  unfolding may_deploy
  is_new_if_deployed st d k no_version h =
      ground (arith, h, higher_is_named k.remote_tag d.tag no_version)

  -- With versions of which the empty text is none: what the automatic rebuild may deploy is shown as new
  -- commits.
  pub deployed_is_new :
      (st : GitApp)
      → strict_new_version "" ≡ none
      → git_may_deploy_automatically strict_new_version greater_than st ≡ true
      → git_new_commits strict_new_version greater_than st ≡ true
  unfolding git_may_deploy_automatically git_new_commits
  deployed_is_new st no_version h =
      with_both_mono st.deployed st.check (may_deploy strict_new_version greater_than st)
        (is_new strict_new_version greater_than st)
        (λ d k e. is_new_if_deployed st d k no_version e) h
