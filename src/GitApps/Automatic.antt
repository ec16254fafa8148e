-- ===== src/GitApps/Automatic.antt =====
-- service/git_tags.go and service/git_deploy.go: what the automatic rebuild may deploy.
--
-- The versions of github.com/Masterminds/semver are a parameter: how one is read and when one is greater.
pub mod Laws
mod Examples
use casa_os_app_management.Prelude.{
  ℕ, zero, suc, ◌+◌, ◌-◌, ◌*◌, ◌/◌, ◌%◌, ◌^◌, ◌≤◌, ◌<◌, String, ◌≡◌, ◌≢◌, ◌↔◌, ◌⊎◌, inl, inr, refl,
  sym, ap, subst, ◌∙◌, Bool, true, false, not, ◌&&◌, ◌||◌, Option, none, some, List, [], ◌∷◌, ◌++◌,
  map, reverse, arith, eq_iff, eq_refl, ◌==◌, ltb, leb, ◌=ℕ◌, if◌then◌else◌, leb→le, ltb→lt,
  Bool-cases, Option-cases, length, take, drop, length-append, length-take, length-drop,
  take-append-drop, count, any, keep, count-append, count-le-length, any-pos, any-append,
  any-reverse, any_none, get_elem?, set, count-set, count-pos, drop-set, length-set, drop-append,
  drop_step, get_elem?-drop, get_elem?_in, get_elem?-append, get_elem?_lt, Sub, nil, Sub-snoc,
  Sub-tail, Sub-delete, snoc-ne-nil, All, All-append, All-map, All-zip, ◌<>◌, starts_with, clean,
  clean-not_empty, join_path, base, dir, show, show_inj, str_le, codes, str_le_total, str_le_trans,
  str_le_antisym, insert, insertion_sort, IsSorted, insertion_sort-IsSorted, count-insertion_sort,
  length-insertion_sort, sum_by-insertion_sort, any-insertion_sort, All-insertion_sort, sum_by,
  sum_by-append, sum_by-keep, count-keep, All-keep, All-keep_of, All-tail_of_append,
  All-head_of_append,
}
use casa_os_app_management.Prelude.Map
use casa_os_app_management.Prelude.Map.{
  Map, get-assign, get-delete, keys, IsMap, IsMap-assign, IsMap-delete, any-keys, count-keys,
}
use casa_os_app_management.GitApps.State.{GitApp, GitDeployment, GitCheck, attempt, is_among}

abbrev pub follows_tags : GitApp → Bool
follows_tags st = st.follow == "tags"

abbrev pub follow_of : GitApp → String
follow_of st = if follows_tags st then "tags" else "branch"

-- `strings.TrimPrefix(name, "v")`
unfoldable pub trim_v : String → String
trim_v String.[] = ""
trim_v (String.◌∷◌ c s) = if starts_with (String.◌∷◌ c s) "v" then s else String.◌∷◌ c s

pub data Problem : Type 0 where
  not_branch_or_tags : String → Problem

unfoldable pub check_git_follow : String → Option Problem
check_git_follow follow =
    if not (follow == "branch") && not (follow == "tags")
    then some (not_branch_or_tags follow)
    else none

-- a test of what is deployed and of the last check, false where there is not both
abbrev pub with_both :
    Option GitDeployment → Option GitCheck → (GitDeployment → GitCheck → Bool) → Bool
with_both none k test = false
with_both (some d) none test = false
with_both (some d) (some k) test = test d k

-- the tests of `gitTagMoved` on them
abbrev pub is_moved : GitApp → GitDeployment → GitCheck → Bool
is_moved st d k =
    follows_tags st
    && (not (k.remote_tag == "") && (k.remote_tag == d.tag && not (k.remote_commit == d.commit)))

unfoldable pub git_tag_moved : GitApp → Bool
git_tag_moved st = with_both st.deployed st.check (is_moved st)

module _ {V : Type 0} (strict_new_version : String → Option V) (greater_than : V → V → Bool) where
  unfoldable pub git_tag_version : String → Option V
  unfolding trim_v
  git_tag_version name = strict_new_version (trim_v name)

  abbrev pub is_higher : Option V → Option V → Bool
  is_higher none b = false
  is_higher (some a) none = false
  is_higher (some a) (some b) = greater_than a b

  unfoldable pub git_tag_higher : String → String → Bool
  git_tag_higher a b = is_higher (git_tag_version a) (git_tag_version b)

  -- the tests of `gitMayDeployAutomatically`, on what is deployed and the last check
  unfoldable pub may_deploy : GitApp → GitDeployment → GitCheck → Bool
  may_deploy st d k =
      if (not st.auto_deploy || (st.auto_paused || st.blocked))
        || (not (k.error == "")
            || (k.remote_commit == ""
                || (k.remote_commit == d.commit || is_among k.remote_commit st.attempted)))
      then false
      else if follows_tags st
      then not (d.tag == "") && git_tag_higher k.remote_tag d.tag
      else d.tag == ""

  unfoldable pub git_may_deploy_automatically : GitApp → Bool
  git_may_deploy_automatically st = with_both st.deployed st.check (may_deploy st)
