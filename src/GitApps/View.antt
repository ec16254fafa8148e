-- ===== src/GitApps/View.antt =====
-- service/git_app_view.go: what the card of a git app shows.
pub mod Laws
mod Examples
use casa_os_app_management.Prelude.{
  ℕ, zero, suc, ◌+◌, ◌-◌, ◌*◌, ◌/◌, ◌%◌, ◌^◌, ◌≤◌, ◌<◌, String, ◌≡◌, ◌≢◌, ◌↔◌, ◌⊎◌, inl, inr, refl,
  sym, ap, subst, ◌∙◌, Bool, true, false, not, ◌&&◌, ◌||◌, Option, none, some, List, [], ◌∷◌, ◌++◌,
  map, reverse, arith, eq_iff, eq_refl, ◌==◌, ltb, leb, ◌=ℕ◌, if◌then◌else◌, leb→le, ltb→lt,
  Bool-cases, Option-cases, length, take, drop, length-append, length-take, length-drop,
  take-append-drop, count, any, keep, count-append, count-le-length, any-pos, any-append,
  any-reverse, any_none, get_elem?, set, count-set, count-pos, drop-set, length-set, drop-append,
  drop_step, get_elem?-drop, get_elem?_in, get_elem?-append, get_elem?_lt, Sub, nil, Sub-snoc,
  Sub-tail, Sub-delete, snoc-ne-nil, All, All-append, All-map, All-zip, ◌<>◌, starts_with, clean,
  clean-not_empty, join_path, base, dir, show, show_inj, str_le, codes, str_le_total, str_le_trans,
  str_le_antisym, insert, insertion_sort, IsSorted, insertion_sort-IsSorted, count-insertion_sort,
  length-insertion_sort, sum_by-insertion_sort, any-insertion_sort, All-insertion_sort, sum_by,
  sum_by-append, sum_by-keep, count-keep, All-keep, All-keep_of, All-tail_of_append,
  All-head_of_append,
}
use casa_os_app_management.Prelude.Map
use casa_os_app_management.Prelude.Map.{
  Map, get-assign, get-delete, keys, IsMap, IsMap-assign, IsMap-delete, any-keys, count-keys,
}
use casa_os_app_management.GitApps.State.{
  GitApp, GitDeployment, GitCheck, GitOperation, GitHistoryEntry,
}
use casa_os_app_management.GitApps.Automatic.{follows_tags, with_both, git_tag_higher}

-- `gitNoTag`
abbrev pub git_no_tag : String
git_no_tag = "no tag matches"

abbrev pub newest_outcome : List GitHistoryEntry → String
newest_outcome [] = ""
newest_outcome (e ∷ es) = e.outcome

abbrev pub is_unreachable : Option GitCheck → Bool
is_unreachable none = false
is_unreachable (some k) = not (k.error == "") && not (starts_with k.error git_no_tag)

-- the second switch of `gitAppStateOf`
abbrev pub settled_state : GitApp → String → String
settled_state st newest =
    if st.blocked || newest == "failed"
    then "failed"
    else if newest == "build_failed" || (newest == "rolled_back" || newest == "interrupted")
    then newest
    else if is_unreachable st.check
    then "unreachable"
    else "idle"

-- the first one, of a kind that is neither if nothing runs
abbrev pub state_during : Option GitOperation → String → String
state_during none settled = settled
state_during (some o) settled =
    if o.kind == "build"
    then "building"
    else if o.kind == "deploy" || o.kind == "revert"
    then "deploying"
    else settled

unfoldable pub git_app_state_of : GitApp → String
git_app_state_of st = state_during st.operation (settled_state st (newest_outcome st.history))

module _ {V : Type 0} (strict_new_version : String → Option V) (greater_than : V → V → Bool) where
  -- the tests of `gitNewCommits`, on what is deployed and the last check
  abbrev pub is_new : GitApp → GitDeployment → GitCheck → Bool
  is_new st d k =
      if k.remote_commit == "" || k.remote_commit == d.commit
      then false
      else if not (follows_tags st)
      then true
      else not (k.remote_tag == "")
        && (d.tag == "" || git_tag_higher strict_new_version greater_than k.remote_tag d.tag)

  unfoldable pub git_new_commits : GitApp → Bool
  git_new_commits st = with_both st.deployed st.check (is_new st)
