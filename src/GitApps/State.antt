-- ===== src/GitApps/State.antt =====
-- service/git_app_state.go: what is remembered of a git app.
--
-- A time is a number. `omitempty` and the JSON of the file are not modelled.
pub mod History
pub mod Attempts
mod Examples
use casa_os_app_management.Prelude.{
  ℕ, zero, suc, ◌+◌, ◌-◌, ◌*◌, ◌/◌, ◌%◌, ◌^◌, ◌≤◌, ◌<◌, String, ◌≡◌, ◌≢◌, ◌↔◌, ◌⊎◌, inl, inr, refl,
  sym, ap, subst, ◌∙◌, Bool, true, false, not, ◌&&◌, ◌||◌, Option, none, some, List, [], ◌∷◌, ◌++◌,
  map, reverse, arith, eq_iff, eq_refl, ◌==◌, ltb, leb, ◌=ℕ◌, if◌then◌else◌, leb→le, ltb→lt,
  Bool-cases, Option-cases, length, take, drop, length-append, length-take, length-drop,
  take-append-drop, count, any, keep, count-append, count-le-length, any-pos, any-append,
  any-reverse, any_none, get_elem?, set, count-set, count-pos, drop-set, length-set, drop-append,
  drop_step, get_elem?-drop, get_elem?_in, get_elem?-append, get_elem?_lt, Sub, nil, Sub-snoc,
  Sub-tail, Sub-delete, snoc-ne-nil, All, All-append, All-map, All-zip, ◌<>◌, starts_with, clean,
  clean-not_empty, join_path, base, dir, show, show_inj, str_le, codes, str_le_total, str_le_trans,
  str_le_antisym, insert, insertion_sort, IsSorted, insertion_sort-IsSorted, count-insertion_sort,
  length-insertion_sort, sum_by-insertion_sort, any-insertion_sort, All-insertion_sort, sum_by,
  sum_by-append, sum_by-keep, count-keep, All-keep, All-keep_of, All-tail_of_append,
  All-head_of_append,
}
use casa_os_app_management.Prelude.Map
use casa_os_app_management.Prelude.Map.{
  Map, get-assign, get-delete, keys, IsMap, IsMap-assign, IsMap-delete, any-keys, count-keys,
}

abbrev pub git_history_length : ℕ
git_history_length = 3

abbrev pub git_attempted_length : ℕ
git_attempted_length = 20

pub record GitDeployment : Type 0 where
  pub commit : String
  pub subject : String
  pub at : ℕ
  pub images : Map String
  pub tag : String

pub record GitCheck : Type 0 where
  pub at : ℕ
  pub remote_commit : String
  pub error : String
  pub remote_tag : String

pub record GitOperation : Type 0 where
  pub kind : String
  pub commit : String
  pub started_at : ℕ
  pub tag : String

pub record GitHistoryEntry : Type 0 where
  pub commit : String
  pub subject : String
  pub at : ℕ
  pub outcome : String
  pub reason : String
  pub images : Map String
  pub tag : String

pub record GitApp : Type 0 where
  pub app : String
  pub origin : String
  pub folder : String
  pub remote : String
  pub branch : String
  pub access : String
  pub auto_deploy : Bool
  pub auto_paused : Bool
  pub blocked : Bool
  pub env_tracked : Bool
  pub cloned : Bool
  pub no_compose_file : Bool
  pub deployed : Option GitDeployment
  pub check : Option GitCheck
  pub operation : Option GitOperation
  pub history : List GitHistoryEntry
  pub attempted : List String
  pub follow : String
  pub tag_pattern : String
  pub prereleases : Bool

abbrev pub values : Map String → List String
values = map (λ v. v.1)

-- the images that some entry names
abbrev pub images_of : List GitHistoryEntry → List String
images_of [] = []
images_of (e ∷ es) = values e.images ++ images_of es

abbrev pub images_running : Option GitDeployment → List String
images_running none = []
images_running (some d) = values d.images

abbrev pub is_among : String → List String → Bool
is_among s = any (λ x. x == s)

-- the last loop of `record`, over the images of the entries that left
unfoldable pub removable_from : List String → List String → List String
removable_from kept [] = []
removable_from kept (image ∷ images) =
    let rest = removable_from kept images in
    let next = removable_from (image ∷ kept) images in
    if is_among image kept then rest else image ∷ next

-- what `record` returns, and the app it leaves
unfoldable pub record_entry : GitHistoryEntry → GitApp → List String × GitApp
unfolding removable_from
record_entry entry st =
    let history = entry ∷ st.history in
    let rest = take git_history_length history in
    let gone = drop git_history_length history in
    let kept = images_of rest ++ images_running st.deployed in
    if leb (length history) git_history_length then ([], record st { history = history }) else (
      insertion_sort str_le (removable_from kept (images_of gone)),
      record st { history = rest },
    )

unfoldable pub attempt : String → GitApp → GitApp
attempt commit st =
    let attempted = st.attempted ++ commit ∷ [] in
    if commit == "" || is_among commit st.attempted
    then st
    else if ltb git_attempted_length (length attempted)
    then record st { attempted = drop (length attempted - git_attempted_length) attempted }
    else record st { attempted = attempted }

-- a version that ran
abbrev pub has_run : GitHistoryEntry → Bool
has_run e = e.outcome == "deployed" || e.outcome == "adopted"

-- the loop of `historyEntry`
unfoldable pub entry_from :
    String → Option GitHistoryEntry → List GitHistoryEntry → Option GitHistoryEntry
entry_from commit newest [] = newest
entry_from commit none (e ∷ es) =
    let rest = entry_from commit none es in
    let newer = entry_from commit (some e) es in
    if not (e.commit == commit) then rest else if has_run e then some e else newer
entry_from commit (some n) (e ∷ es) =
    let rest = entry_from commit (some n) es in
    if not (e.commit == commit) then rest else if has_run e then some e else rest

unfoldable pub history_entry : String → GitApp → Option GitHistoryEntry
unfolding entry_from
history_entry commit st = entry_from commit none st.history
