-- ===== src/Backup/Plan/Sources.antt =====
-- service/backup_plan.go: what a plan addresses.
use casa_os_app_management.Prelude.{
  String, ◌≡◌, inl, inr, refl, sym, ap, ◌∙◌, Bool, not, ◌&&◌, List, [], ◌∷◌, map, arith, eq_iff,
  eq_refl, ◌==◌, if◌then◌else◌, Bool-cases, count, any, str_le, str_le_total, str_le_trans,
  insertion_sort, IsSorted, insertion_sort-IsSorted, count-insertion_sort,
}
use casa_os_app_management.Backup.Plan.{
  BackupOperation, BackupManifest, mark_bind_file, mark_bind_files, sources_from, total_by_source,
}

abbrev pub is_source : String → List BackupOperation → Bool
is_source s = any (λ o. o.source == s)

count-sources_from :
    (seen : List String) (os : List BackupOperation) (s : String)
    → count (λ x. x == s) (sources_from seen os)
      ≡ (if is_source s os && not (any (λ x. x == s) seen) then 1 else 0)
unfolding sources_from
count-sources_from seen [] s = refl
count-sources_from seen (o ∷ os) s = elim (Bool-cases (o.source == s)) [
  | inl e ↦
      let p : s ≡ o.source = sym ((eq_iff o.source s).0 e) in
      rw p (
        ground (
          arith,
          eq_refl o.source,
          count-sources_from seen os o.source,
          count-sources_from (o.source ∷ seen) os o.source,
        ))
  | inr e ↦ ground (arith, count-sources_from seen os s, count-sources_from (o.source ∷ seen) os s)
]

source-mark_bind_file :
    (is_file : String → Bool) (o : BackupOperation) → (mark_bind_file is_file o).source ≡ o.source
unfolding mark_bind_file
source-mark_bind_file is_file o = ground arith

sources_from-mark :
    (is_file : String → Bool) (seen : List String) (os : List BackupOperation)
    → sources_from seen (map (mark_bind_file is_file) os) ≡ sources_from seen os
unfolding sources_from
sources_from-mark is_file seen [] = refl
sources_from-mark is_file seen (o ∷ os) =
    rw
      (
        source-mark_bind_file is_file o,
        sources_from-mark is_file seen os,
        sources_from-mark is_file (o.source ∷ seen) os,
      )
      refl

-- A plan addresses a sorted list of sources in which each source of an operation is once and nothing
-- else is, and telling the files among the binds changes none of it.
pub total_by_source_lem :
    (m : BackupManifest) (s : String) (is_file : String → Bool)
    → IsSorted str_le (total_by_source m)
      × ((count (λ x. x == s) (total_by_source m) ≡ (if is_source s m.operations then 1 else 0))
          × (total_by_source (mark_bind_files is_file m) ≡ total_by_source m))
unfolding total_by_source mark_bind_files
total_by_source_lem m s is_file =
    let sources = sources_from [] m.operations in
    (
      insertion_sort-IsSorted str_le str_le_total str_le_trans sources,
      (
        count-insertion_sort str_le (λ x. x == s) sources
            ∙ ground (arith, count-sources_from [] m.operations s),
        ap (insertion_sort str_le) (sources_from-mark is_file [] m.operations),
      ),
    )
