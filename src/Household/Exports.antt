-- ===== src/Household/Exports.antt =====
-- exports/cleanup-worker.ts: the removal of export downloads that were fetched or have expired.
-- Whether the artifact store removes the object under a path is a parameter.
pub mod Cleanup
use fullwell.Prelude.{ℕ, ◌+◌, String, Bool, true, false, List, [], ◌∷◌, if◌then◌else◌, length}
use fullwell.Household.Types.{Instant, ExportDownloadRecord}
use fullwell.Household.Store.{
  OperationalStore, list_reclaimable_export_downloads, delete_export_download,
}

pub record ExportCleanupResult : Type 0 where
  pub checked : ℕ
  pub removed : ℕ
  pub failed : ℕ

-- `removes path` is false where `artifacts.remove(path)` throws.
module _ (removes : String → Bool) where
  -- The loop, with the two counters.
  unfoldable pub clean :
      List ExportDownloadRecord → ℕ × ℕ → OperationalStore → (ℕ × ℕ) × OperationalStore
  clean [] counts s = (counts, s)
  clean (r ∷ rs) (removed, failed) s = elim (removes r.object_path) [
    | true ↦ clean rs (removed + 1, failed) (delete_export_download r.id s)
    | false ↦ clean rs (removed, failed + 1) s
  ]

  unfoldable pub run_cleanup : Instant → OperationalStore → ExportCleanupResult × OperationalStore
  unfolding clean list_reclaimable_export_downloads
  run_cleanup now s =
      let records = list_reclaimable_export_downloads now s in
      let (counts, s') = clean records (0, 0) s in
      (record { checked = length records; removed = counts.0; failed = counts.1 }, s')
