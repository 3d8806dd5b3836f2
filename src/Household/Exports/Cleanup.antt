-- ===== src/Household/Exports/Cleanup.antt =====
-- What a run of the cleanup leaves (exports/cleanup-worker.ts).
use fullwell.Prelude.{
  ℕ, ◌+◌, String, ◌≡◌, Bool, true, false, not, ◌&&◌, ◌||◌, List, [], ◌∷◌, arith, ◌==◌, eq_iff,
  eq_refl, is_none, leb, filter, any, length, All, All-map, Bool-cases, inl, inr,
}
use fullwell.Dict.{values}
use fullwell.Dict.Laws.{values-delete_where-All}
use fullwell.Household.Types.{Instant, ExportDownloadRecord}
use fullwell.Household.Store.{
  OperationalStore, list_reclaimable_export_downloads, delete_export_download,
}
use fullwell.Household.Exports.{clean, run_cleanup}

abbrev pub is_reclaimable : Instant → ExportDownloadRecord → Bool
is_reclaimable now r = not (is_none r.downloaded_at) || leb r.expires_at now

-- The record is one of those that the loop has still to visit.
abbrev is_due : List ExportDownloadRecord → ExportDownloadRecord → Bool
is_due es r = any (λ e. e.id == r.id && e.object_path == r.object_path) es

module _ (removes : String → Bool) where
  -- What can be removed is still to be visited.
  abbrev IsAhead : List ExportDownloadRecord → Instant → ExportDownloadRecord → Type 0
  IsAhead es now r = is_reclaimable now r ≡ true → removes r.object_path ≡ true → is_due es r ≡ true

  clean_lem :
      (now : Instant) (es : List ExportDownloadRecord) (counts : ℕ × ℕ) (s : OperationalStore)
      → All (IsAhead es now) (values s.export_downloads)
      → All (IsAhead [] now) (values (clean removes es counts s).1.export_downloads)
  unfolding clean delete_export_download any
  clean_lem now [] counts s h = h
  clean_lem now (e ∷ es) (removed, failed) s h = elim (Bool-cases (removes e.object_path)) [
    | inl gone ↦
        rw (gone, clean)
          (clean_lem now es (removed + 1, failed) (delete_export_download e.id s)
            (values-delete_where-All (IsAhead (e ∷ es) now) (IsAhead es now) (λ r. r.id == e.id)
              s.export_downloads
              (λ r other ahead due ok.
                ground (arith, ahead due ok, eq_iff e.id r.id, eq_iff r.id e.id))
              h))
    | inr stuck ↦
        rw (stuck, clean)
          (clean_lem now es (removed, failed + 1) s
            (All-map (IsAhead (e ∷ es) now) (IsAhead es now) (values s.export_downloads)
              (λ r ahead due ok. ground (arith, ahead due ok, eq_iff e.object_path r.object_path))
              h))
  ]

  counted :
      (es : List ExportDownloadRecord) (counts : ℕ × ℕ) (s : OperationalStore)
      → (clean removes es counts s).0.0 + (clean removes es counts s).0.1
        ≡ length es + (counts.0 + counts.1)
  unfolding clean
  counted [] counts s = omega arith
  counted (e ∷ es) (removed, failed) s = elim (Bool-cases (removes e.object_path)) [
    | inl gone ↦
        rw (gone, clean)
          (omega (arith, counted es (removed + 1, failed) (delete_export_download e.id s)))
    | inr stuck ↦ rw (stuck, clean) (omega (arith, counted es (removed, failed + 1) s))
  ]

  due_at_first :
      (now : Instant) (rs : List ExportDownloadRecord) (all : List ExportDownloadRecord)
      → ((r : ExportDownloadRecord)
          → is_due (filter (is_reclaimable now) rs) r ≡ true
          → is_due all r ≡ true)
      → All (IsAhead all now) rs
  unfolding filter any
  due_at_first now [] all h = tt
  due_at_first now (r ∷ rs) all h = (
    λ due ok. h r (ground (arith, due, eq_refl r.id, eq_refl r.object_path)),
    due_at_first now rs all (λ x later. h x (ground (arith, later))),
  )

  -- A run of the cleanup visits every download that was fetched or has expired: those that it
  -- counts as removed and as failed are all that it checked, and of those that are stored after it
  -- none has an object that the artifact store removes.
  pub run_cleanup_lem :
      (now : Instant) (s : OperationalStore)
      → ((run_cleanup removes now s).0.removed + (run_cleanup removes now s).0.failed
          ≡ (run_cleanup removes now s).0.checked)
        × All
            (λ r. is_reclaimable now r ≡ true → removes r.object_path ≡ false)
            (values (run_cleanup removes now s).1.export_downloads)
  unfolding run_cleanup list_reclaimable_export_downloads any
  run_cleanup_lem now s =
      let es = filter (is_reclaimable now) (values s.export_downloads) in
      (
        omega (arith, counted es (0, 0) s),
        All-map (IsAhead [] now) _ _ (λ r ahead due. ground (arith, ahead due))
            (clean_lem now es (0, 0) s
              (due_at_first now (values s.export_downloads) es (λ r due. due))),
      )
