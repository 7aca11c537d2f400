-- ===== src/Evidence/Cuts.antt =====
-- A run of `ConstraintAuditor` of manager/evidence.py that the limit on findings cuts.
use machine_manager.Base.{
  ℕ, suc, zero, ◌≤◌, ◌≡◌, refl, Bool, true, false, List, [], ◌∷◌, take, arith,
}
use machine_manager.Base.Text.{Text, is_empty}
use machine_manager.Evidence.{Target, File, empty_scan}
use machine_manager.Evidence.Audit.{
  scan_file, scan_files, report_of, remaining, slashes, window, run,
}
use machine_manager.Evidence.Windows.{IsOrdered, remaining_after, last_processed-scan_file}
use machine_manager.Evidence.Sweeps.{IsCursor}

predecessor : (m : ℕ) → 1 ≤ m → (n : ℕ) × (m ≡ suc n)
predecessor zero h = elim h [ ]
predecessor (suc n) h = (n, refl)

module _ (casefold : Text → Text) (matches : Text → Text → Bool) where
  run_stops_at :
      (target : Target) (x : File) (files : List File) (n : ℕ)
      → target.max_files ≡ suc n
      → is_empty x.path ≡ false
      → (scan_file casefold matches target x empty_scan).truncated ≡ true
      → (run casefold matches target [] (x ∷ files)).next_cursor ≡ x.path
  unfolding run report_of remaining slashes scan_files
  run_stops_at target x files n e named cut =
      rw (e, cut, last_processed-scan_file casefold matches target x empty_scan, named)
        (ground arith)

  -- A file in which the limit on findings cuts a run is not taken up again: the next run starts at
  -- the file behind it, so the lines behind the cut are in neither report. The paths are in strict
  -- order without regard to case, and the file is the first of several.
  pub cut_file_is_left :
      (target : Target) (x y : File) (files : List File)
      → 1 ≤ target.max_files
      → IsOrdered casefold matches (x ∷ y ∷ files)
      → IsCursor casefold matches target (x ∷ y ∷ files) x
      → (scan_file casefold matches target x empty_scan).truncated ≡ true
      → let cursor = (run casefold matches target [] (x ∷ y ∷ files)).next_cursor in
        (cursor ≡ x.path)
        × (window casefold matches target cursor (x ∷ y ∷ files)
            ≡ take target.max_files (y ∷ files))
  cut_file_is_left target x y files some_files ordered (named, kept) cut =
      let (n, e) = predecessor target.max_files some_files in
      let stops = run_stops_at target x (y ∷ files) n e named cut in
      (stops, rw (stops, kept, remaining_after casefold matches x [] y files ordered named) refl)
