-- ===== src/Evidence/Sweeps.antt =====
-- Successive runs of `ConstraintAuditor` of manager/evidence.py, each from the cursor of the one
-- before it.
use mathlib.Core.List.{append-nil, append_assoc}
use machine_manager.Base.{
  ℕ, suc, zero, ◌-◌, ◌≤◌, ◌≡◌, refl, ap, ◌∙◌, sym, subst, Bool, true, false, not, ◌&&◌, List, [],
  ◌∷◌, ◌++◌, ltb, arith, if◌then◌else◌, length, take, drop, take_all, take-append-drop, length-drop,
  length-take, Bool-cases, inl, inr, All, All-append_left, All-append_right,
}
use machine_manager.Base.Text.{Text, is_empty}
use machine_manager.Evidence.{Target, File, empty_scan}
use machine_manager.Evidence.Audit.{scan_files, report_of, remaining, slashes, window, run}
use machine_manager.Evidence.Windows.{
  last_path, last_path-append, last_processed-scan_files, IsOrdered, remaining_after,
}

module _ (casefold : Text → Text) (matches : Text → Text → Bool) (target : Target)
    (files : List File) where
  -- The files that successive runs look at, as long as they report more; at most so many runs.
  abbrev pub sweep : ℕ → Text → List File
  sweep zero cursor = []
  sweep (suc n) cursor =
      let report = run casefold matches target cursor files in
      let later = sweep n report.next_cursor in
      window casefold matches target cursor files ++ (if report.more_pending then later else [])

  -- A path that a cursor may be: not empty, and with no backslash.
  abbrev pub IsCursor : File → Type 0
  IsCursor file = (is_empty file.path ≡ false) × (slashes casefold matches file.path ≡ file.path)

  last_path-IsCursor :
      (x : File) (xs : List File)
      → All IsCursor (x ∷ xs)
      → (is_empty (last_path x.path xs) ≡ false)
        × (slashes casefold matches (last_path x.path xs) ≡ last_path x.path xs)
  last_path-IsCursor x [] h = h.0
  last_path-IsCursor x (y ∷ xs) h = last_path-IsCursor y xs h.1

  module _ (some_files : 1 ≤ target.max_files)
      (whole_runs : (cursor : Text) → (run casefold matches target cursor files).truncated ≡ false)
      (ordered : IsOrdered casefold matches files) (named : All IsCursor files) where
    -- What a run reports when the files left are known.
    next_of_run :
        (cursor : Text) (left : List File)
        → remaining casefold matches (slashes casefold matches cursor) files ≡ left
        → let report = run casefold matches target cursor files in
          let last = last_path [] (take target.max_files left) in
          let more = not (is_empty last) && ltb target.max_files (length left) in
          (report.more_pending ≡ more) × (report.next_cursor ≡ (if more then last else []))
    unfolding run report_of
    next_of_run cursor left e =
        let scan = scan_files casefold matches target (take target.max_files left) empty_scan in
        let uncut : scan.truncated ≡ false = rw e at (whole_runs cursor) in
        let seen =
          last_processed-scan_files casefold matches target (take target.max_files left) empty_scan
            uncut in
        rw (e, seen, uncut) (ground arith)

    -- The last window has all the files that are left.
    sweep_last :
        (n : ℕ) (cursor : Text) (left : List File)
        → remaining casefold matches (slashes casefold matches cursor) files ≡ left
        → ltb target.max_files (length left) ≡ false
        → sweep (suc n) cursor ≡ left
    sweep_last n cursor left e small =
        let (more, _) = next_of_run cursor left e in
        let ends : (run casefold matches target cursor files).more_pending ≡ false =
          more ∙ rw small (ground arith) in
        rw (e, ends)
          (append-nil (take target.max_files left) ∙ take_all target.max_files left (ground arith))

    -- The files behind the first ones, from a cursor at the last of these.
    remaining_behind :
        (x : File) (pre left : List File)
        → files ≡ x ∷ pre ++ left
        → 1 ≤ length left
        → remaining casefold matches (slashes casefold matches (last_path x.path pre)) files ≡ left
    remaining_behind x pre [] e h = elim h [ ]
    remaining_behind x pre (y ∷ left) e h =
        let named' = subst (All IsCursor) e named in
        let (given, kept) =
          last_path-IsCursor x pre (All-append_left IsCursor (x ∷ pre) (y ∷ left) named') in
        rw (kept, e)
          (remaining_after casefold matches x pre y left
            (subst (IsOrdered casefold matches) e ordered) given)

    -- The files behind a window, from a cursor at the last of the window.
    remaining_behind_window :
        (pre : List File) (w : File) (ws left : List File)
        → files ≡ pre ++ (w ∷ ws ++ left)
        → 1 ≤ length left
        → remaining casefold matches (slashes casefold matches (last_path w.path ws)) files ≡ left
    remaining_behind_window [] w ws left e h = remaining_behind w ws left e h
    remaining_behind_window (x ∷ pre) w ws left e h =
        subst (λ path. remaining casefold matches (slashes casefold matches path) files ≡ left)
          (last_path-append x.path pre (w ∷ ws))
          (remaining_behind x (pre ++ w ∷ ws) left
            (e ∙ ap (λ t. x ∷ t) (sym (append_assoc pre (w ∷ ws) left))) h)

    named_window :
        (pre : List File) (w : File) (ws left : List File)
        → files ≡ pre ++ (w ∷ ws ++ left)
        → is_empty (last_path w.path ws) ≡ false
    named_window pre w ws left e =
        let behind =
          All-append_right IsCursor pre (w ∷ ws ++ left) (subst (All IsCursor) e named) in
        (last_path-IsCursor w ws (All-append_left IsCursor (w ∷ ws) left behind)).0

    -- So many runs are enough from any cursor.
    abbrev Sweeps : ℕ → Type 0
    Sweeps fuel =
        (cursor : Text) (pre left : List File)
        → files ≡ pre ++ left
        → remaining casefold matches (slashes casefold matches cursor) files ≡ left
        → length left ≤ fuel
        → sweep fuel cursor ≡ left

    sweep_more :
        (fuel : ℕ) (cursor : Text) (pre left ws rest : List File)
        → Sweeps fuel
        → files ≡ pre ++ left
        → remaining casefold matches (slashes casefold matches cursor) files ≡ left
        → length left ≤ suc fuel
        → ltb target.max_files (length left) ≡ true
        → take target.max_files left ≡ ws
        → drop target.max_files left ≡ rest
        → sweep (suc fuel) cursor ≡ left
    sweep_more fuel cursor pre left [] rest later split e h large tw dr =
        let short : length (take target.max_files left) ≡ 0 = ap length tw in
        ground (arith, length-take target.max_files left, short)
    sweep_more fuel cursor pre left (w ∷ ws) rest later split e h large tw dr =
        let last = last_path w.path ws in
        let joined : w ∷ ws ++ rest ≡ left =
          ap (λ t. t ++ rest) (sym tw)
          ∙ ap (λ t. take target.max_files left ++ t) (sym dr)
          ∙ take-append-drop target.max_files left in
        let split' : files ≡ pre ++ (w ∷ ws ++ rest) = split ∙ ap (λ t. pre ++ t) (sym joined) in
        let (more, next) = rw tw at (next_of_run cursor left e) in
        let given = named_window pre w ws rest split' in
        let size : length rest ≡ length left - target.max_files =
          rw (← dr) (length-drop target.max_files left) in
        let swept : sweep fuel last ≡ rest =
          later last (pre ++ w ∷ ws) rest (split' ∙ sym (append_assoc pre (w ∷ ws) rest))
            (remaining_behind_window pre w ws rest split' (ground arith)) (ground arith) in
        let goes_on : (run casefold matches target cursor files).more_pending ≡ true =
          more ∙ rw (given, large) refl in
        let from_last : (run casefold matches target cursor files).next_cursor ≡ last =
          next ∙ rw (given, large) refl in
        rw (e, tw, goes_on, from_last, swept) joined

    sweep_from : (fuel : ℕ) → Sweeps fuel
    sweep_from zero cursor pre [] split e h = refl
    sweep_from zero cursor pre (y ∷ left) split e h = elim h [ ]
    sweep_from (suc fuel) cursor pre left split e h =
        elim (Bool-cases (ltb target.max_files (length left))) [
          | inr small ↦ sweep_last fuel cursor left e small
          | inl large ↦
              sweep_more fuel cursor pre left (take target.max_files left)
                (drop target.max_files left) (sweep_from fuel) split e h large refl refl
        ]

    -- Successive runs from the empty cursor, each from the cursor of the one before it, look at
    -- every candidate file once, in order, and end after at most as many runs as there are files:
    -- if no run is cut by the limit on findings, a run takes some files, the paths are in strict
    -- order without regard to case, and none of them is empty or has a backslash.
    pub sweep_visits_all : sweep (length files) [] ≡ files
    unfolding remaining slashes
    sweep_visits_all = sweep_from (length files) [] [] files refl refl (omega arith)
