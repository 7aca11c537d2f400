-- ===== src/Evidence/Windows.antt =====
-- Where a run of `ConstraintAuditor` of manager/evidence.py starts, and where it stops.
use machine_manager.Base.{
  ◌≡◌, refl, ap, ◌∙◌, Bool, true, false, List, [], ◌∷◌, ◌++◌, arith, Bool-cases, inl, inr, All,
  All-append_left,
}
use machine_manager.Base.Text.{Text, text_leb, text_leb-total, is_empty}
use machine_manager.Evidence.{Target, File, Scan}
use machine_manager.Evidence.Audit.{scan_file, scan_files, is_behind, skip_behind, remaining}

-- The path of the last file, or what it was before.
abbrev pub last_path : Text → List File → Text
last_path path [] = path
last_path path (file ∷ files) = last_path file.path files

last_path-All :
    (P : Text → Type 0) (path : Text) (files : List File)
    → P path
    → All (λ (f : File). P f.path) files
    → P (last_path path files)
last_path-All P path [] h k = h
last_path-All P path (file ∷ files) h k = last_path-All P file.path files k.0 k.1

pub last_path-append :
    (path : Text) (xs ys : List File) → last_path path (xs ++ ys) ≡ last_path (last_path path xs) ys
last_path-append path [] ys = refl
last_path-append path (x ∷ xs) ys = last_path-append x.path xs ys

module _ (casefold : Text → Text) (matches : Text → Text → Bool) where
  pub last_processed-scan_file :
      (target : Target) (file : File) (scan : Scan)
      → (scan_file casefold matches target file scan).last_processed ≡ file.path
  unfolding scan_file
  last_processed-scan_file target file scan = ground arith

  -- A scan that is not cut looks at every file of its window.
  pub last_processed-scan_files :
      (target : Target) (files : List File) (scan : Scan)
      → (scan_files casefold matches target files scan).truncated ≡ false
      → (scan_files casefold matches target files scan).last_processed
        ≡ last_path scan.last_processed files
  unfolding scan_files
  last_processed-scan_files target [] scan h = refl
  last_processed-scan_files target (file ∷ files) scan h =
      let one = scan_file casefold matches target file scan in
      elim (Bool-cases one.truncated) [
        | inl e ↦ cc (h, e)
        | inr e ↦ rw e (
            last_processed-scan_files target files one (rw e at h)
            ∙ ap (λ p. last_path p files) (last_processed-scan_file target file scan))
      ]

  -- No path is, without regard to case, at or before that of an earlier file.
  abbrev pub IsOrdered : List File → Type 0
  IsOrdered [] = Unit
  IsOrdered (file ∷ files) =
      All (λ (g : File). is_behind casefold matches file.path g ≡ false) files × IsOrdered files

  skip_behind-append :
      (cursor : Text) (pre left : List File)
      → All (λ (f : File). is_behind casefold matches cursor f ≡ true) pre
      → All (λ (f : File). is_behind casefold matches cursor f ≡ false) left
      → skip_behind casefold matches cursor (pre ++ left) ≡ left
  unfolding skip_behind
  skip_behind-append cursor [] [] h k = refl
  skip_behind-append cursor [] (f ∷ left) h k = rw k.0 refl
  skip_behind-append cursor (f ∷ pre) left h k = rw h.0 (skip_behind-append cursor pre left h.1 k)

  leb_refl : (a : Text) → text_leb a a ≡ true
  leb_refl a = elim (text_leb-total a a) [ inl e ↦ e | inr e ↦ e ]

  leb_of_not : (a b : Text) → text_leb a b ≡ false → text_leb b a ≡ true
  leb_of_not a b h = elim (text_leb-total a b) [ inl e ↦ cc | inr e ↦ e ]

  -- In an ordered list the files up to one are behind its path, and the later ones are not.
  last_splits :
      (x : File) (pre left : List File)
      → IsOrdered (x ∷ pre ++ left)
      → All (λ (f : File). is_behind casefold matches (last_path x.path pre) f ≡ true) (x ∷ pre)
        × All (λ (f : File). is_behind casefold matches (last_path x.path pre) f ≡ false) left
  unfolding is_behind
  last_splits x [] left (h, k) = ((leb_refl (casefold x.path), tt), h)
  last_splits x (y ∷ pre) left (h, k) =
      let (before, after) = last_splits y pre left k in
      let beyond =
        last_path-All (λ p. text_leb (casefold p) (casefold x.path) ≡ false) y.path pre h.0
          (All-append_left (λ (f : File). text_leb (casefold f.path) (casefold x.path) ≡ false) pre
            left h.1) in
      ((leb_of_not _ _ beyond, before), after)

  -- A run whose cursor is the path of a file that is not the last starts at the file behind it.
  pub remaining_after :
      (x : File) (pre : List File) (y : File) (left : List File)
      → IsOrdered (x ∷ pre ++ y ∷ left)
      → is_empty (last_path x.path pre) ≡ false
      → remaining casefold matches (last_path x.path pre) (x ∷ pre ++ y ∷ left) ≡ y ∷ left
  unfolding remaining
  remaining_after x pre y left ordered named =
      let (behind, ahead) = last_splits x pre (y ∷ left) ordered in
      rw (named, skip_behind-append (last_path x.path pre) (x ∷ pre) (y ∷ left) behind ahead) refl
