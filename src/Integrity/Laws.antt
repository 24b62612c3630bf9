-- ===== src/Integrity/Laws.antt =====
-- What a verification without issues shows.
use freaky_ocs.Base.{
  String, ◌≡◌, ◌↔◌, ◌⊎◌, inl, inr, true, some, List, [], ◌∷◌, All, Option-cases, elem, eq_iff,
  arith, refl,
}
use freaky_ocs.Base.Dict.{Dict, get, keys}
use freaky_ocs.Integrity.{
  difference, no_issues, actual_files, check_file, check_files, find_issues, verified,
  verify_folder_integrity, manifest,
}

difference-eq-nil :
    (ks actual : List String) → (difference ks actual ≡ []) ↔ All (λ k. elem k actual ≡ true) ks
unfolding difference
difference-eq-nil [] actual = (λ _. tt, λ _. refl)
difference-eq-nil (k ∷ ks) actual = ground (arith, difference-eq-nil ks actual)

module _ {C : Type 0} (sha256 : C → String) where
  -- The file is the manifest, or the manifest has its hash.
  abbrev pub Tracked : String → Dict String → String × C → Type 0
  Tracked name recorded (path, c) = (path ≡ name) ⊎ (get path recorded ≡ some (sha256 c))

  clean_files :
      (name : String) (recorded : Dict String) (files : Dict C)
      → (((check_files sha256 name recorded files).modified ≡ [])
          × ((check_files sha256 name recorded files).untracked ≡ []))
        ↔ All (Tracked name recorded) files
  unfolding check_files check_file
  clean_files name recorded [] = (λ _. tt, λ _. (refl, refl))
  clean_files name recorded ((path, c) ∷ files) = elim (Option-cases (get path recorded)) [
    | inl e ↦ ground (arith, eq_iff path name, clean_files name recorded files)
    | inr (h, e) ↦
        ground (arith, eq_iff path name, eq_iff (sha256 c) h, clean_files name recorded files)
  ]

  -- A folder is verified as valid and without issues exactly if every file but the manifest is in the
  -- manifest with its hash and every path of the manifest is a file of the folder other than the
  -- manifest.
  pub verify_folder_integrity_lem :
      (name : String) (files : Dict C) (recorded : Dict String)
      → (verify_folder_integrity sha256 name (some files) (manifest recorded)
          ≡ verified true (record { modified = []; missing = []; untracked = [] }))
        ↔ (All (Tracked name recorded) files
            × All (λ path. elem path (actual_files sha256 name files) ≡ true) (keys recorded))
  unfolding verify_folder_integrity find_issues no_issues
  verify_folder_integrity_lem name files recorded = ground (
    arith,
    clean_files name recorded files,
    difference-eq-nil (keys recorded) (actual_files sha256 name files),
  )
