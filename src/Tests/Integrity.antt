-- ===== src/Tests/Integrity.antt =====
-- The theorems on the integrity checker at a small folder. In place of SHA-256 the content itself.
use freaky_ocs.Base.{String, ◌≡◌, ◌↔◌, true, some, [], ◌∷◌, All, elem, refl}
use freaky_ocs.Base.Dict.{Dict, keys}
use freaky_ocs.Integrity.{
  actual_files, generate_manifest, verified, verify_folder_integrity, manifest,
}
use freaky_ocs.Integrity.Laws.{Tracked, verify_folder_integrity_lem}
use freaky_ocs.Integrity.RoundTrip.{verify_folder_integrity-generate_manifest}

abbrev digest : String → String
digest s = s

abbrev folder : Dict String
folder = ("manifest.json", "{}") ∷ ("main.py", "a") ∷ ("Scripts/run.py", "b") ∷ []

abbrev stale : Dict String
stale = ("main.py", "a") ∷ ("updater.py", "c") ∷ []

verify_folder_integrity_lem_example :
    (verify_folder_integrity digest "manifest.json" (some folder) (manifest stale)
      ≡ verified true (record { modified = []; missing = []; untracked = [] }))
    ↔ (All (Tracked digest "manifest.json" stale) folder
        × All (λ path. elem path (actual_files digest "manifest.json" folder) ≡ true) (keys stale))
verify_folder_integrity_lem_example =
    verify_folder_integrity_lem digest "manifest.json" folder stale

verify_folder_integrity-generate_manifest_example :
    verify_folder_integrity digest "manifest.json"
      (some folder)
      (manifest (generate_manifest digest "manifest.json" folder))
    ≡ verified true (record { modified = []; missing = []; untracked = [] })
unfolding freaky_ocs.Base.distinct elem keys
verify_folder_integrity-generate_manifest_example =
    verify_folder_integrity-generate_manifest digest "manifest.json" folder refl
