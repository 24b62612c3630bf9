-- ===== src/Integrity.antt =====
-- IntegrityChecker: Scripts/integrity_checker.py. A folder is what os.walk lists, the relative paths
-- with the contents of the files; SHA-256 (hashlib) is a parameter. Laws has what verifying shows.
pub mod Laws
pub mod RoundTrip
use freaky_ocs.Base.{
  String, Bool, true, false, not, ◌&&◌, Option, none, some, List, [], ◌∷◌, elem, str_eq,
  if◌then◌else◌,
}
use freaky_ocs.Base.Dict.{Dict, get, insert, keys}

-- The manifest file as `read_file` finds it.
pub data ManifestFile : Type 0 where
  absent invalid_json other_value : ManifestFile
  manifest : Dict String → ManifestFile

pub record Issues : Type 0 where
  pub modified : List String
  pub missing : List String
  pub untracked : List String

-- What verify_folder_integrity returns; `raised` is the exception of the JSON reader.
pub data Verification : Type 0 where
  folder_not_found manifest_not_found invalid_manifest raised : Verification
  verified : Bool → Issues → Verification

-- `set(manifest_data.keys()) - actual_files`, in the order of the manifest.
unfoldable pub difference : List String → List String → List String
difference [] actual = []
difference (k ∷ ks) actual =
    let rest = difference ks actual in if elem k actual then rest else k ∷ rest

abbrev is_empty : List String → Bool
is_empty [] = true
is_empty (_ ∷ _) = false

-- `not any(issues.values())`
unfoldable pub no_issues : Issues → Bool
no_issues i = is_empty i.modified && (is_empty i.missing && is_empty i.untracked)

abbrev pub add_modified : String → Issues → Issues
add_modified p i = record i { modified = p ∷ i.modified }

abbrev pub add_untracked : String → Issues → Issues
add_untracked p i = record i { untracked = p ∷ i.untracked }

module _ {C : Type 0} (sha256 : C → String) where
  -- The loop of generate_folder_manifest, with the name of the manifest file.
  unfoldable pub hash_files : String → Dict C → Dict String → Dict String
  hash_files name [] recorded = recorded
  hash_files name ((path, c) ∷ files) recorded =
      let skipped = hash_files name files recorded in
      let added = hash_files name files (insert path (sha256 c) recorded) in
      if str_eq path name then skipped else added

  -- generate_folder_manifest, for a folder that exists.
  unfoldable pub generate_manifest : String → Dict C → Dict String
  generate_manifest name files = hash_files name files []

  -- `actual_files`
  unfoldable pub actual_files : String → Dict C → List String
  actual_files name [] = []
  actual_files name ((path, c) ∷ files) =
      let rest = actual_files name files in if str_eq path name then rest else path ∷ rest

  -- One round of the loop of verify_folder_integrity.
  unfoldable pub check_file : String → Dict String → String → C → Issues → Issues
  check_file name recorded path c rest =
      if str_eq path name then rest else elim (get path recorded) [
        | none ↦ add_untracked path rest
        | some h ↦ if str_eq (sha256 c) h then rest else add_modified path rest
      ]

  unfoldable pub check_files : String → Dict String → Dict C → Issues
  check_files name recorded [] = record { modified = []; missing = []; untracked = [] }
  check_files name recorded ((path, c) ∷ files) =
      check_file name recorded path c (check_files name recorded files)

  unfoldable pub find_issues : String → Dict String → Dict C → Issues
  find_issues name recorded files = record (check_files name recorded files) {
    missing = difference (keys recorded) (actual_files name files);
  }

  -- verify_folder_integrity: `none` is a folder that does not exist.
  unfoldable pub verify_folder_integrity : String → Option (Dict C) → ManifestFile → Verification
  verify_folder_integrity name none file = folder_not_found
  verify_folder_integrity name (some files) absent = manifest_not_found
  verify_folder_integrity name (some files) invalid_json = raised
  verify_folder_integrity name (some files) other_value = invalid_manifest
  verify_folder_integrity name (some files) (manifest recorded) =
      let issues = find_issues name recorded files in verified (no_issues issues) issues
