-- ===== src/Darwin/Names.antt =====
-- Which Darwin versions the table of releases names.
use freaky_ocs.Base.{ℕ, ◌≤◌, ◌≢◌, ◌↔◌, true, none, arith}
use freaky_ocs.Darwin.{
  get_latest_darwin_version, get_lowest_darwin_version, get_macos_name_by_darwin,
}

-- A major Darwin version has a macOS name exactly when it lies between the majors of the lowest
-- and of the latest supported version, so the table has no gap.
pub get_macos_name-in_range :
    (major : ℕ)
    → (get_macos_name_by_darwin major ≢ none) ↔ (
        (get_lowest_darwin_version.major ≤ major)
        × (major ≤ (get_latest_darwin_version true).major))
unfolding get_macos_name_by_darwin get_lowest_darwin_version get_latest_darwin_version
get_macos_name-in_range major = ground arith
