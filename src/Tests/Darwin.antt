-- ===== src/Tests/Darwin.antt =====
-- The theorem on the names of the macOS versions at a concrete version.
use freaky_ocs.Base.{◌≤◌, ◌≢◌, ◌↔◌, none, true}
use freaky_ocs.Darwin.{
  get_latest_darwin_version, get_lowest_darwin_version, get_macos_name_by_darwin,
}
use freaky_ocs.Darwin.Names.{get_macos_name-in_range}

get_macos_name-in_range_example :
    (get_macos_name_by_darwin 22 ≢ none)
    ↔ ((get_lowest_darwin_version.major ≤ 22) × (22 ≤ (get_latest_darwin_version true).major))
get_macos_name-in_range_example = get_macos_name-in_range 22
