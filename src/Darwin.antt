-- ===== src/Darwin.antt =====
-- Darwin versions and the table of macOS releases: Scripts/datasets/os_data.py, and
-- `parse_darwin_version` of Scripts/utils.py. A version text "a.b.c" is modelled by the triple that
-- `parse_darwin_version` makes of it.
pub mod Names
pub mod Order
unfoldable pub use Order.*
use freaky_ocs.Base.{
  ℕ, ◌+◌, ◌-◌, String, ◌<>◌, Bool, true, false, Option, none, some, List, [], ◌∷◌, starts_with,
  includes, split_on, parse_int, get_elem?, ◌==◌, str_eq, if◌then◌else◌,
}

pub record MacosVersionInfo : Type 0 where
  pub name : String
  pub darwin_version : ℕ
  pub macos_version : String
  pub release_status : String

-- `int(macos_version.split(".")[i])`; the constructor raises where this is `none`.
split_int : String → ℕ → Option ℕ
split_int s i = elim (get_elem? (split_on b'.' s) i) [ none ↦ none | some t ↦ parse_int t ]

-- The major Darwin version of a macOS release.
unfoldable pub darwin_major : String → Option ℕ
unfolding split_int includes starts_with split_on parse_int
darwin_major v =
    if includes v "10."
    then elim (split_int v 1) [ none ↦ none | some n ↦ some (n + 4) ]
    else if starts_with v "1"
    then elim (split_int v 0) [ none ↦ none | some n ↦ some (n + 9) ]
    else elim (split_int v 0) [ none ↦ none | some n ↦ some (n - 1) ]

-- An entry of the table; the ones below all convert.
version_info : String → String → MacosVersionInfo
unfolding darwin_major
version_info name v = record {
  name = name;
  darwin_version = elim (darwin_major v) [ none ↦ 0 | some n ↦ n ];
  macos_version = v;
  release_status = "final";
}

unfoldable pub macos_versions : List MacosVersionInfo
unfolding version_info
macos_versions =
    version_info "High Sierra" "10.13"
    ∷ version_info "Mojave" "10.14"
    ∷ version_info "Catalina" "10.15"
    ∷ version_info "Big Sur" "11"
    ∷ version_info "Monterey" "12"
    ∷ version_info "Ventura" "13"
    ∷ version_info "Sonoma" "14"
    ∷ version_info "Sequoia" "15"
    ∷ version_info "Tahoe" "26"
    ∷ []

-- The last entry that is final, or any if betas count: the loop over `macos_versions[::-1]`.
latest_of : Bool → List MacosVersionInfo → Option Version
latest_of beta [] = none
latest_of beta (m ∷ ms) = elim (latest_of beta ms) [
  | some v ↦ some v
  | none ↦
      if beta
      then some (version m.darwin_version 99 99)
      else if str_eq m.release_status "final"
      then some (version m.darwin_version 99 99)
      else none
]

latest_entry : Bool → Version
latest_entry beta = elim (latest_of beta macos_versions) [ none ↦ version 0 0 0 | some v ↦ v ]

-- `get_latest_darwin_version(include_beta)`
unfoldable pub get_latest_darwin_version : Bool → Version
unfolding latest_entry latest_of macos_versions
get_latest_darwin_version include_beta = latest_entry include_beta

first_entry : List MacosVersionInfo → Version
first_entry [] = version 0 0 0
first_entry (m ∷ _) = version m.darwin_version 0 0

unfoldable pub get_lowest_darwin_version : Version
unfolding first_entry macos_versions
get_lowest_darwin_version = first_entry macos_versions

find_name : ℕ → List MacosVersionInfo → Option String
find_name major [] = none
find_name major (m ∷ ms) =
    if m.darwin_version == major
    then some (
        "macOS "
        <> (m.name
            <> (" "
                <> (m.macos_version
                    <> (if str_eq m.release_status "final" then "" else " (Beta)")))))
    else find_name major ms

-- `get_macos_name_by_darwin`, by the number that the first two characters of the version give.
unfoldable pub get_macos_name_by_darwin : ℕ → Option String
unfolding find_name macos_versions
get_macos_name_by_darwin major = find_name major macos_versions
