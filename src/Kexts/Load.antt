-- ===== src/Kexts/Load.antt =====
-- The order of the kexts in `load_kexts`: Scripts/kext_maestro.py. The bundles that process_kext
-- reads from the files are given; a bundle is the same object in bundle_list and in bundle_dict,
-- and is named by its index.
pub mod Order
pub mod Total
pub mod Sorted
use freaky_ocs.Base.{
  ℕ, zero, suc, String, Bool, true, false, not, ◌&&◌, ◌||◌, ◌==◌, Option, none, some, List, [], ◌∷◌,
  ◌++◌, any, elem, get_elem?, str_eq, if◌then◌else◌,
}
use freaky_ocs.Darwin.{Version, version, lt_version}
use freaky_ocs.Compat.State.{full_range}
use freaky_ocs.Report.{Range}
use freaky_ocs.Kexts.Info.{KextInfo}
use freaky_ocs.Kexts.Data.{kexts, index_by_name}

-- `name` is the file name of the path without its extension.
pub record Bundle : Type 0 where
  pub path : String
  pub name : String
  pub identifier : String
  pub libraries : List String

-- A bundle of sorted_bundles, and its key "Enabled".
pub record Entry : Type 0 where
  pub bundle : Bundle
  pub enabled : Bool

-- sorted_bundles, and the keys "MaxKernel" and "MinKernel" of the bundles. `visited` and
-- `seen_identifier` hold the keys and the identifiers of sorted_bundles, since a bundle joins all
-- three together.
pub record Sorting : Type 0 where
  pub sorted : List Entry
  pub bounds : ℕ → Option Range

-- A deeper recursion than the fuel, such as one without an end, is `out_of_fuel`.
pub data Visiting : Type 0 where
  sorted_to : Sorting → Visiting
  out_of_fuel : Visiting

infixl 5 ◌>>=◌
abbrev pub ◌>>=◌ : Visiting → (Sorting → Visiting) → Visiting
sorted_to s >>= f = f s
out_of_fuel >>= f = out_of_fuel

unfoldable pub is_visited : Bundle → List Entry → Bool
is_visited b sorted =
    any (λ (e : Entry). str_eq e.bundle.path b.path && str_eq e.bundle.identifier b.identifier)
      sorted

unfoldable pub is_seen : String → List Entry → Bool
is_seen identifier sorted = any (λ (e : Entry). str_eq e.bundle.identifier identifier) sorted

-- `bundle_dict.get(identifier)`, the last bundle of the identifier, as its index.
unfoldable pub find_bundle : String → List Bundle → Option ℕ
find_bundle identifier [] = none
find_bundle identifier (b ∷ bs) = elim (find_bundle identifier bs) [
  | some i ↦ some (suc i)
  | none ↦ if str_eq b.identifier identifier then some 0 else none
]

-- The versions that a bundle starts from. `if kext_index` leaves out the index 0.
unfoldable pub kext_range : String → Range
kext_range name = elim (index_by_name kexts name) [
  | none ↦ full_range
  | some zero ↦ full_range
  | some (suc i) ↦ elim (get_elem? kexts (suc i)) [
    | none ↦ full_range
    | some k ↦ record { max = k.max_darwin_version; min = k.min_darwin_version }
  ]
]

abbrev pub set_bounds : ℕ → Option Range → Sorting → Sorting
set_bounds i r s = record s { bounds = λ j. if j == i then r else s.bounds j }

-- Both bounds against those of a library. One without bounds counts as 0.0.0 to 99.99.99, within
-- which every version lies.
unfoldable pub within_library : Option Range → Option Range → Option Range
within_library none l = none
within_library (some r) none = some r
within_library (some r) (some l) = some (record {
  max = if lt_version r.max l.max then r.max else l.max;
  min = if lt_version l.min r.min then r.min else l.min;
})

unfoldable pub narrow_by : ℕ → ℕ → Sorting → Sorting
narrow_by i j s = set_bounds i (within_library (s.bounds i) (s.bounds j)) s

-- The bounds of AirPortBrcm4360_Injector and of AirportItlwm.
unfoldable pub adjusted_range : Version → String → Option Range → Option Range
adjusted_range macos name none = none
adjusted_range macos name (some r) = some (
    if str_eq name "AirPortBrcm4360_Injector"
    then record r { max = version 19 99 99 }
    else if str_eq name "AirportItlwm"
    then record {
      max = record r.max { major = macos.major };
      min = record r.min { major = macos.major };
    }
    else r)

unfoldable pub adjust : Version → ℕ → Bundle → Sorting → Sorting
adjust macos i b s = set_bounds i (adjusted_range macos b.name (s.bounds i)) s

-- The last lines of `visit`.
unfoldable pub append_bundle : Bundle → Sorting → Sorting
append_bundle b s = record s {
  sorted = s.sorted ++ (record { bundle = b; enabled = not (is_seen b.identifier s.sorted) } ∷ []);
}

unfoldable pub visit_libraries :
    (ℕ → Sorting → Visiting) → List Bundle → ℕ → List String → Sorting → Visiting
visit_libraries visit bundles i [] s = sorted_to s
visit_libraries visit bundles i (l ∷ ls) s = elim (find_bundle l bundles) [
  | none ↦ visit_libraries visit bundles i ls s
  | some j ↦ visit j s >>= λ s'. visit_libraries visit bundles i ls (narrow_by i j s')
]

unfoldable pub visit : List Bundle → List String → Version → ℕ → ℕ → Sorting → Visiting
unfolding visit_libraries
visit bundles unload macos zero i s = out_of_fuel
visit bundles unload macos (suc fuel) i s = elim (get_elem? bundles i) [
  | none ↦ sorted_to s
  | some b ↦
      if elem b.name unload || is_visited b s.sorted
      then sorted_to s
      else (visit_libraries (visit bundles unload macos fuel) bundles i b.libraries
            (set_bounds i (some (kext_range b.name)) s)
          >>= λ s'. sorted_to (append_bundle b (adjust macos i b s')))
]

-- `for bundle in bundle_list: visit(bundle)`, from the index i.
unfoldable pub visit_from :
    List Bundle → List String → Version → ℕ → ℕ → List Bundle → Sorting → Visiting
visit_from bundles unload macos fuel i [] s = sorted_to s
visit_from bundles unload macos fuel i (b ∷ bs) s =
    visit bundles unload macos fuel i s >>= visit_from bundles unload macos fuel (suc i) bs

unfoldable pub sort_bundles : List Bundle → List String → Version → ℕ → Visiting
unfolding visit_from
sort_bundles bundles unload macos fuel =
    visit_from bundles unload macos fuel 0 bundles (record { sorted = []; bounds = λ _. none })

-- `unload_kext`, by the checked kexts.
unfoldable pub unload_kexts : (String → Bool) → List String
unload_kexts is_checked =
    if is_checked "IO80211ElCap"
    then "AirPortBrcm4331" ∷ "AppleAirPortBrcm43224" ∷ []
    else if is_checked "VoodooSMBus"
    then "VoodooPS2Mouse" ∷ []
    else if is_checked "VoodooRMI"
    then if not (is_checked "VoodooI2C")
      then "RMII2C" ∷ []
      else "VoodooSMBus" ∷ "RMISMBus" ∷ "VoodooI2CHID" ∷ []
    else []
