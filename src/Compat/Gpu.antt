-- ===== src/Compat/Gpu.antt =====
-- The GPU check, first part: the versions that one GPU allows, natively and with OpenCore Legacy
-- Patcher (Scripts/compatibility_checker.py). Gpu/Check has the loops over all GPUs.
pub mod Check
pub mod Ranges
pub mod Hull
pub mod Attained
pub mod Narrowing
pub mod Demotion
pub mod Vga
use freaky_ocs.Base.{
  ℕ, ◌+◌, String, Bool, true, false, not, ◌&&◌, ◌||◌, Option, none, some, List, [], ◌∷◌, all, elem,
  starts_with, starts_with_any, includes, includes_lower, drop_chars, second_last, str_eq,
  if◌then◌else◌,
}
use freaky_ocs.Base.Dict.{Dict}
use freaky_ocs.Darwin.{Version, version, lt_version}
use freaky_ocs.Report.{Range, Compatibility, Device, Monitor, Report}
use freaky_ocs.Compat.State.{range, full_range}
use freaky_ocs.Compat.Cpu.{is_low_end_intel_cpu}

-- (max_version, min_version), and the two ocl_patched variables.
pub record GpuRanges : Type 0 where
  pub native : Compatibility
  pub ocl : Range

abbrev pub gpu_ranges : Compatibility → Version → Version → GpuRanges
gpu_ranges native ocl_max ocl_min = record { native = native; ocl = range ocl_max ocl_min }

abbrev pub upto : Version → Compatibility
upto v = some (range v full_range.min)

abbrev pub from : Version → Compatibility
from v = some (range full_range.max v)

-- Scripts/datasets/gpu_data.py
unfoldable pub amd_codenames : List String
amd_codenames =
    "Hainan" ∷ "Oland" ∷ "Cape Verde" ∷ "Pitcairn" ∷ "Tahiti" ∷ "Bonaire" ∷ "Hawaii" ∷ "Tonga"
    ∷ "Fiji" ∷ []

-- `contains_any(gpu_data.AMDCodenames, gpu_codename)`, as a test.
unfoldable pub contains_any : List String → String → Bool
contains_any [] s = false
contains_any (item ∷ items) s = includes_lower s item || contains_any items s

-- Intel, by the device ID without its vendor.
unfoldable pub intel_native : String → String → String → Compatibility
intel_native id platform processor_name =
    if is_low_end_intel_cpu processor_name
    then none
    else if starts_with_any id ("0042" ∷ "0046" ∷ []) && not (str_eq platform "Desktop")
    then upto (version 17 99 99)
    else if starts_with id "01"
        && not (elem (second_last id) ("5" ∷ "6" ∷ []))
        && not (elem id ("0102" ∷ "0106" ∷ "010A" ∷ []))
    then upto (version 17 99 99)
    else if starts_with id "01" && not (elem id ("0152" ∷ "0156" ∷ []))
    then upto (version 20 99 99)
    else if starts_with_any id ("04" ∷ "0A" ∷ "0C" ∷ "0D" ∷ "0B" ∷ "16" ∷ [])
    then upto (version 21 99 99)
    else if starts_with_any id ("09" ∷ "19" ∷ "59" ∷ "3E" ∷ "87" ∷ "9B" ∷ [])
        && not (
            elem id (
              "3E90" ∷ "3E93" ∷ "3E99" ∷ "3E9C" ∷ "3EA1" ∷ "3EA4" ∷ "9B21" ∷ "9BA0" ∷ "9BA2"
              ∷ "9BA4" ∷ "9BA5" ∷ "9BA8" ∷ "9BAA" ∷ "9BAB" ∷ "9BAC" ∷ []))
    then some full_range
    else if starts_with id "8A"
    then from (version 19 4 0)
    else none

abbrev pub default_ocl_max : Version
default_ocl_max = version 24 99 99

abbrev pub default_ocl_min : Version
default_ocl_min = version 20 0 0

-- A family that needs AVX2 on macOS 13 and later, from its first version on.
unfoldable pub avx2_family : Bool → Version → GpuRanges
avx2_family avx2 min =
    if avx2
    then gpu_ranges (from min) default_ocl_max default_ocl_min
    else gpu_ranges (some (range (version 21 99 99) min)) default_ocl_max (version 22 0 0)

unfoldable pub amd_ranges : String → String → Bool → GpuRanges
amd_ranges codename id avx2 =
    if includes codename "Navi 2"
    then if avx2
      then gpu_ranges
          (if elem codename ("Navi 23" ∷ "Navi 22" ∷ [])
            then from (version 21 2 0)
            else if includes codename "Navi 21"
            then from (version 20 5 0)
            else none)
          default_ocl_max default_ocl_min
      else gpu_ranges (upto (version 21 99 99)) (version 21 99 99) default_ocl_min
    else if includes codename "Navi 1"
    then avx2_family avx2 (version 19 0 0)
    else if includes codename "Vega 20"
    then avx2_family avx2 (version 18 6 0)
    else if elem codename ("Vega 10" ∷ "Polaris 22" ∷ "Polaris 20" ∷ "Baffin" ∷ "Ellesmere" ∷ [])
        || elem id ("6995" ∷ "699F" ∷ [])
    then avx2_family avx2 (version 17 0 0)
    else gpu_ranges
        (if contains_any amd_codenames codename
          then upto (version 21 99 99)
          else if elem id ("15D8" ∷ "15DD" ∷ "15E7" ∷ "1636" ∷ "1638" ∷ "164C" ∷ [])
          then from (version 19 0 0)
          else none)
        default_ocl_max default_ocl_min

unfoldable pub nvidia_native : String → Compatibility
nvidia_native codename =
    if includes codename "Kepler"
    then upto (version 20 99 99)
    else if elem codename ("Pascal" ∷ "Maxwell" ∷ "Fermi" ∷ "Tesla" ∷ [])
    then some (range (version 17 99 99) (version 17 0 0))
    else none

-- The dispatch on the manufacturer.
unfoldable pub ranges_of_gpu : Report → Device → GpuRanges
ranges_of_gpu r g =
    if includes g.manufacturer "Intel"
    then gpu_ranges (intel_native (drop_chars 5 g.device_id) r.platform r.cpu.processor_name)
        default_ocl_max default_ocl_min
    else if includes g.manufacturer "AMD"
    then amd_ranges g.codename (drop_chars 5 g.device_id) (includes r.cpu.simd_features "AVX2")
    else if includes g.manufacturer "NVIDIA"
    then gpu_ranges (nvidia_native g.codename) default_ocl_max default_ocl_min
    else gpu_ranges (some full_range) default_ocl_max default_ocl_min

-- `monitor_info.get("Connected GPU", gpu_name) == gpu_name`
unfoldable pub drives : String → Monitor → Bool
drives gpu_name m = elim m.connected_gpu [ none ↦ true | some g ↦ str_eq g gpu_name ]

-- An older Intel GPU whose monitors are all on VGA.
unfoldable pub only_vga : Report → String → Device → Bool
only_vga r name g =
    includes g.manufacturer "Intel"
    && starts_with_any (drop_chars 5 g.device_id) ("01" ∷ "04" ∷ "0A" ∷ "0C" ∷ "0D" ∷ [])
    && all (λ (_, m). str_eq m.connector_type "VGA" && drives name m) r.monitor

-- The versions past `max`: `"{}.0.0".format(int(max_version[:2]) + 1)`; every major here has two
-- digits.
abbrev next_major : Version → Version
next_major max = version (max.major + 1) 0 0

-- The keys that the first loop gives a GPU.
unfoldable pub assess_gpu : Report → String → Device → Device
assess_gpu r name g =
    let found = ranges_of_gpu r g in
    elim found.native [
      | none ↦ record g { compatibility = some none }
      | some native ↦
          if only_vga r name g then record g { compatibility = some none } else record g {
            compatibility = some (some native);
            oclp =
                if lt_version native.max found.ocl.max
                then some (
                    range found.ocl.max (
                      if lt_version (next_major native.max) found.ocl.min
                      then found.ocl.min
                      else next_major native.max))
                else g.oclp;
          }
    ]
