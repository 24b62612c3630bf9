-- ===== src/Smbios/Select.antt =====
-- `select_smbios_model`: Scripts/smbios.py. `none` is the IndexError of a report without GPUs.
pub mod Known
use freaky_ocs.Base.{
  ℕ, String, Bool, true, false, not, ◌&&◌, ◌||◌, Option, none, some, List, [], ◌∷◌, elem, includes,
  ltb, str_eq, if◌then◌else◌,
}
use freaky_ocs.Base.Dict.{Dict}
use freaky_ocs.Darwin.{Version, version, lt_version}
use freaky_ocs.Report.{Device, Report}

unfoldable pub first_gpu : Dict Device → Option Device
first_gpu [] = none
first_gpu ((_, g) ∷ gs) = some g

unfoldable pub last_gpu : Dict Device → Option Device
last_gpu [] = none
last_gpu ((_, g) ∷ []) = some g
last_gpu ((_, g) ∷ (h ∷ gs)) = last_gpu (h ∷ gs)

-- The type of a GPU, which the schema requires.
unfoldable pub gpu_type : Device → String
gpu_type g = elim g.device_type [ none ↦ "" | some t ↦ t ]

-- `platform`
unfoldable pub platform_of : Report → String
platform_of r = if includes r.motherboard_name "NUC" then "NUC" else r.platform

unfoldable pub lynnfield_model : String → String
lynnfield_model codename = if str_eq codename "Lynnfield" then "iMac11,1" else "iMac11,2"

-- The model by platform and codename, for a system that does not drive a display by its iGPU.
unfoldable pub headless_model : String → String → String → Version → String
headless_model platform codename processor_name macos =
    if elem codename ("Lynnfield" ∷ "Clarkdale" ∷ [])
      && not (includes processor_name "Xeon")
      && lt_version macos (version 19 0 0)
    then lynnfield_model codename
    else if elem codename (
        "Beckton" ∷ "Westmere-EX" ∷ "Gulftown" ∷ "Westmere-EP" ∷ "Clarkdale" ∷ "Lynnfield"
        ∷ "Jasper Forest" ∷ "Gainestown" ∷ "Bloomfield" ∷ [])
    then if lt_version macos (version 19 0 0) then "MacPro5,1" else "MacPro6,1"
    else if (includes codename "Sandy Bridge" || includes codename "Ivy Bridge")
        && lt_version macos (version 22 0 0)
    then "MacPro6,1"
    else if includes platform "Laptop"
    then "MacBookPro16,2"
    else if lt_version macos (version 25 0 0)
    then "iMacPro1,1"
    else "MacPro7,1"

-- The choice by platform that several generations make; `other` is the model so far.
unfoldable pub by_platform : String → String → Option String → String → String → Option String
by_platform platform other desktop nuc laptop =
    if includes platform "Desktop"
    then desktop
    else if includes platform "NUC"
    then some nuc
    else if includes platform "Laptop"
    then some laptop
    else some other

-- `a if "Integrated GPU" in list(...)[0][-1].get("Device Type") else b`
unfoldable pub if_first_integrated : Dict Device → String → String → Option String
if_first_integrated gpus a b = elim (first_gpu gpus) [
  | none ↦ none
  | some g ↦ some (if includes (gpu_type g) "Integrated GPU" then a else b)
]

unfoldable pub fewer_cores : ℕ → ℕ → String → String → String
fewer_cores cores n a b = if ltb cores n then a else b

-- Cannon, Whiskey, Coffee and Comet Lake.
unfoldable pub coffee_lake_model : String → String → ℕ → String → Version → String
coffee_lake_model platform codename cores processor_name macos =
    if includes platform "Desktop"
    then if includes codename "Comet Lake"
      then fewer_cores cores 10 "iMac20,1" "iMac20,2"
      else if lt_version macos (version 18 0 0)
      then "iMac18,3"
      else "iMac19,1"
    else if includes platform "Laptop"
    then if includes processor_name "-8"
      then fewer_cores cores 6 "MacBookPro15,2" "MacBookPro15,3"
      else fewer_cores cores 6 "MacBookPro16,3" "MacBookPro16,1"
    else "Macmini8,1"

-- The model by the generation of the CPU, for a system with an iGPU.
unfoldable pub integrated_model :
    String → String → ℕ → String → Version → Dict Device → String → Option String
unfolding by_platform
integrated_model platform codename cores processor_name macos gpus model =
    if elem codename ("Arrandale" ∷ "Clarksfield" ∷ [])
    then some "MacBookPro6,1"
    else if includes codename "Sandy Bridge"
    then by_platform platform model (some "iMac12,2")
        (fewer_cores cores 4 "Macmini5,1" "Macmini5,3")
        (fewer_cores cores 4 "MacBookPro8,1" "MacBookPro8,2")
    else if includes codename "Ivy Bridge"
    then by_platform platform model (if_first_integrated gpus "iMac13,1" "iMac13,2")
        (fewer_cores cores 4 "Macmini6,1" "Macmini6,2")
        (fewer_cores cores 4 "MacBookPro10,2" "MacBookPro10,1")
    else if includes codename "Haswell"
    then by_platform platform model (if_first_integrated gpus "iMac14,4" "iMac15,1") "Macmini7,1"
        (fewer_cores cores 4 "MacBookPro11,1" "MacBookPro11,5")
    else if includes codename "Broadwell"
    then by_platform platform model (if_first_integrated gpus "iMac16,2" "iMac17,1") "iMac16,1"
        (fewer_cores cores 4 "MacBookPro12,1" "MacBookPro11,5")
    else if includes codename "Skylake"
    then some (
        if includes platform "Laptop"
        then fewer_cores cores 4 "MacBookPro13,1" "MacBookPro13,3"
        else "iMac17,1")
    else if includes codename "Amber Lake" || includes codename "Kaby Lake"
    then elim (if_first_integrated gpus "iMac18,1" "iMac18,3") [
      | none ↦ none
      | some desktop ↦ some (
          if includes platform "Laptop"
          then fewer_cores cores 4 "MacBookPro14,1" "MacBookPro14,3"
          else desktop)
    ]
    else if includes codename "Cannon Lake"
        || includes codename "Whiskey Lake"
        || includes codename "Coffee Lake"
        || includes codename "Comet Lake"
    then some (coffee_lake_model platform codename cores processor_name macos)
    else if includes codename "Ice Lake"
    then some "MacBookAir9,1"
    else some model

abbrev integrated_of : Report → Version → String → Option String
integrated_of r macos model =
    integrated_model (platform_of r) r.cpu.codename r.cpu.core_count r.cpu.processor_name macos
      r.gpu model

unfoldable pub select_smbios_model : Report → Version → Option String
select_smbios_model r macos =
    let model = headless_model (platform_of r) r.cpu.codename r.cpu.processor_name macos in
    if str_eq (platform_of r) "Laptop" then integrated_of r macos model else elim (last_gpu r.gpu) [
      | none ↦ none
      | some g ↦
          if str_eq (gpu_type g) "Integrated GPU" then integrated_of r macos model else some model
    ]
