-- ===== src/MacModels.antt =====
-- The Mac models: Scripts/datasets/mac_model_data.py.
use freaky_ocs.Base.{String, Option, none, some, List, [], ◌∷◌, str_eq, true, if◌then◌else◌}
use freaky_ocs.Darwin.{Version, version, get_latest_darwin_version}

pub record MacDevice : Type 0 where
  pub name : String
  pub cpu : String
  pub cpu_generation : String
  pub discrete_gpu : Option String
  pub initial_support : Version
  pub last_supported_version : Version

mac_device : String → String → String → Option String → Version → Option Version → MacDevice
mac_device name cpu generation gpu first last = record {
  name = name;
  cpu = cpu;
  cpu_generation = generation;
  discrete_gpu = gpu;
  initial_support = first;
  last_supported_version = elim last [ none ↦ get_latest_darwin_version true | some v ↦ v ];
}

unfoldable pub mac_devices : List MacDevice
unfolding mac_device
mac_devices =
    mac_device "iMac11,1" "i7-860" "Lynnfield" (some "ATI Radeon HD 4850") (version 10 2 0)
      (some (version 17 99 99))
    ∷ mac_device "iMac11,2" "i5-680" "Clarkdale" (some "ATI Radeon HD 4670") (version 10 3 0)
        (some (version 17 99 99))
    ∷ mac_device "iMac11,3" "i7-870" "Clarkdale" (some "ATI Radeon HD 5670") (version 10 3 0)
        (some (version 17 99 99))
    ∷ mac_device "iMac12,1" "i5-2400S" "Sandy Bridge" (some "AMD Radeon HD 6750M") (version 10 6 0)
        (some (version 17 99 99))
    ∷ mac_device "iMac12,2" "i7-2600" "Sandy Bridge" (some "AMD Radeon HD 6770M") (version 10 6 0)
        (some (version 17 99 99))
    ∷ mac_device "iMac13,1" "i7-3770S" "Ivy Bridge" (some "NVIDIA GeForce GT 640M") (version 12 2 0)
        (some (version 19 99 99))
    ∷ mac_device "iMac13,2" "i5-3470S" "Ivy Bridge" (some "NVIDIA GeForce GTX 660M")
        (version 12 2 0) (some (version 19 99 99))
    ∷ mac_device "iMac13,3" "i5-3470S" "Ivy Bridge" none (version 12 2 0) (some (version 19 99 99))
    ∷ mac_device "iMac14,1" "i5-4570R" "Haswell" none (version 12 4 0) (some (version 19 99 99))
    ∷ mac_device "iMac14,2" "i7-4771" "Haswell" (some "NVIDIA GeForce GT 750M") (version 12 4 0)
        (some (version 19 99 99))
    ∷ mac_device "iMac14,3" "i5-4570S" "Haswell" (some "NVIDIA GeForce GT 755M") (version 12 4 0)
        (some (version 19 99 99))
    ∷ mac_device "iMac14,4" "i5-4260U" "Haswell" none (version 13 2 0) (some (version 20 99 99))
    ∷ mac_device "iMac15,1" "i7-4790K" "Haswell" (some "AMD Radeon R9 M290X") (version 14 0 0)
        (some (version 20 99 99))
    ∷ mac_device "iMac16,1" "i5-5250U" "Broadwell" none (version 15 0 0) (some (version 21 99 99))
    ∷ mac_device "iMac16,2" "i5-5675R" "Broadwell" none (version 15 0 0) (some (version 21 99 99))
    ∷ mac_device "iMac17,1" "i5-6500" "Skylake" (some "AMD Radeon R9 M380") (version 15 0 0)
        (some (version 21 99 99))
    ∷ mac_device "iMac18,1" "i5-7360U" "Kaby Lake" none (version 16 5 0) (some (version 22 99 99))
    ∷ mac_device "iMac18,2" "i5-7400" "Kaby Lake" (some "AMD Radeon Pro 555") (version 16 5 0)
        (some (version 22 99 99))
    ∷ mac_device "iMac18,3" "i5-7600K" "Kaby Lake" (some "AMD Radeon Pro 570") (version 16 5 0)
        (some (version 22 99 99))
    ∷ mac_device "iMac19,1" "i9-9900K" "Coffee Lake" (some "AMD Radeon Pro 570X") (version 18 5 0)
        (some (version 24 99 99))
    ∷ mac_device "iMac19,2" "i5-8500" "Coffee Lake" (some "AMD Radeon Pro 555X") (version 18 5 0)
        (some (version 24 99 99))
    ∷ mac_device "iMac20,1" "i5-10500" "Comet Lake" (some "AMD Radeon Pro 5300") (version 19 6 0)
        none
    ∷ mac_device "iMac20,2" "i9-10910" "Comet Lake" (some "AMD Radeon Pro 5300") (version 19 6 0)
        none
    ∷ mac_device "MacBook8,1" "M-5Y51" "Broadwell" none (version 14 1 0) (some (version 20 99 99))
    ∷ mac_device "MacBook9,1" "m3-6Y30" "Skylake" none (version 15 4 0) (some (version 21 99 99))
    ∷ mac_device "MacBook10,1" "m3-7Y32" "Kaby Lake" none (version 16 6 0) (some (version 22 99 99))
    ∷ mac_device "MacBookAir4,1" "i5-2467M" "Sandy Bridge" none (version 11 0 0)
        (some (version 17 99 99))
    ∷ mac_device "MacBookAir4,2" "i5-2557M" "Sandy Bridge" none (version 11 0 0)
        (some (version 17 99 99))
    ∷ mac_device "MacBookAir5,1" "i5-3317U" "Ivy Bridge" none (version 11 4 0)
        (some (version 19 99 99))
    ∷ mac_device "MacBookAir5,2" "i5-3317U" "Ivy Bridge" none (version 12 2 0)
        (some (version 19 99 99))
    ∷ mac_device "MacBookAir6,1" "i5-4250U" "Haswell" none (version 12 4 0)
        (some (version 20 99 99))
    ∷ mac_device "MacBookAir6,2" "i5-4250U" "Haswell" none (version 12 4 0)
        (some (version 20 99 99))
    ∷ mac_device "MacBookAir7,1" "i5-5250U" "Broadwell" none (version 14 1 0)
        (some (version 21 99 99))
    ∷ mac_device "MacBookAir7,2" "i5-5250U" "Broadwell" none (version 14 1 0)
        (some (version 21 99 99))
    ∷ mac_device "MacBookAir8,1" "i5-8210Y" "Amber Lake" none (version 18 2 0)
        (some (version 24 99 99))
    ∷ mac_device "MacBookAir8,2" "i5-8210Y" "Amber Lake" none (version 18 6 0)
        (some (version 24 99 99))
    ∷ mac_device "MacBookAir9,1" "i3-1000NG4" "Ice Lake" none (version 19 4 0)
        (some (version 24 99 99))
    ∷ mac_device "MacBookPro6,1" "i7-640M" "Arrandale" (some "NVIDIA GeForce GT 330M")
        (version 10 3 0) (some (version 17 99 99))
    ∷ mac_device "MacBookPro6,2" "i7-640M" "Arrandale" (some "NVIDIA GeForce GT 330M")
        (version 10 3 0) (some (version 17 99 99))
    ∷ mac_device "MacBookPro8,1" "i5-2415M" "Sandy Bridge" none (version 10 6 0)
        (some (version 17 99 99))
    ∷ mac_device "MacBookPro8,2" "i7-2675QM" "Sandy Bridge" (some "AMD Radeon HD 6490M")
        (version 10 6 0) (some (version 17 99 99))
    ∷ mac_device "MacBookPro8,3" "i7-2820QM" "Sandy Bridge" (some "AMD Radeon HD 6750M")
        (version 10 6 0) (some (version 17 99 99))
    ∷ mac_device "MacBookPro9,1" "i7-3615QM" "Ivy Bridge" (some "NVIDIA GeForce GT 650M")
        (version 11 3 0) (some (version 19 99 99))
    ∷ mac_device "MacBookPro9,2" "i5-3210M" "Ivy Bridge" none (version 11 3 0)
        (some (version 19 99 99))
    ∷ mac_device "MacBookPro10,1" "i7-3615QM" "Ivy Bridge" (some "NVIDIA GeForce GT 650M")
        (version 11 4 0) (some (version 19 99 99))
    ∷ mac_device "MacBookPro10,2" "i5-3210M" "Ivy Bridge" none (version 12 2 0)
        (some (version 19 99 99))
    ∷ mac_device "MacBookPro11,1" "i5-4258U" "Haswell" none (version 13 0 0)
        (some (version 20 99 99))
    ∷ mac_device "MacBookPro11,2" "i7-4770HQ" "Haswell" none (version 13 0 0)
        (some (version 20 99 99))
    ∷ mac_device "MacBookPro11,3" "i7-4850HQ" "Haswell" (some "NVIDIA GeForce GT 750M")
        (version 13 0 0) (some (version 20 99 99))
    ∷ mac_device "MacBookPro11,4" "i7-4770HQ" "Haswell" none (version 14 3 0)
        (some (version 21 99 99))
    ∷ mac_device "MacBookPro11,5" "i7-4870HQ" "Haswell" (some "AMD Radeon R9 M370X")
        (version 14 3 0) (some (version 21 99 99))
    ∷ mac_device "MacBookPro12,1" "i5-5257U" "Broadwell" none (version 14 1 0)
        (some (version 21 99 99))
    ∷ mac_device "MacBookPro13,1" "i5-6360U" "Skylake" none (version 16 0 0)
        (some (version 21 99 99))
    ∷ mac_device "MacBookPro13,2" "i7-6567U" "Skylake" none (version 16 1 0)
        (some (version 21 99 99))
    ∷ mac_device "MacBookPro13,3" "i7-6700HQ" "Skylake" (some "AMD Radeon Pro 450") (version 16 1 0)
        (some (version 21 99 99))
    ∷ mac_device "MacBookPro14,1" "i5-7360U" "Kaby Lake" none (version 16 6 0)
        (some (version 22 99 99))
    ∷ mac_device "MacBookPro14,2" "i5-7267U" "Kaby Lake" none (version 16 6 0)
        (some (version 22 99 99))
    ∷ mac_device "MacBookPro14,3" "i7-7700HQ" "Kaby Lake" (some "AMD Radeon Pro 555")
        (version 16 6 0) (some (version 22 99 99))
    ∷ mac_device "MacBookPro15,1" "i7-8750H" "Coffee Lake" (some "AMD Radeon Pro 555X")
        (version 17 99 99) (some (version 24 99 99))
    ∷ mac_device "MacBookPro15,2" "i7-8559U" "Coffee Lake" none (version 17 99 99)
        (some (version 24 99 99))
    ∷ mac_device "MacBookPro15,3" "i7-8850H" "Coffee Lake" (some "AMD Radeon Pro Vega 16")
        (version 18 2 0) (some (version 24 99 99))
    ∷ mac_device "MacBookPro15,4" "i5-8257U" "Coffee Lake" none (version 18 6 0)
        (some (version 24 99 99))
    ∷ mac_device "MacBookPro16,1" "i7-9750H" "Coffee Lake" (some "AMD Radeon Pro 5300")
        (version 19 0 0) none
    ∷ mac_device "MacBookPro16,2" "i5-1038NG7" "Ice Lake" none (version 19 4 0) none
    ∷ mac_device "MacBookPro16,3" "i5-8257U" "Coffee Lake" none (version 19 4 0)
        (some (version 24 99 99))
    ∷ mac_device "MacBookPro16,4" "i7-9750H" "Coffee Lake" (some "AMD Radeon Pro 5600M")
        (version 19 0 0) none
    ∷ mac_device "Macmini5,1" "i5-2415M" "Sandy Bridge" none (version 11 0 0)
        (some (version 17 99 99))
    ∷ mac_device "Macmini5,2" "i5-2520M" "Sandy Bridge" none (version 11 0 0)
        (some (version 17 99 99))
    ∷ mac_device "Macmini5,3" "i7-2635QM" "Sandy Bridge" none (version 11 0 0)
        (some (version 17 99 99))
    ∷ mac_device "Macmini6,1" "i5-3210M" "Ivy Bridge" none (version 10 8 1)
        (some (version 19 99 99))
    ∷ mac_device "Macmini6,2" "i7-3615QM" "Ivy Bridge" none (version 10 8 1)
        (some (version 19 99 99))
    ∷ mac_device "Macmini7,1" "i5-4260U" "Haswell" none (version 14 0 0) (some (version 21 99 99))
    ∷ mac_device "Macmini8,1" "i7-8700B" "Coffee Lake" none (version 18 0 0)
        (some (version 24 99 99))
    ∷ mac_device "iMacPro1,1" "W-2140B" "Skylake-W" (some "AMD Radeon RX Vega 56") (version 17 3 0)
        (some (version 24 99 99))
    ∷ mac_device "MacPro5,1" "X5675 x2" "Nehalem/Westmere" (some "ATI Radeon HD 5770")
        (version 10 4 0) (some (version 18 99 99))
    ∷ mac_device "MacPro6,1" "E5-1620 v2" "Ivy Bridge EP" (some "AMD FirePro D300") (version 13 0 0)
        (some (version 21 99 99))
    ∷ mac_device "MacPro7,1" "W-3245M" "Cascade Lake-W" (some "AMD Radeon Pro 580X")
        (version 19 0 0) none
    ∷ []

unfoldable pub find_device : String → List MacDevice → Option MacDevice
find_device name [] = none
find_device name (d ∷ ds) = if str_eq d.name name then some d else find_device name ds

unfoldable pub get_mac_device_by_name : String → Option MacDevice
unfolding find_device mac_devices
get_mac_device_by_name name = find_device name mac_devices
