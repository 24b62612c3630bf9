-- ===== src/Compat/Devices/Ranges.antt =====
-- The ranges that the network check gives one device: Scripts/compatibility_checker.py.
use freaky_ocs.Base.{String, ◌≡◌, ◌⊎◌, inl, inr, true, ◌&&◌, none, some, arith, elem, Bool-cases}
use freaky_ocs.Darwin.{lt_version, le_version, get_latest_darwin_version}
use freaky_ocs.PciData.Wireless.{wireless_card_ids}
use freaky_ocs.Report.{Range, Device}
use freaky_ocs.Compat.State.{full_range}
use freaky_ocs.Compat.Cpu.Laws.{IsWithin}
use freaky_ocs.Compat.Devices.{network_range, is_patched_wifi, assess_network, oclp_of}
use freaky_ocs.Compat.Devices.Laws.{assess_network_lem}

-- A range of OpenCore Legacy Patcher that is not empty, and begins above the native range unless
-- that reaches up to the latest version.
abbrev pub Extends : Range → Range → Type 0
Extends native o =
    (le_version o.min o.max ≡ true)
    × ((lt_version native.max o.min ≡ true) ⊎ (native.max ≡ full_range.max))

patched-Extends :
    (id : String) → is_patched_wifi id ≡ true → Extends (network_range id).0 (oclp_of id)
unfolding network_range is_patched_wifi full_range get_latest_darwin_version lt_version le_version
patched-Extends id h = ground arith

-- The native range that a device without marks gets is not empty and lies within the supported
-- versions. If the device also gets a range of OpenCore Legacy Patcher, that is not empty, and begins
-- above the native range unless the native one reaches up to the latest version.
pub assess_network-ranges :
    (d : Device) (native : Range)
    → d.compatibility ≡ none
    → d.oclp ≡ none
    → (assess_network d).compatibility ≡ some (some native)
    → IsWithin native
      × (((assess_network d).oclp ≡ none)
          ⊎ ((o : Range) × ((assess_network d).oclp ≡ some o) × Extends native o))
assess_network-ranges d native fresh fresh' h =
    let (inside, marks, patched) = assess_network_lem d fresh fresh' in
    let same : (network_range d.device_id).0 ≡ native = ground arith in
    (
      rw⁻¹ same inside,
      elim (Bool-cases (elem d.device_id wireless_card_ids && is_patched_wifi d.device_id)) [
        | inl both ↦ inr (
          oclp_of d.device_id,
          ground arith,
          rw⁻¹ same (patched-Extends d.device_id (ground arith)),
        )
        | inr neither ↦ inl (ground arith)
      ],
    )
