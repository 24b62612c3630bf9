-- ===== src/Config/Booter/Laws.antt =====
-- The quirks of the Booter section that go together.
use freaky_ocs.Base.{
  String, true, false, ◌||◌, some, List, [], ◌∷◌, ◌++◌, take, drop, ◌≡◌, ◌⊎◌, refl, elem, includes,
  arith,
}
use freaky_ocs.Darwin.{Version}
use freaky_ocs.Report.{Report}
use freaky_ocs.Chipsets.{intel_chipsets}
use freaky_ocs.Config.Booter.{
  BooterQuirks, booter_quirks, in_rest, in_slice, is_at, is_amd, needs_devirtualising,
  protects_services,
}

elem-append : (x : String) (xs ys : List String) → elem x (xs ++ ys) ≡ (elem x xs || elem x ys)
unfolding elem
elem-append x [] ys = refl
elem-append x (y ∷ xs) ys = ground (arith, elem-append x xs ys)

-- The chipsets from QM370 on are those up to Z370 and those from Comet Lake on.
rest_104 :
    (chipset : String) → in_rest chipset 104 ≡ (in_slice chipset 104 112 || in_rest chipset 112)
unfolding in_rest in_slice intel_chipsets
rest_104 chipset =
    elem-append chipset (drop 104 (take 112 intel_chipsets)) (drop 112 intel_chipsets)

devirtualised_if_protected :
    (report : Report) (chipset : String)
    → protects_services report chipset ≡ true
    → (needs_devirtualising report chipset ≡ true)
      ⊎ ((is_at chipset intel_chipsets 109 ≡ true) × (includes report.platform "Desktop" ≡ false))
unfolding protects_services needs_devirtualising
devirtualised_if_protected report chipset h = ground arith

synced_if_protected :
    (report : Report) (chipset : String)
    → protects_services report chipset ≡ true
    → (is_amd report || (in_slice chipset 90 100 || in_rest chipset 104)) ≡ true
unfolding protects_services
synced_if_protected report chipset h = ground (arith, rest_104 chipset)

-- Where booter_quirks returns and ProtectUefiServices is set, so is SyncRuntimePermissions, and so
-- is DevirtualiseMmio unless the chipset is Z390 on a board that is not for desktops.
pub booter_quirks-protects :
    (report : Report) (chipset : String) (macos : Version) (q : BooterQuirks)
    → booter_quirks report chipset macos ≡ some q
    → q.protect_uefi_services ≡ true
    → (q.sync_runtime_permissions ≡ true)
      × ((q.devirtualise_mmio ≡ true)
          ⊎ ((is_at chipset intel_chipsets 109 ≡ true)
              × (includes report.platform "Desktop" ≡ false)))
unfolding booter_quirks
booter_quirks-protects report chipset macos q h protected =
    ground (arith, synced_if_protected report chipset, devirtualised_if_protected report chipset)
