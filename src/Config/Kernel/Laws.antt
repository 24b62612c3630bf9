-- ===== src/Config/Kernel/Laws.antt =====
-- The quirks of the Kernel section that exclude each other.
use freaky_ocs.Base.{
  String, Bool, true, false, not, ◌&&◌, List, [], ◌∷◌, all, ◌≡◌, refl, elem, eq_iff, arith,
}
use freaky_ocs.CpuData.{intel_cpu_generations}
use freaky_ocs.Report.{Report}
use freaky_ocs.Config.Booter.{is_amd}
use freaky_ocs.Config.Kernel.{
  kernel_quirks, locked_generations, boosted_generations, hybrid_generations,
}

-- What holds of all members holds of one.
holds_of_member :
    (p : String → Bool) (x : String) (xs : List String)
    → all p xs ≡ true
    → elem x xs ≡ true
    → p x ≡ true
unfolding elem
holds_of_member p x [] h k = ground arith
holds_of_member p x (y ∷ ys) h k = ground (arith, eq_iff y x, holds_of_member p x ys)

-- Neither a generation with a locked register nor a hybrid one.
is_other : String → Bool
is_other codename = not (elem codename locked_generations) && not (elem codename hybrid_generations)

boosted_is_other :
    (codename : String) → elem codename boosted_generations ≡ true → is_other codename ≡ true
unfolding is_other elem locked_generations boosted_generations hybrid_generations
    intel_cpu_generations
boosted_is_other codename h = holds_of_member is_other codename boosted_generations refl h

-- On an Intel CPU with AppleXcpmForceBoost, AppleCpuPmCfgLock and ProvideCurrentCpuInfo are not
-- set, and AppleXcpmCfgLock and DisableIoMapper are.
pub kernel_quirks-boosted :
    (report : Report)
    → is_amd report ≡ false
    → (kernel_quirks report).apple_xcpm_force_boost ≡ true
    → ((kernel_quirks report).apple_cpu_pm_cfg_lock ≡ false)
      × ((kernel_quirks report).provide_current_cpu_info ≡ false)
      × ((kernel_quirks report).apple_xcpm_cfg_lock ≡ true)
      × ((kernel_quirks report).disable_io_mapper ≡ true)
unfolding kernel_quirks is_other
kernel_quirks-boosted report intel boosted = ground (arith, boosted_is_other report.cpu.codename)
