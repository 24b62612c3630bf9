-- ===== src/Compat/Devices/Patched.antt =====
-- The range of OpenCore Legacy Patcher that the network check leaves for the whole PC.
use freaky_ocs.Base.{
  String, ◌≡◌, sym, if_both, Bool, true, false, ◌&&◌, Option, none, some, [], ◌∷◌, All, elem, arith,
  refl, if◌then◌else◌,
}
use mathlib.Core.Path.{subst}
use freaky_ocs.Base.Dict.{Dict}
use freaky_ocs.PciData.Wireless.{wireless_card_ids}
use freaky_ocs.Compat.Devices.Laws.{assess_network_lem}
use freaky_ocs.Darwin.{◌≤ᵥ◌, ≤ᵥ_refl, ≤ᵥ_trans, ≤ᵥ_of_lt, ≤ᵥ_of_not-lt}
use freaky_ocs.Report.{Range, Device}
use freaky_ocs.Compat.State.{next, Checker, merge_ocl_patched}
use freaky_ocs.Compat.Devices.{
  assess_network, network_ocl, network_loop, is_patched_wifi, oclp_of, check_network_compatibility,
}

-- The range reaches down to a device's patched range, where it has one.
abbrev pub Reaches : Option Range → Option Range → Type 0
Reaches t none = Unit
Reaches none (some p) = ⊥
Reaches (some o) (some p) = o.min ≤ᵥ p.min

merge-Reaches_old :
    (old : Option Range) (new : Range) (q : Option Range)
    → Reaches old q
    → Reaches (some (merge_ocl_patched old new)) q
unfolding merge_ocl_patched
merge-Reaches_old old new none h = tt
merge-Reaches_old none new (some p) h = absurd h
merge-Reaches_old (some o) new (some p) h =
    ground (arith, ≤ᵥ_of_not-lt o.min new.min, ≤ᵥ_trans new.min o.min p.min)

merge-Reaches_new :
    (old : Option Range) (new : Range) → Reaches (some (merge_ocl_patched old new)) (some new)
unfolding merge_ocl_patched
merge-Reaches_new none new = ≤ᵥ_refl new.min
merge-Reaches_new (some o) new = ground (arith, ≤ᵥ_of_lt o.min new.min, ≤ᵥ_refl new.min)

network_ocl-Reaches_old :
    (old : Option Range) (d : Device) (q : Option Range)
    → Reaches old q
    → Reaches (network_ocl old d) q
unfolding network_ocl
network_ocl-Reaches_old old d q h =
    if_both (λ o. Reaches o q) (elem d.device_id wireless_card_ids && is_patched_wifi d.device_id)
      (merge-Reaches_old old (oclp_of d.device_id) q h) h

network_ocl-Reaches_new :
    (old : Option Range) (d : Device)
    → d.compatibility ≡ none
    → d.oclp ≡ none
    → Reaches (network_ocl old d) (assess_network d).oclp
unfolding network_ocl
network_ocl-Reaches_new old d fresh fresh' =
    subst (Reaches (network_ocl old d)) (sym (assess_network_lem d fresh fresh').2)
      (go (elem d.device_id wireless_card_ids && is_patched_wifi d.device_id))
  where
    go :
        (b : Bool)
        → Reaches
            (if b then some (merge_ocl_patched old (oclp_of d.device_id)) else old)
            (if b then some (oclp_of d.device_id) else none)
    go true = merge-Reaches_new old (oclp_of d.device_id)
    go false = tt

network_loop-Reaches_old :
    (ds : Dict Device) (old : Option Range) (q : Option Range)
    → Reaches old q
    → Reaches (network_loop ds old).1 q
unfolding network_loop
network_loop-Reaches_old [] old q h = h
network_loop-Reaches_old ((name, d) ∷ ds) old q h =
    network_loop-Reaches_old ds (network_ocl old d) q (network_ocl-Reaches_old old d q h)

-- The device has no marks yet.
abbrev pub IsFresh : String × Device → Type 0
IsFresh (_, d) = (d.compatibility ≡ none) × (d.oclp ≡ none)

All-network_loop :
    (ds : Dict Device) (old : Option Range)
    → All IsFresh ds
    → All (λ (_, d). Reaches (network_loop ds old).1 d.oclp) (network_loop ds old).0
unfolding network_loop
All-network_loop [] old fresh = tt
All-network_loop ((name, d) ∷ ds) old fresh = (
  network_loop-Reaches_old ds (network_ocl old d) (assess_network d).oclp
      (network_ocl-Reaches_new old d fresh.0.0 fresh.0.1),
  All-network_loop ds (network_ocl old d) fresh.1,
)

-- For devices without marks, the network check returns, and the range of OpenCore Legacy Patcher
-- that it leaves for the PC reaches down to the patched range of every network device, and to every
-- one that the old range reached.
pub check_network_compatibility-Reaches :
    (s : Checker) (q : Option Range)
    → All IsFresh s.report.network
    → Reaches s.ocl_patched q
    → (t : Checker) × (check_network_compatibility s ≡ next t)
      × All (λ (_, d). Reaches t.ocl_patched d.oclp) t.report.network
      × Reaches t.ocl_patched q
unfolding check_network_compatibility
check_network_compatibility-Reaches s q fresh h = (
  _,
  refl,
  All-network_loop s.report.network s.ocl_patched fresh,
  network_loop-Reaches_old s.report.network s.ocl_patched q h,
)
