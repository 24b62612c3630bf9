-- ===== src/Compat/Storage/Laws.antt =====
-- What the storage check promises when it returns.
use freaky_ocs.Base.{
  ◌≡◌, Bool, true, false, not, ◌&&◌, [], ◌∷◌, All, all, any, elem, str_eq, arith, refl,
}
use freaky_ocs.Base.Dict.{Dict}
use freaky_ocs.PciData.Controllers.{intel_vmd_ids}
use freaky_ocs.Report.{Device}
use freaky_ocs.Compat.State.{Outcome, next, exit_program, raised, Checker, >>=-eq-next}
use freaky_ocs.Compat.Gpu.Check.{is_unsupported}
use freaky_ocs.Compat.Storage.{storage_loop, finish_storage, check_storage_compatibility}

-- An Intel VMD controller, as the loop meets it.
abbrev pub is_vmd : Device → Bool
is_vmd d = str_eq d.bus_type "PCI" && elem d.device_id intel_vmd_ids

vmd-storage_loop :
    (ds : Dict Device) {es : Dict Device}
    → storage_loop ds ≡ next es
    → All (λ (_, d). is_vmd d ≡ false) ds
unfolding storage_loop
vmd-storage_loop [] h = tt
vmd-storage_loop ((name, d) ∷ ds) {es} h =
    after (storage_loop ds) refl (λ es' e. vmd-storage_loop ds {es = es'} e)
  where
    after :
        (o : Outcome (Dict Device))
        → storage_loop ds ≡ o
        → ((es' : Dict Device) → storage_loop ds ≡ next es' → All (λ (_, d). is_vmd d ≡ false) ds)
        → (is_vmd d ≡ false) × All (λ (_, d). is_vmd d ≡ false) ds
    after (next es') e ih = (ground arith, ih es' e)
    after exit_program e ih = absurd (ground arith)
    after raised e ih = absurd (ground arith)

not-all-any :
    (ds : Dict Device)
    → all (λ (_, d). is_unsupported d) ds ≡ false
    → any (λ (_, d). not (is_unsupported d)) ds ≡ true
not-all-any [] h = absurd (ground arith)
not-all-any ((name, d) ∷ ds) h = ground (arith, not-all-any ds)

finish_storage-usable :
    (s t : Checker) (ds : Dict Device)
    → finish_storage s ds ≡ next t
    → any (λ (_, d). not (is_unsupported d)) t.report.storage ≡ true
unfolding finish_storage
finish_storage-usable s t ds h = ground (arith, not-all-any ds)

-- When the storage check returns, no controller on PCI was an Intel VMD one, and at least one
-- controller is not marked as unsupported.
pub check_storage_compatibility-usable :
    (s t : Checker)
    → check_storage_compatibility s ≡ next t
    → All (λ (_, d). is_vmd d ≡ false) s.report.storage
      × (any (λ (_, d). not (is_unsupported d)) t.report.storage ≡ true)
unfolding check_storage_compatibility
check_storage_compatibility-usable s t h = found s.report.storage refl
  where
    found :
        (ds : Dict Device)
        → s.report.storage ≡ ds
        → All (λ (_, d). is_vmd d ≡ false) ds
          × (any (λ (_, d). not (is_unsupported d)) t.report.storage ≡ true)
    found [] e = absurd (ground arith)
    found (d ∷ ds) e =
        let (es, loops, finished) =
          >>=-eq-next (storage_loop (d ∷ ds)) (finish_storage s)
            (rw (e, check_storage_compatibility) at h) in
        (vmd-storage_loop (d ∷ ds) {es = es} loops, finish_storage-usable s t es finished)
