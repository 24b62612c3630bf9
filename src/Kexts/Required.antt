-- ===== src/Kexts/Required.antt =====
-- A kext without a conflict group stays checked.
use freaky_ocs.Base.{ℕ, ◌≡◌, Bool, true, false, none, some, List, get_elem?, arith}
use freaky_ocs.Darwin.{Version}
use freaky_ocs.Kexts.Info.{KextInfo}
use freaky_ocs.Kexts.Check.{Checks, done, conflicts, uncheck_conflicts, check_kext}
use freaky_ocs.Kexts.Conflicts.{conflicts_comm}
use freaky_ocs.Kexts.Invariant.{check_kext-Invariant}

module _ (table : List KextInfo) (j : ℕ) (free : KextInfo) (at : get_elem? table j ≡ some free)
    (ungrouped : free.conflict_group_id ≡ none) where
  uncheck_conflicts-keeps :
      (k : KextInfo) (c : Checks) → c j ≡ true → uncheck_conflicts table k c j ≡ true
  unfolding uncheck_conflicts conflicts
  uncheck_conflicts-keeps k c h = let swapped = conflicts_comm k free in ground arith

  pub check_kext-keeps :
      (target : Version) (allow : Bool) (fuel i : ℕ) (c c' : Checks)
      → c j ≡ true
      → check_kext table target allow fuel i c ≡ done c'
      → c' j ≡ true
  check_kext-keeps target allow fuel =
      check_kext-Invariant table (λ busy c. c j ≡ true) (λ busy i c h. ground arith)
        (λ busy i k c e h. uncheck_conflicts-keeps k c h) target allow fuel (λ j. false)
