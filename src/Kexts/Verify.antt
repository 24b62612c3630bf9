-- ===== src/Kexts/Verify.antt =====
-- `verify_kext_compatibility`: Scripts/kext_maestro.py.
use freaky_ocs.Base.{
  ℕ, ◌-◌, String, Bool, true, false, not, ◌||◌, Option, none, some, List, [], ◌∷◌, map, get_elem?,
  length, lower_is, if◌then◌else◌,
}
use freaky_ocs.Darwin.{Version}
use freaky_ocs.Kexts.Info.{KextInfo}
use freaky_ocs.Kexts.Data.{index_by_name}
use freaky_ocs.Kexts.Check.{supports}
use freaky_ocs.Kexts.Ask.{answered, waiting, raised, Asking}

-- The question whether to force the load, until the answer is yes or no.
unfoldable pub ask_force : Asking Bool
ask_force [] = waiting
ask_force (answer ∷ inputs) =
    let rest = ask_force inputs in
    if lower_is answer "yes"
    then answered true inputs
    else if lower_is answer "no"
    then answered false inputs
    else rest

-- Whether a kext of the list does not support the target; `none` is the exception of a kext that
-- is not in the table.
unfoldable pub any_unsupported : Version → List (Option KextInfo) → Option Bool
any_unsupported target [] = some false
any_unsupported target (none ∷ ks) = none
any_unsupported target (some k ∷ ks) = elim (any_unsupported target ks) [
  | none ↦ none
  | some b ↦ some (not (supports target k) || b)
]

-- The question is asked where a kext is incompatible.
unfoldable pub force_if : Option Bool → Asking Bool
force_if none inputs = raised
force_if (some false) inputs = answered false inputs
force_if (some true) inputs = ask_force inputs

unfoldable pub verify_kexts : Version → List (Option KextInfo) → Asking Bool
unfolding force_if
verify_kexts target ks = force_if (any_unsupported target ks)

unfoldable pub kext_by_name : List KextInfo → String → Option KextInfo
kext_by_name table name = elim (index_by_name table name) [
  | none ↦ none
  | some i ↦ get_elem? table i
]

-- An index that the menu reads: `none` is -1, the last kext.
unfoldable pub kext_at : List KextInfo → Option ℕ → Option KextInfo
kext_at table none = get_elem? table (length table - 1)
kext_at table (some i) = get_elem? table i

-- For the names that the selection passes, and for the indices of the menu: `self.kexts[index]` of
-- a name is a TypeError, and the handler looks the names up.
unfoldable pub verify_names : List KextInfo → Version → List String → Asking Bool
verify_names table target names = verify_kexts target (map (kext_by_name table) names)

unfoldable pub verify_indices : List KextInfo → Version → List (Option ℕ) → Asking Bool
verify_indices table target indices = verify_kexts target (map (kext_at table) indices)
