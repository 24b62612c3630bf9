-- ===== src/Kexts/Check.antt =====
-- `check_kext` and `uncheck_kext`: Scripts/kext_maestro.py. The attribute `checked` of the kexts is a
-- function of their index.
use freaky_ocs.Base.{
  ℕ, zero, suc, String, Bool, true, false, not, ◌&&◌, ◌||◌, ◌==◌, Option, none, some, List, [], ◌∷◌,
  get_elem?, elem, str_eq, if◌then◌else◌,
}
use freaky_ocs.Darwin.{Version, le_version}
use freaky_ocs.Kexts.Info.{KextInfo}
use freaky_ocs.Kexts.Data.{index_by_name}

abbrev pub Checks : Type 0
Checks = ℕ → Bool

-- `raised` is an IndexError; a deeper recursion than the fuel is `out_of_fuel`.
pub data Checking : Type 0 where
  done : Checks → Checking
  raised out_of_fuel : Checking

infixl 5 ◌>>=◌
abbrev pub ◌>>=◌ : Checking → (Checks → Checking) → Checking
done c >>= f = f c
raised >>= f = raised
out_of_fuel >>= f = out_of_fuel

abbrev pub supports : Version → KextInfo → Bool
supports target k = le_version k.min_darwin_version target && le_version target k.max_darwin_version

abbrev pub mark : ℕ → Checks → Checks
mark i c j = if j == i then true else c j

abbrev pub same_group : Option String → Option String → Bool
same_group none g = false
same_group (some a) none = false
same_group (some a) (some b) = str_eq a b

-- `other_kext.conflict_group_id == kext.conflict_group_id and other_kext.name != kext.name`
unfoldable pub conflicts : KextInfo → KextInfo → Bool
conflicts k other =
    same_group k.conflict_group_id other.conflict_group_id && not (str_eq other.name k.name)

-- The last loop of check_kext.
unfoldable pub uncheck_conflicts : List KextInfo → KextInfo → Checks → Checks
uncheck_conflicts table k c j = elim (get_elem? table j) [
  | none ↦ c j
  | some other ↦ if conflicts k other then false else c j
]

-- The loop over the required kexts. `if requires_kext_index:` leaves out the index 0 too.
unfoldable pub check_required :
    (ℕ → Checks → Checking) → List KextInfo → List String → Checks → Checking
check_required check table [] c = done c
check_required check table (name ∷ names) c = elim (index_by_name table name) [
  | none ↦ check_required check table names c
  | some zero ↦ check_required check table names c
  | some (suc i) ↦ check (suc i) c >>= check_required check table names
]

abbrev pub is_allowed : Version → Bool → KextInfo → Bool
is_allowed target allow_unsupported k = allow_unsupported || supports target k

unfoldable pub check_kext : List KextInfo → Version → Bool → ℕ → ℕ → Checks → Checking
unfolding check_required
check_kext table target allow_unsupported zero i c = out_of_fuel
check_kext table target allow_unsupported (suc fuel) i c = elim (get_elem? table i) [
  | none ↦ raised
  | some k ↦
      if c i || not (is_allowed target allow_unsupported k)
      then done c
      else (check_required (check_kext table target allow_unsupported fuel) table k.requires_kexts
            (mark i c)
          >>= λ c'. done (uncheck_conflicts table k c'))
]

-- `kext.checked = False`, and the loop of `uncheck_kext`.
unfoldable pub uncheck_with : List KextInfo → KextInfo → ℕ → Checks → Checks
uncheck_with table k i c j = elim (get_elem? table j) [
  | none ↦ c j
  | some other ↦
      if elem other.name k.requires_kexts && not other.required
      then false
      else if j == i
      then false
      else c j
]

unfoldable pub uncheck_kext : List KextInfo → ℕ → Checks → Option Checks
unfolding uncheck_with
uncheck_kext table i c = elim (get_elem? table i) [
  | none ↦ none
  | some k ↦ some (uncheck_with table k i c)
]
