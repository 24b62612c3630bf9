-- ===== src/Kexts/Menu.antt =====
-- `kext_configuration_menu`: Scripts/kext_maestro.py, as a machine that takes the answers of the
-- user one at a time.
pub mod Laws
use freaky_ocs.Base.{
  ℕ, zero, suc, String, Bool, true, false, not, ◌&&◌, Option, none, some, List, [], ◌∷◌, map,
  get_elem?, split_on, strip, parse_int, lower_is, if◌then◌else◌,
}
use freaky_ocs.Darwin.{Version}
use freaky_ocs.Kexts.Data.{kexts}
use freaky_ocs.Kexts.Check.{
  Checks, Checking, done, raised, out_of_fuel, ◌>>=◌, check_kext, uncheck_kext,
}
use freaky_ocs.Kexts.Verify.{any_unsupported, kext_at}

-- `[int(i.strip()) - 1 for i in option.split(",") if i.strip().isdigit()]`; `none` is -1.
read_indices : List String → List (Option ℕ)
read_indices [] = []
read_indices (t ∷ ts) = elim (parse_int (strip t)) [
  | none ↦ read_indices ts
  | some zero ↦ none ∷ read_indices ts
  | some (suc i) ↦ some i ∷ read_indices ts
]

unfoldable pub parse_indices : String → List (Option ℕ)
unfolding read_indices
parse_indices option = read_indices (split_on b',' option)

-- A round of the loop over the indices.
unfoldable pub toggle_kext : Version → Bool → Option ℕ → Checks → Checking
toggle_kext target allow none c = done c
toggle_kext target allow (some i) c = elim (get_elem? kexts i) [
  | none ↦ done c
  | some k ↦
      if c i && not k.required
      then (elim (uncheck_kext kexts i c) [ none ↦ raised | some c' ↦ done c' ])
      else check_kext kexts target allow 8 i c
]

unfoldable pub toggle_kexts : Version → Bool → List (Option ℕ) → Checks → Checking
toggle_kexts target allow [] c = done c
toggle_kexts target allow (i ∷ is) c = toggle_kext target allow i c >>= toggle_kexts target allow is

-- Where the menu waits for an option, where `verify_kext_compatibility` waits for an answer about
-- the indices, or how the menu has ended.
pub data MenuState : Type 0 where
  configuring : Checks → MenuState
  forcing : List (Option ℕ) → Checks → MenuState
  back : Checks → MenuState
  quit failed : MenuState

abbrev pub resume : Checking → MenuState
resume (done c) = configuring c
resume raised = failed
resume out_of_fuel = failed

unfoldable pub enter_indices : Version → List (Option ℕ) → Checks → MenuState
enter_indices target indices c = elim (any_unsupported target (map (kext_at kexts) indices)) [
  | none ↦ failed
  | some false ↦ resume (toggle_kexts target false indices c)
  | some true ↦ forcing indices c
]

unfoldable pub menu_step : Version → MenuState → String → MenuState
menu_step target (configuring c) option =
    if lower_is option "b"
    then back c
    else if lower_is option "q"
    then quit
    else enter_indices target (parse_indices option) c
menu_step target (forcing indices c) option =
    if lower_is option "yes"
    then resume (toggle_kexts target true indices c)
    else if lower_is option "no"
    then resume (toggle_kexts target false indices c)
    else forcing indices c
menu_step target (back c) option = back c
menu_step target quit option = quit
menu_step target failed option = failed

unfoldable pub menu_run : Version → MenuState → List String → MenuState
menu_run target s [] = s
menu_run target s (option ∷ options) = menu_run target (menu_step target s option) options
