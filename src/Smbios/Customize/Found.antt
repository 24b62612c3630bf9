-- ===== src/Smbios/Customize/Found.antt =====
-- The menu of Mac models returns a model of the table, whatever the answers are.
use freaky_ocs.Base.{
  ℕ, zero, suc, String, ◌≡◌, ◌⊎◌, inl, inr, Bool, true, false, not, ◌&&◌, Option, none, some, List,
  [], ◌∷◌, get_elem?, str_eq, eq_iff, strip, parse_int, if◌then◌else◌, if_both, arith, refl,
}
use freaky_ocs.Base.Dict.{Dict}
use freaky_ocs.Darwin.{Version}
use freaky_ocs.MacModels.{MacDevice, mac_devices, find_device, get_mac_device_by_name}
use freaky_ocs.Report.{Report, Device}
use freaky_ocs.Smbios.Select.{select_smbios_model}
use freaky_ocs.Smbios.Select.Known.{IsKnown, known, known_or, found, select_smbios_model-IsKnown}
use freaky_ocs.Smbios.Customize.{
  Choice, returned, exit_program, raised, asking, Menu, select_index, select_option, is_letter,
  is_toggle, choose_smbios_model, customize_smbios_model, has_index, incompatible_from,
  is_incompatible,
}
use freaky_ocs.Smbios.Customize.Laws.{menu_of}

find_device-found :
    (i : ℕ) (ds : List MacDevice) (d : MacDevice)
    → get_elem? ds i ≡ some d
    → found (find_device d.name ds) ≡ true
unfolding find_device
find_device-found i [] d h = absurd (ground arith)
find_device-found zero (x ∷ xs) d h = ground (arith, eq_iff x.name d.name)
find_device-found (suc i) (x ∷ xs) d h = let rest = find_device-found i xs d h in ground arith

in_devices : (i : ℕ) (d : MacDevice) → get_elem? mac_devices i ≡ some d → IsKnown d.name
unfolding known get_mac_device_by_name
in_devices i d e = find_device-found i mac_devices d e

select_index-IsKnown :
    (m : Menu) (show_all : Bool) (selected : String) (index : ℕ)
    → IsKnown selected
    → IsKnown (select_index m show_all selected index)
unfolding select_index
select_index-IsKnown m show_all selected index k = at (get_elem? mac_devices index) refl
  where
    hidden : Bool
    hidden =
        not show_all
        && has_index index (incompatible_from (is_incompatible m show_all selected) 0 mac_devices)

    at :
        (o : Option MacDevice)
        → get_elem? mac_devices index ≡ o
        → IsKnown (elim o [ none ↦ selected | some d ↦ if hidden then selected else d.name ])
    at none e = k
    at (some d) e = if_both IsKnown hidden k (in_devices index d e)

select_option-IsKnown :
    (m : Menu) (show_all : Bool) (selected option : String)
    → IsKnown selected
    → IsKnown (select_option m show_all selected option)
unfolding select_option
select_option-IsKnown m show_all selected option k = number (parse_int (strip option))
  where
    number :
        (n : Option ℕ)
        → IsKnown (elim n [
          | none ↦ selected
          | some zero ↦ selected
          | some (suc index) ↦ select_index m show_all selected index
        ])
    number none = k
    number (some zero) = k
    number (some (suc index)) = select_index-IsKnown m show_all selected index k

-- No exception, and no model outside the table.
abbrev is_fine : Choice → Bool
is_fine raised = false
is_fine exit_program = true
is_fine (returned m) = known m
is_fine (asking show_all m) = known m

step-is_fine :
    (q b r t : Bool) (selected default : String) (toggled next : Choice)
    → IsKnown selected
    → IsKnown default
    → is_fine toggled ≡ true
    → is_fine next ≡ true
    → is_fine (
        if q
        then exit_program
        else if b
        then returned selected
        else if r
        then returned default
        else if t
        then toggled
        else next)
      ≡ true
step-is_fine q b r t selected default toggled next h k l m = ground arith

choose-is_fine :
    (m : Menu) (show_all : Bool) (selected : String) (options : List String)
    → IsKnown m.default_smbios_model
    → IsKnown selected
    → is_fine (choose_smbios_model m show_all selected options) ≡ true
unfolding choose_smbios_model
choose-is_fine m show_all selected [] d k = k
choose-is_fine m show_all selected (option ∷ options) d k =
    let next = select_option m show_all selected option in
    step-is_fine (is_letter "q" "Q" option) (is_letter "b" "B" option)
      (is_letter "r" "R" option && not (str_eq selected m.default_smbios_model)) (is_toggle option)
      selected m.default_smbios_model (choose_smbios_model m (not show_all) selected options)
      (choose_smbios_model m show_all next options) k d
      (choose-is_fine m (not show_all) selected options d k)
      (choose-is_fine m show_all next options d
        (select_option-IsKnown m show_all selected option k))

customize-is_fine :
    (r : Report) (selected : String) (macos : Version) (options : List String) (key : String)
    (g : Device) (gs : Dict Device)
    → r.gpu ≡ (key, g) ∷ gs
    → IsKnown selected
    → is_fine (customize_smbios_model r selected macos options) ≡ true
unfolding customize_smbios_model
customize-is_fine r selected macos options key g gs h k =
    from (select_smbios_model r macos) (select_smbios_model-IsKnown r macos key g gs h)
  where
    from :
        (o : Option String)
        → known_or o ≡ true
        → is_fine (elim o [
          | none ↦ raised
          | some default ↦ choose_smbios_model (menu_of r macos default) false selected options
        ])
          ≡ true
    from none d = absurd (ground arith)
    from (some default) d = choose-is_fine (menu_of r macos default) false selected options d k

-- With a GPU in the report and a selected model of the table, the menu does not raise: it leaves the
-- program, or returns a model, or still asks with a model selected, and the model is found in the
-- table again, whatever the answers are.
pub customize_smbios_model-found :
    (r : Report) (selected : String) (macos : Version) (options : List String) (key : String)
    (g : Device) (gs : Dict Device)
    → r.gpu ≡ (key, g) ∷ gs
    → found (get_mac_device_by_name selected) ≡ true
    → let choice = customize_smbios_model r selected macos options in
      (choice ≡ exit_program)
      ⊎ ((n : String) × (found (get_mac_device_by_name n) ≡ true)
          × ((choice ≡ returned n) ⊎ ((show_all : Bool) × (choice ≡ asking show_all n))))
unfolding known
customize_smbios_model-found r selected macos options key g gs h k =
    of (customize_smbios_model r selected macos options) refl
      (customize-is_fine r selected macos options key g gs h k)
  where
    of :
        (c : Choice)
        → customize_smbios_model r selected macos options ≡ c
        → is_fine c ≡ true
        → (customize_smbios_model r selected macos options ≡ exit_program)
          ⊎ ((n : String) × (found (get_mac_device_by_name n) ≡ true)
              × ((customize_smbios_model r selected macos options ≡ returned n)
                  ⊎ ((show_all : Bool) × (customize_smbios_model r selected macos options
                        ≡ asking show_all n))))
    of raised e f = absurd (ground arith)
    of exit_program e f = inl e
    of (returned n) e f = inr (n, f, inl e)
    of (asking show_all n) e f = inr (n, f, inr (show_all, e))
