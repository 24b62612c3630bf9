-- ===== src/Smbios/Customize/Laws.antt =====
-- What the menu of Mac models can return.
use freaky_ocs.Base.{
  ℕ, zero, suc, ◌+◌, ◌<◌, String, ◌≡◌, sym, ◌⊎◌, inl, inr, Bool, true, false, not, ◌&&◌, Option,
  none, some, List, [], ◌∷◌, get_elem?, all, str_eq, eq_iff, starts_with, strip, parse_int,
  if◌then◌else◌, arith, refl,
}
use freaky_ocs.Darwin.{Version}
use freaky_ocs.MacModels.{MacDevice, mac_devices}
use freaky_ocs.Report.{Report}
use freaky_ocs.Smbios.Select.{select_smbios_model}
use freaky_ocs.Smbios.Customize.{
  returned, exit_program, Menu, is_supported, is_incompatible, incompatible_from, has_index,
  select_index, select_option, is_letter, is_toggle, choose_smbios_model, customize_smbios_model,
}

has_index-later :
    (hidden : MacDevice → Bool) (i j : ℕ) (ds : List MacDevice)
    → i < j
    → has_index i (incompatible_from hidden j ds) ≡ false
unfolding has_index incompatible_from
has_index-later hidden i j [] h = refl
has_index-later hidden i j (d ∷ ds) h =
    let rest = has_index-later hidden i (j + 1) ds (omega arith) in ground arith

has_index-incompatible :
    (hidden : MacDevice → Bool) (i k : ℕ) (ds : List MacDevice) (d : MacDevice)
    → get_elem? ds k ≡ some d
    → has_index (i + k) (incompatible_from hidden i ds) ≡ hidden d
unfolding has_index incompatible_from
has_index-incompatible hidden i k [] d h = absurd (ground arith)
has_index-incompatible hidden i zero (x ∷ xs) d h =
    let later = has_index-later hidden (i + 0) (i + 1) xs (omega arith) in ground arith
has_index-incompatible hidden i (suc k) (x ∷ xs) d h =
    let rest = has_index-incompatible hidden (i + 1) k xs d h in ground arith

has_index-incompatible_start :
    (hidden : MacDevice → Bool) (k : ℕ) (ds : List MacDevice) (d : MacDevice)
    → get_elem? ds k ≡ some d
    → has_index k (incompatible_from hidden 0 ds) ≡ hidden d
has_index-incompatible_start hidden k ds d h =
    ground (arith, has_index-incompatible hidden 0 k ds d h)

-- A model that the menu offers unless all models are shown.
abbrev IsOffered : Menu → String → String → Type 0
IsOffered m initial n =
    (n ≡ initial)
    ⊎ ((n ≡ m.default_smbios_model)
        ⊎ ((index : ℕ) × (d : MacDevice) × (get_elem? mac_devices index ≡ some d)
            × (n ≡ d.name)
            × (is_supported m d ≡ true)
            × (starts_with d.name "MacBook" ≡ m.is_laptop)))

is_incompatible-false :
    (m : Menu) (selected : String) (d : MacDevice)
    → is_incompatible m false selected d ≡ false
    → (d.name ≡ selected)
      ⊎ ((d.name ≡ m.default_smbios_model)
          ⊎ ((is_supported m d ≡ true) × (starts_with d.name "MacBook" ≡ m.is_laptop)))
unfolding is_incompatible
is_incompatible-false m selected d h =
    ground (arith, eq_iff m.default_smbios_model d.name, eq_iff selected d.name)

pick-IsOffered :
    (m : Menu) (initial selected : String) (index : ℕ) (d : MacDevice)
    → IsOffered m initial selected
    → get_elem? mac_devices index ≡ some d
    → is_incompatible m false selected d ≡ false
    → IsOffered m initial d.name
pick-IsOffered m initial selected index d o at h = elim (is_incompatible-false m selected d h) [
  | inl e ↦ rw e o
  | inr (inl e) ↦ inr (inl e)
  | inr (inr (s, b)) ↦ inr (inr (index, d, at, refl, s, b))
]

select_index-IsOffered :
    (m : Menu) (initial selected : String) (index : ℕ)
    → IsOffered m initial selected
    → IsOffered m initial (select_index m false selected index)
unfolding select_index
select_index-IsOffered m initial selected index o = at (get_elem? mac_devices index) refl
  where
    listed : Bool
    listed = has_index index (incompatible_from (is_incompatible m false selected) 0 mac_devices)

    pick :
        (d : MacDevice) (b : Bool)
        → get_elem? mac_devices index ≡ some d
        → is_incompatible m false selected d ≡ b
        → IsOffered m initial (if b then selected else d.name)
    pick d true e h = o
    pick d false e h = pick-IsOffered m initial selected index d o e h

    at :
        (found : Option MacDevice)
        → get_elem? mac_devices index ≡ found
        → IsOffered m initial (elim found [
          | none ↦ selected
          | some d ↦ if not false && listed then selected else d.name
        ])
    at none e = o
    at (some d) e =
        rw (has_index-incompatible_start (is_incompatible m false selected) index mac_devices d e)
          (pick d (is_incompatible m false selected d) e refl)

select_option-IsOffered :
    (m : Menu) (initial selected option : String)
    → IsOffered m initial selected
    → IsOffered m initial (select_option m false selected option)
unfolding select_option
select_option-IsOffered m initial selected option o = number (parse_int (strip option))
  where
    number :
        (n : Option ℕ)
        → IsOffered m initial (elim n [
          | none ↦ selected
          | some zero ↦ selected
          | some (suc index) ↦ select_index m false selected index
        ])
    number none = o
    number (some zero) = o
    number (some (suc index)) = select_index-IsOffered m initial selected index o

pub returned-injective : (a b : String) → returned a ≡ returned b → a ≡ b
returned-injective a b h = ground arith

choose-IsOffered :
    (m : Menu) (initial selected : String) (options : List String) (n : String)
    → IsOffered m initial selected
    → all (λ option. not (is_toggle option)) options ≡ true
    → choose_smbios_model m false selected options ≡ returned n
    → IsOffered m initial n
unfolding choose_smbios_model
choose-IsOffered m initial selected [] n o a h = absurd (ground arith)
choose-IsOffered m initial selected (option ∷ options) n o a h =
    branch (is_letter "q" "Q" option) (is_letter "b" "B" option)
      (is_letter "r" "R" option && not (str_eq selected m.default_smbios_model)) (is_toggle option)
      (ground arith)
      (choose-IsOffered m initial (select_option m false selected option) options n
        (select_option-IsOffered m initial selected option o) (ground arith))
      h
  where
    branch :
        (q b r t : Bool)
        → t ≡ false
        → (choose_smbios_model m false (select_option m false selected option) options ≡ returned n
            → IsOffered m initial n)
        → (if q
            then exit_program
            else if b
            then returned selected
            else if r
            then returned m.default_smbios_model
            else if t
            then choose_smbios_model m true selected options
            else choose_smbios_model m false (select_option m false selected option) options)
          ≡ returned n
        → IsOffered m initial n
    branch true b r t f rest k = absurd (ground arith)
    branch false true r t f rest k = rw (← returned-injective selected n k) o
    branch false false true t f rest k =
        inr (inl (sym (returned-injective m.default_smbios_model n k)))
    branch false false false true f rest k = absurd (ground arith)
    branch false false false false f rest k = rest k

abbrev pub menu_of : Report → Version → String → Menu
menu_of r macos default = record {
  default_smbios_model = default;
  is_laptop = str_eq "Laptop" r.platform;
  macos_version = macos;
}

-- Unless an answer asks for all models, the model returned is the selected one, the default one,
-- or a model of the table that supports the macOS version and is a MacBook exactly on a laptop.
pub customize_smbios_model-IsOffered :
    (r : Report) (selected : String) (macos : Version) (default : String) (options : List String)
    (n : String)
    → select_smbios_model r macos ≡ some default
    → all (λ option. not (is_toggle option)) options ≡ true
    → customize_smbios_model r selected macos options ≡ returned n
    → IsOffered (menu_of r macos default) selected n
unfolding customize_smbios_model
customize_smbios_model-IsOffered r selected macos default options n e a h =
    choose-IsOffered (menu_of r macos default) selected selected options n (inl refl) a
      (rw (e, customize_smbios_model) at h)
