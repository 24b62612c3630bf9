-- ===== src/Config/BootArgs/Others.antt =====
-- The arguments for the GPUs are others than -lilubetaall.
use freaky_ocs.Base.{
  String, ◌≡◌, refl, Bool, true, false, not, Option, none, some, List, [], ◌∷◌, ◌++◌, all, includes,
  str_eq, if_both, arith,
}
use freaky_ocs.Darwin.{Version, version, lt_version, le_version}
use freaky_ocs.Report.{Device, Report}
use freaky_ocs.Kexts.Select.System.{when}
use freaky_ocs.Config.BootArgs.{igpu_args, discrete_gpu_args, whatever_green_for}

-- The list does not name the argument.
abbrev pub other_args : List String → Bool
other_args names = all (λ t. not (str_eq t "-lilubetaall")) names

pub record Other (names : List String) : Type 0 where
  pub other : other_args names ≡ true

other_args-append :
    (xs ys : List String)
    → other_args xs ≡ true
    → other_args ys ≡ true
    → other_args (xs ++ ys) ≡ true
other_args-append [] ys h k = k
other_args-append (x ∷ xs) ys h k = ground (arith, other_args-append xs ys)

pub append-Other : {xs ys : List String} → Other xs → Other ys → Other (xs ++ ys)
append-Other {xs = xs} {ys = ys} h k = record { other = other_args-append xs ys h.other k.other }

pub when-Other : {names : List String} (b : Bool) → Other names → Other (when b names)
unfolding when
when-Other true h = h
when-Other false h = record { other = refl }

-- A list whose test computes.
pub literal : {names : List String} → other_args names ≡ true → Other names
literal h = record { other = h }

igpu_args-Other :
    (r : Report) (macos : Version) (name : String) (d : Device) → Other (igpu_args r macos name d)
unfolding igpu_args
igpu_args-Other r macos name d = append-Other (when-Other _ (literal refl)) (
    append-Other (when-Other _ (literal refl)) (
      if_both Other (includes r.platform "Desktop")
        (append-Other (when-Other _ (literal refl)) (when-Other _ (literal refl)))
        (when-Other _ (
          if_both (λ t. Other (t ∷ [])) (le_version (version 22 5 0) macos) (literal refl)
            (literal refl)))))

discrete_gpu_args-Other : (macos : Version) (d : Device) → Other (discrete_gpu_args macos d)
unfolding discrete_gpu_args
discrete_gpu_args-Other macos d = append-Other (when-Other _ (literal refl)) (
    append-Other (when-Other _ (literal refl)) (
      append-Other (when-Other _ (literal refl)) (
        append-Other (when-Other _ (literal refl)) (
          when-Other _ (
            if_both Other (str_eq d.manufacturer "AMD")
              (if_both (λ t. Other (t ∷ [])) (lt_version macos (version 23 0 0)) (literal refl)
                (literal refl))
              (when-Other _ (literal refl)))))))

-- The arguments of WhateverGreen are others.
abbrev pub OtherArgs : Option (List String) → Type 0
OtherArgs none = Unit
OtherArgs (some names) = Other names

pub whatever_green_for-Other :
    (r : Report) (macos : Version) (item : Option (String × Device)) (first : Option Device)
    → OtherArgs (whatever_green_for r macos item first)
unfolding whatever_green_for
whatever_green_for-Other r macos none first = tt
whatever_green_for-Other r macos (some item) none = tt
whatever_green_for-Other r macos (some (name, last)) (some first) =
    append-Other (when-Other _ (literal refl)) (
      append-Other (when-Other _ (igpu_args-Other r macos name last))
        (when-Other _ (discrete_gpu_args-Other macos first)))
