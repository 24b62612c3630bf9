-- ===== src/Config/BootArgs.antt =====
-- `boot_args`: Scripts/config_prodigy.py.
pub mod Others
pub mod Lilu
use freaky_ocs.Base.{
  ℕ, suc, String, Bool, true, false, not, ◌&&◌, ◌||◌, ◌==◌, Option, none, some, List, [], ◌∷◌, ◌++◌,
  any, elem, includes, ends_with, drop_chars, starts_with_any, str_eq, if◌then◌else◌,
}
use freaky_ocs.Base.Dict.{Dict, get, keys}
use freaky_ocs.Darwin.{Version, version, lt_version, le_version}
use freaky_ocs.Report.{Device, Monitor, Report}
use freaky_ocs.PciData.System.{spoof_gpu_ids}
use freaky_ocs.Smbios.Select.{gpu_type, first_gpu}
use freaky_ocs.Codecs.Entry.{Layout}
use freaky_ocs.Kexts.Info.{KextInfo}
use freaky_ocs.Kexts.Data.{kexts}
use freaky_ocs.Kexts.Check.{Checks, supports}
use freaky_ocs.Kexts.Ask.{Asked, answered, raised, Asking, ◌>>=◌}
use freaky_ocs.Kexts.Select.System.{when, is_intel_hedt_cpu}
use freaky_ocs.Config.Igpu.State.{wide}
use freaky_ocs.Config.Audio.{AudioLayout, select_audio_codec_layout}

-- An argument; `alcid n` is the text "alcid=" with the number.
pub data BootArg : Type 0 where
  flag : String → BootArg
  alcid : ℕ → BootArg

unfoldable pub flags : List String → List BootArg
flags [] = []
flags (t ∷ ts) = flag t ∷ flags ts

unfoldable pub is_flag : String → BootArg → Bool
is_flag t (flag u) = str_eq u t
is_flag t (alcid n) = false

-- `t in boot_args`
unfoldable pub has_flag : String → List BootArg → Bool
has_flag t args = any (is_flag t) args

-- The last GPU with its name.
unfoldable pub last_item : Dict Device → Option (String × Device)
last_item [] = none
last_item ((name, d) ∷ []) = some (name, d)
last_item ((name, d) ∷ (e ∷ ds)) = last_item (e ∷ ds)

connected_to : String → Monitor → Bool
connected_to name m = elim m.connected_gpu [ none ↦ false | some gpu ↦ str_eq gpu name ]

-- The arguments for an iGPU that is the last GPU.
unfoldable pub igpu_args : Report → Version → String → Device → List String
unfolding connected_to
igpu_args r macos name d =
    let id = drop_chars 5 d.device_id in
    when (elim d.oclp [ none ↦ false | some o ↦ true ]) ("ipc_control_port_options=0" ∷ [])
    ++ (when (includes d.codename "Ice Lake") ("-noDC9" ∷ "-igfxblr" ∷ [])
        ++ (if includes r.platform "Desktop"
            then when
                (any (λ m. connected_to name m.1) r.monitor
                  && starts_with_any id ("3E" ∷ "87" ∷ "9B" ∷ [])
                  && le_version (version 19 4 0) macos)
                ("igfxonln=1" ∷ [])
              ++ when
                  (any (λ m. connected_to name m.1 && elem m.1.connector_type ("DVI" ∷ "HDMI" ∷ []))
                    r.monitor)
                  ("-igfxvesa" ∷ [])
            else when
                (includes r.platform "Laptop"
                  && starts_with_any id ("59" ∷ "8C" ∷ "3E" ∷ "87" ∷ "9B" ∷ [])
                  && not (ends_with d.device_id "5917"))
                ((if le_version (version 22 5 0) macos then "-igfxblt" else "-igfxblr") ∷ [])))

-- The arguments for a discrete GPU that is the first GPU.
unfoldable pub discrete_gpu_args : Version → Device → List String
discrete_gpu_args macos d =
    when (includes d.codename "Navi") ("agdpmod=pikera" ∷ [])
    ++ (when (elem d.device_id (keys spoof_gpu_ids)) ("-radcodec" ∷ [])
        ++ (when
              (elem d.device_id
                ("1002-6610" ∷ "1002-682B" ∷ "1002-6837" ∷ "1002-683D" ∷ "1002-683F" ∷ []))
              ("radpg=15" ∷ [])
            ++ (when
                  (elem d.device_id
                    ("1002-67B0" ∷ "1002-67B1" ∷ "1002-67B8" ∷ "1002-6810" ∷ "1002-6811" ∷ []))
                  ("-raddvi" ∷ [])
                ++ when (elim d.oclp [ none ↦ false | some o ↦ true ])
                    (if str_eq d.manufacturer "AMD"
                      then (if lt_version macos (version 23 0 0)
                          then "-radvesa"
                          else "-amd_no_dgpu_accel")
                        ∷ []
                      else when
                          (str_eq d.manufacturer "NVIDIA" && not (includes d.codename "Kepler"))
                          ("nvda_drv_vrl=1" ∷ "ngfxcompat=1" ∷ "ngfxgl=1" ∷ [])))))

-- The branch of WhateverGreen, by the last and the first GPU; `none` is the IndexError of a report
-- without GPUs.
unfoldable pub whatever_green_for :
    Report → Version → Option (String × Device) → Option Device → Option (List String)
whatever_green_for r macos none first = none
whatever_green_for r macos (some item) none = none
whatever_green_for r macos (some (name, last)) (some first) = some (
    when (wide 3840 2160 r.monitor && lt_version macos (version 20 0 0)) ("-cdfon" ∷ [])
    ++ (when (includes r.cpu.manufacturer "Intel" && includes (gpu_type last) "Integrated GPU")
          (igpu_args r macos name last)
        ++ when (str_eq (gpu_type first) "Discrete GPU") (discrete_gpu_args macos first)))

unfoldable pub whatever_green_args : Report → Version → Option (List String)
unfolding whatever_green_for
whatever_green_args r macos = whatever_green_for r macos (last_item r.gpu) (first_gpu r.gpu)

-- A plugin of Lilu that does not support the version.
unfoldable pub needs_lilu_beta : Version → KextInfo → Bool
needs_lilu_beta macos k = elem "Lilu" k.requires_kexts && not (supports macos k)

unfoldable pub add_lilu_beta : Version → KextInfo → List BootArg → List BootArg
unfolding has_flag is_flag
add_lilu_beta macos k args =
    if needs_lilu_beta macos k
    then if has_flag "-lilubetaall" args then args else args ++ (flag "-lilubetaall" ∷ [])
    else args

-- What the loop reads besides the kexts.
pub record Settings : Type 0 where
  pub report : Report
  pub macos : Version
  -- `random.choice`, and the device properties of the config.
  pub choose : List Layout → Layout
  pub properties : Dict (Dict String)

-- `if selected_layout_id`, which an ID of 0 does not pass.
abbrev pub layout_args : Option ℕ → List BootArg
layout_args none = []
layout_args (some n) = if n == 0 then [] else alcid n ∷ []

abbrev pub add_layout : List BootArg → AudioLayout → List BootArg
add_layout args layout = args ++ layout_args layout.id

abbrev pub add_names : List BootArg → Option (List String) → Asking (List BootArg)
add_names args none inputs = raised
add_names args (some names) inputs = answered (args ++ flags names) inputs

-- A round of the loop for a checked kext.
unfoldable pub kext_args : Settings → KextInfo → List BootArg → Asking (List BootArg)
kext_args s k args inputs =
    if str_eq k.name "WhateverGreen"
    then add_names args (whatever_green_args s.report s.macos) inputs
    else if str_eq k.name "AppleALC"
    then (select_audio_codec_layout s.choose s.report (some s.properties) false inputs
        >>= λ layout inputs'. answered (add_layout args layout) inputs')
    else if str_eq k.name "VoodooI2C"
    then answered (args ++ flags ("-vi2c-force-polling" ∷ [])) inputs
    else if str_eq k.name "CpuTopologyRebuild"
    then answered (args ++ flags ("ctrsmt=full" ∷ [])) inputs
    else answered args inputs

unfoldable pub kexts_args : Settings → List KextInfo → Checks → List BootArg → Asking (List BootArg)
kexts_args s [] c args inputs = answered args inputs
kexts_args s (k ∷ ks) c args inputs =
    if c 0
    then (kext_args s k (add_lilu_beta s.macos k args) inputs >>= kexts_args s ks (λ i. c (suc i)))
    else kexts_args s ks (λ i. c (suc i)) args inputs

-- `config["Booter"]["Quirks"]["ResizeAppleGpuBars"] != 0`
unfoldable pub no_resizable_bar : Report → Bool
no_resizable_bar r =
    not (any (λ g. (elim g.1.resizable_bar [ none ↦ false | some t ↦ str_eq t "Enabled" ])) r.gpu)

unfoldable pub first_names : Settings → Bool → List String
unfolding no_resizable_bar
first_names s needs_oclp =
    "-v"
    ∷ "debug=0x100"
    ∷ "keepsyms=1"
    ∷ (when (needs_oclp && le_version (version 25 0 0) s.macos) ("-amfipassbeta" ∷ [])
        ++ when
            (no_resizable_bar s.report
              && is_intel_hedt_cpu s.report.cpu.processor_name s.report.cpu.codename)
            ("npci=0x2000" ∷ []))

unfoldable pub first_args : Settings → Bool → List BootArg
unfolding flags first_names
first_args s needs_oclp = flags (first_names s needs_oclp)

unfoldable pub boot_args : Settings → Bool → Checks → Asking (List BootArg)
boot_args s needs_oclp c inputs = kexts_args s kexts c (first_args s needs_oclp) inputs
