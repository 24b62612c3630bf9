-- ===== src/Customizer.antt =====
-- HardwareCustomizer: Scripts/hardware_customizer.py, the loop over the devices of a class.
pub mod Laws
use freaky_ocs.Base.{
  String, ◌<>◌, Bool, true, false, ◌&&◌, Option, none, some, List, [], ◌∷◌, includes, if◌then◌else◌,
}
use freaky_ocs.Base.Dict.{Dict, insert}
use freaky_ocs.Darwin.{Version, le_version}
use freaky_ocs.Report.{Range, Compatibility, Device}
use freaky_ocs.Compat.State.{full_range}

-- `self.customized_hardware[device_type]`, `self.disabled_devices` and `needs_oclp`.
pub record Customized : Type 0 where
  pub kept : Dict Device
  pub disabled : Dict Device
  pub needs_oclp : Bool

-- `parse(max) >= parse(macos_version) >= parse(min)`
abbrev pub contains : Version → Range → Bool
contains macos r = le_version macos r.max && le_version r.min macos

unfoldable pub needs_patches : Version → Device → Bool
needs_patches macos d = elim d.oclp [ none ↦ false | some o ↦ contains macos o ]

-- `device_props.get("Compatibility", (latest, lowest))`
abbrev pub compatibility_of : Device → Compatibility
compatibility_of d = elim d.compatibility [ none ↦ some full_range | some c ↦ c ]

join_rest : List String → String
join_rest [] = ""
join_rest (t ∷ ts) = ", " <> (t <> join_rest ts)

-- The key in disabled_devices: `"{}: {}{}".format(...)`.
unfoldable pub disabled_key : String → String → Device → String
unfolding join_rest
disabled_key device_type name d =
    (elim d.device_type [
      | none ↦ device_type
      | some t ↦ if includes t "Unknown" then device_type else t
    ])
    <> (": "
        <> (name <> (elim d.audio_endpoints [
          | [] ↦ ""
          | t ∷ ts ↦ " (" <> (t <> (join_rest ts <> ")"))
        ])))

-- One round of the loop. A range (None, None) raises, and the handler takes the device as disabled.
unfoldable pub customize_device : String → Version → String → Device → Customized → Customized
customize_device device_type macos name d c =
    if needs_patches macos d
    then record c { kept = insert name d c.kept; needs_oclp = true }
    else elim (compatibility_of d) [
      | none ↦ record c { disabled = insert (disabled_key device_type name d) d c.disabled }
      | some r ↦
          if contains macos r
          then record c { kept = insert name (record d { oclp = none }) c.kept }
          else c
    ]

unfoldable pub customize_devices : String → Version → Dict Device → Customized → Customized
customize_devices device_type macos [] c = c
customize_devices device_type macos ((name, d) ∷ ds) c =
    customize_devices device_type macos ds (customize_device device_type macos name d c)
