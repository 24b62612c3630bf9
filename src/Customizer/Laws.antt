-- ===== src/Customizer/Laws.antt =====
-- Which devices the loop keeps.
use freaky_ocs.Base.{
  String, ◌≡◌, Bool, true, false, ◌||◌, Option, none, some, [], ◌∷◌, All, any, elem, distinct,
  str_eq, eq_iff, arith, refl, if◌then◌else◌, ◌∙◌,
}
use freaky_ocs.Base.Dict.{Dict, get, keys, get-insert}
use freaky_ocs.Darwin.{Version}
use freaky_ocs.Report.{Device}
use freaky_ocs.Customizer.{
  Customized, contains, needs_patches, compatibility_of, customize_device, customize_devices,
}

-- The device as it is kept for the version, if it is.
unfoldable pub kept_as : Version → Device → Option Device
kept_as macos d = if needs_patches macos d then some d else elim (compatibility_of d) [
  | none ↦ none
  | some r ↦ if contains macos r then some (record d { oclp = none }) else none
]

kept-customize_device :
    (device_type : String) (macos : Version) (name : String) (d : Device) (c : Customized)
    (other : String)
    → get other (customize_device device_type macos name d c).kept ≡ (
        if str_eq name other
        then elim (kept_as macos d) [ none ↦ get other c.kept | some e ↦ some e ]
        else get other c.kept)
unfolding customize_device kept_as
kept-customize_device device_type macos name d c other =
    ground (
      arith,
      get-insert name other d c.kept,
      get-insert name other (record d { oclp = none }) c.kept,
    )

kept-customize_devices :
    (device_type : String) (macos : Version) (ds : Dict Device) (c : Customized) (other : String)
    → elem other (keys ds) ≡ false
    → get other (customize_devices device_type macos ds c).kept ≡ get other c.kept
unfolding customize_devices elem keys
kept-customize_devices device_type macos [] c other h = refl
kept-customize_devices device_type macos ((name, d) ∷ ds) c other h = ground (
  arith,
  kept-customize_devices device_type macos ds (customize_device device_type macos name d c) other,
  kept-customize_device device_type macos name d c other,
)

-- No device of the list has been kept before.
abbrev AreNew : Customized → Dict Device → Type 0
AreNew c ds = All (λ (name, _). get name c.kept ≡ none) ds

AreNew-customize_device :
    (device_type : String) (macos : Version) (name : String) (d : Device) (c : Customized)
    (ds : Dict Device)
    → elem name (keys ds) ≡ false
    → AreNew c ds
    → AreNew (customize_device device_type macos name d c) ds
unfolding elem keys
AreNew-customize_device device_type macos name d c [] h new = tt
AreNew-customize_device device_type macos name d c ((other, e) ∷ ds) h new = (
  ground (
    arith,
    new.0,
    eq_iff other name,
    eq_iff name other,
    kept-customize_device device_type macos name d c other,
  ),
  AreNew-customize_device device_type macos name d c ds (ground arith) new.1,
)

All-kept :
    (device_type : String) (macos : Version) (ds : Dict Device) (c : Customized)
    → distinct (keys ds) ≡ true
    → AreNew c ds
    → All
        (λ (name, d). get name (customize_devices device_type macos ds c).kept ≡ kept_as macos d)
        ds
unfolding customize_devices distinct keys
All-kept device_type macos [] c h new = tt
All-kept device_type macos ((name, d) ∷ ds) c h new =
    let next = customize_device device_type macos name d c in
    (
      ground (
        arith,
        new.0,
        eq_iff name name,
        kept-customize_devices device_type macos ds next name,
        kept-customize_device device_type macos name d c name,
      ),
      All-kept device_type macos ds next (ground arith)
          (AreNew-customize_device device_type macos name d c ds (ground arith) new.1),
    )

needs_oclp-customize_devices :
    (device_type : String) (macos : Version) (ds : Dict Device) (c : Customized)
    → (customize_devices device_type macos ds c).needs_oclp
      ≡ (c.needs_oclp || any (λ (_, d). needs_patches macos d) ds)
unfolding customize_devices customize_device
needs_oclp-customize_devices device_type macos [] c = ground arith
needs_oclp-customize_devices device_type macos ((name, d) ∷ ds) c =
    needs_oclp-customize_devices device_type macos ds (customize_device device_type macos name d c)
    ∙ ground arith

All-new :
    (disabled : Dict Device) (needs : Bool) (ds : Dict Device)
    → AreNew (record { kept = []; disabled = disabled; needs_oclp = needs }) ds
unfolding get
All-new disabled needs [] = tt
All-new disabled needs (d ∷ ds) = (refl, All-new disabled needs ds)

-- Where every name stands once, the loop over the devices of a class keeps each device that runs on
-- the version, as it is where that needs root patches and without its patched range where it does
-- not, and no other one. It reports that patches are needed exactly if they were before or some
-- device needs them.
pub customize_devices_lem :
    (device_type : String) (macos : Version) (ds disabled : Dict Device) (needs : Bool)
    → distinct (keys ds) ≡ true
    → let result =
        customize_devices device_type macos ds
          (record { kept = []; disabled = disabled; needs_oclp = needs }) in
      All (λ (name, d). get name result.kept ≡ kept_as macos d) ds
      × (result.needs_oclp ≡ (needs || any (λ (_, d). needs_patches macos d) ds))
customize_devices_lem device_type macos ds disabled needs h =
    let start : Customized = record { kept = []; disabled = disabled; needs_oclp = needs } in
    (
      All-kept device_type macos ds start h (All-new disabled needs ds),
      needs_oclp-customize_devices device_type macos ds start,
    )
