-- ===== src/Config/Igpu/State.antt =====
-- What `igpu_properties` reads and writes: Scripts/config_prodigy.py.
use freaky_ocs.Base.{
  ℕ, String, Bool, false, not, ◌&&◌, ◌||◌, ◌==◌, ltb, leb, none, some, List, [], ◌∷◌, any, elem,
  str_eq, if◌then◌else◌,
}
use freaky_ocs.Base.Dict.{Dict, insert}
use freaky_ocs.Darwin.{Version}
use freaky_ocs.Report.{Monitor}

abbrev pub Properties : Type 0
Properties = Dict String

-- The platform, the name of the GPU, its device ID without the vendor, and the monitors.
pub record Igpu : Type 0 where
  pub platform : String
  pub gpu_name : String
  pub id : String
  pub monitor : Dict Monitor
  pub macos : Version

-- `return igpu_properties` in a branch, or the properties after the branches.
pub data Stage : Type 0 where
  early rest : Properties → Stage

-- The assignments one after the other.
unfoldable pub put : List (String × String) → Properties → Properties
put [] p = p
put ((key, value) ∷ kvs) p = put kvs (insert key value p)

unfoldable pub put_if : Bool → List (String × String) → Properties → Properties
unfolding put
put_if b kvs p = if b then put kvs p else p

unfoldable pub is_on : Igpu → String → Bool
is_on g platform = str_eq g.platform platform

-- `monitor_info.get("Connected GPU") == integrated_gpu[0]`
unfoldable pub is_connected : Igpu → Monitor → Bool
is_connected g m = elim m.connected_gpu [ none ↦ false | some name ↦ str_eq name g.gpu_name ]

unfoldable pub drives_monitor : Igpu → Bool
unfolding is_connected
drives_monitor g = any (λ m. is_connected g m.1) g.monitor

unfoldable pub drives_non_vga : Igpu → Bool
unfolding is_connected
drives_non_vga g = any (λ m. not (str_eq m.1.connector_type "VGA") && is_connected g m.1) g.monitor

-- `(width, height) <= resolution` of a monitor, as tuples.
unfoldable pub wide : ℕ → ℕ → Dict Monitor → Bool
wide width height monitor =
    any
      (λ m.
        ltb width m.1.resolution.0 || (width == m.1.resolution.0 && leb height m.1.resolution.1))
      monitor

-- `"device-id"` for an ID that is not native.
unfoldable pub spoof : List String → String → Igpu → Properties
spoof native_supported_ids device_id g =
    put_if (not (elem g.id native_supported_ids)) (("device-id", device_id) ∷ []) []
