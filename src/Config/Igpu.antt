-- ===== src/Config/Igpu.antt =====
-- `igpu_properties`: Scripts/config_prodigy.py.
pub mod State
pub mod Families
pub mod Later
pub mod Tidy
pub mod Fit
pub mod Memory
use freaky_ocs.Base.{
  ℕ, String, Bool, true, false, not, ◌&&◌, ◌||◌, Option, none, some, List, [], ◌∷◌, any, elem,
  drop_chars, second_last, starts_with, starts_with_any, str_eq, if◌then◌else◌,
}
use freaky_ocs.Base.Dict.{Dict, get, erase, insert}
use freaky_ocs.Darwin.{Version, version, lt_version}
use freaky_ocs.Report.{Device, Monitor}
use freaky_ocs.Config.Igpu.State.{Properties, Igpu, Stage, early, rest, put_if, is_on, wide}
use freaky_ocs.Config.Igpu.Families.{ironlake, sandy_bridge, ivy_bridge, haswell, broadwell}
use freaky_ocs.Config.Igpu.Later.{skylake, kaby_lake, coffee_lake, ice_lake}

-- The branches by the device ID.
unfoldable pub by_generation : Igpu → Stage
by_generation g =
    if starts_with_any g.id ("0042" ∷ "0046" ∷ [])
    then ironlake g
    else if starts_with g.id "01" && not (elem (second_last g.id) ("5" ∷ "6" ∷ []))
    then sandy_bridge g
    else if starts_with g.id "01"
    then ivy_bridge g
    else if starts_with_any g.id ("04" ∷ "0A" ∷ "0C" ∷ "0D" ∷ [])
    then haswell g
    else if starts_with_any g.id ("0B" ∷ "16" ∷ [])
    then broadwell g
    else if starts_with_any g.id ("09" ∷ "19" ∷ []) && lt_version g.macos (version 22 0 0)
    then skylake g
    else if starts_with_any g.id ("09" ∷ "19" ∷ "59" ∷ "87C0" ∷ [])
    then kaby_lake g
    else if starts_with_any g.id ("3E" ∷ "87" ∷ "9B" ∷ [])
    then coffee_lake g
    else if starts_with g.id "8A"
    then ice_lake g
    else rest []

-- `if p.get(key): del p[key]`; no value of the branches is empty.
unfoldable pub drop_key : String → Properties → Properties
drop_key key p = elim (get key p) [ none ↦ p | some v ↦ if str_eq v "" then p else erase key p ]

-- What changes for a monitor of 3840x2160 or more.
unfoldable pub for_4k : Igpu → Properties → Properties
for_4k g p =
    if wide 3840 2160 g.monitor
    then drop_key "framebuffer-fbmem" (
        drop_key "framebuffer-stolenmem"
          (put_if (is_on g "Laptop") (("enable-max-pixel-clock-override", "01000000") ∷ []) p))
    else p

-- The loop over the keys.
unfoldable pub enable_patch : Properties → Properties
enable_patch p =
    if any (λ kv. not (elem kv.0 ("AAPL,ig-platform-id" ∷ "device-id" ∷ []))) p
    then insert "framebuffer-patch-enable" "01000000" p
    else p

-- The properties as a dict; the order of the keys, which `sorted` makes at the end, is left out.
unfoldable pub igpu_properties : String → String → Device → Dict Monitor → Version → Properties
unfolding by_generation for_4k enable_patch
igpu_properties platform gpu_name device monitor macos =
    let g : Igpu = record {
      platform = platform;
      gpu_name = gpu_name;
      id = drop_chars 5 device.device_id;
      monitor = monitor;
      macos = macos;
    } in
    elim (by_generation g) [ early p ↦ p | rest p ↦ enable_patch (for_4k g p) ]
