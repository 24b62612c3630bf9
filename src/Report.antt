-- ===== src/Report.antt =====
-- The hardware report as ReportValidator lets it through: a record for each part of it that the
-- program reads. A field that the schema does not require is optional; a field that only one class
-- of devices has is empty for the others, which do not read it.
use freaky_ocs.Base.{ℕ, String, Bool, ◌&&◌, false, true, Option, none, some, List, [], ◌∷◌}
use freaky_ocs.Base.{str_eq}
use freaky_ocs.Base.Dict.{Dict}
use freaky_ocs.Darwin.{Version, le_version}

-- A pair (max_version, min_version).
pub record Range : Type 0 where
  pub max : Version
  pub min : Version

-- The pair, or `none` for (None, None): the program sets both to None together.
abbrev pub Compatibility : Type 0
Compatibility = Option Range

pub record Device : Type 0 where
  pub manufacturer : String
  pub codename : String
  pub bus_type : String
  pub device_id : String
  pub device_type : Option String
  pub subsystem_id : Option String
  pub pci_path : Option String
  pub acpi_path : Option String
  -- The name that the system gives the device.
  pub device : Option String
  pub resizable_bar : Option String
  pub audio_endpoints : List String
  pub controller_device_id : Option String
  -- The keys "Compatibility" and "OCLP Compatibility", which the checker adds.
  pub compatibility : Option Compatibility
  pub oclp : Option Range

pub record Monitor : Type 0 where
  pub connector_type : String
  pub connected_gpu : Option String
  -- `tuple(map(int, resolution.split("x")))`, of the text that the schema asks for.
  pub resolution : ℕ × ℕ

pub record Cpu : Type 0 where
  pub manufacturer : String
  pub processor_name : String
  pub codename : String
  -- `int` of the texts of digits that the schema asks for.
  pub core_count : ℕ
  pub cpu_count : ℕ
  pub simd_features : String
  pub compatibility : Option Compatibility

pub record Report : Type 0 where
  pub motherboard_name : String
  pub platform : String
  pub firmware_type : String
  pub cpu : Cpu
  pub gpu : Dict Device
  pub monitor : Dict Monitor
  pub network : Dict Device
  pub sound : Dict Device
  pub storage : Dict Device
  pub biometric : Dict Device
  pub bluetooth : Dict Device
  pub sd_controller : Dict Device
  pub usb_controllers : Dict Device
  pub input : Dict Device
  -- `none` where the report lacks the section, which no default stands for in one place.
  pub system_devices : Option (Dict Device)

-- `report.get("System Devices", {})`
unfoldable pub listed_system_devices : Report → Dict Device
listed_system_devices r = elim r.system_devices [ none ↦ [] | some devices ↦ devices ]

-- `==` on the properties of two devices.
opt_eq {ℓ} : {A : Type ℓ} → (A → A → Bool) → Option A → Option A → Bool
opt_eq eq none none = true
opt_eq eq none (some b) = false
opt_eq eq (some a) none = false
opt_eq eq (some a) (some b) = eq a b

texts_eq : List String → List String → Bool
texts_eq [] [] = true
texts_eq (a ∷ as') (b ∷ bs) = str_eq a b && texts_eq as' bs
texts_eq _ _ = false

unfoldable pub version_eq : Version → Version → Bool
version_eq a b = le_version a b && le_version b a

range_eq : Range → Range → Bool
unfolding version_eq
range_eq a b = version_eq a.max b.max && version_eq a.min b.min

unfoldable pub device_eq : Device → Device → Bool
unfolding opt_eq texts_eq range_eq le_version
device_eq a b =
    str_eq a.manufacturer b.manufacturer
    && str_eq a.codename b.codename
    && str_eq a.bus_type b.bus_type
    && str_eq a.device_id b.device_id
    && opt_eq str_eq a.device_type b.device_type
    && opt_eq str_eq a.subsystem_id b.subsystem_id
    && opt_eq str_eq a.pci_path b.pci_path
    && opt_eq str_eq a.acpi_path b.acpi_path
    && opt_eq str_eq a.device b.device
    && opt_eq str_eq a.resizable_bar b.resizable_bar
    && opt_eq str_eq a.controller_device_id b.controller_device_id
    && texts_eq a.audio_endpoints b.audio_endpoints
    && opt_eq (opt_eq range_eq) a.compatibility b.compatibility
    && opt_eq range_eq a.oclp b.oclp
