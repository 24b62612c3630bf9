-- ===== src/Tests/Sample.antt =====
-- A small hardware report: a Coffee Lake laptop whose internal screen is driven by the first GPU.
use freaky_ocs.Base.{String, Option, none, some, [], ◌∷◌}
use freaky_ocs.Report.{Device, Monitor, Report, Range}
use freaky_ocs.Compat.State.{Checker}
use freaky_ocs.Darwin.{version}

abbrev device : String → String → String → String → Option String → Device
device manufacturer codename bus_type device_id device_type = record {
  manufacturer = manufacturer;
  codename = codename;
  bus_type = bus_type;
  device_id = device_id;
  device_type = device_type;
  subsystem_id = none;
  pci_path = none;
  acpi_path = none;
  device = none;
  resizable_bar = none;
  audio_endpoints = [];
  controller_device_id = none;
  compatibility = none;
  oclp = none;
}

abbrev pub uhd_630 : Device
uhd_630 = device "Intel" "Coffee Lake" "PCI" "8086-3E9B" (some "Integrated GPU")

abbrev pub rx_6600 : Device
rx_6600 = device "AMD" "Navi 23" "PCI" "1002-73FF" (some "Discrete GPU")

abbrev pub hd_3000 : Device
hd_3000 = device "Intel" "Sandy Bridge" "PCI" "8086-0116" (some "Integrated GPU")

abbrev pub bcm4360 : Device
bcm4360 = device "Broadcom" "" "PCI" "14E4-43A0" none

abbrev pub nvme : Device
nvme = device "" "" "PCI" "144D-A808" none

abbrev screen : Option String → Monitor
screen gpu = record { connector_type = "Internal"; connected_gpu = gpu; resolution = (1920, 1080) }

abbrev pub laptop : Report
laptop = record {
  motherboard_name = "Test board";
  platform = "Laptop";
  firmware_type = "UEFI";
  cpu = record {
    manufacturer = "Intel";
    processor_name = "Intel Core i7-8750H";
    codename = "Coffee Lake";
    core_count = 6;
    cpu_count = 1;
    simd_features = "SSE4.1, SSE4.2, AVX2";
    compatibility = none;
  };
  gpu = ("UHD 630", uhd_630) ∷ ("RX 6600", rx_6600) ∷ [];
  monitor = ("Screen", screen (some "UHD 630")) ∷ [];
  network = ("BCM4360", bcm4360) ∷ [];
  sound = [];
  storage = [];
  biometric = [];
  usb_controllers = [];
  input = [];
  system_devices = none;
  bluetooth = [];
  sd_controller = [];
}

-- The laptop with its integrated GPU alone, and without any GPU.
abbrev pub igpu_laptop : Report
igpu_laptop = record laptop { gpu = ("UHD 630", uhd_630) ∷ [] }

abbrev pub headless_laptop : Report
headless_laptop = record laptop { gpu = [] }

abbrev pub all_versions : Range
all_versions = record { max = version 25 99 99; min = version 17 0 0 }

-- The state after the CPU check.
abbrev pub checked : Report → Checker
checked r = record { report = r; native = some all_versions; ocl_patched = none }
