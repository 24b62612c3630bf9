-- ===== src/Lib.antt =====
-- OpCore Simplify chooses OpenCore and macOS settings for a PC from a report of its hardware. This is
-- a model of the parts of its Python program that decide: whether a report is valid, which macOS
-- versions the hardware supports, which Mac model the PC takes, which kernel extensions (kexts)
-- it needs, and values of its OpenCore configuration.
--
-- The program reads a report (JSON), validates it against a schema, and keeps the cleaned data. The
-- compatibility check then visits the device classes in order; it writes the supported range of
-- versions into each device, narrows the native range of the PC, and leaves the program when the PC
-- cannot run macOS. With the version chosen, the SMBIOS part selects a Mac model, which the user may
-- change in a menu. KextMaestro selects the kexts for the devices, checks them with the kexts that they
-- require, and lets the user change the set.
--
-- Parts, with the files of the repository:
-- - Darwin, Darwin/Order, Darwin/Names: Scripts/datasets/os_data.py and parse_darwin_version of
--   Scripts/utils.py. A version "a.b.c" is the triple that parse_darwin_version makes of it; every
--   version of the program is compared by these triples.
-- - PciData and its children: the lists of Scripts/datasets/pci_data.py that the program looks device
--   IDs up in.
-- - Codecs and its children: the audio layouts of Scripts/datasets/codec_layouts.py.
-- - CpuData: the lists of Scripts/datasets/cpu_data.py.
-- - Report: the validated report as records, one for a device of any class. The devices of a class are
--   an association list in the report's order, as Python's dict keeps it.
-- - Validator and its children: ReportValidator of Scripts/report_validator.py. Json has the values
--   and rules, Regex the patterns with re.match, Schema the schema, Node _validate_node, Report
--   validate_report. Conforms says what a valid value is, without the lists of errors, and
--   Language which texts a pattern describes. Errors are values with the path to the place in place
--   of formatted text.
-- - Compat and its children: CompatibilityChecker of Scripts/compatibility_checker.py. State has the
--   attributes and the outcomes; a check returns, leaves the program (exit_program) or raises. Cpu,
--   Gpu, Devices and Storage have the checks, Run has check_compatibility. The pair
--   (max_version, min_version) is a Range, and (None, None) is none.
-- - MacModels: Scripts/datasets/mac_model_data.py.
-- - Smbios/Select, Smbios/Customize: select_smbios_model and customize_smbios_model of
--   Scripts/smbios.py. The menu is a recursion on the list of the user's answers, so it needs no fuel;
--   where the answers end it is still asking.
-- - Customizer: the loop over the devices of a class in hardware_customization of
--   Scripts/hardware_customizer.py.
-- - Kexts and its children: KextMaestro of Scripts/kext_maestro.py. Data has the table of
--   Scripts/datasets/kext_data.py. The attribute checked of the kexts is a function of the index
--   (Check), and check_kext, which calls itself for the required kexts, is a recursion on fuel:
--   eight is more than the kexts that one kext can reach (Closure). Select has select_required_kexts,
--   whose questions consume a list of answers (Ask), Verify verify_kext_compatibility, Menu
--   kext_configuration_menu as a machine that takes the answers one at a time, and Load the order of
--   load_kexts, with fuel for the depth of its recursion.
-- - Config and its children: ConfigProdigy of Scripts/config_prodigy.py. Igpu has igpu_properties,
--   Audio select_audio_codec_layout with random.choice as a parameter, BootArgs boot_args, Booter and
--   Kernel the quirks of these sections in genarate, Drivers load_drivers, Cpu the small functions of the processor
--   and the version. Chipsets has the tables of Scripts/datasets/chipset_data.py.
-- - Integrity: generate_folder_manifest and verify_folder_integrity of Scripts/integrity_checker.py,
--   over the list of files that os.walk gives, with SHA-256 as a parameter.
-- - Base: Python's operations on texts and dicts, lists over the native numbers, Boolean tests.
-- - Tests: the theorems at concrete reports.
--
-- The validator recurses on the JSON value, the loops on the lists that they visit; check_kext
-- and the visit of load_kexts have fuel. Texts are ASCII where the program changes or compares their case, strips them or
-- converts them to numbers.
--
-- Not modelled: what the program prints, waiting for a key, and the sleep between steps; the other
-- methods of Scripts/smbios.py, which run macserial; the questions and the device selection of
-- HardwareCustomizer; the file operations of KextMaestro; AcpiGuru, DSDT; the other methods of ConfigProdigy; the downloads and the updater; the C#
-- core and the frontend, which are a port of the program and its user interface.
pub mod Base
pub mod Darwin
pub mod Codecs
pub mod CpuData
pub mod Chipsets
pub mod PciData
pub mod Report
pub mod Compat
pub mod Validator
pub mod MacModels
pub mod Smbios
pub mod Integrity
pub mod Customizer
pub mod Kexts
pub mod Config
pub mod Tests
