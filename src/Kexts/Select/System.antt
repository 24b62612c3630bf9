-- ===== src/Kexts/Select/System.antt =====
-- The kexts for the processor, the board and the sound devices: `select_required_kexts` in
-- Scripts/kext_maestro.py.
use freaky_ocs.Base.{
  String, Bool, true, false, not, ◌&&◌, ◌||◌, List, [], ◌∷◌, ◌++◌, any, drop, take, elem, includes,
  ends_with, ltb, str_eq, strip, if◌then◌else◌,
}
use freaky_ocs.Base.Dict.{Dict}
use freaky_ocs.Darwin.{Version, version, le_version}
use freaky_ocs.Report.{Device, Report}
use freaky_ocs.CpuData.{intel_cpu_generations}
use freaky_ocs.Codecs.{codec_layout_ids}
use freaky_ocs.Kexts.Ask.{answered, waiting, Asking, ◌>>=◌}

unfoldable pub is_intel_hedt_cpu : String → String → Bool
is_intel_hedt_cpu processor_name cpu_codename =
    if elem cpu_codename (take 21 (drop 45 intel_cpu_generations))
    then any (ends_with cpu_codename) ("-X" ∷ "-P" ∷ "-W" ∷ "-E" ∷ "-EP" ∷ "-EX" ∷ [])
    else if elem cpu_codename (drop 66 intel_cpu_generations)
    then includes processor_name "Xeon"
    else false

-- `xs if b else ()`
unfoldable pub when : Bool → List String → List String
when b names = if b then names else []

unfoldable pub is_laptop_board : Report → Bool
is_laptop_board r = includes r.platform "Laptop"

abbrev sensor_kexts : Report → List String
sensor_kexts r =
    "SMCBatteryManager"
    ∷ (when (includes r.motherboard_name "DELL") ("SMCDellSensors" ∷ []) ++ ("SMCLightSensor" ∷ []))

-- The first kexts of the list.
unfoldable pub board_kexts : Report → Version → List String
unfolding is_laptop_board
board_kexts r macos =
    "UTBDefault"
    ∷ (when (includes r.cpu.manufacturer "Intel") ("SMCProcessor" ∷ "SMCSuperIO" ∷ [])
        ++ (when (is_laptop_board r && not (includes r.motherboard_name "SURFACE")) (sensor_kexts r)
            ++ when
                (not (
                    includes r.cpu.processor_name " Core"
                    && elem r.cpu.codename (drop 28 intel_cpu_generations))
                  || le_version (version 23 0 0) macos)
                ("RestrictEvents" ∷ [])))

-- The kexts of the sound devices, and `needs_oclp`.
pub record SoundChoice : Type 0 where
  pub names : List String
  pub needs_oclp : Bool

-- The question for a codec since macOS Tahoe, until the answer is 1 or 2.
unfoldable pub ask_audio_kext : Bool → Asking SoundChoice
ask_audio_kext needs_oclp [] = waiting
ask_audio_kext needs_oclp (answer ∷ inputs) =
    let rest = ask_audio_kext needs_oclp inputs in
    if str_eq (strip answer) "1"
    then answered (record { names = "AppleALC" ∷ []; needs_oclp = true }) inputs
    else if str_eq (strip answer) "2"
    then answered (record { names = []; needs_oclp = needs_oclp }) inputs
    else rest

unfoldable pub sound_choice : Version → Device → Bool → Asking SoundChoice
unfolding ask_audio_kext
sound_choice macos d needs_oclp inputs =
    if not (elem d.device_id codec_layout_ids)
    then answered (record { names = []; needs_oclp = needs_oclp }) inputs
    else if le_version (version 25 0 0) macos
    then ask_audio_kext needs_oclp inputs
    else answered (record { names = "AppleALC" ∷ []; needs_oclp = needs_oclp }) inputs

unfoldable pub sound_kexts : Version → Dict Device → Bool → Asking SoundChoice
sound_kexts macos [] needs_oclp inputs =
    answered (record { names = []; needs_oclp = needs_oclp }) inputs
sound_kexts macos ((_, d) ∷ ds) needs_oclp inputs =
    sound_choice macos d needs_oclp inputs >>= λ first inputs'.
    sound_kexts macos ds first.needs_oclp inputs' >>= λ rest inputs''.
    answered (record { names = first.names ++ rest.names; needs_oclp = rest.needs_oclp }) inputs''

unfoldable pub processor_kexts : Report → Version → List String
processor_kexts r macos =
    when
      ((includes r.cpu.manufacturer "AMD" && le_version (version 21 4 0) macos)
        || (ltb 1 r.cpu.cpu_count && le_version (version 19 0 0) macos))
      ("AppleMCEReporterDisabler" ∷ [])
    ++ (when (le_version (version 22 0 0) macos && not (includes r.cpu.simd_features "AVX2"))
          ("CryptexFixup" ∷ [])
        ++ when
            (not (includes r.cpu.codename "Lunar Lake")
              && not (includes r.cpu.codename "Meteor Lake")
              && elem r.cpu.codename (take 20 intel_cpu_generations)
              && ltb 6 r.cpu.core_count)
            ("CpuTopologyRebuild" ∷ []))

-- After the GPUs: the time stamp counters, and the kexts that root patches need.
unfoldable pub clock_kexts : Report → Bool → List String → List String
clock_kexts r needs_oclp selected =
    when (is_laptop_board r && (includes r.motherboard_name "ASUS" || elem "NootedRed" selected))
      ("ForgedInvariant" ∷ [])
    ++ (when (is_intel_hedt_cpu r.cpu.processor_name r.cpu.codename) ("CpuTscSync" ∷ [])
        ++ when needs_oclp ("AMFIPass" ∷ "RestrictEvents" ∷ []))

-- The last kexts of the list.
unfoldable pub power_kexts : Report → List String
power_kexts r =
    when (includes r.cpu.codename "Sandy Bridge") ("ASPP-Override" ∷ [])
    ++ when (includes r.cpu.codename "Sandy Bridge" || includes r.cpu.codename "Ivy Bridge")
        ("AppleIntelCPUPowerManagement" ∷ "AppleIntelCPUPowerManagementClient" ∷ [])
