-- ===== src/Config/Audio.antt =====
-- `select_audio_codec_layout`: Scripts/config_prodigy.py. `random.choice` is the parameter `choose`.
pub mod Laws
use freaky_ocs.Base.{
  ℕ, String, Bool, true, false, not, ◌&&◌, ◌||◌, ◌==◌, Option, none, some, List, [], ◌∷◌, any, elem,
  str_eq, strip, parse_signed, zero, suc, if◌then◌else◌,
}
use freaky_ocs.Base.Dict.{Dict, get}
use freaky_ocs.Report.{Device, Report}
use freaky_ocs.Codecs.{codec_layouts, codec_layout_ids}
use freaky_ocs.Codecs.Entry.{Layout}
use freaky_ocs.Compat.Gpu.{contains_any}
use freaky_ocs.Kexts.Ask.{Asked, answered, waiting, raised, Asking, ◌>>=◌}

-- The pair (selected_layout_id, audio_controller_properties).
pub record AudioLayout : Type 0 where
  pub id : Option ℕ
  pub controller : Option Device

abbrev pub no_layout : AudioLayout
no_layout = record { id = none; controller = none }

-- The first codec with layouts.
unfoldable pub find_codec : Dict Device → Option Device
find_codec [] = none
find_codec ((_, d) ∷ ds) =
    let rest = find_codec ds in if elem d.device_id codec_layout_ids then some d else rest

pub find_by_id : String → Dict Device → Option Device
find_by_id id [] = none
find_by_id id ((_, d) ∷ ds) =
    let rest = find_by_id id ds in if str_eq d.device_id id then some d else rest

-- The controller of a codec, if it names one; an empty ID counts as none. The outer `none` is the
-- AttributeError of a report without the section System Devices.
unfoldable pub find_controller_of : Device → Option (Dict Device) → Option (Option Device)
unfolding find_by_id
find_controller_of codec system_devices = elim codec.controller_device_id [
  | none ↦ some none
  | some id ↦
      if str_eq id ""
      then some none
      else elim system_devices [ none ↦ none | some devices ↦ some (find_by_id id devices) ]
]

-- `codec_layouts.data.get(codec_id)`
unfoldable pub available_layouts : String → List Layout
available_layouts codec_id = elim (get codec_id codec_layouts) [ none ↦ [] | some ls ↦ ls ]

recommended_of : List Layout → List Layout
recommended_of [] = []
recommended_of (l ∷ ls) =
    let rest = recommended_of ls in
    if contains_any ("Mirone" ∷ "InsanelyDeepak" ∷ "Toleda" ∷ "DalianSky" ∷ []) l.comment
    then l ∷ rest
    else rest

-- `recommended_layouts or available_layouts`
unfoldable pub default_candidates : List Layout → List Layout
unfolding recommended_of
default_candidates available = elim (recommended_of available) [ [] ↦ available | l ∷ ls ↦ l ∷ ls ]

abbrev pub has_id : ℕ → List Layout → Bool
has_id n layouts = any (λ (l : Layout). l.id == n) layouts

-- `int(selected_layout_id)`, of the answer or of the default ID. A negative number is no layout's
-- ID, so the question is asked again as after a text that `int` refuses.
unfoldable pub chosen_id : Layout → String → Option ℕ
chosen_id default answer =
    if str_eq answer "" then some default.id else elim (parse_signed (strip answer)) [
      | none ↦ none
      | some (false, n) ↦ some n
      | some (true, zero) ↦ some zero
      | some (true, suc n) ↦ none
    ]

-- The loop over the layouts; without one of the ID, the question is asked again.
abbrev pub accept : List Layout → Option ℕ → List String → Asked ℕ → Asked ℕ
accept available none inputs again = again
accept available (some n) inputs again = if has_id n available then answered n inputs else again

unfoldable pub ask_layout : List Layout → Layout → Asking ℕ
unfolding chosen_id
ask_layout available default [] = waiting
ask_layout available default (answer ∷ inputs) =
    let again = ask_layout available default inputs in
    accept available (chosen_id default answer) inputs again

-- A layout-id among the device properties of the config.
unfoldable pub is_configured : Option (Dict (Dict String)) → Bool
is_configured none = false
is_configured (some add) =
    any
      (λ properties. elim (get "layout-id" properties.1) [
        | none ↦ false
        | some v ↦ not (str_eq v "")
      ])
      add

-- The question for the codec that is found, with its controller.
unfoldable pub select_for_codec :
    (List Layout → Layout) → Device → Option Device → Asking AudioLayout
select_for_codec choose codec controller inputs =
    let available = available_layouts codec.device_id in
    ask_layout available (choose (default_candidates available)) inputs >>= λ n inputs'.
    answered (record { id = some n; controller = controller }) inputs'

-- The end of the function, with what the loop over the codecs has found.
unfoldable pub select_with :
    (List Layout → Layout) → Bool → Device → Option (Option Device) → Asking AudioLayout
select_with choose controller_required codec none inputs = raised
select_with choose controller_required codec (some controller) inputs =
    if controller_required && (elim controller [ none ↦ true | some d ↦ false ])
    then answered no_layout inputs
    else select_for_codec choose codec controller inputs

unfoldable pub select_for :
    (List Layout → Layout) → Report → Bool → Option Device → Asking AudioLayout
select_for choose r controller_required none inputs = answered no_layout inputs
select_for choose r controller_required (some codec) inputs =
    select_with choose controller_required codec (find_controller_of codec r.system_devices) inputs

unfoldable pub select_audio_codec_layout :
    (List Layout → Layout) → Report → Option (Dict (Dict String)) → Bool → Asking AudioLayout
select_audio_codec_layout choose r config controller_required inputs =
    if is_configured config
    then answered no_layout inputs
    else select_for choose r controller_required (find_codec r.sound) inputs
