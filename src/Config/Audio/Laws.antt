-- ===== src/Config/Audio/Laws.antt =====
-- The layout that is selected is one of the codec's, and an empty answer ends the question.
use freaky_ocs.Base.{
  ℕ, String, ◌≡◌, refl, sym, Bool, true, false, ◌&&◌, Option, none, some, List, [], ◌∷◌, ◌++◌, any,
  elem, arith, if◌then◌else◌, if_both, Bool-cases, Option-cases, ◌⊎◌, not, str_eq, inl, inr,
}
use mathlib.Core.Path.{subst}
use freaky_ocs.Codecs.{codec_layout_ids}
use freaky_ocs.Base.Dict.{Dict}
use freaky_ocs.Report.{Device, Report}
use freaky_ocs.Codecs.Entry.{Layout}
use freaky_ocs.Kexts.Ask.{Asked, answered, raised, Answers, Answers-bind}
use freaky_ocs.Config.Audio.{
  AudioLayout, find_codec, find_controller_of, available_layouts, default_candidates, has_id,
  accept, chosen_id, ask_layout, select_for_codec, select_for, select_audio_codec_layout,
  is_configured, select_with, find_by_id,
}

abbrev Offered : List Layout → ℕ → Type 0
Offered available n = has_id n available ≡ true

accept-Answers :
    (available : List Layout) (id : Option ℕ) (inputs : List String) (again : Asked ℕ)
    → Answers (Offered available) again
    → Answers (Offered available) (accept available id inputs again)
accept-Answers available none inputs again h = h
accept-Answers available (some n) inputs again h = elim (Bool-cases (has_id n available)) [
  | inl offered ↦
      subst (λ b. Answers (Offered available) (if b then answered n inputs else again))
        (sym offered) offered
  | inr other ↦
      subst (λ b. Answers (Offered available) (if b then answered n inputs else again)) (sym other)
        h
]

ask_layout-Answers :
    (available : List Layout) (default : Layout) (inputs : List String)
    → Answers (Offered available) (ask_layout available default inputs)
unfolding ask_layout
ask_layout-Answers available default [] = tt
ask_layout-Answers available default (answer ∷ inputs) =
    accept-Answers available _ inputs _ (ask_layout-Answers available default inputs)

abbrev pub AnswersOffered : List Layout → Asked ℕ → Type 0
AnswersOffered available r =
    (n : ℕ) × (rest : List String) × (r ≡ answered n rest) × (has_id n available ≡ true)

accept-AnswersOffered :
    (available : List Layout) (id : Option ℕ) (inputs : List String) (again : Asked ℕ)
    → AnswersOffered available again
    → AnswersOffered available (accept available id inputs again)
accept-AnswersOffered available none inputs again h = h
accept-AnswersOffered available (some n) inputs again h = elim (Bool-cases (has_id n available)) [
  | inl offered ↦ (n, inputs, ground arith, offered)
  | inr other ↦ (let (m, rest, e, o) = h in (m, rest, ground arith, o))
]

pub ask_layout-ends :
    (available : List Layout) (default : Layout) (wrong inputs : List String)
    → has_id default.id available ≡ true
    → AnswersOffered available (ask_layout available default (wrong ++ ("" ∷ inputs)))
unfolding ask_layout chosen_id
ask_layout-ends available default [] inputs h = (default.id, inputs, ground arith, h)
ask_layout-ends available default (answer ∷ wrong) inputs h =
    accept-AnswersOffered available _ _ _ (ask_layout-ends available default wrong inputs h)

-- The ID, if there is one, is that of a layout of a codec in the report.
abbrev pub is_layout_of : Dict Device → AudioLayout → Bool
is_layout_of sound layout = elim layout.id [
  | none ↦ true
  | some n ↦ any (λ d. has_id n (available_layouts d.1.device_id)) sound
]

find_codec-member :
    (ds : Dict Device) (codec : Device) (n : ℕ)
    → find_codec ds ≡ some codec
    → has_id n (available_layouts codec.device_id) ≡ true
    → any (λ d. has_id n (available_layouts d.1.device_id)) ds ≡ true
unfolding find_codec
find_codec-member [] codec n e h = absurd (ground arith)
find_codec-member ((key, d) ∷ ds) codec n e h =
    elim (Bool-cases (elem d.device_id codec_layout_ids)) [
      | inl found ↦
          (let same : d ≡ codec = ground arith in
            let at =
              subst (λ (x : Device). has_id n (available_layouts x.device_id) ≡ true) (sym same)
                h in
            ground arith)
      | inr other ↦ (let rest = find_codec-member ds codec n (ground arith) h in ground arith)
    ]

abbrev pub OfCodec : Dict Device → AudioLayout → Type 0
OfCodec sound layout = is_layout_of sound layout ≡ true

-- The codec that is found names a controller, and the report has no section System Devices.
unfoldable pub lacks_section : Report → Option Device → Bool
lacks_section r none = false
lacks_section r (some codec) = elim codec.controller_device_id [
  | none ↦ false
  | some id ↦ not (str_eq id "") && (elim r.system_devices [ none ↦ true | some _ ↦ false ])
]

unfoldable pub fails : Report → Option (Dict (Dict String)) → Bool
fails r config = not (is_configured config) && lacks_section r (find_codec r.sound)

-- The function raises exactly where the test says so, and otherwise gives layouts of the report.
abbrev pub Selects : Dict Device → Bool → Asked AudioLayout → Type 0
Selects sound true r = r ≡ raised
Selects sound false r = Answers (OfCodec sound) r

lookup-cases :
    (codec : Device) (r : Report)
    → ((find_controller_of codec r.system_devices ≡ none) × (lacks_section r (some codec) ≡ true))
      ⊎ ((controller : Option Device) × (find_controller_of codec r.system_devices
            ≡ some controller)
          × (lacks_section r (some codec) ≡ false))
unfolding find_controller_of lacks_section
lookup-cases codec r = elim (Option-cases codec.controller_device_id) [
  | inl e ↦ inr (none, ground arith, ground arith)
  | inr (id, e) ↦ elim (Bool-cases (str_eq id "")) [
    | inl empty ↦ inr (none, ground arith, ground arith)
    | inr named ↦ elim (Option-cases r.system_devices) [
      | inl missing ↦ inl (ground arith, ground arith)
      | inr (devices, e') ↦ inr (find_by_id id devices, ground arith, ground arith)
    ]
  ]
]

select_with-Answers :
    (choose : List Layout → Layout) (r : Report) (required : Bool) (codec : Device)
    (controller : Option Device) (inputs : List String)
    → find_codec r.sound ≡ some codec
    → Answers (OfCodec r.sound) (select_with choose required codec (some controller) inputs)
unfolding select_with select_for_codec
select_with-Answers choose r required codec controller inputs e =
    let available = available_layouts codec.device_id in
    if_both (Answers (OfCodec r.sound))
      (required && (elim controller [ none ↦ true | some d ↦ false ])) refl
      (Answers-bind (Offered available) (OfCodec r.sound) _ _
        (ask_layout-Answers available (choose (default_candidates available)) inputs)
        (λ n inputs' h. find_codec-member r.sound codec n e h))

select_for-Selects :
    (choose : List Layout → Layout) (r : Report) (required : Bool) (found : Option Device)
    (inputs : List String)
    → find_codec r.sound ≡ found
    → Selects r.sound (lacks_section r found) (select_for choose r required found inputs)
unfolding select_for lacks_section select_with
select_for-Selects choose r required none inputs e = refl
select_for-Selects choose r required (some codec) inputs e = elim (lookup-cases codec r) [
  | inl (lookup, missing) ↦ rw (lookup, missing) refl
  | inr (controller, lookup, present) ↦
      rw (lookup, present) (select_with-Answers choose r required codec controller inputs e)
]

-- select_audio_codec_layout raises exactly where no layout is configured, the first codec with
-- layouts names its controller, and the report has no section System Devices. Otherwise, whatever
-- the answers and the random choice, nothing is raised, and the layout ID that is selected is that of
-- a layout of a codec in the report.
pub select_audio_codec_layout-Selects :
    (choose : List Layout → Layout) (r : Report) (config : Option (Dict (Dict String)))
    (required : Bool) (inputs : List String)
    → Selects r.sound (fails r config) (select_audio_codec_layout choose r config required inputs)
unfolding select_audio_codec_layout fails
select_audio_codec_layout-Selects choose r config required inputs =
    elim (Bool-cases (is_configured config)) [
      | inl configured ↦ rw configured refl
      | inr fresh ↦ rw fresh (select_for-Selects choose r required (find_codec r.sound) inputs refl)
    ]
