-- ===== src/Compat/Gpu/Attained.antt =====
-- The hull of the second loop of the GPU check is no wider than the ranges that it has counted.
use freaky_ocs.Base.{
  String, ◌≡◌, inl, inr, Bool, Option, none, some, [], ◌∷◌, ◌++◌, refl, Any, Any-append,
  Any-append_last, Bool-cases, if◌then◌else◌,
}
use mathlib.Core.Path.{subst}
use freaky_ocs.Base.Dict.{Dict}
use freaky_ocs.Darwin.{Version, lt_version}
use freaky_ocs.Report.{Range, Device, Monitor}
use freaky_ocs.Compat.State.{next, >>=-eq-next, next-injective}
use freaky_ocs.Compat.Gpu.Hull.{tally_gpu-grows}
use freaky_ocs.Compat.Gpu.Check.{Tally, widen, is_unsupported, settle_gpu, tally_gpu, settle_gpus}

-- The GPU is supported, with this last version, or with this first one.
abbrev pub HasMax : Version → String × Device → Type 0
HasMax v (name, g) = (r : Range) × (g.compatibility ≡ some (some r)) × (r.max ≡ v)

abbrev pub HasMin : Version → String × Device → Type 0
HasMin v (name, g) = (r : Range) × (g.compatibility ≡ some (some r)) × (r.min ≡ v)

-- Each bound of the range is that of a supported GPU.
abbrev pub Attained : Dict Device → Option Range → Type 0
Attained gpus none = Unit
Attained gpus (some hull) = Any (HasMax hull.max) gpus × Any (HasMin hull.min) gpus

Attained-append :
    (gpus more : Dict Device) (t : Option Range) → Attained gpus t → Attained (gpus ++ more) t
Attained-append gpus more none h = tt
Attained-append gpus more (some hull) (high, low) =
    (Any-append (HasMax hull.max) gpus more high, Any-append (HasMin hull.min) gpus more low)

Attained-widen :
    (gpus : Dict Device) (name : String) (g : Device) (t : Option Range) (r : Range)
    → g.compatibility ≡ some (some r)
    → Attained gpus t
    → Attained (gpus ++ (name, g) ∷ []) (some (widen t r))
unfolding widen
Attained-widen gpus name g none r e h = (
  Any-append_last (HasMax r.max) gpus (name, g) (r, e, refl),
  Any-append_last (HasMin r.min) gpus (name, g) (r, e, refl),
)
Attained-widen gpus name g (some t) r e (high, low) = (
  elim (Bool-cases (lt_version t.max r.max)) [
    | inl above ↦ rw above (Any-append_last (HasMax r.max) gpus (name, g) (r, e, refl))
    | inr within ↦ rw within (Any-append (HasMax t.max) gpus ((name, g) ∷ []) high)
  ],
  elim (Bool-cases (lt_version r.min t.min)) [
    | inl below ↦ rw below (Any-append_last (HasMin r.min) gpus (name, g) (r, e, refl))
    | inr within ↦ rw within (Any-append (HasMin t.min) gpus ((name, g) ∷ []) low)
  ],
)

tally_gpu-Attained :
    (gpus : Dict Device) (name : String) (g : Device) (t : Tally) (unsupported : Bool) {u : Tally}
    → tally_gpu t unsupported g ≡ next u
    → Attained gpus t.supported
    → Attained (gpus ++ (name, g) ∷ []) u.supported
tally_gpu-Attained gpus name g t unsupported h attained = elim (tally_gpu-grows t unsupported g h) [
  | inl same ↦ rw same (Attained-append gpus ((name, g) ∷ []) t.supported attained)
  | inr (r, e, wider) ↦ rw wider (Attained-widen gpus name g t.supported r e attained)
]

-- Each bound of the hull is that of a GPU that the second loop leaves supported.
pub settle_gpus-Attained :
    (monitors : Dict Monitor) (done todo : Dict Device) (t : Tally) {gpus : Dict Device} {u : Tally}
    → Attained done t.supported
    → settle_gpus monitors done todo t ≡ next (gpus, u)
    → Attained gpus u.supported
unfolding settle_gpus
settle_gpus-Attained monitors done [] t {gpus} {u} attained h =
    subst (λ (p : Dict Device × Tally). Attained p.0 p.1.supported) (next-injective h) attained
settle_gpus-Attained monitors done ((name, g) ∷ rest) t {gpus} {u} attained h =
    let g' =
      if is_unsupported g then g else settle_gpu monitors (done ++ (name, g) ∷ rest) name g in
    let (t', counts, more) =
      >>=-eq-next (tally_gpu t (is_unsupported g) g')
        (λ t'. settle_gpus monitors (done ++ (name, g') ∷ []) rest t') h in
    settle_gpus-Attained monitors (done ++ (name, g') ∷ []) rest t'
      (tally_gpu-Attained done name g' t (is_unsupported g) counts attained) more
