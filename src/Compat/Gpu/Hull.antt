-- ===== src/Compat/Gpu/Hull.antt =====
-- The hull of the ranges that the second loop of the GPU check has counted.
use freaky_ocs.Base.{
  String, ◌≡◌, ◌⊎◌, inl, inr, Bool, true, Option, none, some, [], ◌∷◌, ◌++◌, arith, refl, All,
  All-append, Bool-cases, if◌then◌else◌,
}
use mathlib.Core.Path.{subst}
use freaky_ocs.Base.Dict.{Dict}
use freaky_ocs.Darwin.{◌≤ᵥ◌, ≤ᵥ_refl, ≤ᵥ_trans, ≤ᵥ_of_lt, ≤ᵥ_of_not-lt}
use freaky_ocs.Report.{Range, Compatibility, Device, Monitor}
use freaky_ocs.Compat.State.{next, >>=-eq-next, next-injective}
use freaky_ocs.Compat.Gpu.Check.{
  Tally, widen, narrow, is_unsupported, settle_gpu, add_oclp, count_gpu, tally_gpu, settle_gpus,
}

-- `r` lies within `t`.
pub record Within (r t : Range) : Type 0 where
  pub high : r.max ≤ᵥ t.max
  pub low : t.min ≤ᵥ r.min

pub Within-trans : (r s t : Range) → Within r s → Within s t → Within r t
Within-trans r s t h k = record {
  high = ≤ᵥ_trans r.max s.max t.max h.high k.high;
  low = ≤ᵥ_trans t.min s.min r.min k.low h.low;
}

pub Within-narrow : (supported native : Range) → Within (narrow supported native) native
unfolding narrow
Within-narrow supported native = ground (
  arith,
  ≤ᵥ_refl native.max,
  ≤ᵥ_refl native.min,
  ≤ᵥ_of_lt supported.max native.max,
  ≤ᵥ_of_lt native.min supported.min,
)

-- A range within the hull of those counted so far; `none` where none has been counted.
abbrev pub Covers : Option Range → Range → Type 0
Covers none r = ⊥
Covers (some t) r = Within r t

Covers-widen : (t : Option Range) (r : Range) → Within r (widen t r)
unfolding widen
Covers-widen none r = record { high = ≤ᵥ_refl r.max; low = ≤ᵥ_refl r.min }
Covers-widen (some t) r =
    ground (arith, ≤ᵥ_refl r.max, ≤ᵥ_refl r.min, ≤ᵥ_of_not-lt t.max r.max, ≤ᵥ_of_not-lt r.min t.min)

Covers-widen_old : (t : Option Range) (q r : Range) → Covers t q → Covers (some (widen t r)) q
unfolding widen
Covers-widen_old none q r h = absurd h
Covers-widen_old (some t) q r h = Within-trans q t (widen (some t) r) h (grown t r)
  where
    grown : (t r : Range) → Within t (widen (some t) r)
    grown t r =
        ground (arith, ≤ᵥ_refl t.max, ≤ᵥ_refl t.min, ≤ᵥ_of_lt t.max r.max, ≤ᵥ_of_lt r.min t.min)

-- A supported GPU's range lies within the hull.
abbrev pub IsCounted : Option Range → String × Device → Type 0
IsCounted t (name, g) = (r : Range) → g.compatibility ≡ some (some r) → Covers t r

-- A GPU of the report as the second loop meets it: unsupported ones stay as they are.
round_of : Dict Monitor → Dict Device → String → Device → Device
round_of monitors gpus name g = if is_unsupported g then g else settle_gpu monitors gpus name g

All-IsCounted_grow :
    (t u : Option Range) (gpus : Dict Device)
    → ((q : Range) → Covers t q → Covers u q)
    → All (IsCounted t) gpus
    → All (IsCounted u) gpus
All-IsCounted_grow t u [] grow h = tt
All-IsCounted_grow t u ((name, g) ∷ gpus) grow h =
    (λ r e. grow r (h.0 r e), All-IsCounted_grow t u gpus grow h.1)

pub supported-add_oclp : (t : Tally) (g : Device) → (add_oclp t g).supported ≡ t.supported
unfolding add_oclp
supported-add_oclp t g = ground arith

-- One round keeps what is counted, and counts the GPU if it is supported.
pub tally_gpu-grows :
    (t : Tally) (unsupported : Bool) (g : Device) {u : Tally}
    → tally_gpu t unsupported g ≡ next u
    → (u.supported ≡ t.supported)
      ⊎ ((r : Range) × (g.compatibility ≡ some (some r))
          × (u.supported ≡ some (widen t.supported r)))
unfolding tally_gpu count_gpu
tally_gpu-grows t unsupported g {u} h = grown g.compatibility refl
  where
    grown :
        (c : Option Compatibility)
        → g.compatibility ≡ c
        → (u.supported ≡ t.supported)
          ⊎ ((r : Range) × (g.compatibility ≡ some (some r))
              × (u.supported ≡ some (widen t.supported r)))
    grown none e = inl (ground (arith, supported-add_oclp t g))
    grown (some none) e = inl (ground (arith, supported-add_oclp t g))
    grown (some (some r)) e = elim (Bool-cases unsupported) [
      | inl off ↦ inl (ground (arith, supported-add_oclp t g))
      | inr on ↦ inr (
        r,
        e,
        ground (arith, supported-add_oclp (record t { supported = some (widen t.supported r) }) g),
      )
    ]

tally_gpu-keeps :
    (t : Tally) (unsupported : Bool) (g : Device) {u : Tally}
    → tally_gpu t unsupported g ≡ next u
    → (q : Range) → Covers t.supported q
    → Covers u.supported q
tally_gpu-keeps t unsupported g h q c = elim (tally_gpu-grows t unsupported g h) [
  | inl same ↦ rw same c
  | inr (r, e, wider) ↦ rw wider (Covers-widen_old t.supported q r c)
]

tally_gpu-IsCounted :
    (t : Tally) (name : String) (unsupported : Bool) (g : Device) {u : Tally}
    → tally_gpu t unsupported g ≡ next u
    → (unsupported ≡ true → g.compatibility ≡ some none)
    → IsCounted u.supported (name, g)
unfolding tally_gpu count_gpu
tally_gpu-IsCounted t name unsupported g {u} h off r e = rw counted (Covers-widen t.supported r)
  where
    counted : u.supported ≡ some (widen t.supported r)
    counted =
        ground (arith, supported-add_oclp (record t { supported = some (widen t.supported r) }) g)

compatibility-is_unsupported : (g : Device) → is_unsupported g ≡ true → g.compatibility ≡ some none
unfolding is_unsupported
compatibility-is_unsupported g h = ground arith

-- The hull contains every GPU that the second loop leaves supported.
pub settle_gpus-IsCounted :
    (monitors : Dict Monitor) (done todo : Dict Device) (t : Tally) {gpus : Dict Device} {u : Tally}
    → All (IsCounted t.supported) done
    → settle_gpus monitors done todo t ≡ next (gpus, u)
    → All (IsCounted u.supported) gpus
unfolding settle_gpus
settle_gpus-IsCounted monitors done [] t {gpus} {u} counted h =
    subst (λ (p : Dict Device × Tally). All (IsCounted p.1.supported) p.0) (next-injective h)
      counted
settle_gpus-IsCounted monitors done ((name, g) ∷ rest) t {gpus} {u} counted h =
    let g' =
      if is_unsupported g then g else settle_gpu monitors (done ++ (name, g) ∷ rest) name g in
    let (t', counts, more) =
      >>=-eq-next (tally_gpu t (is_unsupported g) g')
        (λ t'. settle_gpus monitors (done ++ (name, g') ∷ []) rest t') h in
    settle_gpus-IsCounted monitors (done ++ (name, g') ∷ []) rest t'
      (All-append (IsCounted t'.supported) done ((name, g') ∷ [])
        (All-IsCounted_grow t.supported t'.supported done
          (tally_gpu-keeps t (is_unsupported g) g' counts) counted)
        (
          tally_gpu-IsCounted t name (is_unsupported g) g' counts
              (λ off. rw off (compatibility-is_unsupported g off)),
          tt,
        ))
      more

-- The same by the mark of the GPU: a range in the mark lies within the hull.
abbrev pub InHull : Option Range → Option Compatibility → Type 0
InHull t (some (some r)) = Covers t r
InHull t (some none) = Unit
InHull t none = Unit

InHull-IsCounted :
    (t : Option Range) (c : Option Compatibility)
    → ((r : Range) → c ≡ some (some r) → Covers t r)
    → InHull t c
InHull-IsCounted t (some (some r)) h = h r refl
InHull-IsCounted t (some none) h = tt
InHull-IsCounted t none h = tt

pub All-InHull :
    (t : Option Range) (gpus : Dict Device)
    → All (IsCounted t) gpus
    → All (λ (_, g). InHull t g.compatibility) gpus
All-InHull t [] h = tt
All-InHull t ((name, g) ∷ gpus) h = (InHull-IsCounted t g.compatibility h.0, All-InHull t gpus h.1)
