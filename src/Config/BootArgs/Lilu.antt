-- ===== src/Config/BootArgs/Lilu.antt =====
-- The argument -lilubetaall stands in the boot arguments once where a checked plugin of Lilu does not
-- support the macOS version, and not at all elsewhere.
use freaky_ocs.Base.{
  ℕ, suc, ◌+◌, String, ◌≡◌, refl, Bool, true, false, ◌&&◌, ◌||◌, Option, none, some, List, [], ◌∷◌,
  ◌++◌, str_eq, ◌==◌, if_both, if◌then◌else◌, arith, Bool-cases, inl, inr,
}
use mathlib.Core.Path.{subst}
use freaky_ocs.Darwin.{Version}
use freaky_ocs.Kexts.Info.{KextInfo}
use freaky_ocs.Kexts.Data.{kexts}
use freaky_ocs.Kexts.Check.{Checks}
use freaky_ocs.Kexts.Ask.{Asked, answered, waiting, raised, Asking, ◌>>=◌}
use freaky_ocs.Config.Audio.{select_audio_codec_layout}
use freaky_ocs.Config.BootArgs.Others.{
  other_args, Other, append-Other, when-Other, literal, OtherArgs, whatever_green_for-Other,
}
use freaky_ocs.Config.BootArgs.{
  BootArg, flag, flags, is_flag, has_flag, whatever_green_args, add_names, needs_lilu_beta,
  add_lilu_beta, Settings, layout_args, add_layout, kext_args, kexts_args, first_names, first_args,
  boot_args,
}

-- How often the argument stands in the list.
unfoldable pub count_beta : List BootArg → ℕ
count_beta [] = 0
count_beta (a ∷ args) = (if is_flag "-lilubetaall" a then 1 else 0) + count_beta args

-- A checked kext of the list needs the argument.
unfoldable pub any_needs_beta : Version → List KextInfo → Checks → Bool
any_needs_beta macos [] c = false
any_needs_beta macos (k ∷ ks) c =
    (c 0 && needs_lilu_beta macos k) || any_needs_beta macos ks (λ i. c (suc i))

count_beta-append : (xs ys : List BootArg) → count_beta (xs ++ ys) ≡ count_beta xs + count_beta ys
unfolding count_beta
count_beta-append [] ys = omega arith
count_beta-append (x ∷ xs) ys = omega (arith, count_beta-append xs ys)

count_beta-flags : (names : List String) → other_args names ≡ true → count_beta (flags names) ≡ 0
unfolding count_beta flags is_flag
count_beta-flags [] h = refl
count_beta-flags (t ∷ names) h = ground (arith, count_beta-flags names)

has_flag-count :
    (args : List BootArg) (b : Bool)
    → count_beta args ≡ (if b then 1 else 0)
    → has_flag "-lilubetaall" args ≡ b
unfolding count_beta has_flag
has_flag-count [] true h = absurd (ground arith)
has_flag-count [] false h = refl
has_flag-count (a ∷ args) b h = elim (Bool-cases (is_flag "-lilubetaall" a)) [
  | inl at ↦ ground arith
  | inr off ↦ (let rest = has_flag-count args b (ground arith) in ground arith)
]

count_beta-first : (s : Settings) (needs_oclp : Bool) → count_beta (first_args s needs_oclp) ≡ 0
unfolding first_args first_names
count_beta-first s needs_oclp =
    let h : Other (first_names s needs_oclp) =
      append-Other {xs = "-v" ∷ "debug=0x100" ∷ "keepsyms=1" ∷ []} (literal refl)
        (append-Other (when-Other _ (literal refl)) (when-Other _ (literal refl))) in
    count_beta-flags (first_names s needs_oclp) h.other

-- The argument stands in the list once if b holds, and not at all otherwise.
abbrev pub Counts : Bool → List BootArg → Type 0
Counts b args = count_beta args ≡ (if b then 1 else 0)

-- An exception (a report without GPUs), a wait, or a result with the property.
abbrev pub Result : (List BootArg → Type 0) → Asked (List BootArg) → Type 0
Result Holds (answered args inputs) = Holds args
Result Holds waiting = Unit
Result Holds raised = Unit

Result-bind :
    {A : Type 0} (Q : List BootArg → Type 0) (r : Asked A) (f : A → Asking (List BootArg))
    → ((x : A) (inputs : List String) → Result Q (f x inputs))
    → Result Q (r >>= f)
Result-bind Q (answered x inputs) f h = h x inputs
Result-bind Q waiting f h = tt
Result-bind Q raised f h = tt

add_lilu_beta-Counts :
    (macos : Version) (k : KextInfo) (b : Bool) (args : List BootArg)
    → Counts b args
    → Counts (b || needs_lilu_beta macos k) (add_lilu_beta macos k args)
unfolding add_lilu_beta count_beta is_flag
add_lilu_beta-Counts macos k b args h =
    ground (arith, has_flag-count args b h, count_beta-append args (flag "-lilubetaall" ∷ []))

-- Arguments without -lilubetaall leave the count.
append-Counts :
    (b : Bool) (args more : List BootArg)
    → count_beta more ≡ 0
    → Counts b args
    → Counts b (args ++ more)
append-Counts b args more e h = omega (arith, count_beta-append args more)

add_names-Counts :
    (b : Bool) (args : List BootArg) (names : Option (List String)) (inputs : List String)
    → OtherArgs names
    → Counts b args
    → Result (Counts b) (add_names args names inputs)
add_names-Counts b args none inputs o h = tt
add_names-Counts b args (some names) inputs o h =
    append-Counts b args (flags names) (count_beta-flags names o.other) h

count_beta-layout : (id : Option ℕ) → count_beta (layout_args id) ≡ 0
unfolding count_beta is_flag
count_beta-layout none = refl
count_beta-layout (some n) = if_both (λ args. count_beta args ≡ 0) (n == 0) refl refl

kext_args-Counts :
    (s : Settings) (k : KextInfo) (b : Bool) (args : List BootArg) (inputs : List String)
    → Counts b args
    → Result (Counts b) (kext_args s k args inputs)
unfolding kext_args whatever_green_args
kext_args-Counts s k b args inputs h =
    if_both (Result (Counts b)) (str_eq k.name "WhateverGreen")
      (add_names-Counts b args (whatever_green_args s.report s.macos) inputs
        (whatever_green_for-Other s.report s.macos _ _) h)
      (if_both (Result (Counts b)) (str_eq k.name "AppleALC")
        (Result-bind (Counts b)
          (select_audio_codec_layout s.choose s.report (some s.properties) false inputs)
          (λ layout inputs'. answered (add_layout args layout) inputs')
          (λ layout inputs'. append-Counts b args _ (count_beta-layout layout.id) h))
        (if_both (Result (Counts b)) (str_eq k.name "VoodooI2C")
          (append-Counts b args _ (count_beta-flags ("-vi2c-force-polling" ∷ []) refl) h)
          (if_both (Result (Counts b)) (str_eq k.name "CpuTopologyRebuild")
            (append-Counts b args _ (count_beta-flags ("ctrsmt=full" ∷ []) refl) h) h)))

Result-then :
    (P Q : List BootArg → Type 0) (r : Asked (List BootArg))
    (f : List BootArg → Asking (List BootArg))
    → Result P r
    → ((x : List BootArg) (inputs : List String) → P x → Result Q (f x inputs))
    → Result Q (r >>= f)
Result-then P Q (answered x inputs) f h k = k x inputs h
Result-then P Q waiting f h k = tt
Result-then P Q raised f h k = tt

or_assoc : (a b c : Bool) → ((a || b) || c) ≡ (a || (b || c))
or_assoc true b c = refl
or_assoc false b c = refl

-- A round of the loop, checked or not, before the rounds for the kexts that follow.
round-Counts :
    (s : Settings) (k : KextInfo) (on b later : Bool) (args : List BootArg) (inputs : List String)
    (f : List BootArg → Asking (List BootArg))
    → ((b' : Bool) (args' : List BootArg) (inputs' : List String)
        → Counts b' args'
        → Result (Counts (b' || later)) (f args' inputs'))
    → Counts b args
    → Result
        (Counts (b || ((on && needs_lilu_beta s.macos k) || later)))
        (if on then (kext_args s k (add_lilu_beta s.macos k args) inputs >>= f) else f args inputs)
round-Counts s k true b later args inputs f rest h =
    let n = needs_lilu_beta s.macos k in
    Result-then (Counts (b || n)) (Counts (b || (n || later))) _ f
      (kext_args-Counts s k (b || n) (add_lilu_beta s.macos k args) inputs
        (add_lilu_beta-Counts s.macos k b args h))
      (λ args' inputs' h'.
        subst (λ t. Result (Counts t) (f args' inputs')) (or_assoc b n later)
          (rest (b || n) args' inputs' h'))
round-Counts s k false b later args inputs f rest h = rest b args inputs h

or_false : (b : Bool) → b ≡ (b || false)
or_false true = refl
or_false false = refl

kexts_args-Counts :
    (s : Settings) (ks : List KextInfo) (c : Checks) (b : Bool) (args : List BootArg)
    (inputs : List String)
    → Counts b args
    → Result (Counts (b || any_needs_beta s.macos ks c)) (kexts_args s ks c args inputs)
unfolding kexts_args any_needs_beta
kexts_args-Counts s [] c b args inputs h = subst (λ t. Counts t args) (or_false b) h
kexts_args-Counts s (k ∷ ks) c b args inputs h =
    round-Counts s k (c 0) b (any_needs_beta s.macos ks (λ i. c (suc i))) args inputs _
      (λ b' args' inputs' h'. kexts_args-Counts s ks (λ i. c (suc i)) b' args' inputs' h') h

pub boot_args-lilubetaall :
    (s : Settings) (needs_oclp : Bool) (c : Checks) (inputs : List String)
    → Result (Counts (any_needs_beta s.macos kexts c)) (boot_args s needs_oclp c inputs)
unfolding boot_args
boot_args-lilubetaall s needs_oclp c inputs =
    kexts_args-Counts s kexts c false (first_args s needs_oclp) inputs
      (count_beta-first s needs_oclp)
