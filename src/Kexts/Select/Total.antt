-- ===== src/Kexts/Select/Total.antt =====
-- The selection returns a set of checked kexts without conflicts, whatever the report and the
-- answers.
use freaky_ocs.Base.{
  ℕ, ◌<◌, String, ◌≡◌, refl, sym, Bool, true, false, not, ◌||◌, some, List, [], ◌∷◌, map, all,
  arith, length, get_elem?, if_both, lower_is, Option-cases, inl, inr,
}
use mathlib.Core.Path.{subst}
use freaky_ocs.Darwin.{Version, get_macos_name_by_darwin}
use freaky_ocs.Report.{Report}
use freaky_ocs.Kexts.Info.{KextInfo}
use freaky_ocs.Kexts.Data.{kexts, index_by_name}
use freaky_ocs.Kexts.Ask.{Answers, Answers-bind}
use freaky_ocs.Kexts.Check.{Checks, Checking, done, supports}
use freaky_ocs.Kexts.Closure.{check_kext-total}
use freaky_ocs.Kexts.Sound.{is_sound, check_kext-is_sound, required-is_sound}
use freaky_ocs.Kexts.Known.{is_kext, Known, append-Known}
use freaky_ocs.Kexts.Verify.{
  ask_force, any_unsupported, force_if, verify_kexts, kext_by_name, verify_names,
}
use freaky_ocs.Kexts.Select.{
  Picked, pick_kexts, required_checks, check_names, Selection, select_required_kexts,
}
use freaky_ocs.Kexts.Select.Known.{
  board_kexts-Known, processor_kexts-Known, clock_kexts-Known, device_kexts-Known,
}
use freaky_ocs.Kexts.Select.Answers.{
  KnownSound, sound_kexts-Answers, gpu_kexts-Answers, network_kexts-Answers,
}

-- A name is looked up at the index of a kext.
index_by_name-in :
    (table : List KextInfo) (name : String) (i : ℕ)
    → index_by_name table name ≡ some i
    → (k : KextInfo) × (get_elem? table i ≡ some k) × (i < length table)
unfolding index_by_name
index_by_name-in [] name i h = absurd (ground arith)
index_by_name-in (k ∷ table) name i h = elim (Option-cases (index_by_name table name)) [
  | inl e ↦ (k, ground arith, ground arith)
  | inr (j, e) ↦
      (let (k', at, lt) = index_by_name-in table name j e in (k', ground arith, ground arith))
]

is_kext-index :
    (name : String) → is_kext name ≡ true → (i : ℕ) × (index_by_name kexts name ≡ some i) × (i < 83)
unfolding is_kext kexts
is_kext-index name h = elim (Option-cases (index_by_name kexts name)) [
  | inl e ↦ absurd (ground arith)
  | inr (i, e) ↦ (let (k, at, lt) = index_by_name-in kexts name i e in (i, e, lt))
]

any_unsupported-known :
    (target : Version) (names : List String)
    → all is_kext names ≡ true
    → (b : Bool) × (any_unsupported target (map (kext_by_name kexts) names) ≡ some b)
unfolding any_unsupported kext_by_name
any_unsupported-known target [] h = (false, refl)
any_unsupported-known target (name ∷ names) h =
    let (i, e, lt) = is_kext-index name (ground arith) in
    let (k, at, lt') = index_by_name-in kexts name i e in
    let (b, rest) = any_unsupported-known target names (ground arith) in
    let here : kext_by_name kexts name ≡ some k = ground arith in
    (not (supports target k) || b, ground arith)

ask_force-Answers : (inputs : List String) → Answers (λ (b : Bool). Unit) (ask_force inputs)
unfolding ask_force
ask_force-Answers [] = tt
ask_force-Answers (answer ∷ inputs) =
    if_both (Answers (λ (b : Bool). Unit)) (lower_is answer "yes") tt
      (if_both (Answers (λ (b : Bool). Unit)) (lower_is answer "no") tt (ask_force-Answers inputs))

abbrev AnyBool : Bool → Type 0
AnyBool b = Unit

force_if-Answers : (b : Bool) (inputs : List String) → Answers AnyBool (force_if (some b) inputs)
unfolding force_if
force_if-Answers false inputs = tt
force_if-Answers true inputs = ask_force-Answers inputs

verify_names-Answers :
    (target : Version) (names inputs : List String)
    → Known names
    → Answers AnyBool (verify_names kexts target names inputs)
unfolding verify_names verify_kexts
verify_names-Answers target names inputs h =
    let (b, e) = any_unsupported-known target names h.known in
    subst (λ x. Answers AnyBool (force_if x inputs)) (sym e) (force_if-Answers b inputs)

abbrev KnownPicked : Picked → Type 0
KnownPicked p = Known p.names

pick_kexts-Answers :
    (r : Report) (macos : Version) (oclp batp : Bool) (inputs : List String) (name : String)
    → get_macos_name_by_darwin macos.major ≡ some name
    → Answers KnownPicked (pick_kexts r macos oclp batp inputs)
unfolding pick_kexts
pick_kexts-Answers r macos oclp batp inputs name named =
    Answers-bind KnownSound KnownPicked _ _ (sound_kexts-Answers macos r.sound oclp inputs)
      (λ sound inputs1 h.
        Answers-bind Known KnownPicked _ _ (gpu_kexts-Answers macos r.gpu r.gpu inputs1)
          (λ graphics inputs2 k.
            Answers-bind Known KnownPicked _ _
              (network_kexts-Answers macos name named r.network inputs2)
              (λ network inputs3 l.
                let before =
                  append-Known (board_kexts-Known r macos)
                    (append-Known h (append-Known (processor_kexts-Known r macos) k)) in
                append-Known before (
                  append-Known (clock_kexts-Known r sound.needs_oclp _)
                    (append-Known l (device_kexts-Known r macos batp))))))

-- The checks are done, and they are sound.
abbrev pub DoneSound : Checking → Type 0
DoneSound r = (c : Checks) × (r ≡ done c) × (is_sound c ≡ true)

check_names-done :
    (target : Version) (allow : Bool) (names : List String) (c : Checks)
    → all is_kext names ≡ true
    → is_sound c ≡ true
    → DoneSound (check_names target allow names c)
unfolding check_names
check_names-done target allow [] c h free = (c, refl, free)
check_names-done target allow (name ∷ names) c h free =
    let (i, e, lt) = is_kext-index name (ground arith) in
    let (c1, run, met) = check_kext-total target allow i c lt in
    let free1 = check_kext-is_sound target allow 8 i c c1 free run in
    let (c2, rest, free2) = check_names-done target allow names c1 (ground arith) free1 in
    (c2, ground arith, free2)

pub required_checks-is_sound : is_sound (required_checks kexts) ≡ true
unfolding required_checks
required_checks-is_sound = required-is_sound (required_checks kexts) (λ i. refl)

abbrev pub Fine : Selection → Type 0
Fine s = DoneSound s.checking

pub select_required_kexts-Answers :
    (r : Report) (macos : Version) (oclp batp : Bool) (inputs : List String) (name : String)
    → get_macos_name_by_darwin macos.major ≡ some name
    → Answers Fine (select_required_kexts r macos oclp batp inputs)
unfolding select_required_kexts
select_required_kexts-Answers r macos oclp batp inputs name named =
    Answers-bind KnownPicked Fine _ _ (pick_kexts-Answers r macos oclp batp inputs name named)
      (λ picked inputs1 h.
        Answers-bind AnyBool Fine _ _ (verify_names-Answers macos picked.names inputs1 h)
          (λ allow inputs2 _.
            check_names-done macos allow picked.names (required_checks kexts) h.known
              required_checks-is_sound))
