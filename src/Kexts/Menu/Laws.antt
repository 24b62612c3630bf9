-- ===== src/Kexts/Menu/Laws.antt =====
-- The menu keeps the checks sound, and fails only for an index outside of the table.
use freaky_ocs.Base.{
  ℕ, zero, suc, ◌<◌, String, ◌≡◌, refl, ap, ◌∙◌, Bool, true, false, not, ◌&&◌, ◌||◌, ltb, ltb→lt,
  Option, none, some, List, [], ◌∷◌, map, all, get_elem?, length, lower_is, arith, inl, inr,
  if_both, Bool-cases, Option-cases,
}
use freaky_ocs.Darwin.{Version}
use freaky_ocs.Kexts.Info.{KextInfo}
use freaky_ocs.Kexts.Data.{kexts}
use freaky_ocs.Kexts.Check.{Checks, Checking, done, ◌>>=◌, supports, uncheck_with, uncheck_kext}
use freaky_ocs.Kexts.Closure.{check_kext-total}
use freaky_ocs.Kexts.Sound.{is_sound, check_kext-is_sound, uncheck_with-is_sound}
use freaky_ocs.Kexts.Verify.{any_unsupported, kext_at}
use freaky_ocs.Kexts.Menu.{
  toggle_kext, toggle_kexts, MenuState, configuring, forcing, back, quit, failed, resume,
  enter_indices, parse_indices, menu_step, menu_run,
}

-- The index is that of a kext, or -1.
abbrev pub in_range : Option ℕ → Bool
in_range none = true
in_range (some i) = ltb i 83

abbrev pub is_failed : MenuState → Bool
is_failed (configuring c) = false
is_failed (forcing indices c) = false
is_failed (back c) = false
is_failed quit = false
is_failed failed = true

-- The checks of the state are sound, where it has any.
abbrev pub state_sound : MenuState → Bool
state_sound (configuring c) = is_sound c
state_sound (forcing indices c) = is_sound c
state_sound (back c) = is_sound c
state_sound quit = true
state_sound failed = true

DoneFrom : Checks → Checking → Type 0
DoneFrom c r = (c' : Checks) × (r ≡ done c') × (not (is_sound c) || is_sound c' ≡ true)

at_least : (xs : List KextInfo) (i : ℕ) → i < length xs → (k : KextInfo) × (get_elem? xs i ≡ some k)
at_least [] i lt = absurd (omega arith)
at_least (k ∷ xs) zero lt = (k, refl)
at_least (k ∷ xs) (suc i) lt = at_least xs i (omega arith)

index-lt : (xs : List KextInfo) (i : ℕ) (k : KextInfo) → get_elem? xs i ≡ some k → i < length xs
index-lt [] i k h = absurd (ground arith)
index-lt (x ∷ xs) zero k h = omega arith
index-lt (x ∷ xs) (suc i) k h = omega (arith, index-lt xs i k h)

kexts-length : length kexts ≡ 83
unfolding kexts
kexts-length = refl

toggle_kext-done :
    (target : Version) (allow : Bool) (i : Option ℕ) (c : Checks)
    → DoneFrom c (toggle_kext target allow i c)
unfolding DoneFrom toggle_kext uncheck_kext
toggle_kext-done target allow none c = (c, refl, ground arith)
toggle_kext-done target allow (some i) c = elim (Option-cases (get_elem? kexts i)) [
  | inl out ↦ (c, ground arith, ground arith)
  | inr (k, at) ↦ elim (Bool-cases (c i && not k.required)) [
    | inl on ↦
        (let off : k.required ≡ false = ground arith in
          (
            uncheck_with kexts k i c,
            ground arith,
            (elim (Bool-cases (is_sound c)) [
              | inl s ↦ (let s' = uncheck_with-is_sound i c k s at off in ground arith)
              | inr n ↦ ground arith
            ]),
          ))
    | inr off ↦
        (let lt : i < 83 = omega (arith, index-lt kexts i k at, kexts-length) in
          let (c', run, met) = check_kext-total target allow i c lt in
          (
            c',
            ground arith,
            (elim (Bool-cases (is_sound c)) [
              | inl s ↦ (let s' = check_kext-is_sound target allow 8 i c c' s run in ground arith)
              | inr n ↦ ground arith
            ]),
          ))
  ]
]

toggle_kexts-done :
    (target : Version) (allow : Bool) (is : List (Option ℕ)) (c : Checks)
    → DoneFrom c (toggle_kexts target allow is c)
unfolding DoneFrom toggle_kexts
toggle_kexts-done target allow [] c = (c, refl, ground arith)
toggle_kexts-done target allow (i ∷ is) c =
    let (c1, first, s1) = toggle_kext-done target allow i c in
    let (c2, rest, s2) = toggle_kexts-done target allow is c1 in
    (c2, ap (λ r. r >>= toggle_kexts target allow is) first ∙ rest, ground arith)

-- After the kexts are toggled, the menu waits for the next option.
resume-toggle :
    (target : Version) (allow : Bool) (is : List (Option ℕ)) (c : Checks)
    → (is_failed (resume (toggle_kexts target allow is c)) ≡ false)
      × (not (is_sound c) || state_sound (resume (toggle_kexts target allow is c)) ≡ true)
unfolding DoneFrom
resume-toggle target allow is c =
    let (c', run, s) = toggle_kexts-done target allow is c in
    (
      ap (λ r. is_failed (resume r)) run,
      ap (λ r. not (is_sound c) || state_sound (resume r)) run ∙ s,
    )

kext_at-in : (i : Option ℕ) → in_range i ≡ true → (k : KextInfo) × (kext_at kexts i ≡ some k)
unfolding kext_at kexts
kext_at-in none h = (_, refl)
kext_at-in (some i) h = at_least kexts i (ltb→lt i 83 h)

kext_at-out : (i : Option ℕ) → in_range i ≡ false → kext_at kexts i ≡ none
unfolding kext_at
kext_at-out none h = absurd (ground arith)
kext_at-out (some i) h = elim (Option-cases (get_elem? kexts i)) [
  | inl out ↦ out
  | inr (k, at) ↦ absurd (ground (arith, index-lt kexts i k at, kexts-length))
]

any_unsupported-in :
    (target : Version) (is : List (Option ℕ))
    → all in_range is ≡ true
    → (b : Bool) × (any_unsupported target (map (kext_at kexts) is) ≡ some b)
unfolding any_unsupported
any_unsupported-in target [] h = (false, refl)
any_unsupported-in target (i ∷ is) h =
    let (k, at) = kext_at-in i (ground arith) in
    let (b, rest) = any_unsupported-in target is (ground arith) in
    (not (supports target k) || b, ground arith)

any_unsupported-out :
    (target : Version) (is : List (Option ℕ))
    → all in_range is ≡ false
    → any_unsupported target (map (kext_at kexts) is) ≡ none
unfolding any_unsupported
any_unsupported-out target [] h = absurd (ground arith)
any_unsupported-out target (i ∷ is) h = elim (Bool-cases (in_range i)) [
  | inl r ↦
      (let (k, at) = kext_at-in i r in
        let rest = any_unsupported-out target is (ground arith) in ground arith)
  | inr r ↦ (let out = kext_at-out i r in ground arith)
]

-- The menu fails at once where an index is outside of the table, and nowhere else.
pub enter_indices-failed :
    (target : Version) (indices : List (Option ℕ)) (c : Checks)
    → is_failed (enter_indices target indices c) ≡ not (all in_range indices)
unfolding enter_indices
enter_indices-failed target indices c = elim (Bool-cases (all in_range indices)) [
  | inl r ↦
      (let (b, e) = any_unsupported-in target indices r in
        let (fine, sound) = resume-toggle target false indices c in ground arith)
  | inr r ↦ (let e = any_unsupported-out target indices r in ground arith)
]

enter_indices_sound :
    (target : Version) (indices : List (Option ℕ)) (c : Checks)
    → is_sound c ≡ true
    → state_sound (enter_indices target indices c) ≡ true
unfolding enter_indices
enter_indices_sound target indices c h =
    let (fine, sound) = resume-toggle target false indices c in
    elim (Option-cases (any_unsupported target (map (kext_at kexts) indices))) [
      | inl e ↦ ground arith
      | inr (false, e) ↦ ground arith
      | inr (true, e) ↦ ground arith
    ]

menu_step_sound :
    (target : Version) (s : MenuState) (option : String)
    → state_sound s ≡ true
    → state_sound (menu_step target s option) ≡ true
unfolding menu_step
menu_step_sound target (configuring c) option h =
    if_both (λ t. state_sound t ≡ true) (lower_is option "b") h
      (if_both (λ t. state_sound t ≡ true) (lower_is option "q") refl
        (enter_indices_sound target (parse_indices option) c h))
menu_step_sound target (forcing indices c) option h =
    let (fine, sound) = resume-toggle target true indices c in
    let (fine', sound') = resume-toggle target false indices c in
    if_both (λ t. state_sound t ≡ true) (lower_is option "yes") (ground arith)
      (if_both (λ t. state_sound t ≡ true) (lower_is option "no") (ground arith) h)
menu_step_sound target (back c) option h = h
menu_step_sound target quit option h = refl
menu_step_sound target failed option h = refl

pub menu_run_sound :
    (target : Version) (options : List String) (s : MenuState)
    → state_sound s ≡ true
    → state_sound (menu_run target s options) ≡ true
unfolding menu_run
menu_run_sound target [] s h = h
menu_run_sound target (option ∷ options) s h =
    menu_run_sound target options (menu_step target s option) (menu_step_sound target s option h)
