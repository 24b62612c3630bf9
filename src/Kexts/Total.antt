-- ===== src/Kexts/Total.antt =====
-- `check_kext` on a closed set of kexts: it returns, and what is checked then.
use freaky_ocs.Base.{
  ℕ, zero, suc, ◌<◌, String, ◌≡◌, refl, Bool, true, false, not, ◌||◌, none, some, List, [], ◌∷◌,
  get_elem?, all, ◌⊎◌, ◌∙◌, sym, inl, inr, arith, Bool-cases, Option-cases, ==_iff, ◌==◌,
}
use mathlib.Core.Path.{subst}
use freaky_ocs.Darwin.{Version}
use freaky_ocs.Kexts.Info.{KextInfo}
use freaky_ocs.Kexts.Data.{index_by_name}
use freaky_ocs.Kexts.Check.{
  Checks, Checking, done, ◌>>=◌, mark, uncheck_conflicts, check_required, is_allowed, check_kext,
}
use freaky_ocs.Kexts.Closed.{
  has, required_index, name_within, requires_within, is_closed, unchecked, unchecked-le,
  unchecked-mark-lt, closed-member, uncheck_conflicts-member,
}

-- The kext at the index is one that the checks let through.
unfoldable pub allowed_at : List KextInfo → Version → Bool → ℕ → Bool
allowed_at table target allow i = elim (get_elem? table i) [
  | none ↦ false
  | some k ↦ is_allowed target allow k
]

unfoldable pub requirement_met : List KextInfo → Version → Bool → Checks → String → Bool
requirement_met table target allow c name = elim (required_index table name) [
  | none ↦ true
  | some i ↦ c i || not (allowed_at table target allow i)
]

-- Every kext that the one at the index requires is checked, or not let through.
unfoldable pub satisfied : List KextInfo → Version → Bool → Checks → ℕ → Bool
satisfied table target allow c i = elim (get_elem? table i) [
  | none ↦ false
  | some k ↦ all (requirement_met table target allow c) k.requires_kexts
]

module _ (table : List KextInfo) (target : Version) (allow : Bool) (set : List ℕ)
    (closed : is_closed table set ≡ true) where
  abbrev pub Grows : Checks → Checks → Type 0
  Grows c c' = (j : ℕ) → has set j ≡ true → c j ≡ true → c' j ≡ true

  abbrev pub New : Checks → Checks → Type 0
  New c c' =
      (j : ℕ)
      → has set j ≡ true
      → c' j ≡ true
      → (c j ≡ true) ⊎ (satisfied table target allow c' j ≡ true)

  requirement-Grows :
      (c c' : Checks) (name : String)
      → Grows c c'
      → name_within table set name ≡ true
      → requirement_met table target allow c name ≡ true
      → requirement_met table target allow c' name ≡ true
  unfolding requirement_met name_within
  requirement-Grows c c' name g w h = elim (Option-cases (required_index table name)) [
    | inl e ↦ ground arith
    | inr (i, e) ↦ elim (Bool-cases (c i)) [
      | inl on ↦ (let later = g i (ground arith) on in ground arith)
      | inr off ↦ ground arith
    ]
  ]

  requirements-grow :
      (c c' : Checks) (names : List String)
      → Grows c c'
      → all (name_within table set) names ≡ true
      → all (requirement_met table target allow c) names ≡ true
      → all (requirement_met table target allow c') names ≡ true
  requirements-grow c c' [] g w h = refl
  requirements-grow c c' (name ∷ names) g w h =
      let rest = requirements-grow c c' names g (ground arith) (ground arith) in
      let first = requirement-Grows c c' name g (ground arith) (ground arith) in ground arith

  -- What holds of a member's requirements still holds when more members are checked.
  satisfied-Grows :
      (c c' : Checks) (j : ℕ)
      → has set j ≡ true
      → Grows c c'
      → satisfied table target allow c j ≡ true
      → satisfied table target allow c' j ≡ true
  unfolding satisfied requires_within
  satisfied-Grows c c' j m g h =
      let (k, e, w, f) = closed-member table set closed j m in
      let before : all (requirement_met table target allow c) k.requires_kexts ≡ true =
        ground arith in
      let after = requirements-grow c c' k.requires_kexts g w before in ground arith

  New-trans : (c c1 c2 : Checks) → New c c1 → New c1 c2 → Grows c1 c2 → New c c2
  New-trans c c1 c2 n1 n2 g j m h = elim (n2 j m h) [
    | inl on ↦ elim (n1 j m on) [
      | inl first ↦ inl first
      | inr s ↦ inr (satisfied-Grows c1 c2 j m g s)
    ]
    | inr s ↦ inr s
  ]

  -- What a call at the index i leaves.
  abbrev pub Leaves : ℕ → Checks → Checking → Type 0
  Leaves i c r =
      (c' : Checks) × (r ≡ done c')
      × Grows c c'
      × (c' i || not (allowed_at table target allow i) ≡ true)
      × New c c'

  abbrev LeavesAll : List String → Checks → Checking → Type 0
  LeavesAll names c r =
      (c' : Checks) × (r ≡ done c')
      × Grows c c'
      × (all (requirement_met table target allow c') names ≡ true)
      × New c c'

  check_required-skip :
      (check : ℕ → Checks → Checking) (name : String) (names : List String) (c : Checks)
      → required_index table name ≡ none
      → check_required check table (name ∷ names) c ≡ check_required check table names c
  unfolding check_required required_index
  check_required-skip check name names c h = elim (Option-cases (index_by_name table name)) [
    | inl e ↦ ground arith
    | inr (zero, e) ↦ ground arith
    | inr (suc i, e) ↦ ground arith
  ]

  check_required-call :
      (check : ℕ → Checks → Checking) (name : String) (names : List String) (c : Checks) (i : ℕ)
      → required_index table name ≡ some i
      → check_required check table (name ∷ names) c ≡ check i c >>= check_required check table names
  unfolding check_required required_index
  check_required-call check name names c i h = elim (Option-cases (index_by_name table name)) [
    | inl e ↦ ground arith
    | inr (zero, e) ↦ ground arith
    | inr (suc j, e) ↦ ground arith
  ]

  check_required-Leaves :
      (check : ℕ → Checks → Checking) (fuel : ℕ)
      → ((i : ℕ) (c : Checks) → has set i ≡ true → unchecked set c < fuel → Leaves i c (check i c))
      → (names : List String) (c : Checks) → all (name_within table set) names ≡ true
      → unchecked set c < fuel
      → LeavesAll names c (check_required check table names c)
  unfolding check_required requirement_met name_within
  check_required-Leaves check fuel calls [] c w lt = (c, refl, (λ j m h. h), refl, (λ j m h. inl h))
  check_required-Leaves check fuel calls (name ∷ names) c w lt =
      elim (Option-cases (required_index table name)) [
        | inl e ↦
            (let (c1, e1, g1, m1, n1) =
                check_required-Leaves check fuel calls names c (ground arith) lt in
              (c1, check_required-skip check name names c e ∙ e1, g1, ground arith, n1))
        | inr (i, e) ↦
            (let (c1, e1, g1, m1, n1) = calls i c (ground arith) lt in
              let le = unchecked-le set c c1 g1 in
              let (c2, e2, g2, m2, n2) =
                check_required-Leaves check fuel calls names c1 (ground arith) (omega arith) in
              let met : requirement_met table target allow c1 name ≡ true = ground arith in
              let first = requirement-Grows c1 c2 name g2 (ground arith) met in
              (
                c2,
                (let e = check_required-call check name names c i e in ground arith),
                (λ j m h. g2 j m (g1 j m h)),
                ground arith,
                New-trans c c1 c2 n1 n2 g2,
              ))
      ]

  pub check_kext-Leaves :
      (fuel i : ℕ) (c : Checks)
      → has set i ≡ true
      → unchecked set c < fuel
      → Leaves i c (check_kext table target allow fuel i c)
  unfolding check_kext allowed_at satisfied requires_within
  check_kext-Leaves zero i c m lt = absurd (omega arith)
  check_kext-Leaves (suc fuel) i c m lt =
      let (k, e, w, f) = closed-member table set closed i m in
      elim (Bool-cases (c i || not (is_allowed target allow k))) [
        | inl stop ↦ (c, ground arith, (λ j mj h. h), ground arith, (λ j mj h. inl h))
        | inr run ↦
            (let off : c i ≡ false = ground arith in
              let fewer = unchecked-mark-lt set i c m off in
              let (c2, e2, g2, m2, n2) =
                check_required-Leaves (check_kext table target allow fuel) fuel
                  (check_kext-Leaves fuel) k.requires_kexts (mark i c) w (omega arith) in
              let c3 = uncheck_conflicts table k c2 in
              let same = λ (j : ℕ) (mj : has set j ≡ true).
                uncheck_conflicts-member table set closed k j c2 f mj in
              let grows : Grows c2 c3 = λ j mj h. same j mj ∙ h in
              let self : c3 i ≡ true = grows i m (g2 i m (ground (arith, ==_iff i i))) in
              let met : satisfied table target allow c2 i ≡ true = ground arith in
              (
                c3,
                ground arith,
                (λ j mj h. grows j mj (g2 j mj (ground arith))),
                ground arith,
                (λ j mj h. elim (n2 j mj (sym (same j mj) ∙ h)) [
                  | inl marked ↦ elim (Bool-cases (j == i)) [
                    | inl at ↦ inr (
                        satisfied-Grows c2 c3 j mj grows (
                          subst (λ x. satisfied table target allow c2 x ≡ true)
                            (sym ((==_iff j i).0 at)) met))
                    | inr other ↦ inl (ground arith)
                  ]
                  | inr s ↦ inr (satisfied-Grows c2 c3 j mj grows s)
                ]),
              ))
      ]
