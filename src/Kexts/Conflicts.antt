-- ===== src/Kexts/Conflicts.antt =====
-- `check_kext` leaves no two checked kexts of one conflict group, whatever the table.
use freaky_ocs.Base.{
  ℕ, zero, suc, String, ◌≡◌, refl, sym, ap, ◌∙◌, Bool, true, false, not, ◌&&◌, ◌||◌, Option, none,
  some, List, get_elem?, inl, inr, arith, Bool-cases, Option-cases, ==_iff, ◌==◌, str_eq, eq_iff,
}
use freaky_ocs.Darwin.{Version}
use freaky_ocs.Kexts.Info.{KextInfo}
use freaky_ocs.Kexts.Total.{allowed_at}
use freaky_ocs.Kexts.Invariant.{done-inj, >>=-done, check_kext-Invariant}
use freaky_ocs.Kexts.Check.{
  Checks, done, ◌>>=◌, mark, same_group, conflicts, uncheck_conflicts, check_required, is_allowed,
  check_kext,
}

str_eq_comm : (a b : String) → str_eq a b ≡ str_eq b a
str_eq_comm a b = elim (Bool-cases (str_eq a b)) [
  | inl h ↦ h ∙ sym ((eq_iff b a).1 (sym ((eq_iff a b).0 h)))
  | inr h ↦ elim (Bool-cases (str_eq b a)) [
    | inl h' ↦ (eq_iff a b).1 (sym ((eq_iff b a).0 h')) ∙ sym h'
    | inr h' ↦ h ∙ sym h'
  ]
]

same_group_comm : (g h : Option String) → same_group g h ≡ same_group h g
same_group_comm none none = refl
same_group_comm none (some b) = refl
same_group_comm (some a) none = refl
same_group_comm (some a) (some b) = str_eq_comm a b

pub conflicts_comm : (k other : KextInfo) → conflicts k other ≡ conflicts other k
unfolding conflicts
conflicts_comm k other = rw (same_group_comm k.conflict_group_id other.conflict_group_id) (
    ap (λ x. same_group other.conflict_group_id k.conflict_group_id && not x)
      (str_eq_comm other.name k.name))

module _ (table : List KextInfo) where
  -- Two checked kexts that conflict are not both outside of `busy`.
  abbrev pub FreeUpTo : (ℕ → Bool) → Checks → Type 0
  FreeUpTo busy c =
      (a b : ℕ) (k other : KextInfo)
      → get_elem? table a ≡ some k
      → get_elem? table b ≡ some other
      → c a ≡ true
      → c b ≡ true
      → conflicts k other ≡ true
      → busy a || busy b ≡ true

  mark-FreeUpTo :
      (busy : ℕ → Bool) (i : ℕ) (c : Checks)
      → FreeUpTo busy c
      → FreeUpTo (λ j. j == i || busy j) (mark i c)
  mark-FreeUpTo busy i c free a b k other ea eb ca cb h = elim (Bool-cases (a == i)) [
    | inl e ↦ ground arith
    | inr e ↦ elim (Bool-cases (b == i)) [
      | inl e' ↦ ground arith
      | inr e' ↦ (let r = free a b k other ea eb (ground arith) (ground arith) h in ground arith)
    ]
  ]

  uncheck_conflicts-FreeUpTo :
      (busy : ℕ → Bool) (i : ℕ) (k : KextInfo) (c : Checks)
      → get_elem? table i ≡ some k
      → FreeUpTo (λ j. j == i || busy j) c
      → FreeUpTo busy (uncheck_conflicts table k c)
  unfolding uncheck_conflicts
  uncheck_conflicts-FreeUpTo busy i k c e free a b ka kb ea eb ca cb h =
      let r = free a b ka kb ea eb (ground arith) (ground arith) h in
      let swapped = conflicts_comm ka kb in
      elim (Bool-cases (a == i)) [
        | inl at ↦ ground (arith, ==_iff a i)
        | inr off ↦ elim (Bool-cases (b == i)) [
          | inl at ↦ ground (arith, ==_iff b i)
          | inr off' ↦ ground arith
        ]
      ]

  -- No two checked kexts conflict.
  unfoldable pub ConflictFree : Checks → Type 0
  ConflictFree c =
      (a b : ℕ) (k other : KextInfo)
      → get_elem? table a ≡ some k
      → get_elem? table b ≡ some other
      → c a ≡ true
      → c b ≡ true
      → conflicts k other ≡ false

  pub check_kext-ConflictFree :
      (target : Version) (allow : Bool) (fuel i : ℕ) (c c' : Checks)
      → ConflictFree c
      → check_kext table target allow fuel i c ≡ done c'
      → ConflictFree c'
  unfolding ConflictFree
  check_kext-ConflictFree target allow fuel i c c' free e a b k other ea eb ca cb =
      let before : FreeUpTo (λ j. false) c =
        λ a b k other ea eb ca cb h. absurd (ground (arith, free a b k other ea eb ca cb)) in
      let after =
        check_kext-Invariant table FreeUpTo mark-FreeUpTo uncheck_conflicts-FreeUpTo target allow
          fuel (λ j. false) i c c' before e a b k other ea eb ca cb in
      elim (Bool-cases (conflicts k other)) [ inl h ↦ absurd (ground (arith, after h)) | inr h ↦ h ]

  -- Fewer checked kexts conflict no more.
  pub ConflictFree-le :
      (c c' : Checks) → ((j : ℕ) → c' j ≡ true → c j ≡ true) → ConflictFree c → ConflictFree c'
  unfolding ConflictFree
  ConflictFree-le c c' le free a b k other ea eb ca cb = free a b k other ea eb (le a ca) (le b cb)

  -- A kext that is checked takes the place of those it conflicts with.
  pub check_kext-exclusive :
      (target : Version) (allow : Bool) (fuel i b : ℕ) (c c' : Checks) (k other : KextInfo)
      → get_elem? table i ≡ some k
      → get_elem? table b ≡ some other
      → c i ≡ false
      → is_allowed target allow k ≡ true
      → conflicts k other ≡ true
      → check_kext table target allow fuel i c ≡ done c'
      → c' b ≡ false
  unfolding check_kext uncheck_conflicts
  check_kext-exclusive target allow zero i b c c' k other ei eb off on h e = absurd (ground arith)
  check_kext-exclusive target allow (suc fuel) i b c c' k other ei eb off on h e =
      let required =
        check_required (check_kext table target allow fuel) table k.requires_kexts (mark i c) in
      let called : (required >>= λ c2. done (uncheck_conflicts table k c2)) ≡ done c' =
        ground arith in
      let (c2, first, rest) =
        >>=-done required (λ c2. done (uncheck_conflicts table k c2)) c' called in
      ap (λ x. x b) (sym (done-inj _ c' rest)) ∙ ground arith

-- The kexts at the two indices are of one group.
unfoldable pub conflicting : List KextInfo → ℕ → ℕ → Bool
conflicting table i b = elim (get_elem? table i) [
  | none ↦ false
  | some k ↦ elim (get_elem? table b) [ none ↦ false | some other ↦ conflicts k other ]
]

pub check_kext-displaces :
    (table : List KextInfo) (target : Version) (allow : Bool) (fuel i b : ℕ) (c c' : Checks)
    → c i ≡ false
    → allowed_at table target allow i ≡ true
    → conflicting table i b ≡ true
    → check_kext table target allow fuel i c ≡ done c'
    → c' b ≡ false
unfolding allowed_at conflicting
check_kext-displaces table target allow fuel i b c c' off on h e =
    elim (Option-cases (get_elem? table i)) [
      | inl n ↦ absurd (ground arith)
      | inr (k, at) ↦ elim (Option-cases (get_elem? table b)) [
        | inl n ↦ absurd (ground arith)
        | inr (other, at') ↦
            check_kext-exclusive table target allow fuel i b c c' k other at at' off (ground arith)
              (ground arith) e
      ]
    ]
