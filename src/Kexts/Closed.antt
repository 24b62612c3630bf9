-- ===== src/Kexts/Closed.antt =====
-- Sets of kexts that hold what their members require, without two that conflict.
use freaky_ocs.Base.{
  ℕ, zero, suc, ◌+◌, ◌<◌, ◌≤◌, String, ◌≡◌, Bool, true, false, not, ◌&&◌, ◌==◌, ==_iff, Option,
  none, some, List, [], ◌∷◌, get_elem?, length, any, all, inl, inr, arith, if◌then◌else◌,
  Bool-cases, Option-cases,
}
use freaky_ocs.Kexts.Info.{KextInfo}
use freaky_ocs.Kexts.Data.{index_by_name}
use freaky_ocs.Kexts.Check.{Checks, mark, conflicts, uncheck_conflicts}

-- `i` is in the set.
abbrev pub has : List ℕ → ℕ → Bool
has set i = any (λ j. j == i) set

pub all-has :
    (p : ℕ → Bool) (set : List ℕ) (i : ℕ) → all p set ≡ true → has set i ≡ true → p i ≡ true
all-has p [] i h k = ground arith
all-has p (j ∷ set) i h k = ground (arith, ==_iff j i, all-has p set i)

-- The index of a required kext, 0 left out, as check_kext reads it.
unfoldable pub required_index : List KextInfo → String → Option ℕ
required_index table name = elim (index_by_name table name) [
  | none ↦ none
  | some zero ↦ none
  | some (suc i) ↦ some (suc i)
]

unfoldable pub name_within : List KextInfo → List ℕ → String → Bool
name_within table set name = elim (required_index table name) [ none ↦ true | some i ↦ has set i ]

unfoldable pub requires_within : List KextInfo → List ℕ → KextInfo → Bool
requires_within table set k = all (name_within table set) k.requires_kexts

unfoldable pub free_of_conflicts : List KextInfo → List ℕ → KextInfo → Bool
free_of_conflicts table set k =
    all (λ j. elim (get_elem? table j) [ none ↦ true | some other ↦ not (conflicts k other) ]) set

unfoldable pub is_closed : List KextInfo → List ℕ → Bool
is_closed table set =
    all
      (λ i. elim (get_elem? table i) [
        | none ↦ false
        | some k ↦ requires_within table set k && free_of_conflicts table set k
      ])
      set

-- The members that are not checked.
pub unchecked : List ℕ → Checks → ℕ
unchecked [] c = 0
unchecked (i ∷ set) c = (if c i then 0 else 1) + unchecked set c

pub unchecked-le :
    (set : List ℕ) (c c' : Checks)
    → ((j : ℕ) → has set j ≡ true → c j ≡ true → c' j ≡ true)
    → unchecked set c' ≤ unchecked set c
unfolding unchecked
unchecked-le [] c c' h = omega arith
unchecked-le (i ∷ set) c c' h =
    let rest = unchecked-le set c c' (λ j m. h j (ground arith)) in ground (arith, ==_iff i i, h i)

pub unchecked-mark-le :
    (set : List ℕ) (i : ℕ) (c : Checks) → unchecked set (mark i c) ≤ unchecked set c
unfolding unchecked
unchecked-mark-le [] i c = omega arith
unchecked-mark-le (j ∷ set) i c = ground (arith, unchecked-mark-le set i c)

pub unchecked-mark-lt :
    (set : List ℕ) (i : ℕ) (c : Checks)
    → has set i ≡ true
    → c i ≡ false
    → unchecked set (mark i c) < unchecked set c
unfolding unchecked
unchecked-mark-lt [] i c m h = ground arith
unchecked-mark-lt (j ∷ set) i c m h = elim (Bool-cases (j == i)) [
  | inl same ↦ let eq = (==_iff j i).0 same in ground (arith, unchecked-mark-le set i c)
  | inr other ↦ ground (arith, unchecked-mark-lt set i c)
]

pub unchecked-le-length : (set : List ℕ) (c : Checks) → unchecked set c ≤ length set
unfolding unchecked
unchecked-le-length [] c = omega arith
unchecked-le-length (i ∷ set) c = ground (arith, unchecked-le-length set c)

module _ (table : List KextInfo) (set : List ℕ) (closed : is_closed table set ≡ true) where
  pub closed-member :
      (i : ℕ)
      → has set i ≡ true
      → (k : KextInfo) × (get_elem? table i ≡ some k)
        × (requires_within table set k ≡ true)
        × (free_of_conflicts table set k ≡ true)
  unfolding is_closed
  closed-member i m = elim (Option-cases (get_elem? table i)) [
    | inl e ↦ absurd (ground (arith, all-has _ set i closed m))
    | inr (k, e) ↦
        (k, e, ground (arith, all-has _ set i closed m), ground (arith, all-has _ set i closed m))
  ]

  -- A member is not unchecked for the sake of another.
  pub uncheck_conflicts-member :
      (k : KextInfo) (j : ℕ) (c : Checks)
      → free_of_conflicts table set k ≡ true
      → has set j ≡ true
      → uncheck_conflicts table k c j ≡ c j
  unfolding free_of_conflicts uncheck_conflicts
  uncheck_conflicts-member k j c h m = ground (arith, all-has _ set j h m)
