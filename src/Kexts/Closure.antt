-- ===== src/Kexts/Closure.antt =====
-- The kexts that a kext of the table requires, and the run of `check_kext` on the table.
use freaky_ocs.Base.{
  ℕ, zero, suc, ◌<◌, ◌≡◌, refl, Bool, true, false, not, ◌&&◌, ◌||◌, ◌==◌, ltb, none, some, List, [],
  ◌∷◌, ◌++◌, length, String, get_elem?, arith, inl, inr, Bool-cases, Option-cases, all, ==_iff,
  if◌then◌else◌,
}
use freaky_ocs.Darwin.{Version}
use freaky_ocs.Kexts.Info.{KextInfo}
use freaky_ocs.Kexts.Data.{kexts, index_by_name}
use freaky_ocs.Kexts.Check.{Checks, done, conflicts, check_kext}
use freaky_ocs.Kexts.Closed.{
  has, required_index, name_within, requires_within, free_of_conflicts, is_closed, unchecked,
  unchecked-le-length,
}
use freaky_ocs.Kexts.Total.{allowed_at, requirement_met, satisfied, check_kext-Leaves}

required_indices : List KextInfo → List String → List ℕ
required_indices table [] = []
required_indices table (name ∷ names) = elim (required_index table name) [
  | none ↦ required_indices table names
  | some i ↦ i ∷ required_indices table names
]

reach : List KextInfo → ℕ → List ℕ → List ℕ → List ℕ
unfolding required_indices
reach table zero pending set = set
reach table (suc fuel) [] set = set
reach table (suc fuel) (i ∷ pending) set =
    if has set i then reach table fuel pending set else elim (get_elem? table i) [
      | none ↦ reach table fuel pending (i ∷ set)
      | some k ↦ reach table fuel (required_indices table k.requires_kexts ++ pending) (i ∷ set)
    ]

closure : ℕ → List ℕ
unfolding reach
closure i = reach kexts 20 (i ∷ []) []

-- The index 0 comes with every set: it is Lilu, which `check_kext` does not visit.
kept : ℕ → List ℕ
kept i = if has (closure i) 0 then closure i else 0 ∷ closure i

closes : ℕ → Bool
closes i = is_closed kexts (kept i) && has (kept i) i && has (kept i) 0 && ltb (length (kept i)) 8

all_below : (ℕ → Bool) → ℕ → Bool
all_below p zero = true
all_below p (suc n) = p n && all_below p n

closes_all : all_below closes 83 ≡ true
unfolding all_below closes kept closure is_closed kexts required_index index_by_name requires_within
    name_within free_of_conflicts conflicts
closes_all = refl

all_below-at : (p : ℕ → Bool) (n i : ℕ) → all_below p n ≡ true → i < n → p i ≡ true
unfolding all_below
all_below-at p zero i h lt = absurd (omega arith)
all_below-at p (suc n) i h lt = elim (Bool-cases (i == n)) [
  | inl e ↦ (let at = (==_iff i n).0 e in ground arith)
  | inr e ↦ all_below-at p n i (ground arith) (ground (arith, ==_iff i n))
]

-- The requirement by its name: the kext is checked or not let through, or it is Lilu, the index 0,
-- and was not checked before.
requirement_kept : Version → Bool → Checks → Checks → String → Bool
requirement_kept target allow before c name = elim (index_by_name kexts name) [
  | none ↦ true
  | some i ↦ c i || not (allowed_at kexts target allow i) || (i == 0 && not (before i))
]

-- All requirements of the kext at the index.
pub requirements_kept : Version → Bool → Checks → Checks → ℕ → Bool
requirements_kept target allow before c i = elim (get_elem? kexts i) [
  | none ↦ false
  | some k ↦ all (requirement_kept target allow before c) k.requires_kexts
]

requirement_kept-of-met :
    (target : Version) (allow : Bool) (before c : Checks) (name : String)
    → (before 0 ≡ true → c 0 ≡ true)
    → requirement_met kexts target allow c name ≡ true
    → requirement_kept target allow before c name ≡ true
unfolding requirement_kept requirement_met required_index
requirement_kept-of-met target allow before c name lilu met =
    elim (Option-cases (index_by_name kexts name)) [
      | inl e ↦ ground arith
      | inr (zero, e) ↦ elim (Bool-cases (before 0)) [
        | inl on ↦ (let still = lilu on in ground arith)
        | inr off ↦ ground arith
      ]
      | inr (suc i, e) ↦ ground arith
    ]

all_kept-of-met :
    (target : Version) (allow : Bool) (before c : Checks) (names : List String)
    → (before 0 ≡ true → c 0 ≡ true)
    → all (requirement_met kexts target allow c) names ≡ true
    → all (requirement_kept target allow before c) names ≡ true
all_kept-of-met target allow before c [] lilu met = refl
all_kept-of-met target allow before c (name ∷ names) lilu met =
    let first = requirement_kept-of-met target allow before c name lilu (ground arith) in
    let rest = all_kept-of-met target allow before c names lilu (ground arith) in ground arith

requirements_kept-of-satisfied :
    (target : Version) (allow : Bool) (before c : Checks) (i : ℕ)
    → (before 0 ≡ true → c 0 ≡ true)
    → satisfied kexts target allow c i ≡ true
    → requirements_kept target allow before c i ≡ true
unfolding requirements_kept satisfied
requirements_kept-of-satisfied target allow before c i lilu met =
    elim (Option-cases (get_elem? kexts i)) [
      | inl e ↦ absurd (ground arith)
      | inr (k, e) ↦
          (let all_met : all (requirement_met kexts target allow c) k.requires_kexts ≡ true =
              ground arith in
            let kept_all = all_kept-of-met target allow before c k.requires_kexts lilu all_met in
            ground arith)
    ]

-- check_kext returns for every kext of the table, whose requirements are cyclic, within a depth of
-- eight calls. A kext that was not checked and is let through is then checked, and so is every kext
-- that it requires and that is let through, but Lilu, the first of the table, if it was not checked.
pub check_kext-total :
    (target : Version) (allow : Bool) (i : ℕ) (c : Checks)
    → i < 83
    → (c' : Checks) × (check_kext kexts target allow 8 i c ≡ done c')
      × (c i
            || not (allowed_at kexts target allow i)
            || (c' i && requirements_kept target allow c c' i)
          ≡ true)
unfolding closes
check_kext-total target allow i c lt =
    let h = all_below-at closes 83 i closes_all lt in
    let closed : is_closed kexts (kept i) ≡ true = ground arith in
    let member : has (kept i) i ≡ true = ground arith in
    let first : has (kept i) 0 ≡ true = ground arith in
    let le = unchecked-le-length (kept i) c in
    let few : unchecked (kept i) c < 8 = ground arith in
    let (c', e, g, m, n) = check_kext-Leaves kexts target allow (kept i) closed 8 i c member few in
    (
      c',
      e,
      elim (Bool-cases (c' i)) [
        | inl on ↦ elim (n i member on) [
          | inl before ↦ ground arith
          | inr met ↦
              (let held = requirements_kept-of-satisfied target allow c c' i (g 0 first) met in
                ground arith)
        ]
        | inr off ↦ ground arith
      ],
    )
