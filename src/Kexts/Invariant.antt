-- ===== src/Kexts/Invariant.antt =====
-- An invariant of the checks is kept by `check_kext` where marking a kext and unchecking its
-- conflicts keep it. The invariant may depend on the kexts whose check is under way.
use freaky_ocs.Base.{
  ℕ, zero, suc, String, ◌≡◌, refl, ap, Bool, not, ◌||◌, some, List, [], ◌∷◌, get_elem?, inl, inr,
  arith, Bool-cases, Option-cases, ◌==◌,
}
use mathlib.Core.Path.{subst}
use freaky_ocs.Darwin.{Version}
use freaky_ocs.Kexts.Info.{KextInfo}
use freaky_ocs.Kexts.Data.{index_by_name}
use freaky_ocs.Kexts.Check.{
  Checks, Checking, done, raised, out_of_fuel, ◌>>=◌, mark, uncheck_conflicts, check_required,
  is_allowed, check_kext,
}

pub done-inj : (c c' : Checks) → done c ≡ done c' → c ≡ c'
done-inj c c' e = ap (λ r. elim r [ done x ↦ x | raised ↦ c | out_of_fuel ↦ c ]) e

pub >>=-done :
    (r : Checking) (f : Checks → Checking) (c' : Checks)
    → (r >>= f) ≡ done c'
    → (c : Checks) × (r ≡ done c) × (f c ≡ done c')
>>=-done (done c) f c' e = (c, refl, e)
>>=-done raised f c' e = absurd (ground arith)
>>=-done out_of_fuel f c' e = absurd (ground arith)

module _ (table : List KextInfo) (Invariant : (ℕ → Bool) → Checks → Type 0)
    (on_mark : (busy : ℕ → Bool) (i : ℕ) (c : Checks)
      → Invariant busy c
      → Invariant (λ j. j == i || busy j) (mark i c))
    (on_uncheck : (busy : ℕ → Bool) (i : ℕ) (k : KextInfo) (c : Checks)
      → get_elem? table i ≡ some k
      → Invariant (λ j. j == i || busy j) c
      → Invariant busy (uncheck_conflicts table k c)) where
  check_required-Invariant :
      (check : ℕ → Checks → Checking) (busy : ℕ → Bool)
      → ((i : ℕ) (c c' : Checks) → Invariant busy c → check i c ≡ done c' → Invariant busy c')
      → (names : List String) (c c' : Checks) → Invariant busy c
      → check_required check table names c ≡ done c'
      → Invariant busy c'
  unfolding check_required
  check_required-Invariant check busy calls [] c c' inv e =
      subst (Invariant busy) (done-inj c c' e) inv
  check_required-Invariant check busy calls (name ∷ names) c c' inv e =
      elim (Option-cases (index_by_name table name)) [
        | inl n ↦ check_required-Invariant check busy calls names c c' inv (ground arith)
        | inr (zero, n) ↦ check_required-Invariant check busy calls names c c' inv (ground arith)
        | inr (suc i, n) ↦
            (let called : (check (suc i) c >>= check_required check table names) ≡ done c' =
                ground arith in
              let (c1, first, rest) =
                >>=-done (check (suc i) c) (check_required check table names) c' called in
              check_required-Invariant check busy calls names c1 c' (calls (suc i) c c1 inv first)
                rest)
      ]

  pub check_kext-Invariant :
      (target : Version) (allow : Bool) (fuel : ℕ) (busy : ℕ → Bool) (i : ℕ) (c c' : Checks)
      → Invariant busy c
      → check_kext table target allow fuel i c ≡ done c'
      → Invariant busy c'
  unfolding check_kext
  check_kext-Invariant target allow zero busy i c c' inv e = absurd (ground arith)
  check_kext-Invariant target allow (suc fuel) busy i c c' inv e =
      elim (Option-cases (get_elem? table i)) [
        | inl n ↦ absurd (ground arith)
        | inr (k, n) ↦ elim (Bool-cases (c i || not (is_allowed target allow k))) [
          | inl stop ↦ subst (Invariant busy) (done-inj c c' (ground arith)) inv
          | inr run ↦
              (let required =
                  check_required (check_kext table target allow fuel) table k.requires_kexts
                    (mark i c) in
                let called : (required >>= λ c2. done (uncheck_conflicts table k c2)) ≡ done c' =
                  ground arith in
                let (c2, first, rest) =
                  >>=-done required (λ c2. done (uncheck_conflicts table k c2)) c' called in
                let within : Invariant (λ j. j == i || busy j) c2 =
                  check_required-Invariant (check_kext table target allow fuel)
                    (λ j. j == i || busy j)
                    (check_kext-Invariant target allow fuel (λ j. j == i || busy j))
                    k.requires_kexts (mark i c) c2 (on_mark busy i c inv) first in
                subst (Invariant busy) (done-inj _ c' rest) (on_uncheck busy i k c2 n within))
        ]
      ]
