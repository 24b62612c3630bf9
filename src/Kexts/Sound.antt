-- ===== src/Kexts/Sound.antt =====
-- The checks that hold throughout: no two checked kexts conflict, and the required kexts are
-- checked.
use freaky_ocs.Base.{
  ℕ, zero, suc, ◌≡◌, refl, Bool, true, false, not, ◌&&◌, ◌||◌, ◌==◌, ==_iff, none, some, List, [],
  ◌∷◌, get_elem?, arith, inl, inr, Bool-cases, Option-cases,
}
use mathlib.Core.Path.{subst}
use freaky_ocs.Darwin.{Version}
use freaky_ocs.Kexts.Info.{KextInfo}
use freaky_ocs.Kexts.Data.{kexts}
use freaky_ocs.Kexts.Check.{Checks, done, conflicts, check_kext, uncheck_with}
use freaky_ocs.Kexts.Conflicts.{ConflictFree, check_kext-ConflictFree, ConflictFree-le}
use freaky_ocs.Kexts.Required.{check_kext-keeps}

-- The test holds of every kext with its index.
unfoldable pub all_indexed : (ℕ → KextInfo → Bool) → List KextInfo → Bool
all_indexed p [] = true
all_indexed p (k ∷ ks) = p 0 k && all_indexed (λ i. p (suc i)) ks

unfoldable pub conflict_free : Checks → Bool
unfolding all_indexed
conflict_free c =
    all_indexed (λ a k. all_indexed (λ b other. not (c a && c b && conflicts k other)) kexts) kexts

unfoldable pub required_checked : Checks → Bool
unfolding all_indexed
required_checked c = all_indexed (λ i k. not k.required || c i) kexts

unfoldable pub is_sound : Checks → Bool
is_sound c = conflict_free c && required_checked c

all_indexed-at :
    (p : ℕ → KextInfo → Bool) (ks : List KextInfo) (i : ℕ) (k : KextInfo)
    → all_indexed p ks ≡ true
    → get_elem? ks i ≡ some k
    → p i k ≡ true
unfolding all_indexed
all_indexed-at p [] i k h e = absurd (ground arith)
all_indexed-at p (x ∷ ks) zero k h e =
    let same : x ≡ k = ground arith in subst (λ y. p 0 y ≡ true) same (ground arith)
all_indexed-at p (x ∷ ks) (suc i) k h e = all_indexed-at (λ j. p (suc j)) ks i k (ground arith) e

all_indexed-all :
    (p : ℕ → KextInfo → Bool) (ks : List KextInfo)
    → ((i : ℕ) (k : KextInfo) → get_elem? ks i ≡ some k → p i k ≡ true)
    → all_indexed p ks ≡ true
unfolding all_indexed
all_indexed-all p [] h = refl
all_indexed-all p (x ∷ ks) h =
    let first = h 0 x refl in
    let rest = all_indexed-all (λ j. p (suc j)) ks (λ i k e. h (suc i) k e) in ground arith

-- The invariant as the lemmas on `check_kext` have it.
record Sound (c : Checks) : Type 0 where
  conflict_free : ConflictFree kexts c
  required : (i : ℕ) (k : KextInfo) → get_elem? kexts i ≡ some k → k.required ≡ true → c i ≡ true

Sound-of : (c : Checks) → is_sound c ≡ true → Sound c
unfolding is_sound conflict_free required_checked ConflictFree
Sound-of c h =
    let free : conflict_free c ≡ true = ground arith in
    let required : required_checked c ≡ true = ground arith in
    record {
      conflict_free = λ a b k other ea eb ca cb.
          let row = all_indexed-at _ kexts a k free ea in
          let cell =
            all_indexed-at (λ b other. not (c a && c b && conflicts k other)) kexts b other row
              eb in
          ground arith;
      required = λ i k e r. (let at = all_indexed-at _ kexts i k required e in ground arith);
    }

is_sound-of : (c : Checks) → Sound c → is_sound c ≡ true
unfolding is_sound conflict_free required_checked ConflictFree
is_sound-of c s =
    let free : conflict_free c ≡ true = all_indexed-all _ kexts (λ a k ea.
      all_indexed-all _ kexts (λ b other eb.
        let f = s.conflict_free a b k other ea eb in
        elim (Bool-cases (c a)) [
          | inr off ↦ ground arith
          | inl on ↦ elim (Bool-cases (c b)) [
            | inr off' ↦ ground arith
            | inl on' ↦ (let apart = f on on' in ground arith)
          ]
        ])) in
    let required : required_checked c ≡ true = all_indexed-all _ kexts (λ i k e.
      elim (Bool-cases k.required) [
        | inl r ↦ (let on = s.required i k e r in ground arith)
        | inr r ↦ ground arith
      ]) in
    ground arith

-- A required kext is in no group.
abbrev is_ungrouped : KextInfo → Bool
is_ungrouped k = not k.required || (elim k.conflict_group_id [ none ↦ true | some g ↦ false ])

required_ungrouped : all_indexed (λ i k. is_ungrouped k) kexts ≡ true
unfolding kexts all_indexed
required_ungrouped = refl

ungrouped-at :
    (i : ℕ) (k : KextInfo)
    → get_elem? kexts i ≡ some k
    → k.required ≡ true
    → k.conflict_group_id ≡ none
ungrouped-at i k e r =
    let u = all_indexed-at (λ i k. is_ungrouped k) kexts i k required_ungrouped e in
    elim (Option-cases k.conflict_group_id) [ inl n ↦ n | inr (g, n) ↦ absurd (ground arith) ]

pub check_kext-is_sound :
    (target : Version) (allow : Bool) (fuel i : ℕ) (c c' : Checks)
    → is_sound c ≡ true
    → check_kext kexts target allow fuel i c ≡ done c'
    → is_sound c' ≡ true
check_kext-is_sound target allow fuel i c c' h e =
    let s = Sound-of c h in
    is_sound-of c' (record {
      conflict_free = check_kext-ConflictFree kexts target allow fuel i c c' s.conflict_free e;
      required = λ j k ej r.
          check_kext-keeps kexts j k ej (ungrouped-at j k ej r) target allow fuel i c c'
            (s.required j k ej r) e;
    })

pub uncheck_with-is_sound :
    (i : ℕ) (c : Checks) (k : KextInfo)
    → is_sound c ≡ true
    → get_elem? kexts i ≡ some k
    → k.required ≡ false
    → is_sound (uncheck_with kexts k i c) ≡ true
unfolding uncheck_with
uncheck_with-is_sound i c k h e r =
    let s = Sound-of c h in
    is_sound-of (uncheck_with kexts k i c) (record {
      conflict_free = ConflictFree-le kexts c _ (λ j on. ground arith) s.conflict_free;
      required = λ j other ej rj.
          let on = s.required j other ej rj in
          elim (Bool-cases (j == i)) [
            | inl at ↦ absurd (ground (arith, ==_iff j i))
            | inr off ↦ ground arith
          ];
    })

-- `required_checks` is sound.
pub required-is_sound :
    (c : Checks)
    → ((i : ℕ) → c i ≡ (elim (get_elem? kexts i) [ none ↦ false | some k ↦ k.required ]))
    → is_sound c ≡ true
unfolding ConflictFree conflicts
required-is_sound c h = is_sound-of c (record {
  conflict_free = λ a b k other ea eb ca cb.
      let ra : k.required ≡ true = ground (arith, h a) in
      let none_of = ungrouped-at a k ea ra in ground arith;
  required = λ i k e r. ground (arith, h i);
})
