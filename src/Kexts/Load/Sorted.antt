-- ===== src/Kexts/Load/Sorted.antt =====
-- `load_kexts` sorts all bundles that it loads.
use freaky_ocs.Base.{
  ℕ, zero, suc, ◌+◌, ◌<◌, String, ◌≡◌, refl, ap, ◌∙◌, Bool, true, ◌&&◌, ◌||◌, ltb, ltb→lt, none,
  some, List, [], ◌∷◌, all, elem, get_elem?, arith, inl, inr, if◌then◌else◌, Bool-cases,
}
use mathlib.Core.Path.{subst}
use freaky_ocs.Darwin.{Version}
use freaky_ocs.Kexts.Load.{
  Bundle, Entry, Sorting, sorted_to, is_visited, is_seen, visit_from, sort_bundles,
}
use freaky_ocs.Kexts.Load.Order.{index_met, libraries_first, count_enabled}
use freaky_ocs.Kexts.Load.Total.{falls, then-sorted, Good, Grows, visit-Leaves}

-- Every bundle has a rank below the fuel and above those of its libraries; `own` gives the ranks of
-- the bundles that are left.
unfoldable pub acyclic_from : List Bundle → (ℕ → ℕ) → ℕ → (ℕ → ℕ) → List Bundle → Bool
acyclic_from bundles rank fuel own [] = true
acyclic_from bundles rank fuel own (b ∷ bs) =
    ltb (own 0) fuel
    && all (falls bundles rank (own 0)) b.libraries
    && acyclic_from bundles rank fuel (λ i. own (suc i)) bs

unfoldable pub is_acyclic : List Bundle → (ℕ → ℕ) → ℕ → Bool
unfolding acyclic_from
is_acyclic bundles rank fuel = acyclic_from bundles rank fuel rank bundles

acyclic_from-at :
    (bundles : List Bundle) (rank : ℕ → ℕ) (fuel : ℕ) (own : ℕ → ℕ) (bs : List Bundle) (i : ℕ)
    (b : Bundle)
    → acyclic_from bundles rank fuel own bs ≡ true
    → get_elem? bs i ≡ some b
    → (own i < fuel) × (all (falls bundles rank (own i)) b.libraries ≡ true)
unfolding acyclic_from
acyclic_from-at bundles rank fuel own [] i b h e = absurd (ground arith)
acyclic_from-at bundles rank fuel own (x ∷ bs) zero b h e =
    let same : x ≡ b = ground arith in
    (
      ltb→lt (own 0) fuel (ground arith),
      subst (λ (y : Bundle). all (falls bundles rank (own 0)) y.libraries ≡ true) same
          (ground arith),
    )
acyclic_from-at bundles rank fuel own (x ∷ bs) (suc i) b h e =
    acyclic_from-at bundles rank fuel (λ j. own (suc j)) bs i b (ground arith) e

-- The bundle is left out, or it is sorted.
abbrev pub is_loaded : List String → List Entry → Bundle → Bool
is_loaded unload sorted b = elem b.name unload || is_visited b sorted

all_loaded-Grows :
    (bundles : List Bundle) (unload : List String) (macos : Version) (s s' : Sorting) (b : Bundle)
    → Grows bundles unload macos s s'
    → is_loaded unload s.sorted b ≡ true
    → is_loaded unload s'.sorted b ≡ true
all_loaded-Grows bundles unload macos s s' b g h = elim (Bool-cases (elem b.name unload)) [
  | inl off ↦ ground arith
  | inr on ↦ (let later = g b (ground arith) in ground arith)
]

shift : (k i : ℕ) → suc k + i ≡ k + suc i
shift k i = omega arith

unshift : (k : ℕ) → k ≡ k + 0
unshift k = omega arith

module _ (bundles : List Bundle) (unload : List String) (macos : Version) (rank : ℕ → ℕ) (fuel : ℕ)
    (acyclic : is_acyclic bundles rank fuel ≡ true) where
  visit_from-Good :
      (bs : List Bundle) (i : ℕ) (s : Sorting)
      → ((k : ℕ) → get_elem? bs k ≡ get_elem? bundles (k + i))
      → Good bundles unload macos s
      → (s' : Sorting) × (visit_from bundles unload macos fuel i bs s ≡ sorted_to s')
        × Good bundles unload macos s'
        × Grows bundles unload macos s s'
        × (all (is_loaded unload s'.sorted) bs ≡ true)
  unfolding visit_from is_acyclic index_met
  visit_from-Good [] i s at h = (s, refl, h, (λ b m. m), refl)
  visit_from-Good (b ∷ bs) i s at h =
      let here : get_elem? bundles i ≡ some b = ground (arith, at 0) in
      let (lt, falls_here) = acyclic_from-at bundles rank fuel rank bundles i b acyclic here in
      let (s1, r1, h1, g1, m1) =
        visit-Leaves bundles unload macos rank
          (λ j d e. (acyclic_from-at bundles rank fuel rank bundles j d acyclic e).1) fuel i s lt
          h in
      let next = λ (k : ℕ). at (suc k) ∙ ap (get_elem? bundles) (shift k i) in
      let (s2, r2, h2, g2, m2) = visit_from-Good bs (suc i) s1 next h1 in
      let first : is_loaded unload s1.sorted b ≡ true = ground arith in
      let later = all_loaded-Grows bundles unload macos s1 s2 b g2 first in
      (
        s2,
        then-sorted _ (visit_from bundles unload macos fuel (suc i) bs) s1 s2 r1 r2,
        h2,
        (λ d m. g2 d (g1 d m)),
        ground arith,
      )

pub sort_bundles-sorted :
    (bundles : List Bundle) (unload : List String) (macos : Version) (rank : ℕ → ℕ) (fuel : ℕ)
    → is_acyclic bundles rank fuel ≡ true
    → (s : Sorting) × (sort_bundles bundles unload macos fuel ≡ sorted_to s)
      × (libraries_first bundles unload [] s.sorted ≡ true)
      × ((id : String) → count_enabled id s.sorted ≡ (if is_seen id s.sorted then 1 else 0))
      × (all (is_loaded unload s.sorted) bundles ≡ true)
unfolding sort_bundles libraries_first count_enabled is_seen
sort_bundles-sorted bundles unload macos rank fuel acyclic =
    let start : Sorting = record { sorted = []; bounds = λ _. none } in
    let (s, r, h, g, m) =
      visit_from-Good bundles unload macos rank fuel acyclic bundles 0 start
        (λ k. ap (get_elem? bundles) (unshift k)) (record { first = refl; once = λ id. refl }) in
    (s, r, h.first, h.once, m)
