-- ===== src/Kexts/Load/Order.antt =====
-- The sorted bundles: the libraries of a bundle stand before it, and of the bundles with one
-- identifier the first alone is enabled.
use freaky_ocs.Base.{
  ℕ, ◌+◌, String, ◌≡◌, refl, sym, ap, Bool, true, ◌&&◌, ◌||◌, none, some, List, [], ◌∷◌, ◌++◌, all,
  elem, get_elem?, str_eq, eq_iff, arith, if◌then◌else◌,
}
use mathlib.Core.Path.{subst}
use freaky_ocs.Kexts.Load.{Bundle, Entry, is_visited, is_seen, find_bundle}

-- The bundle at the index is not loaded, or it has been sorted.
unfoldable pub index_met : List Bundle → List String → List Entry → ℕ → Bool
index_met bundles unload sorted j = elim (get_elem? bundles j) [
  | none ↦ true
  | some d ↦ elem d.name unload || is_visited d sorted
]

-- The library is not among the bundles, or it is met.
unfoldable pub library_met : List Bundle → List String → List Entry → String → Bool
library_met bundles unload sorted l = elim (find_bundle l bundles) [
  | none ↦ true
  | some j ↦ index_met bundles unload sorted j
]

-- Every bundle stands behind its libraries; `front` has been sorted before.
unfoldable pub libraries_first : List Bundle → List String → List Entry → List Entry → Bool
libraries_first bundles unload front [] = true
libraries_first bundles unload front (e ∷ es) =
    all (library_met bundles unload front) e.bundle.libraries
    && libraries_first bundles unload (front ++ (e ∷ [])) es

-- The enabled entries with the identifier.
unfoldable pub count_enabled : String → List Entry → ℕ
count_enabled id [] = 0
count_enabled id (e ∷ es) =
    (if str_eq e.bundle.identifier id && e.enabled then 1 else 0) + count_enabled id es

append_assoc :
    (xs : List Entry) (y : Entry) (zs : List Entry) → ((xs ++ (y ∷ [])) ++ zs) ≡ (xs ++ (y ∷ zs))
append_assoc [] y zs = refl
append_assoc (x ∷ xs) y zs = ap (λ t. x ∷ t) (append_assoc xs y zs)

append_nil : (xs : List Entry) → (xs ++ []) ≡ xs
append_nil [] = refl
append_nil (x ∷ xs) = ap (λ t. x ∷ t) (append_nil xs)

pub libraries_first-append :
    (bundles : List Bundle) (unload : List String) (front es : List Entry) (e : Entry)
    → libraries_first bundles unload front es ≡ true
    → all (library_met bundles unload (front ++ es)) e.bundle.libraries ≡ true
    → libraries_first bundles unload front (es ++ (e ∷ [])) ≡ true
unfolding libraries_first
libraries_first-append bundles unload front [] e h m =
    let m' =
      subst (λ t. all (library_met bundles unload t) e.bundle.libraries ≡ true) (append_nil front)
        m in
    ground arith
libraries_first-append bundles unload front (x ∷ es) e h m =
    let m' =
      subst (λ t. all (library_met bundles unload t) e.bundle.libraries ≡ true)
        (sym (append_assoc front x es)) m in
    let rest = libraries_first-append bundles unload (front ++ (x ∷ [])) es e (ground arith) m' in
    ground arith

pub count_enabled-append :
    (id : String) (xs ys : List Entry)
    → count_enabled id (xs ++ ys) ≡ count_enabled id xs + count_enabled id ys
unfolding count_enabled
count_enabled-append id [] ys = omega arith
count_enabled-append id (x ∷ xs) ys = omega (arith, count_enabled-append id xs ys)

pub is_seen-append :
    (id : String) (xs ys : List Entry) → is_seen id (xs ++ ys) ≡ (is_seen id xs || is_seen id ys)
unfolding is_seen
is_seen-append id [] ys = refl
is_seen-append id (x ∷ xs) ys = ground (arith, is_seen-append id xs ys)

pub is_visited-append :
    (b : Bundle) (xs ys : List Entry)
    → is_visited b (xs ++ ys) ≡ (is_visited b xs || is_visited b ys)
unfolding is_visited
is_visited-append b [] ys = refl
is_visited-append b (x ∷ xs) ys = ground (arith, is_visited-append b xs ys)

pub is_visited_refl :
    (b : Bundle) (enabled : Bool)
    → is_visited b (record { bundle = b; enabled = enabled } ∷ []) ≡ true
unfolding is_visited
is_visited_refl b enabled = ground (arith, eq_iff b.path b.path, eq_iff b.identifier b.identifier)
