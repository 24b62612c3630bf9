-- ===== src/Base/Lists.antt =====
-- Lists measured and indexed by native numbers, and predicates on their members.
use Prim.Native.Nat.{ℕ, zero, suc, ◌+◌}
use mathlib.Core.Path.{◌≡◌}
use mathlib.Core.Bool.{Bool, true, false, ◌&&◌, ◌||◌}
use mathlib.Core.List.{List, [], ◌∷◌, ◌++◌}
use mathlib.Core.Option.{Option, none, some}
use mathlib.Core.Logic.{◌⊎◌, inl, inr}
use native.Mathlib.Omega.{arith}

module _ {ℓ} {A : Type ℓ} where
  abbrev pub length : List A → ℕ
  length [] = 0
  length (x ∷ xs) = suc (length xs)

  abbrev pub get_elem? : List A → ℕ → Option A
  get_elem? [] i = none
  get_elem? (x ∷ xs) zero = some x
  get_elem? (x ∷ xs) (suc i) = get_elem? xs i

  abbrev pub take : ℕ → List A → List A
  take zero xs = []
  take (suc n) [] = []
  take (suc n) (x ∷ xs) = x ∷ take n xs

  abbrev pub drop : ℕ → List A → List A
  drop zero xs = xs
  drop (suc n) [] = []
  drop (suc n) (x ∷ xs) = drop n xs

  -- Python's `any` and `all` over a list.
  abbrev pub any : (A → Bool) → List A → Bool
  any p [] = false
  any p (x ∷ xs) = p x || any p xs

  abbrev pub all : (A → Bool) → List A → Bool
  all p [] = true
  all p (x ∷ xs) = p x && all p xs

  abbrev pub All {κ} : (A → Type κ) → List A → Type κ
  All Holds [] = Unit
  All Holds (y ∷ ys) = Holds y × All Holds ys

  -- Some member has the property.
  abbrev pub Any : (A → Type 0) → List A → Type 0
  Any Holds [] = ⊥
  Any Holds (y ∷ ys) = Holds y ⊎ Any Holds ys

  pub Any-append :
      (Holds : A → Type 0) (front back : List A) → Any Holds front → Any Holds (front ++ back)
  Any-append Holds [] back h = absurd h
  Any-append Holds (y ∷ front) back (inl at_y) = inl at_y
  Any-append Holds (y ∷ front) back (inr later) = inr (Any-append Holds front back later)

  pub Any-append_last :
      (Holds : A → Type 0) (front : List A) (x : A) → Holds x → Any Holds (front ++ x ∷ [])
  Any-append_last Holds [] x h = inl h
  Any-append_last Holds (y ∷ front) x h = inr (Any-append_last Holds front x h)

  pub length-append : (xs ys : List A) → length (xs ++ ys) ≡ length xs + length ys
  length-append [] ys = omega arith
  length-append (x ∷ xs) ys = omega (arith, length-append xs ys)

  pub All-append {κ} :
      (Holds : A → Type κ) (front back : List A)
      → All Holds front
      → All Holds back
      → All Holds (front ++ back)
  All-append Holds [] back _ at_back = at_back
  All-append Holds (y ∷ front) back (at_y, at_front) at_back =
      (at_y, All-append Holds front back at_front at_back)
