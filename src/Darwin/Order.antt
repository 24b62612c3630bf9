-- ===== src/Darwin/Order.antt =====
-- Triples of numbers with Python's order on tuples.
use freaky_ocs.Base.{ℕ, ◌≤◌, ◌≡◌, Bool, true, false, arith, not, ltb, ◌==◌}
use freaky_ocs.Base.{if◌then◌else◌}

pub record Version : Type 0 where
  pub major : ℕ
  pub minor : ℕ
  pub patch : ℕ

abbrev pub version : ℕ → ℕ → ℕ → Version
version a b c = record { major = a; minor = b; patch = c }

-- `a < b` and `a <= b` on tuples.
unfoldable pub lt_version : Version → Version → Bool
lt_version a b =
    if a.major == b.major
    then (if a.minor == b.minor then ltb a.patch b.patch else ltb a.minor b.minor)
    else ltb a.major b.major

unfoldable pub le_version : Version → Version → Bool
unfolding lt_version
le_version a b = not (lt_version b a)

-- `max(a, b)` and `min(a, b)` as the conditional expressions of the program write them.
infix 50 ◌≤ᵥ◌
abbrev pub ◌≤ᵥ◌ : Version → Version → Type 0
a ≤ᵥ b = le_version a b ≡ true

pub ≤ᵥ_refl : (a : Version) → a ≤ᵥ a
unfolding le_version
≤ᵥ_refl a = ground arith

pub ≤ᵥ_trans : (a b c : Version) → a ≤ᵥ b → b ≤ᵥ c → a ≤ᵥ c
unfolding le_version
≤ᵥ_trans a b c h k = ground arith

pub ≤ᵥ_antisymm : (a b : Version) → a ≤ᵥ b → b ≤ᵥ a → a ≡ b
unfolding le_version
≤ᵥ_antisymm a b h k = ground arith

pub ≤ᵥ_of_lt : (a b : Version) → lt_version a b ≡ true → a ≤ᵥ b
unfolding le_version
≤ᵥ_of_lt a b h = ground arith

pub ≤ᵥ_of_not-lt : (a b : Version) → lt_version a b ≡ false → b ≤ᵥ a
unfolding le_version
≤ᵥ_of_not-lt a b h = ground arith

pub lt_version-le_trans : (a b c : Version) → lt_version a b ≡ true → b ≤ᵥ c → lt_version a c ≡ true
unfolding le_version
lt_version-le_trans a b c h k = ground arith

pub major-le : (a b : Version) → a ≤ᵥ b → a.major ≤ b.major
unfolding le_version
major-le a b h = ground arith
