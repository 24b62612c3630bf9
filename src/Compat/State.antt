-- ===== src/Compat/State.antt =====
-- The attributes of CompatibilityChecker, and how a check can end: Scripts/compatibility_checker.py.
use freaky_ocs.Base.{◌≡◌, refl, true, Option, none, some, if◌then◌else◌}
use freaky_ocs.Darwin.{Version, get_latest_darwin_version, get_lowest_darwin_version}
use freaky_ocs.Darwin.{lt_version}
use freaky_ocs.Report.{Range, Report}

-- A check returns with the new state, leaves the program by `exit_program` after its message, or
-- raises an exception that nothing catches.
pub data Outcome {ℓ} (A : Type ℓ) : Type ℓ where
  next : A → Outcome A
  exit_program : Outcome A
  raised : Outcome A

infixl 5 ◌>>=◌
abbrev pub ◌>>=◌ {ℓ κ} : {A : Type ℓ} {B : Type κ} → Outcome A → (A → Outcome B) → Outcome B
next a >>= f = f a
exit_program >>= f = exit_program
raised >>= f = raised

-- `native` holds max_native_macos_version and min_native_macos_version, which only the CPU check
-- creates; `ocl_patched` is ocl_patched_macos_version.
pub record Checker : Type 0 where
  pub report : Report
  pub native : Option Range
  pub ocl_patched : Option Range

abbrev pub range : Version → Version → Range
range max min = record { max = max; min = min }

unfoldable pub full_range : Range
unfolding get_latest_darwin_version get_lowest_darwin_version
full_range = range (get_latest_darwin_version true) get_lowest_darwin_version

-- `(new[0], old[-1] if old and old[-1] < new[-1] else new[-1])`
unfoldable pub merge_ocl_patched : Option Range → Range → Range
unfolding lt_version
merge_ocl_patched none new = new
merge_ocl_patched (some old) new =
    range new.max (if lt_version old.min new.min then old.min else new.min)

-- Inversion of a step that returned.
pub >>=-eq-next {ℓ κ} :
    {A : Type ℓ} {B : Type κ} (m : Outcome A) (f : A → Outcome B) {b : B}
    → (m >>= f) ≡ next b
    → (a : A) × (m ≡ next a) × (f a ≡ next b)
>>=-eq-next (next a) f h = (a, refl, h)
>>=-eq-next exit_program f h = cc
>>=-eq-next raised f h = cc

pub next-injective {ℓ} : {A : Type ℓ} {a b : A} → next a ≡ next b → a ≡ b
next-injective h = cc
