-- ===== src/Kexts/Ask.antt =====
-- A computation that asks the user: it consumes answers of `request_input` in Scripts/utils.py.
use freaky_ocs.Base.{
  String, none, some, List, [], ◌∷◌, ℕ, suc, parse_int, str_eq, strip, ltb, ◌&&◌, if◌then◌else◌,
}

-- `waiting` is a program that still waits for an answer, `raised` an exception.
pub data Asked {ℓ} (A : Type ℓ) : Type ℓ where
  answered : A → List String → Asked A
  waiting raised : Asked A

abbrev pub Asking {ℓ} : Type ℓ → Type ℓ
Asking A = List String → Asked A

infixl 5 ◌>>=◌
abbrev pub ◌>>=◌ {ℓ κ} : {A : Type ℓ} {B : Type κ} → Asked A → (A → Asking B) → Asked B
answered a inputs >>= f = f a inputs
waiting >>= f = waiting
raised >>= f = raised

-- `request_input`
abbrev pub ask : Asking String
ask [] = waiting
ask (answer ∷ inputs) = answered answer inputs

-- An option from 1 to `most`, and the recommended one for any other text.
unfoldable pub chosen_option : String → ℕ → ℕ → ℕ
chosen_option answer recommended most =
    if str_eq (strip answer) "" then recommended else elim (parse_int (strip answer)) [
      | none ↦ recommended
      | some n ↦ if ltb 0 n && ltb n (suc most) then n else recommended
    ]

-- No exception is raised, and an answered computation has a result with the property.
abbrev pub Answers {ℓ} : {A : Type ℓ} → (A → Type 0) → Asked A → Type 0
Answers Holds (answered x inputs) = Holds x
Answers Holds waiting = Unit
Answers Holds raised = ⊥

pub Answers-bind {ℓ κ} :
    {A : Type ℓ} {B : Type κ} (P : A → Type 0) (Q : B → Type 0) (r : Asked A) (f : A → Asking B)
    → Answers P r
    → ((x : A) (inputs : List String) → P x → Answers Q (f x inputs))
    → Answers Q (r >>= f)
Answers-bind P Q (answered x inputs) f h k = k x inputs h
Answers-bind P Q waiting f h k = tt
Answers-bind P Q raised f h k = h
