-- ===== src/Validator/Regex.antt =====
-- `re.match` for the patterns of the validator (Scripts/report_validator.py), by derivatives.
use Prim.Native.Char.{code}
use freaky_ocs.Base.{
  ℕ, String, Bool, true, false, ◌&&◌, ◌||◌, List, [], ◌∷◌, any, leb, ◌==◌, str_eq, if◌then◌else◌,
}

-- `cls` is a set of characters, given by the ends of its ranges.
pub data Regex : Type 0 where
  fail empty : Regex
  cls : List (ℕ × ℕ) → Regex
  seq alt : Regex → Regex → Regex
  star : Regex → Regex

infixr 40 ◌∙∙◌
infixr 30 ◌∣∣◌
abbrev pub ◌∙∙◌ : Regex → Regex → Regex
r ∙∙ s = seq r s

abbrev pub ◌∣∣◌ : Regex → Regex → Regex
r ∣∣ s = alt r s

abbrev pub plus : Regex → Regex
plus r = seq r (star r)

abbrev pub optional : Regex → Regex
optional r = alt r empty

-- `r{4}`
abbrev pub four : Regex → Regex
four r = seq r (seq r (seq r r))

abbrev pub one_char : ℕ → Regex
one_char c = cls ((c, c) ∷ [])

-- A literal text.
abbrev pub lit : String → Regex
lit String.[] = empty
lit (String.◌∷◌ c String.[]) = one_char (code c)
lit (String.◌∷◌ c (String.◌∷◌ d s)) = seq (one_char (code c)) (lit (String.◌∷◌ d s))

abbrev pub one_of : List String → Regex
one_of [] = fail
one_of (s ∷ ss) = alt (lit s) (one_of ss)

unfoldable pub nullable : Regex → Bool
nullable fail = false
nullable empty = true
nullable (cls rs) = false
nullable (seq r s) = nullable r && nullable s
nullable (alt r s) = nullable r || nullable s
nullable (star r) = true

-- What is left to match after the character `c`.
unfoldable pub derive : ℕ → Regex → Regex
unfolding nullable
derive c fail = fail
derive c empty = fail
derive c (cls rs) = if any (λ (lo, hi). leb lo c && leb c hi) rs then empty else fail
derive c (seq r s) =
    let first = seq (derive c r) s in if nullable r then alt first (derive c s) else first
derive c (alt r s) = alt (derive c r) (derive c s)
derive c (star r) = seq (derive c r) (star r)

-- `re.match("^r$", s)`: `$` also stands before a newline at the end.
unfoldable pub matches : Regex → String → Bool
unfolding derive
matches r String.[] = nullable r
matches r (String.◌∷◌ c s) =
    nullable r && str_eq (String.◌∷◌ c s) "\n" || matches (derive (code c) r) s

-- `re.match(".+", s)`: `.` is any character but a newline.
unfoldable pub not_empty : String → Bool
not_empty String.[] = false
not_empty (String.◌∷◌ c s) = if code c == 10 then false else true
