-- ===== src/Base/Text.antt =====
-- Python's operations on `str`, by recursion on the characters.
use Prim.Native.Nat.{ℕ, zero, suc, ◌+◌, ◌-◌, ◌*◌}
use Prim.Native.Char.{Char, code}
use Prim.Native.String.{String}
use mathlib.Core.Path.{◌≡◌, refl}
use mathlib.Core.Bool.{Bool, true, false, not, ◌&&◌, ◌||◌}
use mathlib.Core.List.{List, [], ◌∷◌}
use mathlib.Core.Option.{Option, none, some}
use text.Mathlib.Text.{◌==◌ as str_eq}
use freaky_ocs.Base.Tests.{◌==◌, leb, if◌then◌else◌}

-- `s.startswith(p)`
unfoldable pub starts_with : String → String → Bool
starts_with s String.[] = true
starts_with String.[] (String.◌∷◌ d p) = false
starts_with (String.◌∷◌ c s) (String.◌∷◌ d p) = code c == code d && starts_with s p

-- `p in s`
unfoldable pub includes : String → String → Bool
unfolding starts_with
includes String.[] p = starts_with String.[] p
includes (String.◌∷◌ c s) p = starts_with (String.◌∷◌ c s) p || includes s p

-- `s.endswith(p)`
unfoldable pub ends_with : String → String → Bool
ends_with String.[] p = str_eq String.[] p
ends_with (String.◌∷◌ c s) p = str_eq (String.◌∷◌ c s) p || ends_with s p

-- `s[n:]` and `s[:n]`
unfoldable pub drop_chars : ℕ → String → String
drop_chars zero s = s
drop_chars (suc n) String.[] = String.[]
drop_chars (suc n) (String.◌∷◌ c s) = drop_chars n s

unfoldable pub take_chars : ℕ → String → String
take_chars zero s = String.[]
take_chars (suc n) String.[] = String.[]
take_chars (suc n) (String.◌∷◌ c s) = String.◌∷◌ c (take_chars n s)

-- `x in xs`, and `any(p in s for p in ps)` as the startswith of a tuple.
unfoldable pub elem : String → List String → Bool
elem x [] = false
elem x (y ∷ ys) = str_eq y x || elem x ys

-- Every text stands once.
unfoldable pub distinct : List String → Bool
unfolding elem
distinct [] = true
distinct (x ∷ xs) = not (elem x xs) && distinct xs

unfoldable pub starts_with_any : String → List String → Bool
unfolding starts_with
starts_with_any s [] = false
starts_with_any s (p ∷ ps) = starts_with s p || starts_with_any s ps

prepend_char : Char → List String → List String
prepend_char c [] = String.◌∷◌ c String.[] ∷ []
prepend_char c (s ∷ ss) = String.◌∷◌ c s ∷ ss

-- `s.split(d)` for a separator of one character.
unfoldable pub split_on : ℕ → String → List String
unfolding prepend_char
split_on d String.[] = "" ∷ []
split_on d (String.◌∷◌ c s) =
    let rest = split_on d s in if code c == d then "" ∷ rest else prepend_char c rest

-- `int(s)` for a text of ASCII digits, and `none` for another: the texts that are converted
-- where `isdigit` has tested them.
unfoldable pub digits_value : ℕ → String → Option ℕ
digits_value n String.[] = some n
digits_value n (String.◌∷◌ c s) =
    let rest = digits_value (n * 10 + (code c - 48)) s in
    if leb 48 (code c) && leb (code c) 57 then rest else none

unfoldable pub parse_int : String → Option ℕ
unfolding digits_value
parse_int String.[] = none
parse_int (String.◌∷◌ c s) = digits_value 0 (String.◌∷◌ c s)

-- The digits of `int`, with single underscores between them; `ends` is whether a digit stands before.
signless_value : Bool → ℕ → String → Option ℕ
signless_value ends n String.[] = if ends then some n else none
signless_value ends n (String.◌∷◌ c s) =
    let digits = signless_value true (n * 10 + (code c - 48)) s in
    let separated = signless_value false n s in
    if leb 48 (code c) && leb (code c) 57
    then digits
    else if code c == b'_' && ends
    then separated
    else none

signed : Bool → Option ℕ → Option (Bool × ℕ)
signed negative none = none
signed negative (some n) = some (negative, n)

-- `int(s)` for any ASCII text without blanks at its ends: whether it has a minus sign, and the
-- number without it. `none` is the ValueError.
unfoldable pub parse_signed : String → Option (Bool × ℕ)
unfolding signless_value signed
parse_signed String.[] = none
parse_signed (String.◌∷◌ c s) =
    if code c == b'-'
    then signed true (signless_value false 0 s)
    else if code c == b'+'
    then signed false (signless_value false 0 s)
    else signed false (signless_value false 0 (String.◌∷◌ c s))

parse_signed_runs :
    (parse_signed "+13" ≡ some (false, 13))
    × (parse_signed "-1_3" ≡ some (true, 13))
    × (parse_signed "1__3" ≡ none)
unfolding parse_signed signless_value signed
parse_signed_runs = (refl, refl, refl)

includes_runs : includes "Intel Core i7" "Core" ≡ true
unfolding includes
includes_runs = refl

split_on_runs : split_on b'.' "10.15.7" ≡ "10" ∷ "15" ∷ "7" ∷ []
unfolding split_on
split_on_runs = refl

lower_code : ℕ → ℕ
lower_code c = if leb b'A' c && leb c b'Z' then c + 32 else c

-- `s.lower() <= t.lower()`, for ASCII texts.
unfoldable pub le_lower : String → String → Bool
unfolding lower_code
le_lower String.[] t = true
le_lower (String.◌∷◌ c s) String.[] = false
le_lower (String.◌∷◌ c s) (String.◌∷◌ d t) =
    if lower_code (code c) == lower_code (code d)
    then le_lower s t
    else leb (lower_code (code c)) (lower_code (code d))

-- `s.lower().startswith(p.lower())` and `p.lower() in s.lower()`, for ASCII texts.
starts_with_lower : String → String → Bool
unfolding lower_code
starts_with_lower s String.[] = true
starts_with_lower String.[] (String.◌∷◌ d p) = false
starts_with_lower (String.◌∷◌ c s) (String.◌∷◌ d p) =
    lower_code (code c) == lower_code (code d) && starts_with_lower s p

unfoldable pub includes_lower : String → String → Bool
unfolding starts_with_lower
includes_lower String.[] p = starts_with_lower String.[] p
includes_lower (String.◌∷◌ c s) p = starts_with_lower (String.◌∷◌ c s) p || includes_lower s p

-- `s.lower() == p` for a lower-case ASCII p.
unfoldable pub lower_is : String → String → Bool
unfolding lower_code
lower_is String.[] String.[] = true
lower_is String.[] (String.◌∷◌ d p) = false
lower_is (String.◌∷◌ c s) String.[] = false
lower_is (String.◌∷◌ c s) (String.◌∷◌ d p) = lower_code (code c) == code d && lower_is s p

-- `xs[-1]` of a list that is not empty.
unfoldable pub last_text : List String → String
last_text [] = ""
last_text (x ∷ []) = x
last_text (x ∷ (y ∷ ys)) = last_text (y ∷ ys)

-- `xs.index(x)`, where x is in xs.
unfoldable pub index_of : String → List String → Option ℕ
index_of x [] = none
index_of x (y ∷ ys) =
    if str_eq y x then some 0 else elim (index_of x ys) [ none ↦ none | some i ↦ some (suc i) ]

-- `s[-2]` of a text of two characters or more, as a text.
unfoldable pub second_last : String → String
second_last String.[] = ""
second_last (String.◌∷◌ c String.[]) = ""
second_last (String.◌∷◌ c (String.◌∷◌ d String.[])) = String.◌∷◌ c String.[]
second_last (String.◌∷◌ c (String.◌∷◌ d (String.◌∷◌ e s))) =
    second_last (String.◌∷◌ d (String.◌∷◌ e s))

-- `s.strip()`, for the ASCII blanks.
is_blank : ℕ → Bool
is_blank c = c == 32 || (leb 9 c && leb c 13)

lstrip : String → String
unfolding is_blank
lstrip String.[] = ""
lstrip (String.◌∷◌ c s) = if is_blank (code c) then lstrip s else String.◌∷◌ c s

rstrip : String → String
unfolding is_blank
rstrip String.[] = ""
rstrip (String.◌∷◌ c s) =
    let rest = rstrip s in if is_blank (code c) && str_eq rest "" then "" else String.◌∷◌ c rest

unfoldable pub strip : String → String
unfolding lstrip rstrip
strip s = rstrip (lstrip s)
