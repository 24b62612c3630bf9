-- ===== src/Validator/Language.antt =====
-- The texts that a pattern describes, and that the matcher by derivatives accepts exactly these
-- (Scripts/report_validator.py).
use Prim.Native.Char.{Char, code}
use freaky_ocs.Base.{
  ℕ, String, ◌≡◌, ◌↔◌, ◌⊎◌, inl, inr, Bool, true, ◌&&◌, List, [], ◌∷◌, any, All, leb, str_eq, arith,
  refl, Bool-cases, and_true, or_true, eq_iff, sym, ap, ◌∙◌,
}
use mathlib.Core.Path.{subst}
use freaky_ocs.Validator.Regex.{Regex, fail, empty, cls, seq, alt, star, nullable, derive, matches}

pub join : String → String → String
join String.[] t = t
join (String.◌∷◌ c s) t = String.◌∷◌ c (join s t)

join_all : List String → String
unfolding join
join_all [] = ""
join_all (s ∷ ss) = join s (join_all ss)

in_class : ℕ → List (ℕ × ℕ) → Bool
in_class c rs = any (λ (lo, hi). leb lo c && leb c hi) rs

-- The texts of a pattern, told by how a text is put together.
pub Lang : Regex → String → Type 0
unfolding join join_all in_class
Lang fail s = ⊥
Lang empty s = s ≡ ""
Lang (cls rs) s = (c : Char) × (s ≡ String.◌∷◌ c "") × (in_class (code c) rs ≡ true)
Lang (seq r q) s = (t : String) × (u : String) × (s ≡ join t u) × Lang r t × Lang q u
Lang (alt r q) s = Lang r s ⊎ Lang q s
Lang (star r) s = (ss : List String) × (s ≡ join_all ss) × All (Lang r) ss

join-injective : (c d : Char) (s t : String) → String.◌∷◌ c s ≡ String.◌∷◌ d t → (c ≡ d) × (s ≡ t)
join-injective c d s t h = (cc, cc)

nullable-Lang : (r : Regex) → nullable r ≡ true → Lang r ""
unfolding nullable Lang join join_all
nullable-Lang fail h = absurd (ground arith)
nullable-Lang empty h = refl
nullable-Lang (cls rs) h = absurd (ground arith)
nullable-Lang (seq r q) h =
    let (a, b) = and_true (nullable r) (nullable q) h in
    ("", "", refl, nullable-Lang r a, nullable-Lang q b)
nullable-Lang (alt r q) h = elim (or_true (nullable r) (nullable q) h) [
  | inl a ↦ inl (nullable-Lang r a)
  | inr b ↦ inr (nullable-Lang q b)
]
nullable-Lang (star r) h = ([], refl, tt)

join-eq-nil : (t u : String) → "" ≡ join t u → (t ≡ "") × (u ≡ "")
unfolding join
join-eq-nil String.[] u h = (refl, sym h)
join-eq-nil (String.◌∷◌ c t) u h = cc

Lang-nullable : (r : Regex) → Lang r "" → nullable r ≡ true
unfolding nullable Lang join join_all
Lang-nullable fail h = absurd h
Lang-nullable empty h = refl
Lang-nullable (cls rs) (c, e, h) = cc
Lang-nullable (seq r q) (t, u, e, a, b) =
    let (no_t, no_u) = join-eq-nil t u e in
    let left = Lang-nullable r (subst (Lang r) no_t a) in
    let right = Lang-nullable q (subst (Lang q) no_u b) in ground arith
Lang-nullable (alt r q) (inl a) = let left = Lang-nullable r a in ground arith
Lang-nullable (alt r q) (inr b) = let right = Lang-nullable q b in ground arith
Lang-nullable (star r) h = refl

-- A first piece that is not empty begins with the character.
star-first :
    (c : Char) (r : Regex) (s : String) (ss : List String)
    → ((t : String) → Lang r (String.◌∷◌ c t) → Lang (derive (code c) r) t)
    → String.◌∷◌ c s ≡ join_all ss
    → All (Lang r) ss
    → Lang (seq (derive (code c) r) (star r)) s
unfolding Lang join join_all
star-first c r s [] rest e all = cc
star-first c r s (String.[] ∷ ss) rest e all = star-first c r s ss rest e all.1
star-first c r s (String.◌∷◌ d t ∷ ss) rest e all =
    let (same, tail) = join-injective c d s (join t (join_all ss)) e in
    (
      t,
      join_all ss,
      tail,
      rest t (subst (λ x. Lang r (String.◌∷◌ x t)) (sym same) all.0),
      (ss, refl, all.1),
    )

Lang-derive :
    (c : Char) (r : Regex) (s : String) → Lang r (String.◌∷◌ c s) → Lang (derive (code c) r) s
unfolding derive Lang join join_all in_class
Lang-derive c fail s h = absurd h
Lang-derive c empty s h = cc
Lang-derive c (cls rs) s (d, e, h) =
    let (same, tail) = join-injective c d s "" e in
    rw (subst (λ x. in_class (code x) rs ≡ true) (sym same) h) tail
Lang-derive c (seq r q) s (String.[], u, e, a, b) =
    rw (Lang-nullable r a) (inr (Lang-derive c q s (subst (Lang q) (sym e) b)))
Lang-derive c (seq r q) s (String.◌∷◌ d t, u, e, a, b) =
    let (same, tail) = join-injective c d s (join t u) e in
    let first : Lang (seq (derive (code c) r) q) s =
      (t, u, tail, Lang-derive c r t (subst (λ x. Lang r (String.◌∷◌ x t)) (sym same) a), b) in
    elim (Bool-cases (nullable r)) [ inl h ↦ rw h (inl first) | inr h ↦ rw h first ]
Lang-derive c (alt r q) s (inl a) = inl (Lang-derive c r s a)
Lang-derive c (alt r q) s (inr b) = inr (Lang-derive c q s b)
Lang-derive c (star r) s (ss, e, all) = star-first c r s ss (λ t h. Lang-derive c r t h) e all

-- The other way: a text after the character gives one with it.
derive-Lang :
    (c : Char) (r : Regex) (s : String) → Lang (derive (code c) r) s → Lang r (String.◌∷◌ c s)
unfolding derive Lang join join_all in_class
derive-Lang c fail s h = absurd h
derive-Lang c empty s h = absurd h
derive-Lang c (cls rs) s h = elim (Bool-cases (in_class (code c) rs)) [
  | inl ends ↦ (c, ap (String.◌∷◌ c) (rw ends at h), ends)
  | inr goes_on ↦ absurd (rw goes_on at h)
]
derive-Lang c (seq r q) s h = elim (Bool-cases (nullable r)) [
  | inl ends ↦ elim (rw ends at h) [
    | inl (t, u, e, a, b) ↦ (String.◌∷◌ c t, u, ap (String.◌∷◌ c) e, derive-Lang c r t a, b)
    | inr b ↦ ("", String.◌∷◌ c s, refl, nullable-Lang r ends, derive-Lang c q s b)
  ]
  | inr goes_on ↦
      let (t, u, e, a, b) = rw goes_on at h in
      (String.◌∷◌ c t, u, ap (String.◌∷◌ c) e, derive-Lang c r t a, b)
]
derive-Lang c (alt r q) s (inl a) = inl (derive-Lang c r s a)
derive-Lang c (alt r q) s (inr b) = inr (derive-Lang c q s b)
derive-Lang c (star r) s (t, u, e, a, (ss, e', all)) =
    (String.◌∷◌ c t ∷ ss, ap (String.◌∷◌ c) (e ∙ ap (join t) e'), (derive-Lang c r t a, all))

-- A text of the pattern, or one with a newline after it.
abbrev pub Accepts : Regex → String → Type 0
Accepts r s = Lang r s ⊎ ((t : String) × (s ≡ join t "\n") × Lang r t)

matches-Accepts : (r : Regex) (s : String) → matches r s ≡ true → Accepts r s
unfolding matches join
matches-Accepts r String.[] h = inl (nullable-Lang r h)
matches-Accepts r (String.◌∷◌ c s) h =
    elim (or_true (nullable r && str_eq (String.◌∷◌ c s) "\n") (matches (derive (code c) r) s) h) [
      | inl last ↦
          let (ends, newline) = and_true (nullable r) (str_eq (String.◌∷◌ c s) "\n") last in
          inr ("", (eq_iff (String.◌∷◌ c s) "\n").0 newline, nullable-Lang r ends)
      | inr more ↦ elim (matches-Accepts (derive (code c) r) s more) [
        | inl a ↦ inl (derive-Lang c r s a)
        | inr (t, e, a) ↦ inr (String.◌∷◌ c t, ap (String.◌∷◌ c) e, derive-Lang c r t a)
      ]
    ]

Accepts-matches : (r : Regex) (s : String) → Accepts r s → matches r s ≡ true
unfolding matches join
Accepts-matches r String.[] (inl a) = Lang-nullable r a
Accepts-matches r String.[] (inr (t, e, a)) = let (no_t, no_newline) = join-eq-nil t "\n" e in cc
Accepts-matches r (String.◌∷◌ c s) (inl a) =
    let rest = Accepts-matches (derive (code c) r) s (inl (Lang-derive c r s a)) in ground arith
Accepts-matches r (String.◌∷◌ c s) (inr (String.[], e, a)) =
    let ends = Lang-nullable r a in let newline = (eq_iff (String.◌∷◌ c s) "\n").1 e in ground arith
Accepts-matches r (String.◌∷◌ c s) (inr (String.◌∷◌ d t, e, a)) =
    let (same, tail) = join-injective c d s (join t "\n") e in
    let first = subst (λ x. Lang r (String.◌∷◌ x t)) (sym same) a in
    let rest = Accepts-matches (derive (code c) r) s (inr (t, tail, Lang-derive c r t first)) in
    ground arith

-- The matcher accepts a text exactly if it is a text of the pattern, or one with a newline after it,
-- before which `$` stands too.
matches_iff : (r : Regex) (s : String) → (matches r s ≡ true) ↔ Accepts r s
matches_iff r s = (matches-Accepts r s, Accepts-matches r s)
