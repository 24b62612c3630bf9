-- ===== src/Kexts/Known.antt =====
-- Lists of names that are all in the table of kexts.
use freaky_ocs.Base.{
  ℕ, String, ◌≡◌, refl, Bool, true, false, Option, none, some, List, [], ◌∷◌, ◌++◌, all, arith,
}
use freaky_ocs.Kexts.Data.{kexts, index_by_name}
use freaky_ocs.Kexts.Select.System.{when}

abbrev pub found : Option ℕ → Bool
found none = false
found (some i) = true

-- `name in kext_index_by_name`
unfoldable pub is_kext : String → Bool
is_kext name = found (index_by_name kexts name)

pub record Known (names : List String) : Type 0 where
  pub known : all is_kext names ≡ true

all-append :
    (p : String → Bool) (xs ys : List String)
    → all p xs ≡ true
    → all p ys ≡ true
    → all p (xs ++ ys) ≡ true
all-append p [] ys h k = k
all-append p (x ∷ xs) ys h k = ground (arith, all-append p xs ys)

pub append-Known : {xs ys : List String} → Known xs → Known ys → Known (xs ++ ys)
append-Known h k = record { known = all-append is_kext _ _ h.known k.known }

pub when-Known : {names : List String} (b : Bool) → Known names → Known (when b names)
unfolding when
when-Known true h = h
when-Known false h = record { known = refl }

-- Names whose look-ups compute.
pub table :
    {names : List String}
    → all (λ name. found (index_by_name kexts name)) names ≡ true
    → Known names
unfolding is_kext
table h = record { known = h }

pub table_cons :
    {name : String} {names : List String}
    → found (index_by_name kexts name) ≡ true
    → Known names
    → Known (name ∷ names)
unfolding is_kext
table_cons h k = record { known = ground (arith, h, k.known) }
