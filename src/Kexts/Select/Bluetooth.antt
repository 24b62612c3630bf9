-- ===== src/Kexts/Select/Bluetooth.antt =====
-- The Bluetooth devices that BlueToolFixup is selected for.
use freaky_ocs.Base.{
  String, ◌≡◌, refl, Bool, true, false, not, List, [], ◌∷◌, all, elem, includes, last_text, str_eq,
  eq_iff, arith, Bool-cases, inl, inr,
}
use mathlib.Core.Path.{subst}
use freaky_ocs.PciData.Bluetooth.{
  atheros_bluetooth_ids, broadcom_bluetooth_ids, intel_bluetooth_ids, bluetooth_ids,
}
use freaky_ocs.Kexts.Select.Network.{bluetooth_device_kexts}

abbrev same : Bool → Bool → Bool
same true b = b
same false b = not b

abbrev fixes_last : String → Bool
fixes_last id =
    same (elem "BlueToolFixup" (bluetooth_device_kexts id)) (str_eq id (last_text bluetooth_ids))

all-elem :
    (p : String → Bool) (xs : List String) (x : String)
    → all p xs ≡ true
    → elem x xs ≡ true
    → p x ≡ true
unfolding elem
all-elem p [] x h e = absurd (ground arith)
all-elem p (y ∷ xs) x h e = elim (Bool-cases (str_eq y x)) [
  | inl at ↦ subst (λ z. p z ≡ true) ((eq_iff y x).0 at) (ground arith)
  | inr off ↦ all-elem p xs x (ground arith) (ground arith)
]

fixes_last-all : all fixes_last bluetooth_ids ≡ true
unfolding bluetooth_device_kexts elem includes last_text bluetooth_ids atheros_bluetooth_ids
    broadcom_bluetooth_ids intel_bluetooth_ids
fixes_last-all = refl

same-eq : (a b : Bool) → same a b ≡ true → a ≡ b
same-eq true true h = refl
same-eq true false h = absurd (ground arith)
same-eq false true h = absurd (ground arith)
same-eq false false h = refl

pub bluetooth_device_kexts-last :
    (id : String)
    → elem id bluetooth_ids ≡ true
    → elem "BlueToolFixup" (bluetooth_device_kexts id) ≡ str_eq id (last_text bluetooth_ids)
bluetooth_device_kexts-last id h =
    same-eq _ _ (all-elem fixes_last bluetooth_ids id fixes_last-all h)
