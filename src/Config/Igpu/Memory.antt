-- ===== src/Config/Igpu/Memory.antt =====
-- The memory sizes of the framebuffer are left out for a monitor of 3840x2160 or more.
use freaky_ocs.Base.{
  String, ◌≡◌, refl, true, false, not, none, some, [], ◌∷◌, any, elem, distinct, str_eq, eq_iff,
  drop_chars, arith, if_both, Bool-cases, Option-cases, inl, inr,
}
use mathlib.Core.Path.{subst}
use freaky_ocs.Base.Dict.{Dict, keys, get, erase}
use freaky_ocs.Darwin.{Version}
use freaky_ocs.Report.{Device, Monitor}
use freaky_ocs.Config.Igpu.State.{Properties, Igpu, Stage, early, rest, is_on, wide}
use freaky_ocs.Config.Igpu.Tidy.{tidy, filled, put_if-tidy, lacks, insert-lacks, no_memory, Fit}
use freaky_ocs.Config.Igpu.Fit.{by_generation-Fit}
use freaky_ocs.Config.Igpu.{by_generation, drop_key, for_4k, enable_patch, igpu_properties}

lacks-none : (x : String) (p : Properties) → lacks x p ≡ true → get x p ≡ none
unfolding get
lacks-none x [] h = refl
lacks-none x ((k, v) ∷ p) h = ground (arith, lacks-none x p)

none-lacks : (x : String) (p : Properties) → get x p ≡ none → lacks x p ≡ true
unfolding get
none-lacks x [] h = refl
none-lacks x ((k, v) ∷ p) h = ground (arith, none-lacks x p)

absent-lacks : (x : String) (p : Properties) → elem x (keys p) ≡ false → lacks x p ≡ true
unfolding elem keys
absent-lacks x [] h = refl
absent-lacks x ((k, v) ∷ p) h = ground (arith, absent-lacks x p)

erase-lacks : (x : String) (p : Properties) → tidy p ≡ true → lacks x (erase x p) ≡ true
unfolding erase keys distinct
erase-lacks x [] h = refl
erase-lacks x ((k, v) ∷ p) h = ground (arith, eq_iff k x, absent-lacks x p, erase-lacks x p)

erase-lacks_other : (x y : String) (p : Properties) → lacks x p ≡ true → lacks x (erase y p) ≡ true
unfolding erase
erase-lacks_other x y [] h = refl
erase-lacks_other x y ((k, v) ∷ p) h = ground (arith, erase-lacks_other x y p)

erase-elem :
    (x y : String) (p : Properties) → elem x (keys p) ≡ false → elem x (keys (erase y p)) ≡ false
unfolding erase keys elem
erase-elem x y [] h = refl
erase-elem x y ((k, v) ∷ p) h = ground (arith, erase-elem x y p)

erase-tidy : (x : String) (p : Properties) → tidy p ≡ true → tidy (erase x p) ≡ true
unfolding erase keys distinct
erase-tidy x [] h = h
erase-tidy x ((k, v) ∷ p) h = ground (arith, erase-tidy x p, erase-elem k x p)

get-filled :
    (x v : String) (p : Properties) → filled p ≡ true → get x p ≡ some v → str_eq v "" ≡ false
unfolding get
get-filled x v [] f h = absurd (ground arith)
get-filled x v ((k, w) ∷ p) f h = elim (Bool-cases (str_eq k x)) [
  | inl at ↦
      (let same : w ≡ v = ground arith in subst (λ u. str_eq u "" ≡ false) same (ground arith))
  | inr off ↦ get-filled x v p (ground arith) (ground arith)
]

-- After `drop_key` the key is gone, and what held of the dict still holds.
drop_key-lacks :
    (x : String) (p : Properties)
    → tidy p ≡ true
    → (lacks x (drop_key x p) ≡ true) × (tidy (drop_key x p) ≡ true)
unfolding drop_key
drop_key-lacks x p h = elim (Option-cases (get x p)) [
  | inl e ↦ (let l = none-lacks x p e in (ground arith, ground arith))
  | inr (v, e) ↦
      (let f = get-filled x v p (ground arith) e in
        let l = erase-lacks x p h in let t = erase-tidy x p h in (ground arith, ground arith))
]

drop_key-lacks_other :
    (x y : String) (p : Properties) → lacks x p ≡ true → lacks x (drop_key y p) ≡ true
unfolding drop_key
drop_key-lacks_other x y p h = ground (arith, erase-lacks_other x y p h)

drop_both-no_memory :
    (p : Properties)
    → tidy p ≡ true
    → no_memory (drop_key "framebuffer-fbmem" (drop_key "framebuffer-stolenmem" p)) ≡ true
drop_both-no_memory p h =
    let (first, tidied) = drop_key-lacks "framebuffer-stolenmem" p h in
    let (second, _) =
      drop_key-lacks "framebuffer-fbmem" (drop_key "framebuffer-stolenmem" p) tidied in
    let kept =
      drop_key-lacks_other "framebuffer-stolenmem" "framebuffer-fbmem"
        (drop_key "framebuffer-stolenmem" p) first in
    ground arith

for_4k-no_memory :
    (g : Igpu) (p : Properties)
    → wide 3840 2160 g.monitor ≡ true
    → tidy p ≡ true
    → no_memory (for_4k g p) ≡ true
unfolding for_4k
for_4k-no_memory g p w h =
    let start =
      put_if-tidy (is_on g "Laptop") (("enable-max-pixel-clock-override", "01000000") ∷ []) p refl
        h in
    let h = drop_both-no_memory _ start in ground arith

enable_patch-no_memory : (p : Properties) → no_memory p ≡ true → no_memory (enable_patch p) ≡ true
unfolding enable_patch
enable_patch-no_memory p h =
    let a =
      insert-lacks "framebuffer-stolenmem" "framebuffer-patch-enable" "01000000" p refl
        (ground arith) in
    let b =
      insert-lacks "framebuffer-fbmem" "framebuffer-patch-enable" "01000000" p refl
        (ground arith) in
    if_both (λ q. no_memory q ≡ true)
      (any (λ kv. not (elem kv.0 ("AAPL,ig-platform-id" ∷ "device-id" ∷ []))) p) (ground arith) h

finish-no_memory :
    (g : Igpu) (s : Stage)
    → wide 3840 2160 g.monitor ≡ true
    → Fit s
    → no_memory (elim s [ early p ↦ p | rest p ↦ enable_patch (for_4k g p) ]) ≡ true
finish-no_memory g (early p) w h = h
finish-no_memory g (rest p) w h = enable_patch-no_memory (for_4k g p) (for_4k-no_memory g p w h)

pub igpu_properties-4k :
    (platform gpu_name : String) (device : Device) (monitor : Dict Monitor) (macos : Version)
    → wide 3840 2160 monitor ≡ true
    → (get "framebuffer-stolenmem" (igpu_properties platform gpu_name device monitor macos) ≡ none)
      × (get "framebuffer-fbmem" (igpu_properties platform gpu_name device monitor macos) ≡ none)
unfolding igpu_properties
igpu_properties-4k platform gpu_name device monitor macos w =
    let g : Igpu = record {
      platform = platform;
      gpu_name = gpu_name;
      id = drop_chars 5 device.device_id;
      monitor = monitor;
      macos = macos;
    } in
    let h = finish-no_memory g (by_generation g) w (by_generation-Fit g) in
    (
      lacks-none "framebuffer-stolenmem" _ (ground arith),
      lacks-none "framebuffer-fbmem" _ (ground arith),
    )
