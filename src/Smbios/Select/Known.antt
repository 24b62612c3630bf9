-- ===== src/Smbios/Select/Known.antt =====
-- Every model that is selected is one of the table of Mac models.
use freaky_ocs.Base.{
  ℕ, String, ◌≡◌, Bool, true, false, Option, none, some, [], ◌∷◌, arith, refl, if◌then◌else◌,
  if_both, ltb, str_eq, includes,
}
use freaky_ocs.Base.Dict.{Dict}
use freaky_ocs.Darwin.{Version}
use freaky_ocs.MacModels.{MacDevice, get_mac_device_by_name}
use freaky_ocs.Report.{Device, Report}
use freaky_ocs.Smbios.Select.{
  headless_model, by_platform, if_first_integrated, coffee_lake_model, integrated_model,
  select_smbios_model, platform_of, first_gpu, last_gpu, gpu_type, fewer_cores, lynnfield_model,
}

abbrev pub found : Option MacDevice → Bool
found none = false
found (some d) = true

unfoldable pub known : String → Bool
known m = found (get_mac_device_by_name m)

abbrev pub IsKnown : String → Type 0
IsKnown m = known m ≡ true

abbrev pub known_or : Option String → Bool
known_or none = false
known_or (some m) = known m

IsKnown-if : (b : Bool) (x y : String) → IsKnown x → IsKnown y → IsKnown (if b then x else y)
IsKnown-if b x y p q = if_both IsKnown b p q

-- A model whose look-up computes.
table : (m : String) → found (get_mac_device_by_name m) ≡ true → IsKnown m
unfolding known
table m h = h

lynnfield_model-IsKnown : (codename : String) → IsKnown (lynnfield_model codename)
unfolding lynnfield_model known get_mac_device_by_name
lynnfield_model-IsKnown codename = IsKnown-if (str_eq codename "Lynnfield") _ _ refl refl

headless_model-IsKnown :
    (platform codename processor_name : String) (macos : Version)
    → IsKnown (headless_model platform codename processor_name macos)
unfolding headless_model get_mac_device_by_name
headless_model-IsKnown platform codename processor_name macos =
    let h = lynnfield_model-IsKnown codename in
    let m1 = table "MacPro5,1" refl in
    let m2 = table "MacPro6,1" refl in
    let m3 = table "MacBookPro16,2" refl in
    let m4 = table "iMacPro1,1" refl in let m5 = table "MacPro7,1" refl in ground arith

fewer_cores-IsKnown :
    (cores n : ℕ) (a b : String)
    → found (get_mac_device_by_name a) ≡ true
    → found (get_mac_device_by_name b) ≡ true
    → IsKnown (fewer_cores cores n a b)
unfolding fewer_cores
fewer_cores-IsKnown cores n a b p q = IsKnown-if (ltb cores n) a b (table a p) (table b q)

if_first_integrated-IsKnown :
    (key : String) (g : Device) (gs : Dict Device) (a b : String)
    → found (get_mac_device_by_name a) ≡ true
    → found (get_mac_device_by_name b) ≡ true
    → known_or (if_first_integrated ((key, g) ∷ gs) a b) ≡ true
unfolding if_first_integrated first_gpu
if_first_integrated-IsKnown key g gs a b p q =
    IsKnown-if (includes (gpu_type g) "Integrated GPU") a b (table a p) (table b q)

coffee_lake_model-IsKnown :
    (platform codename : String) (cores : ℕ) (processor_name : String) (macos : Version)
    → IsKnown (coffee_lake_model platform codename cores processor_name macos)
unfolding coffee_lake_model get_mac_device_by_name
coffee_lake_model-IsKnown platform codename cores processor_name macos =
    let m0 = table "iMac18,3" refl in
    let m1 = table "iMac19,1" refl in
    let m2 = table "Macmini8,1" refl in
    let f0 = fewer_cores-IsKnown cores 10 "iMac20,1" "iMac20,2" refl refl in
    let f1 = fewer_cores-IsKnown cores 6 "MacBookPro15,2" "MacBookPro15,3" refl refl in
    let f2 = fewer_cores-IsKnown cores 6 "MacBookPro16,3" "MacBookPro16,1" refl refl in ground arith

integrated_model-IsKnown :
    (platform codename : String) (cores : ℕ) (processor_name : String) (macos : Version)
    (key : String) (g : Device) (gs : Dict Device) (model : String)
    → IsKnown model
    → known_or (integrated_model platform codename cores processor_name macos ((key, g) ∷ gs) model)
      ≡ true
unfolding integrated_model by_platform get_mac_device_by_name
integrated_model-IsKnown platform codename cores processor_name macos key g gs model h =
    let c = coffee_lake_model-IsKnown platform codename cores processor_name macos in
    let m0 = table "MacBookPro6,1" refl in
    let m1 = table "iMac12,2" refl in
    let m2 = table "Macmini7,1" refl in
    let m3 = table "iMac16,1" refl in
    let m4 = table "iMac17,1" refl in
    let m5 = table "MacBookAir9,1" refl in
    let f0 = fewer_cores-IsKnown cores 4 "Macmini5,1" "Macmini5,3" refl refl in
    let f1 = fewer_cores-IsKnown cores 4 "MacBookPro8,1" "MacBookPro8,2" refl refl in
    let f2 = fewer_cores-IsKnown cores 4 "Macmini6,1" "Macmini6,2" refl refl in
    let f3 = fewer_cores-IsKnown cores 4 "MacBookPro10,2" "MacBookPro10,1" refl refl in
    let f4 = fewer_cores-IsKnown cores 4 "MacBookPro11,1" "MacBookPro11,5" refl refl in
    let f5 = fewer_cores-IsKnown cores 4 "MacBookPro12,1" "MacBookPro11,5" refl refl in
    let f6 = fewer_cores-IsKnown cores 4 "MacBookPro13,1" "MacBookPro13,3" refl refl in
    let f7 = fewer_cores-IsKnown cores 4 "MacBookPro14,1" "MacBookPro14,3" refl refl in
    let i0 = if_first_integrated-IsKnown key g gs "iMac13,1" "iMac13,2" refl refl in
    let i1 = if_first_integrated-IsKnown key g gs "iMac14,4" "iMac15,1" refl refl in
    let i2 = if_first_integrated-IsKnown key g gs "iMac16,2" "iMac17,1" refl refl in
    let i3 = if_first_integrated-IsKnown key g gs "iMac18,1" "iMac18,3" refl refl in ground arith

last_gpu-some :
    (key : String) (g : Device) (gs : Dict Device)
    → (d : Device) × (last_gpu ((key, g) ∷ gs) ≡ some d)
unfolding last_gpu
last_gpu-some key g [] = (g, refl)
last_gpu-some key g ((key', h) ∷ gs) = last_gpu-some key' h gs

pub select_smbios_model-IsKnown :
    (r : Report) (macos : Version) (key : String) (g : Device) (gs : Dict Device)
    → r.gpu ≡ (key, g) ∷ gs
    → known_or (select_smbios_model r macos) ≡ true
unfolding select_smbios_model
select_smbios_model-IsKnown r macos key g gs h =
    let platform = platform_of r in
    let model = headless_model platform r.cpu.codename r.cpu.processor_name macos in
    let k = headless_model-IsKnown platform r.cpu.codename r.cpu.processor_name macos in
    let i =
      integrated_model-IsKnown platform r.cpu.codename r.cpu.core_count r.cpu.processor_name macos
        key g gs model k in
    let (d, l) = last_gpu-some key g gs in rw (h, l) (ground arith)

pub select_smbios_model-found :
    (r : Report) (macos : Version) (key : String) (g : Device) (gs : Dict Device)
    → r.gpu ≡ (key, g) ∷ gs
    → (m : String) × (d : MacDevice) × (select_smbios_model r macos ≡ some m)
      × (get_mac_device_by_name m ≡ some d)
unfolding known
select_smbios_model-found r macos key g gs h =
    go (select_smbios_model r macos) refl (select_smbios_model-IsKnown r macos key g gs h)
  where
    at_found :
        (m : String) (o : Option MacDevice)
        → select_smbios_model r macos ≡ some m
        → get_mac_device_by_name m ≡ o
        → found o ≡ true
        → (n : String) × (d : MacDevice) × (select_smbios_model r macos ≡ some n)
          × (get_mac_device_by_name n ≡ some d)
    at_found m none e f k = absurd (ground arith)
    at_found m (some d) e f k = (m, d, e, f)

    go :
        (o : Option String)
        → select_smbios_model r macos ≡ o
        → known_or o ≡ true
        → (m : String) × (d : MacDevice) × (select_smbios_model r macos ≡ some m)
          × (get_mac_device_by_name m ≡ some d)
    go none e k = absurd (ground arith)
    go (some m) e k = at_found m (get_mac_device_by_name m) e refl k
