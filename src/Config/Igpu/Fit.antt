-- ===== src/Config/Igpu/Fit.antt =====
-- Every branch of `igpu_properties` leaves tidy properties, or returns without memory sizes.
use freaky_ocs.Base.{
  ℕ, String, ◌≡◌, refl, Bool, true, false, not, ◌&&◌, ◌||◌, List, [], ◌∷◌, elem, starts_with,
  starts_with_any, second_last, arith, if_both, if◌then◌else◌,
}
use freaky_ocs.Darwin.{version, lt_version}
use freaky_ocs.Config.Igpu.State.{
  Properties, Igpu, put, put_if, is_on, drives_monitor, drives_non_vga, spoof,
}
use freaky_ocs.Config.Igpu.Families.{ivy_bridge, haswell, broadwell, memory_sizes}
use freaky_ocs.Config.Igpu.Later.{skylake, kaby_lake, coffee_lake, ice_lake}
use freaky_ocs.Config.Igpu.Tidy.{
  tidy, put-tidy, put_if-tidy, spoof-tidy, put-lacks, no_memory, Fit, ironlake-Fit,
  sandy_bridge-Fit,
}
use freaky_ocs.Config.Igpu.{by_generation}

abbrev Tidy : Properties → Type 0
Tidy p = tidy p ≡ true

-- No assignment of the list is a memory size.
put-no_memory :
    (kvs : List (String × String)) (p : Properties)
    → no_memory kvs ≡ true
    → no_memory p ≡ true
    → no_memory (put kvs p) ≡ true
put-no_memory kvs p f h =
    let a = put-lacks "framebuffer-stolenmem" kvs p (ground arith) (ground arith) in
    let b = put-lacks "framebuffer-fbmem" kvs p (ground arith) (ground arith) in ground arith

put_if-no_memory :
    (b : Bool) (kvs : List (String × String)) (p : Properties)
    → no_memory kvs ≡ true
    → no_memory p ≡ true
    → no_memory (put_if b kvs p) ≡ true
unfolding put_if
put_if-no_memory b kvs p f h = if_both (λ q. no_memory q ≡ true) b (put-no_memory kvs p f h) h

spoof-no_memory :
    (ids : List String) (value : String) (g : Igpu) → no_memory (spoof ids value g) ≡ true
unfolding spoof
spoof-no_memory ids value g = put_if-no_memory _ (("device-id", value) ∷ []) [] refl refl

ivy_bridge-Fit : (g : Igpu) → Fit (ivy_bridge g)
unfolding ivy_bridge
ivy_bridge-Fit g =
    let p = spoof-tidy ("0152" ∷ "0156" ∷ "0162" ∷ "0166" ∷ []) "62010000" g refl in
    if_both Fit (is_on g "Desktop") (put-tidy _ _ refl (put_if-tidy _ _ _ refl p)) (
      if_both Fit (is_on g "NUC") (put-tidy _ _ refl p)
        (if_both Fit (is_on g "Laptop") (put_if-tidy _ _ _ refl (put-tidy _ _ refl p)) p))

haswell-Fit : (g : Igpu) → Fit (haswell g)
unfolding haswell
haswell-Fit g =
    let p = spoof-tidy ("0D26" ∷ "0A26" ∷ "0A2E" ∷ "0D22" ∷ "0412" ∷ []) "12040000" g refl in
    if_both Fit (is_on g "Desktop")
      (if_both Fit (not (drives_non_vga g)) (put-no_memory _ _ refl (spoof-no_memory _ _ g))
        (put-tidy _ _ refl p))
      (if_both Fit (is_on g "NUC") (put-tidy _ _ refl p) (
        if_both Fit (is_on g "Laptop")
          (put-tidy _ _ refl (put_if-tidy _ _ _ refl (put-tidy _ _ refl p))) p))

broadwell-Fit : (g : Igpu) → Fit (broadwell g)
unfolding broadwell
broadwell-Fit g =
    let p =
      spoof-tidy
        ("0BD1" ∷ "0BD2" ∷ "0BD3" ∷ "1606" ∷ "160E" ∷ "161E" ∷ "1626" ∷ "1622" ∷ "1612" ∷ "162B"
          ∷ [])
        "26160000" g refl in
    put-tidy memory_sizes _ refl (
      if_both Tidy (is_on g "Desktop") (put-tidy _ _ refl p) (
        if_both Tidy (is_on g "NUC") (put-tidy _ _ refl p)
          (if_both Tidy (is_on g "Laptop") (put-tidy _ _ refl p) p)))

skylake-Fit : (g : Igpu) → Fit (skylake g)
unfolding skylake
skylake-Fit g =
    let p = put_if-tidy _ _ _ refl (
      put_if-tidy _ _ _ refl (
        spoof-tidy
          ("1916" ∷ "191E" ∷ "1926" ∷ "1927" ∷ "1912" ∷ "1932" ∷ "1902" ∷ "1917" ∷ "193B" ∷ "191B"
            ∷ [])
          "1B190000" g refl)) in
    if_both Fit (is_on g "Desktop")
      (if_both Fit (not (drives_monitor g))
        (put-no_memory _ _ refl
          (put_if-no_memory _ _ _ refl (put_if-no_memory _ _ _ refl (spoof-no_memory _ _ g))))
        (put-tidy memory_sizes _ refl (put-tidy _ _ refl p)))
      (if_both Fit (is_on g "NUC")
        (put-tidy memory_sizes _ refl (
          if_both Tidy (starts_with_any g.id ("1926" ∷ "1927" ∷ []))
            (put-tidy _ _ refl (put-tidy _ _ refl p))
            (put_if-tidy _ _ _ refl (put-tidy _ _ refl p))))
        (if_both Fit (is_on g "Laptop")
          (put-tidy memory_sizes _ refl (put_if-tidy _ _ _ refl (put-tidy _ _ refl p)))
          (put-tidy memory_sizes _ refl p)))

kaby_lake-Fit : (g : Igpu) → Fit (kaby_lake g)
unfolding kaby_lake
kaby_lake-Fit g =
    let p = put_if-tidy _ _ _ refl (
      spoof-tidy
        ("5912" ∷ "5916" ∷ "591B" ∷ "591C" ∷ "591E" ∷ "5926" ∷ "5927" ∷ "5923" ∷ "87C0" ∷ [])
        "16590000" g refl) in
    if_both Fit (is_on g "Desktop")
      (if_both Fit (not (drives_monitor g))
        (put-no_memory _ _ refl (put_if-no_memory _ _ _ refl (spoof-no_memory _ _ g)))
        (put-tidy memory_sizes _ refl (put-tidy _ _ refl p)))
      (if_both Fit (is_on g "NUC")
        (put-tidy memory_sizes _ refl (
          if_both Tidy (starts_with_any g.id ("5912" ∷ "591B" ∷ "591A" ∷ "591D" ∷ []))
            (put-tidy _ _ refl (put-tidy _ _ refl p))
            (put_if-tidy _ _ _ refl (put-tidy _ _ refl p))))
        (if_both Fit (is_on g "Laptop")
          (put-tidy memory_sizes _ refl (
            if_both Tidy (starts_with_any g.id ("5917" ∷ "87C0" ∷ []))
              (put-tidy _ _ refl (put-tidy _ _ refl p)) (put-tidy _ _ refl (put-tidy _ _ refl p))))
          (put-tidy memory_sizes _ refl p)))

platform_id-tidy :
    (b : Bool) (x y : String) (kvs : List (String × String)) (p : Properties)
    → tidy (put (("AAPL,ig-platform-id", x) ∷ kvs) p) ≡ true
    → tidy (put (("AAPL,ig-platform-id", y) ∷ kvs) p) ≡ true
    → tidy (put (("AAPL,ig-platform-id", if b then x else y) ∷ kvs) p) ≡ true
platform_id-tidy true x y kvs p h k = h
platform_id-tidy false x y kvs p h k = k

coffee_lake-Fit : (g : Igpu) → Fit (coffee_lake g)
unfolding coffee_lake
coffee_lake-Fit g =
    let p =
      spoof-tidy
        ("3E9B" ∷ "3EA5" ∷ "3EA6" ∷ "3E92" ∷ "3E91" ∷ "3E98" ∷ "9BC8" ∷ "9BC5" ∷ "9BC4" ∷ [])
        "9B3E0000" g refl in
    if_both Fit (is_on g "Desktop")
      (if_both Fit (not (drives_monitor g)) (put-no_memory _ _ refl (spoof-no_memory _ _ g)) (
        platform_id-tidy (lt_version g.macos (version 19 5 0)) "07009B3E" "00009B3E" _ _
          (put-tidy _ _ refl p) (put-tidy _ _ refl p)))
      (if_both Fit (is_on g "NUC") (put_if-tidy _ _ _ refl (put-tidy _ _ refl p)) (
        if_both Fit (is_on g "Laptop")
          (put-tidy memory_sizes _ refl (put_if-tidy _ _ _ refl (put-tidy _ _ refl p))) p))

ice_lake-Fit : (g : Igpu) → Fit (ice_lake g)
unfolding ice_lake
ice_lake-Fit g = put-tidy _ _ refl (
    spoof-tidy
      ("FF05" ∷ "8A70" ∷ "8A71" ∷ "8A51" ∷ "8A5C" ∷ "8A5D" ∷ "8A52" ∷ "8A53" ∷ "8A5A" ∷ "8A5B" ∷ [])
      "528A0000" g refl)

pub by_generation-Fit : (g : Igpu) → Fit (by_generation g)
unfolding by_generation freaky_ocs.Base.distinct freaky_ocs.Base.Dict.keys
by_generation-Fit g = if_both Fit (starts_with_any g.id ("0042" ∷ "0046" ∷ [])) (ironlake-Fit g) (
    if_both Fit (starts_with g.id "01" && not (elem (second_last g.id) ("5" ∷ "6" ∷ [])))
      (sandy_bridge-Fit g)
      (if_both Fit (starts_with g.id "01") (ivy_bridge-Fit g) (
        if_both Fit (starts_with_any g.id ("04" ∷ "0A" ∷ "0C" ∷ "0D" ∷ [])) (haswell-Fit g) (
          if_both Fit (starts_with_any g.id ("0B" ∷ "16" ∷ [])) (broadwell-Fit g) (
            if_both Fit
              (starts_with_any g.id ("09" ∷ "19" ∷ []) && lt_version g.macos (version 22 0 0))
              (skylake-Fit g)
              (if_both Fit (starts_with_any g.id ("09" ∷ "19" ∷ "59" ∷ "87C0" ∷ []))
                (kaby_lake-Fit g)
                (if_both Fit (starts_with_any g.id ("3E" ∷ "87" ∷ "9B" ∷ [])) (coffee_lake-Fit g)
                  (if_both Fit (starts_with g.id "8A") (ice_lake-Fit g) refl))))))))
