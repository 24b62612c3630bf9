-- ===== src/Config/Igpu/Later.antt =====
-- The branches of `igpu_properties` from Skylake to Ice Lake: Scripts/config_prodigy.py.
use freaky_ocs.Base.{String, not, List, [], ◌∷◌, elem, starts_with, starts_with_any, if◌then◌else◌}
use freaky_ocs.Darwin.{version, lt_version}
use freaky_ocs.Config.Igpu.State.{
  Igpu, Stage, early, rest, put, put_if, is_on, drives_monitor, spoof,
}
use freaky_ocs.Config.Igpu.Families.{memory_sizes}

unfoldable pub skylake : Igpu → Stage
skylake g =
    let p = put_if (starts_with g.id "191E") (("AAPL,ig-platform-id", "00001E19") ∷ []) (
      put_if (elem g.id ("1906" ∷ "190B" ∷ [])) (("device-id", "02190000") ∷ []) (
        spoof
          ("1916" ∷ "191E" ∷ "1926" ∷ "1927" ∷ "1912" ∷ "1932" ∷ "1902" ∷ "1917" ∷ "193B" ∷ "191B"
            ∷ [])
          "1B190000" g)) in
    if is_on g "Desktop"
    then if not (drives_monitor g)
      then early (put (("AAPL,ig-platform-id", "01001219") ∷ []) p)
      else rest (put memory_sizes (put (("AAPL,ig-platform-id", "00001219") ∷ []) p))
    else if is_on g "NUC"
    then (let q = put (("AAPL,ig-platform-id", "02001619") ∷ []) p in
        rest (
          put memory_sizes (
            if starts_with_any g.id ("1926" ∷ "1927" ∷ [])
            then put (("AAPL,ig-platform-id", "02002619") ∷ []) q
            else put_if (starts_with_any g.id ("1932" ∷ "193B" ∷ "193A" ∷ "193D" ∷ []))
                (("AAPL,ig-platform-id", "05003B19") ∷ []) q)))
    else if is_on g "Laptop"
    then rest (
        put memory_sizes (
          put_if (starts_with_any g.id ("1902" ∷ "1906" ∷ "190B" ∷ []))
            (("AAPL,ig-platform-id", "00001B19") ∷ [])
            (put (("AAPL,ig-platform-id", "00001619") ∷ []) p)))
    else rest (put memory_sizes p)

kaby_lake_connectors : List (String × String)
kaby_lake_connectors =
    ("framebuffer-con1-alldata", "01050A00000800008701000002040A000008000087010000")
    ∷ ("framebuffer-con1-enable", "01000000")
    ∷ ("#framebuffer-con1-alldata", "01050A00000800008701000003060A000004000087010000")
    ∷ ("#framebuffer-con1-enable", "01000000")
    ∷ []

unfoldable pub kaby_lake : Igpu → Stage
unfolding kaby_lake_connectors
kaby_lake g =
    let p =
      put_if (starts_with_any g.id ("5917" ∷ "5916" ∷ "5921" ∷ []))
        (("AAPL,ig-platform-id", "00001659") ∷ [])
        (spoof ("5912" ∷ "5916" ∷ "591B" ∷ "591C" ∷ "591E" ∷ "5926" ∷ "5927" ∷ "5923" ∷ "87C0" ∷ [])
          "16590000" g) in
    if is_on g "Desktop"
    then if not (drives_monitor g)
      then early (put (("AAPL,ig-platform-id", "03001259") ∷ []) p)
      else rest (put memory_sizes (put (("AAPL,ig-platform-id", "00001259") ∷ []) p))
    else if is_on g "NUC"
    then (let q = put (("AAPL,ig-platform-id", "00001E59") ∷ []) p in
        rest (
          put memory_sizes (
            if starts_with_any g.id ("5912" ∷ "591B" ∷ "591A" ∷ "591D" ∷ [])
            then put (("AAPL,ig-platform-id", "00001B59") ∷ []) q
            else put_if (starts_with_any g.id ("5926" ∷ "5927" ∷ []))
                (("AAPL,ig-platform-id", "02002659") ∷ []) q)))
    else if is_on g "Laptop"
    then (let q = put (("AAPL,ig-platform-id", "00001B59") ∷ []) p in
        rest (
          put memory_sizes (
            if starts_with_any g.id ("5917" ∷ "87C0" ∷ [])
            then put (("AAPL,ig-platform-id", "00001659") ∷ []) q
            else put kaby_lake_connectors q)))
    else rest (put memory_sizes p)

unfoldable pub coffee_lake : Igpu → Stage
coffee_lake g =
    let p =
      spoof ("3E9B" ∷ "3EA5" ∷ "3EA6" ∷ "3E92" ∷ "3E91" ∷ "3E98" ∷ "9BC8" ∷ "9BC5" ∷ "9BC4" ∷ [])
        "9B3E0000" g in
    if is_on g "Desktop"
    then if not (drives_monitor g)
      then early (
          put
            (("AAPL,ig-platform-id", if not (starts_with g.id "9B") then "0300913E" else "0300C89B")
              ∷ [])
            p)
      else rest (
          put
            ((
              "AAPL,ig-platform-id",
              if lt_version g.macos (version 19 5 0) then "07009B3E" else "00009B3E",
            )
              ∷ ("framebuffer-stolenmem", "00003001")
              ∷ [])
            p)
    else if is_on g "NUC"
    then rest (
        put_if (starts_with_any g.id ("3EA5" ∷ "3EA8" ∷ []))
          (("AAPL,ig-platform-id", "0000A53E") ∷ [])
          (put (("AAPL,ig-platform-id", "07009B3E") ∷ []) p))
    else if is_on g "Laptop"
    then rest (
        put memory_sizes (
          put_if (starts_with_any g.id ("3EA9" ∷ "3EA0" ∷ []))
            (("AAPL,ig-platform-id", "00009B3E") ∷ [])
            (put (("AAPL,ig-platform-id", "0900A53E") ∷ []) p)))
    else rest p

unfoldable pub ice_lake : Igpu → Stage
ice_lake g = rest (
    put
      (("AAPL,ig-platform-id", "0200518A")
        ∷ ("enable-dbuf-early-optimizer", "01000000")
        ∷ ("enable-dvmt-calc-fix", "01000000")
        ∷ ("enable-cdclk-frequency-fix", "01000000")
        ∷ memory_sizes)
      (spoof
        ("FF05" ∷ "8A70" ∷ "8A71" ∷ "8A51" ∷ "8A5C" ∷ "8A5D" ∷ "8A52" ∷ "8A53" ∷ "8A5A" ∷ "8A5B"
          ∷ [])
        "528A0000" g))
