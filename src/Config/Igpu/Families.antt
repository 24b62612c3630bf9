-- ===== src/Config/Igpu/Families.antt =====
-- The branches of `igpu_properties` from Ironlake to Broadwell: Scripts/config_prodigy.py.
use freaky_ocs.Base.{String, not, List, [], ◌∷◌, starts_with_any, if◌then◌else◌}
use freaky_ocs.Config.Igpu.State.{
  Igpu, Stage, early, rest, put, put_if, is_on, drives_non_vga, wide, spoof,
}

unfoldable pub ironlake : Igpu → Stage
ironlake g = rest (
    put (("framebuffer-patch-enable", "01000000") ∷ ("framebuffer-singlelink", "01000000") ∷ []) [])

unfoldable pub sandy_bridge : Igpu → Stage
sandy_bridge g =
    let p =
      put (("AAPL,snb-platform-id", "10000300") ∷ [])
        (spoof ("0106" ∷ "1106" ∷ "1601" ∷ "0116" ∷ "0126" ∷ "0102" ∷ []) "26010000" g) in
    if is_on g "Desktop"
    then rest (
        put_if (not (drives_non_vga g))
          (("AAPL,snb-platform-id", "00000500") ∷ ("device-id", "02010000") ∷ []) p)
    else if is_on g "Laptop"
    then rest (
        put (("AAPL,snb-platform-id", "00000100") ∷ [])
          (put_if (wide 1600 900 g.monitor) (("AAPL00,DualLink", "01000000") ∷ []) p))
    else rest p

ivy_bridge_wide : List (String × String)
ivy_bridge_wide =
    ("AAPL,ig-platform-id", "04006601")
    ∷ ("framebuffer-memorycount", "02000000")
    ∷ ("framebuffer-pipecount", "02000000")
    ∷ ("framebuffer-portcount", "04000000")
    ∷ ("framebuffer-stolenmem", "00000004")
    ∷ ("framebuffer-con1-enable", "01000000")
    ∷ (
      "framebuffer-con1-alldata",
      "020500000004000007040000030400000004000081000000040600000004000081000000",
    )
    ∷ []

unfoldable pub ivy_bridge : Igpu → Stage
unfolding ivy_bridge_wide
ivy_bridge g =
    let p = spoof ("0152" ∷ "0156" ∷ "0162" ∷ "0166" ∷ []) "62010000" g in
    if is_on g "Desktop"
    then rest (
        put (("AAPL,ig-platform-id", "0A006601") ∷ [])
          (put_if (not (drives_non_vga g)) (("AAPL,ig-platform-id", "07006201") ∷ []) p))
    else if is_on g "NUC"
    then rest (put (("AAPL,ig-platform-id", "0B006601") ∷ []) p)
    else if is_on g "Laptop"
    then rest (
        put_if (wide 1600 900 g.monitor) ivy_bridge_wide
          (put (("AAPL,ig-platform-id", "03006601") ∷ []) p))
    else rest p

unfoldable pub haswell : Igpu → Stage
haswell g =
    let p = spoof ("0D26" ∷ "0A26" ∷ "0A2E" ∷ "0D22" ∷ "0412" ∷ []) "12040000" g in
    if is_on g "Desktop"
    then if not (drives_non_vga g)
      then early (put (("AAPL,ig-platform-id", "04001204") ∷ []) p)
      else rest (
          put
            (("AAPL,ig-platform-id", "0300220D")
              ∷ ("framebuffer-stolenmem", "00003001")
              ∷ ("framebuffer-fbmem", "00009000")
              ∷ [])
            p)
    else if is_on g "NUC"
    then rest
        (put (("AAPL,ig-platform-id", "0300220D") ∷ ("framebuffer-cursormem", "00009000") ∷ []) p)
    else if is_on g "Laptop"
    then rest (
        put (("framebuffer-cursormem", "00009000") ∷ []) (
          put_if (starts_with_any g.id ("0A2" ∷ "0D2" ∷ []))
            (("AAPL,ig-platform-id", "0500260A") ∷ [])
            (put (("AAPL,ig-platform-id", "0600260A") ∷ []) p)))
    else rest p

-- `framebuffer-stolenmem` and `framebuffer-fbmem` of several branches.
abbrev pub memory_sizes : List (String × String)
memory_sizes = ("framebuffer-stolenmem", "00003001") ∷ ("framebuffer-fbmem", "00009000") ∷ []

unfoldable pub broadwell : Igpu → Stage
broadwell g =
    let p =
      spoof
        ("0BD1" ∷ "0BD2" ∷ "0BD3" ∷ "1606" ∷ "160E" ∷ "161E" ∷ "1626" ∷ "1622" ∷ "1612" ∷ "162B"
          ∷ [])
        "26160000" g in
    let q =
      if is_on g "Desktop"
      then put (("AAPL,ig-platform-id", "07002216") ∷ []) p
      else if is_on g "NUC"
      then put (("AAPL,ig-platform-id", "02001616") ∷ []) p
      else if is_on g "Laptop"
      then put (("AAPL,ig-platform-id", "06002616") ∷ []) p
      else p in
    rest (put memory_sizes q)
