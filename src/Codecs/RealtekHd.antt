-- ===== src/Codecs/RealtekHd.antt =====
-- The AppleALC layouts of ALC288 to ALC700: Scripts/datasets/codec_layouts.py.
use freaky_ocs.Base.{List, [], ◌∷◌}
use freaky_ocs.Base.Dict.{Dict}
use freaky_ocs.Codecs.Entry.{Layout, layout}

unfoldable pub layouts_from_10ec_0288 : Dict (List Layout)
layouts_from_10ec_0288 =
    (
      "10EC-0288",
      layout 3 "Mirone - Realtek ALC288"
          ∷ layout 13 "InsanelyDeepak - Realtek ALC288 for Dell XPS 9343"
          ∷ layout 23 "yyfn - Realtek ALC288 for Dell XPS 9343"
          ∷ [],
    )
    ∷ (
      "10EC-0289",
      layout 11 "leeoem - Realtek ALC289 for alienware m17r2"
          ∷ layout 12 "ALC289 for Dell XPS 13 9300"
          ∷ layout 13 "ALC289 for Dell XPS 15 9500 4 Speakers"
          ∷ layout 15 "MacPeet - ALC289 for Dell 7730 Precision CM240 "
          ∷ layout 23 "Realtek ALC289 for Acer PT515-51 By Bugprogrammer and Rover"
          ∷ layout 33 "PIut02 - Realtek ALC289 for ROG-Zephyrus-G14"
          ∷ layout 68 "ALC289 for Dell XPS 7390 ICL 2in1 By Lorys89"
          ∷ layout 69 "ALC289 for Dell XPS 2in1 7390 Vorshim"
          ∷ layout 87 "naufalkharits - Realtek ALC289 for Alienware m15"
          ∷ layout 93 "sweet3c - ALC289 for XPS 9500 4k "
          ∷ layout 99 "Realtek ALC289 for Dell XPS 13 9300 by DalianSky"
          ∷ [],
    )
    ∷ (
      "10EC-0290",
      layout 3 "Mirone - Realtek ALC290"
          ∷ layout 4 "macpeetALC ALC290 aka ALC3241"
          ∷ layout 10 "ALC3241 - HP Envy 15t-k200 Beats Audio 2.1"
          ∷ layout 15 "MacPeet - ALC290 for HP m6 n015dx"
          ∷ layout 28 "vusun123 - ALC 290 for Dell Vostro 5480"
          ∷ [],
    )
    ∷ (
      "10EC-0292",
      layout 12 "Custom ALC292"
          ∷ layout 15 "MacPeet - alc292 for LENOVO THINKPAD T450_T450s_X240 - ManualMode"
          ∷ layout 18 "vanquybn - ALC 292 for Dell M4800"
          ∷ layout 28 "vusun123 - ALC 292 for Lenovo T440"
          ∷ layout 32 "ALC292 for Lenovo T450s By Echo"
          ∷ layout 55 "baesar0 -ALC 292 for e6540 with dock"
          ∷ layout 59 "ALC 292 for Dell M4800 with Dock"
          ∷ [],
    )
    ∷ (
      "10EC-0293",
      layout 11 "ALC293 Dell E7450 by Andres ZeroCross"
          ∷ layout 28 "tluck - ALC 293 for Lenovo T460/T560 - extra LineOut on Dock"
          ∷ layout 29 "tluck - ALC 293 for Lenovo T460/T560"
          ∷ layout 30 "ALC 293 for Hasee ZX8-CT5DA/Clevo N9x0TD_TF by RushiaBoingBoing"
          ∷ layout 31 "ALC 293 for Hasee Z7-CT7NA by lgh07711"
          ∷ [],
    )
    ∷ []

unfoldable pub layouts_from_10ec_0294 : Dict (List Layout)
layouts_from_10ec_0294 =
    (
      "10EC-0294",
      layout 11 "Rover - Realtek ALC294 for Asus FL8000U"
          ∷ layout 12 "MacPeet - Realtek ALC294 for Lenovo M710Q"
          ∷ layout 13 "InsanelyDeepak - Realtek ALC294"
          ∷ layout 15 "Realtek ALC294, ZenBook UX434"
          ∷ layout 21 "Andres ZeroCross - ALC294 ASUS ZenBook Flip 14 UX461UA"
          ∷ layout 22 "cowpod - Realtek ALC294 for ASUS ROG GL504GW"
          ∷ layout 28 "Ayat Kyo - Realtek ALC294 for Asus ROG G531GD"
          ∷ layout 44 "narcyzzo - Realtek ALC294 for ASUS UX534FAC"
          ∷ layout 66 "KKKIIINNN - ALC294 ASUS X542UQR"
          ∷ layout 99 "hoping - Realtek ALC294 for ASUS ROG GU502LV"
          ∷ [],
    )
    ∷ (
      "10EC-0299",
      layout 21 "Andres - ALC299 Acer Helios 500" ∷ layout 22 "Andres - ALC299 Dell XPS13" ∷ [],
    )
    ∷ (
      "10EC-0623",
      layout 13 "Pinokyo-H - Lenovo ThinkCentre SFF M720e"
          ∷ layout 21 "Andres ZeroCross - ALC623 Lenovo M70T"
          ∷ [],
    )
    ∷ (
      "10EC-0662",
      layout 5 "Mirone - Realtek ALC662"
          ∷ layout 7 "Mirone - Realtek ALC662"
          ∷ layout 11 "Custom ALC662 by Irving23 for Lenovo ThinkCentre M8400t-N000"
          ∷ layout 12 "Custom ALC662 by stich86 for Lenovo ThinkCentre M800"
          ∷ layout 13 "Custom ALC662 by Vandroiy for Asus X66Ic"
          ∷ layout 15 "MacPeet - ALC662 for Acer Aspire A7600U All in One"
          ∷ layout 16 "phucnguyen.2411 - ALC662v3 for Lenovo ThinkCentre M92P SFF"
          ∷ layout 17 "Custom ALC662 by aloha_cn for HP Compaq Elite 8000 SFF"
          ∷ layout 18 "Custom ALC662 by ryahpalma for MP67-DI/Esprimo Q900"
          ∷ layout 19 "Custom ALC662 for MSI X79A-GD65"
          ∷ layout 66 "ALC662v3 for Lenovo M415-D339 by Eric"
          ∷ [],
    )
    ∷ (
      "10EC-0663",
      layout 3 "Mirone - Realtek ALC663"
          ∷ layout 4 "Mirone - Realtek ALC663_V2"
          ∷ layout 15 "MacPeet - ALC663 for Fujitsu Celsius r670"
          ∷ layout 28 "ALC663"
          ∷ layout 99 "ALC663"
          ∷ [],
    )
    ∷ (
      "10EC-0665",
      layout 12 "InsanelyDeepak - Realtek ALC665"
          ∷ layout 13 "InsanelyDeepak - Realtek ALC665"
          ∷ [],
    )
    ∷ []

unfoldable pub layouts_from_10ec_0668 : Dict (List Layout)
layouts_from_10ec_0668 =
    (
      "10EC-0668",
      layout 3 "ALC668 Mirone Laptop Patch"
          ∷ layout 20 "Custom ALC668 by lazzy for laptop ASUS G551JM"
          ∷ layout 27 "ALC668 syscl Laptop Patch (DELL Precision M3800)"
          ∷ layout 28 "ALC668 Mirone Laptop Patch (Asus N750Jk)"
          ∷ layout 29 "ALC668 Custom (Asus N750JV)"
          ∷ [],
    )
    ∷ ("10EC-0670", layout 12 "Custom ALC670 by Alex Auditore" ∷ [])
    ∷ (
      "10EC-0671",
      layout 12 "MacPeet - ALC671 for Fujitsu-Siemens D3433-S (Q170 chip)"
          ∷ layout 15 "MacPeet - ALC671 for Fujitsu  Esprimo C720"
          ∷ layout 16 "Sisumara - ALC671 for Fujitsu Q558"
          ∷ layout 88 " alc671 for HP 280 Pro G4  by Lcp"
          ∷ [],
    )
    ∷ ("10EC-0700", layout 11 "osy86 - Realtek ALC700" ∷ layout 22 "Baio77 - Realtek ALC700" ∷ [])
    ∷ []
