-- ===== src/Codecs/Realtek.antt =====
-- The AppleALC layouts of ALC257 to ALC287: Scripts/datasets/codec_layouts.py.
use freaky_ocs.Base.{List, [], ◌∷◌}
use freaky_ocs.Base.Dict.{Dict}
use freaky_ocs.Codecs.Entry.{Layout, layout}

unfoldable pub layouts_from_10ec_0257 : Dict (List Layout)
layouts_from_10ec_0257 =
    (
      "10EC-0257",
      layout 11 "MacPeet - Realtek ALC257 for Lenovo T480"
          ∷ layout 18 "Realtek ALC257 for Lenovo Legion Y540 and Y7000-2019"
          ∷ layout 86 "Armênio - Realtek ALC257 - Lenovo T480"
          ∷ layout 96 "antoniomcr96 - Realtek ALC257 for Lenovo Thinkpad L390"
          ∷ layout 97 "savvamitrofanov - Realtek ALC257 for Lenovo Thinkpad T490"
          ∷ layout 99 "Realtek ALC257 for Lenovo XiaoXin Pro 2019(81XB/81XD) by DalianSky"
          ∷ layout 100 "Realtek ALC257 for Lenovo XiaoXin Pro 2019(81XB/81XD) by DalianSky"
          ∷ layout 101 "Hoping - Realtek ALC257 for Lenovo XiaoXin Air14ALC"
          ∷ [],
    )
    ∷ (
      "10EC-0260",
      layout 11 "MacPeet ALC260 for Fujitsu Celsius M 450" ∷ layout 12 "Custom ALC260" ∷ [],
    )
    ∷ (
      "10EC-0262",
      layout 7 "DalianSky - ALC262 for MS-7480N1"
          ∷ layout 11 "MacPeet - ALC262"
          ∷ layout 12 "Goldfish64 - ALC262 for HP Compaq dc7700 SFF"
          ∷ layout 13 "MacPeet - ALC262 for Fujitsu Celsius H270"
          ∷ layout 14 "Goldfish64 - ALC262 for Dell Studio One 19 1909"
          ∷ layout 28 "MacPeet - ALC262 for HP Z800-Z600 series"
          ∷ layout 66 "ALC262 for MS-7847"
          ∷ [],
    )
    ∷ (
      "10EC-0268",
      layout 3 "Mirone - Realtek ALC268"
          ∷ layout 11 "Goldfish64 - ALC268 for Dell Inspiron Mini 9"
          ∷ [],
    )
    ∷ (
      "10EC-0270",
      layout 3 "Mirone - Realtek ALC270 v1"
          ∷ layout 4 "Mirone - Realtek ALC270 v2"
          ∷ layout 21 "ALC270"
          ∷ layout 27 "ALC270"
          ∷ layout 28 "ALC270"
          ∷ [],
    )
    ∷ (
      "10EC-0272",
      layout 3 "Mirone - Realtek ALC272"
          ∷ layout 11 "ALC 272 - Lenovo B470 - Sam Chen"
          ∷ layout 12 "Realtek ALC 272 for Lenovo Y470 by amu_1680c"
          ∷ layout 18 "Sniki - Realtek ALC 272 for Lenovo B570 and B570e"
          ∷ layout 21 "Andres ZeroCross - Lenovo All In One PC C440"
          ∷ [],
    )
    ∷ (
      "10EC-0274",
      layout 11 "Realtek ALC274 for Optiplex 7470 AIO"
          ∷ layout 21 "Andres ZeroCross - Realtek ALC274 for Dell Inspiron 27-7777 AIO Series"
          ∷ layout 28 "Andres ZeroCross - Realtek ALC274 for Dell Inspiron 27-7777 AIO Series"
          ∷ layout 35 "jackjack1-su Realtek ALC274 for Microsoft Surface Pro 7"
          ∷ layout 39 "Harahi - Realtek ALC274 for Mechrevo UmiPro3 (Tongfang GM5MG0Y)"
          ∷ [],
    )
    ∷ []

unfoldable pub layouts_from_10ec_0275 : Dict (List Layout)
layouts_from_10ec_0275 =
    (
      "10EC-0275",
      layout 3 "Mirone - Realtek ALC275"
          ∷ layout 13 "InsanelyDeepak - Realtek ALC275"
          ∷ layout 15 "Piscean - ALC275 for Sony Vaio SVD11225PXB"
          ∷ layout 28 "Custom ALC275 for Sony Vaio - vusun123"
          ∷ [],
    )
    ∷ (
      "10EC-0280",
      layout 3 "Mirone - Realtek ALC280"
          ∷ layout 4 "Mirone - Realtek ALC280 - ComboJack"
          ∷ layout 11 "Alienware alpha - Realtek ALC280"
          ∷ layout 13 "MacPeet - Realtek ALC280 - Dell T20 - Version1 - ManualMode"
          ∷ layout 15 "MacPeet - Realtek ALC280 - Dell T20 - Version2 - SwitchMode"
          ∷ layout 16 "cowpod - Realtek ALC280 - Optiplex 9020SFF"
          ∷ layout 17 "Realtek ALC280 - Optiplex 9020SFF - ManualMode"
          ∷ layout 18 "james090500 - Dell OptiPlex 9020 AIO"
          ∷ layout 21 "Dell Precision T7610 Workstation ALC280 by Andres ZeroCross"
          ∷ [],
    )
    ∷ (
      "10EC-0283",
      layout 1 "Toleda NUC/BRIX patch ALC283"
          ∷ layout 3 "Mirone - Realtek ALC283"
          ∷ layout 11 "Custom by Slbomber ALC283 (V3-371)"
          ∷ layout 12 "ThinkCentre M73(10AX) ALC283 by dumk1217"
          ∷ layout 13 "ALC283 for AlldoCube/Cube Mix Plus by Aldo97"
          ∷ layout 15 "MacPeet - alc283 for LENOVO IDEAPAD 14"
          ∷ layout 44 "Realtek ALC283 for ThinkCentre M93z 10AF ALC283 by giesteira "
          ∷ layout 45 "Realtek ALC283 for NUC7 by mikes "
          ∷ layout 66 "ASRock DeskMini 110(H110M-STX) ALC283 by licheedev"
          ∷ layout 73 "UHDbits - Realtek ALC283/ALC3239 for the Lenovo ThinkCentre M73 Tiny"
          ∷ layout 88 "Realtek ALC283 for DELL R14 3437 by xiaoleGun(zoran)"
          ∷ [],
    )
    ∷ ("10EC-0284", layout 3 "Mirone - Realtek ALC284" ∷ [])
    ∷ (
      "10EC-0285",
      layout 11 "Rover Realtek ALC285 for X1C6th"
          ∷ layout 21 "Andres - Realtek ALC285 for  Lenovo X1 Carbon 6th "
          ∷ layout 31 "Flymin - Realtek ALC285 for  Thinkpad X1E"
          ∷ layout 33 "PIut02 - Realtek ALC285 for ROG-Zephyrus-G14"
          ∷ layout 52 "Z  Realtek ALC285 for thinkpad p52"
          ∷ layout 61 "Realtek ALC285 for Yoga C740 by fewtarius"
          ∷ layout 66 "Realtek ALC285 for Lenovo Legion S740 15-IRH (Y9000X 2020) by R-a-s-c-a-l"
          ∷ layout 71 "jpuxdev - Realtek ALC285 for Spectre x360 13-ap0xxx"
          ∷ layout 88 "Realtek ALC285 for Yoga S740 14IIL by frozenzero123"
          ∷ [],
    )
    ∷ []

unfoldable pub layouts_from_10ec_0286 : Dict (List Layout)
layouts_from_10ec_0286 =
    (
      "10EC-0286",
      layout 3 "Mirone - Realtek ALC286"
          ∷ layout 11 "Lenovo YOGA3 pro ALC286 - gdllzkusi"
          ∷ layout 69 "HP-Pavilion-Wave-600-A058cn"
          ∷ [],
    )
    ∷ (
      "10EC-0287",
      layout 11 "Realtek ALC287"
          ∷ layout 13 "ALC287 for Legion 5 Pro(R9000p)"
          ∷ layout 21 "ALC287 for Lenovo Yoga Slim 7-14IIL05 by Andres ZeroCross"
          ∷ [],
    )
    ∷ []
