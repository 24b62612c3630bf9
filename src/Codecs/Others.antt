-- ===== src/Codecs/Others.antt =====
-- The AppleALC layouts of the codecs after ALC1220: Scripts/datasets/codec_layouts.py.
use freaky_ocs.Base.{List, [], ◌∷◌}
use freaky_ocs.Base.Dict.{Dict}
use freaky_ocs.Codecs.Entry.{Layout, layout}

unfoldable pub layouts_from_10ec_0b00 : Dict (List Layout)
layouts_from_10ec_0b00 =
    (
      "10EC-0B00",
      layout 1 "toleda -  Realtek ALCS1200A"
          ∷ layout 2 "toleda -  Realtek ALCS1200A"
          ∷ layout 3 "toleda -  Realtek ALCS1200A"
          ∷ layout 7 "ALCS1200A for B550M Gaming Carbon WIFI by Kila2"
          ∷ layout 11 "owen0o0 -  Realtek ALCS1200A"
          ∷ layout 12
              "mobilestebu - Realtek ALCS1200A for ASUS TUF-Z390M-Gaming (based on owen0o0 layout 11)"
          ∷ layout 23 "VictorXu -  Realtek ALCS1200A for MSI B460I GAMING EDGE WIFI"
          ∷ layout 49 "VictorXu -  Realtek ALCS1200A for Asrock Z490M-ITX"
          ∷ layout 50 "VictorXu -  Realtek ALCS1200A for Gigabyte B460M Aorus Pro"
          ∷ layout 51 "GeorgeWan - ALCS1200A for ASROCK-Z490-Steel-Legend"
          ∷ layout 52 "GeorgeWan - ALCS1200A for MSI-Mortar-B460M"
          ∷ layout 69 "Lorys89 and Vorshim92 - ALCS1200A for ASROCK Z490M ITX AC"
          ∷ [],
    )
    ∷ (
      "14F1-1F72",
      layout 3 "Mirone - Conexant CX8050"
          ∷ layout 13 "Conexant CX8050 for ASUS S410U/X411U by cowpod"
          ∷ [],
    )
    ∷ (
      "14F1-1F86",
      layout 15 "MacPeet - Conexant CX8070 (CX11880) for Lenovo ThinkPad E590"
          ∷ layout 21 "Andres ZeroCross - Conexant CX8070 for Lenovo ThinkPad E14"
          ∷ [],
    )
    ∷ (
      "14F1-1FD6",
      layout 21 "Asus VivoBook Pro 15 CX8150 by Andres ZeroCross"
          ∷ layout 22 "ASUS VivoBook S405UA-EB906T - CX8150 by Andres ZeroCross"
          ∷ [],
    )
    ∷ (
      "14F1-2008",
      layout 3 "Mirone - Conexant CX8200"
          ∷ layout 15 "MacPeet - Conexant CX8200 for HP ZbooK 15UG4"
          ∷ layout 21 "Andres ZeroCross - HP Spectre 13-V130NG"
          ∷ layout 23 "frankiezdh - Conexant CX8200 for HP Probook 440 G5"
          ∷ layout 80 "Conexant CX8200 for LG Gram Z990/Z90N"
          ∷ [],
    )
    ∷ (
      "14F1-20D0",
      layout 12 "Conexant CX8400"
          ∷ layout 13 "Conexant CX11970 (CX8400) for Acer Swift 3 SF313 (Ice Lake) by b0ltun"
          ∷ layout 14 "Conexant CX8400 for Zbook G5 - theroadw"
          ∷ [],
    )
    ∷ ("14F1-5051", layout 11 "Conexant CX20561" ∷ [])
    ∷ ("14F1-5067", layout 3 "Mirone - Conexant CX20583" ∷ [])
    ∷ (
      "14F1-5069",
      layout 3 "Mirone - Conexant CX20585"
          ∷ layout 13 "Constanta custom for Toshiba L755-16R - Conexant CX20585"
          ∷ [],
    )
    ∷ ("14F1-506C", layout 3 "Mirone - Conexant CX20588" ∷ [])
    ∷ []

unfoldable pub layouts_from_14f1_506e : Dict (List Layout)
layouts_from_14f1_506e =
    (
      "14F1-506E",
      layout 3 "Mirone - Conexant CX20590"
          ∷ layout 12 "CX20590 Custom for Lenovo Yoga 13 by usr-sse2"
          ∷ layout 13
              "CX20590 for Lenovo T420 by tluck (Additional ports for use with a Docking Station)"
          ∷ layout 14 "CX20590 for Lenovo T420 by tluck (Standard Laptop)"
          ∷ layout 28 "Custom for Dell Vostro 3x60 by vusun123"
          ∷ [],
    )
    ∷ (
      "14F1-50A1",
      layout 11 "CX20641 - MacPeet - Dell OptiPlex 3010 - ManualMode"
          ∷ layout 13 "CX20641 - MacPeet - Dell OptiPlex 3010 - SwitchMode"
          ∷ [],
    )
    ∷ (
      "14F1-50A2",
      layout 11 "CX20642 - MacPeet - Fujitsu ESPRIMO E910 E90+ Desktop - ManualMode"
          ∷ layout 13 "CX20642 - MacPeet - Fujitsu ESPRIMO E910 E90+ Desktop - SwitchMode"
          ∷ [],
    )
    ∷ ("14F1-50F2", layout 3 "Mirone - Conexant CX20722" ∷ [])
    ∷ (
      "14F1-50F4",
      layout 3 "Mirone - Conexant CX20724" ∷ layout 13 "InsanelyDeepak - Conexant CX20724" ∷ [],
    )
    ∷ (
      "14F1-510F",
      layout 3 "Mirone - Conexant CX20752"
          ∷ layout 21 "Andres ZeroCross - Asus A455LF - WX039D"
          ∷ layout 28 "Conexant - CX20751/2 by RehabMan"
          ∷ [],
    )
    ∷ (
      "14F1-5111",
      layout 3 "Mirone - Conexant CX20753/4"
          ∷ layout 14 "InsanelyDeepak - Conexant CX20753/4"
          ∷ layout 15 "MacPeet - CX20753/4 for Lenovo Thinkpad E580"
          ∷ layout 21 "Andres ZeroCross - LG gram 15ZD960-GX5BK"
          ∷ [],
    )
    ∷ ("14F1-5113", layout 3 "Mirone - Conexant CX20755" ∷ [])
    ∷ (
      "14F1-5114",
      layout 3 "Mirone - Conexant CX20756" ∷ layout 13 "InsanelyDeepak - Conexant CX20756" ∷ [],
    )
    ∷ (
      "14F1-5115",
      layout 3 "Mirone - Conexant CX20757" ∷ layout 28 "Custom CX20757 Lenovo G510 by Z39" ∷ [],
    )
    ∷ (
      "111D-76D1",
      layout 12 "Custom IDT 92HD87B1/3 by RehabMan"
          ∷ layout 13 "InsanelyDeepak - IDT92HD87B1/3"
          ∷ [],
    )
    ∷ ("111D-76D9", layout 13 "Custom IDT92HD87B2/4 by RehabMan" ∷ [])
    ∷ ("111D-76F3", layout 3 "Mirone - IDT 92HD66C3/65" ∷ [])
    ∷ ("111D-76B2", layout 3 "Mirone - IDT 92HD71B7X" ∷ [])
    ∷ []

unfoldable pub layouts_from_111d_7675 : Dict (List Layout)
layouts_from_111d_7675 =
    (
      "111D-7675",
      layout 19 "Dell Studio 1535 - IDT 92HD73C1X5 by chunnann"
          ∷ layout 21 "Andres ZeroCross - IDT 92HD73C1X5 for Alienware M17X R2"
          ∷ [],
    )
    ∷ ("111D-7676", layout 15 "MacPeet - IDT92HD73E1X5 for HP Envy h8 1425eg" ∷ [])
    ∷ (
      "111D-76D5",
      layout 3 "Mirone - IDT 92HD81B1C5"
          ∷ layout 11 "Goldfish64 - IDT 92HD81B1C5 for Dell Latitude E6410"
          ∷ [],
    )
    ∷ (
      "111D-7605",
      layout 3 "Mirone - IDT 92HD81B1X5"
          ∷ layout 3 "Mirone - IDT 92HD87B1"
          ∷ layout 12 "RehabMan - IDT 92HD81B1X5"
          ∷ layout 20 "Custom IDT 92HD81B1X5 by Sergey_Galan for HP ProBook 4520s"
          ∷ layout 21 "Custom IDT 92HD81B1X5 by Sergey_Galan for HP DV6-6169er"
          ∷ layout 28 "Custom IDT 92HD81B1X5 by Gujiangjiang for HP Pavilion g4 1000 series"
          ∷ layout 76 "IDT 92HD81B1X5 by SkyrilHD for HP Elitebook 8x70 series"
          ∷ [],
    )
    ∷ ("111D-7608", layout 3 "Mirone - IDT 92HD75B2X5" ∷ [])
    ∷ ("111D-7603", layout 3 "Mirone - IDT 92HD75B3X5" ∷ layout 11 "Mirone - IDT 92HD75B3X5" ∷ [])
    ∷ ("111D-76E7", layout 3 "Mirone - IDT 92HD90BXX" ∷ layout 12 "vusun123 - IDT 92HD90BXX" ∷ [])
    ∷ (
      "111D-76E0",
      layout 3 "Mirone - IDT 92HD91BXX "
          ∷ layout 12 "RehabMan - IDT 92HD91BXX for HP Envy"
          ∷ layout 13 "MacPeet - IDT92HD91BXX for HP Envy 6 1171-SG"
          ∷ layout 33 "jl4c - IDT 92HD91BXX for HP Envy"
          ∷ layout 84 "macish - IDT 92HD91BXX for HP Elitebook G1"
          ∷ [],
    )
    ∷ ("111D-76DF", layout 12 "Custom - IDT 92HD93BXX Dell Latitude E6430" ∷ [])
    ∷ ("111D-76E5", layout 3 "Mirone - IDT 92HD99BXX " ∷ [])
    ∷ ("8384-7690", layout 11 "Goldfish64 - STAC9200 for Dell Precision 390, Latitude D520" ∷ [])
    ∷ ("8384-76A0", layout 11 "Goldfish64 - STAC9205 for Dell Inspiron 1520, Latitude D630" ∷ [])
    ∷ ("8384-7662", layout 12 "STAC9872AK for Sony VGN-FZ11MR by ctich" ∷ [])
    ∷ ("1106-4760", layout 21 "VIA VT1705 ECS H81H3-M4 (1.0A) by Andres ZeroCross" ∷ [])
    ∷ []

unfoldable pub layouts_from_1106_8446 : Dict (List Layout)
layouts_from_1106_8446 =
    (
      "1106-8446",
      layout 3 "Mirone - VIA VT1802"
          ∷ layout 33 "ChalesYu - VIA VT1802"
          ∷ layout 65 "VIA VT1802 for hasee k650d"
          ∷ [],
    )
    ∷ (
      "1106-0441",
      layout 5 "Mirone - VIA VT2021"
          ∷ layout 7 "Mirone - VIA VT2021"
          ∷ layout 9 "SonicBSV - VIA VT2020/2021"
          ∷ layout 13 "Enrico - GA-Z77X-D3Hrev1.0 - VIA VT2020/2021"
          ∷ [],
    )
    ∷ []
