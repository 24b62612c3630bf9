-- ===== src/Codecs/Main.antt =====
-- The AppleALC layouts of the codecs up to ALC269: Scripts/datasets/codec_layouts.py.
use freaky_ocs.Base.{List, [], ◌∷◌}
use freaky_ocs.Base.Dict.{Dict}
use freaky_ocs.Codecs.Entry.{Layout, layout}

unfoldable pub layouts_from_10ec_0295 : Dict (List Layout)
layouts_from_10ec_0295 =
    (
      "10EC-0295",
      layout 1 "Damon - Realtek ALC 295 for HP Envy x360 15-bp107tx"
          ∷ layout 3 "Mirone - Realtek ALC295/ALC3254"
          ∷ layout 11 "Realtek ALC295, ZenBook UX581"
          ∷ layout 13 "DalianSky - Realtek ALC295/ALC3254 Dell7570"
          ∷ layout 14 "InsanelyDeepak - Realtek ALC295 v2 Asus UX430UA"
          ∷ layout 15 "InsanelyDeepak - Realtek ALC295/ALC3254 "
          ∷ layout 21 "Andres - ALC295 Acer Nitro 5 Spin (NP515-51)"
          ∷ layout 22 "Realtek ALC295 by aleix"
          ∷ layout 23 "Lancet-X—Realtek ALC295/ALC3254 for HP OMEN 15-AX000"
          ∷ layout 24 "zty199 - ALC295 for HP Pavilion / OMEN-2"
          ∷ layout 28 "vusun123 - ALC 295 for Skylake HP Pavilion"
          ∷ layout 33 "Lorys89 - Realtek ALC295/ALC3254 for Dell Latitude 7210 2-in-1"
          ∷ layout 69 "Baio77 - ALC295 Lenovo_X1_Tablet_3°Gen"
          ∷ layout 75 "Lorys89 - Realtek ALC295/ALC3254 for Dell Inspiron 7590"
          ∷ layout 77 "Unbelievable9 - Realtek ALC295/ALC3254 for Dell Latitude 5290"
          ∷ [],
    )
    ∷ (
      "10EC-0298",
      layout 3 "Mirone - Realtek ALC298 SP4 - ComboJack"
          ∷ layout 11 "Rockjesus.cn - Realtek ALC298 for Alienware 17 R4 2.1ch"
          ∷ layout 13 "InsanelyDeepak - Realtek ALC298"
          ∷ layout 15 "Piscean - Realtek ALC298 for Dell Precision 5540"
          ∷ layout 16 "Ping - Realtek ALC298 for Dell Precision 5520"
          ∷ layout 21 "Lenovo 720S-15IKB ALC298 by Andres ZeroCross"
          ∷ layout 22 "Razer Blade 14 2017 by Andres ZeroCross"
          ∷ layout 25 "hoaug - ALC295 - Razer Blade 15 2018 Advanced"
          ∷ layout 28 "vusun123 - Realtek ALC298 for Dell XPS 9x50"
          ∷ layout 29 "vusun123 - Realtek ALC298 for Lenovo X270"
          ∷ layout 30 "Constanta - Realtek ALC298 for Xiaomi Mi Notebook Air 13.3 Fingerprint 2018"
          ∷ layout 32 "smallssnow xps 9570 - Realtek ALC298"
          ∷ layout 33 "RockJesus.cn - Realtek ALC298 for surface laptop 1gen"
          ∷ layout 47 "Daliansky - Realtek ALC298 ThinkPad T470p"
          ∷ layout 66 "lgs3137 - Realtek ALC298 MECHREVO S1"
          ∷ layout 69 "mbarbierato - Realtek ALC298 for Microsoft Surface GO 2"
          ∷ layout 72 "Custom - Realtek ALC298 for Dell XPS 9560 by KNNSpeed"
          ∷ layout 94 "Custom - Realtek ALC298 for Lenovo Yoga C940 by idalin"
          ∷ layout 99 "Daliansky - Realtek ALC298 XiaoMi Pro"
          ∷ [],
    )
    ∷ []

unfoldable pub layouts_from_10ec_1168 : Dict (List Layout)
layouts_from_10ec_1168 =
    (
      "10EC-1168",
      layout 1 "Toleda -  Realtek ALC S1220A"
          ∷ layout 2 "Toleda -  Realtek ALC S1220A"
          ∷ layout 3 "Toleda -  Realtek ALC S1220A"
          ∷ layout 5 "Mirone - Realtek ALC S1220A"
          ∷ layout 7 "Mirone - Realtek ALC S1220A"
          ∷ layout 8 "Realtek ALC S1220P_MSI_Z490i_UNIFY_ by_vio"
          ∷ layout 11 "Realtek ALC S1220A Kushamot for Asus Z270G mb (based on Mirone's layout 7)"
          ∷ layout 13 "Realtek ALC S1220A for Asus ProArt Z690-Creator WiFi (CaseySJ)"
          ∷ layout 15
              "Realtek ALC S1220A for Asus ROG Strix X570-F Gaming (based on Mirone's layout 7)"
          ∷ layout 20
              "Realtek ALC S1220A RodionS, Nacho 2.0 outputs(green), 2 inputs (blue)+front panel (mic fr.panel), mic (pink), headphones(lime), SPDIF/Optical "
          ∷ layout 21
              "Realtek ALC S1220A RodionS, Nacho 5.1 outputs(green, black, orange), 2 inputs (blue)+front panel (mic fr.panel), mic (pink), headphones(lime), SPDIF/Optical "
          ∷ layout 99 "Realtek ALC S1220A Hoangtu92, 7.1 outputs (MSI X470 Gaming Pro Carbon)"
          ∷ [],
    )
    ∷ []

unfoldable pub layouts_from_10ec_0256 : Dict (List Layout)
layouts_from_10ec_0256 =
    (
      "10EC-0256",
      layout 5 "Realtek ALC256"
          ∷ layout 11 "Rockjesus - Realtek ALC256 (3246) - dell 7559"
          ∷ layout 12 "HafidzRadhival - DELL Vostro 5468 ALC256 (3246)"
          ∷ layout 13 "Insanelydeepak - Realtek ALC256 (3246) for Dell Series"
          ∷ layout 14 "Insanelydeepak - Realtek ALC256 (3246) for Dell Series with subwoofer"
          ∷ layout 16 "VicQ - Realtek ALC256 (3246) for Dell 7000 Series with 2.1Ch"
          ∷ layout 17 "hjmmc - Realtek ALC256 (3246) for Magicbook 2018 with 4CH"
          ∷ layout 19 "Wanwu - Realtek ALC256 (3246) for MateBook X Pro 2019"
          ∷ layout 20 "Andres ZeroCross for Asus AIO PC V222UAK-WA541T"
          ∷ layout 21 "Andres ZeroCross for Dell 5570"
          ∷ layout 22 "Andres ZeroCross for Asus VivoBook Pro 17  N705UDR"
          ∷ layout 23 "Andres ZeroCross for Razer Blade 15 RZ09-02705E75"
          ∷ layout 24 "Andres ZeroCross - Intel NUC NUC10i5FNH"
          ∷ layout 28 "vusun123 - ALC256 for Asus X555UJ"
          ∷ layout 33 "insanelyme - ALC256 for Huawei Matebook D15 2018 (MRC-W10)"
          ∷ layout 38 "lshbluesky - Realtek ALC256 for Samsung Galaxy Book NT750XDA-KF59U"
          ∷ layout 56 "DalianSky - Realtek ALC256 (3246) for Dell 7000 Series"
          ∷ layout 57 "Kk Realtek ALC256 (3246) for magicbook"
          ∷ layout 66 "lgs3137 - Realtek ALC256 for ASUS Y5000U X507UBR"
          ∷ layout 67 "Realtek ALC256 for Dell OptiPlex 7080"
          ∷ layout 68 "Littlesum - Realtek ALC256 (3246)  for Intel NUC9 "
          ∷ layout 69 "agasecond - Realtek ALC256 (3246) for Xiaomi Pro Enhanced 2019"
          ∷ layout 70 "b0ltun/agasecond - Realtek ALC256 (3246) for Hasee KingBook X57S1"
          ∷ layout 76 "Durian - Realtek ALC256 (3246) for MateBook X Pro 2019（4CH）"
          ∷ layout 77 "Asus x430_s4300FN by fangf2018"
          ∷ layout 88 "Asus x430_s4300FN by fangf2018 (mic in and line in  mic in separated)"
          ∷ layout 95 "Floron - Realtek ALC256 (3246) for Honor MagicBook Pro HBB-WAH9"
          ∷ layout 97 "DalianSky - Realtek ALC256 (3246) for MateBook X Pro 2019"
          ∷ layout 99 "Hoping - Realtek ALC256 (3246) for XiaoMiPro 2020"
          ∷ [],
    )
    ∷ []

unfoldable pub layouts_from_10ec_0282 : Dict (List Layout)
layouts_from_10ec_0282 =
    (
      "10EC-0282",
      layout 3 "Mirone - Realtek ALC282_v1"
          ∷ layout 4 "Mirone - Realtek ALC282_v2"
          ∷ layout 13 "InsanelyDeepak - Realtek ALC282"
          ∷ layout 21 "ALC282 for TinyMonster ECO by DalianSky"
          ∷ layout 22 "Custom ALC282 lenovo y430p by loverto"
          ∷ layout 27 "Skvo ALC282 Acer Aspire on IvyBridge by Andrey1970"
          ∷ layout 28 "Custom ALC282 Acer Aspire E1-572G"
          ∷ layout 29 "Custom ALC282 Dell Inspirion 3521 by Generation88"
          ∷ layout 30 "Custom ALC282 Soarsea S210H by Jokerman1991"
          ∷ layout 41 "Custom ALC282 Lenovo Y410P by yunsur"
          ∷ layout 43 "Custom ALC282 Lenovo Y430P by yunsur"
          ∷ layout 51 "Custom ALC282 Lenovo Y510P by yunsur"
          ∷ layout 69 "Custom ALC282 Lenovo-IdeaPad-Z510 by hoseinrez"
          ∷ layout 76 "Custom ALC282 Hasee K580C by YM2008"
          ∷ layout 86 "Custom ALC282 for Asus x200la"
          ∷ layout 127 "No input boost ALC282 Acer Aspire on IvyBridge by Andrey1970"
          ∷ [],
    )
    ∷ []

unfoldable pub layouts_from_10ec_0269 : Dict (List Layout)
layouts_from_10ec_0269 =
    (
      "10EC-0269",
      layout 1 "Mirone Laptop patch ALC269 Asus N53J"
          ∷ layout 2 "Mirone - Realtek ALC269-VB v1"
          ∷ layout 3 "ALC269"
          ∷ layout 4 "Mirone - Realtek ALC269-VB v2"
          ∷ layout 5 "Mirone - Realtek ALC269-VB v3"
          ∷ layout 6 "Mirone - Realtek ALC269-VC v1"
          ∷ layout 7 "Mirone - Realtek ALC269-VC v2"
          ∷ layout 8 "Mirone - Realtek ALC269VC-v3"
          ∷ layout 9 "Mirone - Realtek ALC269VB v4"
          ∷ layout 10 "Toleda ALC269 patch for Brix"
          ∷ layout 11 "Mosser - ALC269VB Dell Precision Workstation T1600"
          ∷ layout 12 "Asus Vivobook S200CE - Realtek ALC269VB"
          ∷ layout 13 "InsanelyDeepak - Realtek ALC269VC for Samsung NP350V5C-S08IT"
          ∷ layout 14 "Custom ALC269VC for Samsung NT550P7C-S65 with subwoofer 2.1ch by Rockjesus"
          ∷ layout 15 "MacPeet - ALC269VB for Dell Optiplex 790"
          ∷ layout 16 "MacPeet - ALC269VB for Dell Optiplex 790 Version2"
          ∷ layout 17 "MacPeet - Latte Panda"
          ∷ layout 18 "Hypereitan - ALC269VC for Thinkpad X230 i7"
          ∷ layout 19 "Asus Vivobook S300CA - Realtek ALC269VB"
          ∷ layout 20 "ALC269"
          ∷ layout 21 "Goldfish64 - ALC269VB for Dell Optiplex 7010"
          ∷ layout 22 "ALC269"
          ∷ layout 23 "Custom ALC269VD for ThinkPad T430"
          ∷ layout 24 "ALC269"
          ∷ layout 25 "ALC269"
          ∷ layout 26 "Andres ZeroCross - ALC269 for Infinix X1 XL11"
          ∷ layout 27 "ALC269"
          ∷ layout 28 "ALC269VC"
          ∷ layout 29 "ALC269VC for Lenovo V580, ar4er"
          ∷ layout 30 "ALC269VC for Hasee Z6SL7R3 by HF"
          ∷ layout 31 "Custom ALC271x Acer Aspire s3-951"
          ∷ layout 32 "Custom ALC269 Samsung np880z5e-x01ru by Constanta"
          ∷ layout 33 "Custom ALC269VC for Samsung NP530U3C-A0F by BblDE3HAP"
          ∷ layout 34 "Custom ALC269-VC Samsung np540U4E by majonez"
          ∷ layout 35 "Mirone - Realtek ALC269VC - Samsung NP350V5C-S0URU"
          ∷ layout 36 "Realtek ALC269 - Samsung R780"
          ∷ layout 37 "ALC269"
          ∷ layout 38 "jayveeballesteros - ALC269 for Fujitsu Esprimo D552"
          ∷ layout 39 "5T33Z0 - Lenoco T530 with Dock 4337/4338"
          ∷ layout 40 "vusun123 - Realtek ALC269VC for Lenovo W530"
          ∷ layout 44 "ALC269VC"
          ∷ layout 45 "maiconjs (Wolfield) - Asus A45A 269VB1"
          ∷ layout 47 "ALC269VC for Hasee K790s"
          ∷ layout 55 "ALC269VC for Thinkpad X230 with Dock4338"
          ∷ layout 58 "HASEE Z6-i78154S2 ALC269 by lianny  "
          ∷ layout 66 "ALC269VC for Clevo N155RD by DalianSky"
          ∷ layout 69 "Vorshim92 - Realtek ALC269 - GF63 Thin 9SEXR"
          ∷ layout 76 "Custom ALC269VB for ENZ C16B by jimmy19990"
          ∷ layout 77 "ALC269"
          ∷ layout 88 "ALC269 for MECHREVO X8Ti Plus by DalianSky"
          ∷ layout 89 "ALC269"
          ∷ layout 91 "ALC269"
          ∷ layout 93 "ALC269"
          ∷ layout 99 "ALC269-VB v4 Mod by Andrey1970 (No input boost - no noise in Siri)"
          ∷ layout 100 "ALC269"
          ∷ layout 111 "ALC269"
          ∷ layout 127 "ALC269"
          ∷ layout 128 "ALC269"
          ∷ layout 138 "aa820t - Realtek ALC269VC for Lenovo G480"
          ∷ layout 188 "ALC269"
          ∷ [],
    )
    ∷ []
