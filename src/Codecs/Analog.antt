-- ===== src/Codecs/Analog.antt =====
-- The AppleALC layouts of IDT to ALC255: Scripts/datasets/codec_layouts.py.
use freaky_ocs.Base.{List, [], ◌∷◌}
use freaky_ocs.Base.Dict.{Dict}
use freaky_ocs.Codecs.Entry.{Layout, layout}

unfoldable pub layouts_from_111d_7695 : Dict (List Layout)
layouts_from_111d_7695 =
    (
      "111D-7695",
      layout 11 "Toshiba Satellite Pro C50"
          ∷ layout 12 "Custom IDT92HD95 by RehabMan"
          ∷ layout 14 "Custom IDT92HD95 - LenovoG710 by Svilen Ivanov layout14"
          ∷ [],
    )
    ∷ (
      "14F1-5098",
      layout 20 "phucnguyen2411 - CX20632 HP Elitedesk 800 G5 mini"
          ∷ layout 21 "Andres ZeroCross - Axioo MyPC One Pro H5"
          ∷ layout 23 "frankiezdh - Conexant CX20632 for HP ProDesk 480 G4"
          ∷ layout 28 "CX20632 by Daniel"
          ∷ [],
    )
    ∷ (
      "1102-0011",
      layout 0 "Creative CA0132, default"
          ∷ layout 1 "Creative CA0132: Alienware 15 R2"
          ∷ layout 2 "Creative CA0132: Alienware 17, Desktop 2xIn 3xOut"
          ∷ layout 3 "Creative CA0132, 2.0 + rear line-out"
          ∷ layout 4 "Creative CA0132: R3Di default"
          ∷ layout 5 "Creative CA0132, 2.0 front HP + Mic "
          ∷ layout 6 "Creative CA0132, 5.1 with front HP"
          ∷ layout 7 "Creative CA0132: ZxRi"
          ∷ layout 9 "Creative CA0132 by Andres ZeroCross"
          ∷ layout 10 "Creative CA0132 by Andres ZeroCross"
          ∷ layout 11 "Custom Creative CA0132 5.1 channel"
          ∷ layout 12 "Custom Creative CA0132"
          ∷ layout 99 "Creative CA0132 5.1 channel for Alienware-M17X-R4 by DalianSky"
          ∷ [],
    )
    ∷ ("1013-4210", layout 13 "InsanelyDeepak - Cirrus Logic CS4210" ∷ [])
    ∷ ("1013-4213", layout 28 "InsanelyDeepak - Cirrus Logic -CS4213" ∷ [])
    ∷ ("11D4-1884", layout 11 "Goldfish64 - AD1884 - Panasonic Toughbook CF-30" ∷ [])
    ∷ ("11D4-1984", layout 11 "MacPeet - AD1984 - for_IBM_Lenovo_ThinkPad_T61_T61p" ∷ [])
    ∷ (
      "11D4-194A",
      layout 11 "MacPeet - AD1984A"
          ∷ layout 13 "MacPeet - AD1984A - Version2"
          ∷ layout 44 "AD1984A - giesteira"
          ∷ [],
    )
    ∷ ("11D4-1988", layout 12 "AD1988A by chrome" ∷ [])
    ∷ (
      "11D4-198B",
      layout 5 "Mirone - ADI-1988B" ∷ layout 7 "Mirone - ADI-1988B" ∷ layout 12 "0x11d4198b" ∷ [],
    )
    ∷ []

unfoldable pub layouts_from_11d4_989b : Dict (List Layout)
layouts_from_11d4_989b =
    ("11D4-989B", layout 5 "Mirone - ADI-2000B" ∷ layout 7 "Mirone - ADI-2000B" ∷ [])
    ∷ ("10EC-0215", layout 18 "ALC215 for HP 830 G6 for 965987400abc" ∷ [])
    ∷ (
      "10EC-0221",
      layout 11 "Goldfish64 - ALC221 for HP Compaq Pro 4300/Pro 6300/Elite 8300 (All Form Factors)"
          ∷ layout 15 "MacPeet - ALC221 for HP ELITE DESK 800 G1"
          ∷ layout 88 "ALC221 for HP ProDesk 400 G2 Desktop Mini PC by dragonbbc"
          ∷ [],
    )
    ∷ (
      "10EC-0222",
      layout 11 "ALC222 aka ALC3205-CG for HP EliteDesk 800 G6 Mini"
          ∷ layout 12 "ALC222 for Lenovo Tianyi 510s-07IMB Desktop PC by hgs v1"
          ∷ [],
    )
    ∷ (
      "10EC-0225",
      layout 28 "ALC225/ALC3253 on dell 7579 by ChalesYu"
          ∷ layout 30 "Custom ALC225/ALC3253 for Dell Inspiron 17-7779 by Constanta"
          ∷ layout 33 "Custom ALC225/ALC3253 by ChalesYu"
          ∷ layout 90 "Custom ALC225/ALC3253 for Dell Inspiron 15-5379 by fast900"
          ∷ [],
    )
    ∷ (
      "10EC-0230",
      layout 13 "Andres Laptop Patch ALC230 Lenovo 310-14ISK"
          ∷ layout 20 "Realtek ALC230 for Lenovo Ideapad 320 by maiconjs"
          ∷ [],
    )
    ∷ (
      "10EC-0233",
      layout 3 "Mirone - Realtek ALC233"
          ∷ layout 4 "Custom Realtek ALC233 (3236)"
          ∷ layout 5 "Mirone - Realtek ALC233/ALC3236"
          ∷ layout 11 "Custom IDT 92HD81B1X5 by Andres ZeroCross"
          ∷ layout 13 "InsanelyDeepak - Realtek ALC233 for Asus X550LC"
          ∷ layout 21 "Andres ZeroCross - Realtek ALC233 for Asus A451LB-WX076D"
          ∷ layout 27 "Custom for Realtek ALC233 for SONY VAIO Fit 14E(SVF14316SCW) by SquallATF"
          ∷ layout 28 "Custom for Realtek ALC3236 for Asus TP500LN by Mohamed Khairy"
          ∷ layout 29 "Custom by Mirone - Realtek ALC233 (ALC3236) for Asus X550LDV"
          ∷ layout 32 "MacPeet - ALC233 (ALC3236) for ASUS VIVOBOOK S301LA "
          ∷ layout 33 "MacPeet - ALC233 (ALC3236) for ASUS VIVOBOOK S451LA "
          ∷ [],
    )
    ∷ []

unfoldable pub layouts_from_10ec_0236 : Dict (List Layout)
layouts_from_10ec_0236 =
    (
      "10EC-0236",
      layout 3 "Mirone - Realtek ALC236"
          ∷ layout 11 "Jake Lo - Realtek ALC236"
          ∷ layout 12 "ALC236 for Lenovo Xiaoxin Air 14IKBR by AlexanderLake"
          ∷ layout 13 "Custom - Realtek ALC236 for Lenovi Air 13 Pro by rexx0520"
          ∷ layout 14 "erinviegas - ALC236 for Lenovo Ideapad 330S"
          ∷ layout 15 "MacPeet - ALC236 for Lenovo Ideapad 500-15ISK"
          ∷ layout 16 "RodionS - ALC236 for Lenovo Ideapad 320s 14ikb"
          ∷ layout 17 "ALC236 for Lenovo IdeaPad 330S-14IKB by Ab2774"
          ∷ layout 18 "ALC236 for Lenovo LEGION Y7000/Y530 by xiaoM"
          ∷ layout 19 "wolf606 - ALC236 for Lenovo Ideapad 500-14ISK"
          ∷ layout 23 "JudySL - ALC236 for Lenovo Air 13 IML(S530-13IML)"
          ∷ layout 36 "volcbs - ALC236 for Lenovo Ideapad 510s 14isk (modified from MacPeet's)"
          ∷ layout 54 "ALC236 for DELL-5488 by Daggeryu"
          ∷ layout 55 "ALC236 for HP-240G8 by 8DireZ3"
          ∷ layout 68 "ALC236 for Dell Vostro 5401 for Lorys89"
          ∷ layout 69 "ALC236 for Dell ICL for Lorys89 by Vorshim"
          ∷ layout 99 "ALC236 for Lenovo Air 13 IWL by DalianSky"
          ∷ [],
    )
    ∷ []

unfoldable pub layouts_from_10ec_0235 : Dict (List Layout)
layouts_from_10ec_0235 =
    (
      "10EC-0235",
      layout 3 "Mirone - Realtek ALC235"
          ∷ layout 8 "Realtek ALC235 Intel NUC 8"
          ∷ layout 11 "Realtek ALC235 for Ienovo by soto2080"
          ∷ layout 12 "ALC235 for Lenovo Rescuer 15ISK by Z39"
          ∷ layout 13 "Deskmini H470 ALC235 by dumk1217"
          ∷ layout 14 "the-braveknight - Realtek ALC235 for Lenovo Legion Y520"
          ∷ layout 15 "qiuchenly - Realtek ALC235 for ASUS FX53VD"
          ∷ layout 16 "MacPeet - Realtek ALC235 for ASUS GL553VD"
          ∷ layout 17 "Realtek ALC235 for Lenovo ThinkCentre Tiny M720q by marian"
          ∷ layout 18 "ALC235 for Asrock_bb_310 by_vio"
          ∷ layout 21 "ALC235 for Lenovo C530 Desktop PC by Andres ZeroCross"
          ∷ layout 22 "ALC235 for Asus ROG GL553VD-FY380 by Andres ZeroCross"
          ∷ layout 24 "ALC235 for Asus TUF FX705GM by TheRealGudv1n"
          ∷ layout 28 "vusun123 - Realtek ALC235 for Lenovo Legion Y520"
          ∷ layout 29 "hla63 - Realtek ALC235 for Msi Modern 15 A10M"
          ∷ layout 33 "Custom by fuzzyrock for ALC235 Lenovo A340-22IWL"
          ∷ layout 35 "Realtek ALC235 for Lenovo Qitian M420 by Cryse Hillmes"
          ∷ layout 36 "ALC235 for Lenovo Tianyi 510 pro-18ICB Desktop PC by hgs v1"
          ∷ layout 37 "Realtek ALC235 for Lenovo Ideacentre Mini 5"
          ∷ layout 72 "Realtek ALC235 for Lenovo M920x by meloay"
          ∷ layout 88 "NUC8I5BEH JUST MIC"
          ∷ layout 99 "ALC235 for Lenovo TianYi 510s Mini by DalianSky"
          ∷ [],
    )
    ∷ (
      "10EC-0245",
      layout 11 "Realtek ALC245 for Ienovo by soto2080"
          ∷ layout 12 "Realtek ALC245 for Ienovo by soto2080"
          ∷ layout 13 "lunjielee - Realtek ALC245 for HP Omen 2020"
          ∷ [],
    )
    ∷ []

unfoldable pub layouts_from_10ec_0255 : Dict (List Layout)
layouts_from_10ec_0255 =
    (
      "10EC-0255",
      layout 3 "Mirone - Realtek ALC255"
          ∷ layout 11 "Realtek ALC255(3234) for Dell Optiplex series by Heporis"
          ∷ layout 12 "ALC255, Dell Optiplex 7040 MT"
          ∷ layout 13 "InsanelyDeepak - Realtek ALC255_v1"
          ∷ layout 15 "Realtek ALC255 Gigabyte Brix BRI5(H) by Najdanovic Ivan"
          ∷ layout 17 "InsanelyDeepak - Realtek ALC255_v2"
          ∷ layout 18 "DuNe - Realtek ALC255 for Aorus X5V7"
          ∷ layout 20 "Realtek ALC255 for Dell 7447 by was3912734"
          ∷ layout 21 "ALC255 for Asus X441UA-WX096D by Andres ZeroCross"
          ∷ layout 22 "Realtek ALC255(3234) for Asus N752VX by Feartech"
          ∷ layout 23 "Realtek ALC255 for Acer Aspire A515-54G"
          ∷ layout 27 "ALC255 for Asus X556UA m-dudarev"
          ∷ layout 28 "Realtek ALC255 for Lenovo B470 - vusun123"
          ∷ layout 29 "dhinakg - Realtek ALC255 for Acer Predator G3-571"
          ∷ layout 30 "HongyuS - Realtek ALC255 for XiaoMiAir 13.3"
          ∷ layout 31 "cowpod - Realtek ALC255 for UX360CA"
          ∷ layout 37 "Imoize - Realtek ALC255 for Acer Nitro 5 AN515-52-73Y8"
          ∷ layout 66 "ALC255 for Dell Optiplex7060/7070MT(Separate LineOut)"
          ∷ layout 69 "juniorcaesar - Acer Aspire A315-56-327T ALC255"
          ∷ layout 71 "DoctorStrange96 - Realtek ALC255 for Acer Aspire A51x"
          ∷ layout 80 "Realtek ALC255 for Acer Aspire 7 A715-42G AMD by Long"
          ∷ layout 82 "Realtek ALC255 for minisforum U820 by DalianSky"
          ∷ layout 86 "Armênio - Realtek ALC255/ALC3234 - Dell 7348"
          ∷ layout 96 "Bhavin dell 5559 alc255"
          ∷ layout 99 "DalianSky - Realtek ALC255 (3246) for XiaoMi Air"
          ∷ layout 100 "DalianSky - Realtek ALC255 (3246) for alienware alpha r2"
          ∷ layout 255 "Realtek ALC255(3234) for Dell Inspiron 5548 by CynCYX"
          ∷ [],
    )
    ∷ []
