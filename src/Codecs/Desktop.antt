-- ===== src/Codecs/Desktop.antt =====
-- The AppleALC layouts of ALC882 to ALC1220: Scripts/datasets/codec_layouts.py.
use freaky_ocs.Base.{List, [], ◌∷◌}
use freaky_ocs.Base.Dict.{Dict}
use freaky_ocs.Codecs.Entry.{Layout, layout}

unfoldable pub layouts_from_10ec_0882 : Dict (List Layout)
layouts_from_10ec_0882 =
    ("10EC-0882", layout 5 "Mirone - Realtek ALC882" ∷ layout 7 "Mirone - Realtek ALC882" ∷ [])
    ∷ ("10EC-0883", layout 7 "ALC883" ∷ layout 20 "ALC883" ∷ [])
    ∷ ("10EC-0885", layout 1 "toleda ALC885" ∷ layout 12 "ALC885" ∷ layout 15 "ALC885" ∷ [])
    ∷ (
      "10EC-0887",
      layout 1 "Toleda ALC887"
          ∷ layout 2 "Toleda ALC887"
          ∷ layout 3 "Toleda ALC887"
          ∷ layout 5 "Mirone - Realtek ALC887-VD"
          ∷ layout 7 "Mirone - Realtek ALC887-VD"
          ∷ layout 11 "InsanelyDeepak - Realtek ALC887-VD"
          ∷ layout 12 "VictorXu - ALC887-VD for ASUS H81M-D"
          ∷ layout 13 "InsanelyDeepak - Realtek ALC887-VD"
          ∷ layout 17 "InsanelyDeepak - Realtek ALC887-VD"
          ∷ layout 18 "InsanelyDeepak - Realtek ALC887-VD"
          ∷ layout 20 "Realtek ALC887-VD AD0 for Asus Z97M-PLUS/BR by maiconjs"
          ∷ layout 33 "Custom by klblk ALC887 for GA-Q87TN"
          ∷ layout 40 "Realtek ALC887-VD for Asus B85-ME by maiconjs"
          ∷ layout 50 "0th3r ALC887 for PRIME B250-PLUS"
          ∷ layout 52 "ALC887 for Asus PRIME Z270-P (full Rear and Front, non auto-switch) by ctich"
          ∷ layout 53
              "ALC887 for Asus PRIME Z270-P (Rear LineOut1, Mic - LineOut2, LineIn - LineOut3 - 5.1 and Front, non auto-switch) by ctich"
          ∷ layout 87 "Realtek ALC887-VD GA-Z97 HD3 ver2.1 by varrtix"
          ∷ layout 99 "Custom Realtek ALC887-VD by Constanta"
          ∷ [],
    )
    ∷ (
      "10EC-0888",
      layout 1 "toleda ALC888"
          ∷ layout 2 "toleda ALC888"
          ∷ layout 3 "toleda ALC888"
          ∷ layout 4 "Mirone - Realtek ALC888 for Laptop"
          ∷ layout 5 "Mirone - Realtek ALC888 3 ports (Pink, Green, Blue)"
          ∷ layout 7 "Mirone - Realtek ALC888 5/6 ports (Gray, Black, Orange, Pink, Green, Blue)"
          ∷ layout 11 "ALC888S-VD Version1 for MedionP9614 by MacPeet"
          ∷ layout 27 "ALC888 for Acer Aspire 7738G by MacPeet"
          ∷ layout 28 "ALC888S-VD Version2 for MedionE7216 by MacPeet"
          ∷ layout 29 "ALC888S-VD Version3 for MedionP8610 by MacPeet"
          ∷ [],
    )
    ∷ []

unfoldable pub layouts_from_10ec_0889 : Dict (List Layout)
layouts_from_10ec_0889 =
    (
      "10EC-0889",
      layout 1 "ALC889, Toleda"
          ∷ layout 2 "ALC889, Toleda"
          ∷ layout 3 "ALC889, Toleda"
          ∷ layout 11 "MacPeet ALC889 Medion P4020 D"
          ∷ layout 12 "alc889, Custom by Sergey_Galan"
          ∷ [],
    )
    ∷ (
      "10EC-0867",
      layout 11 "MacPeet - ALC891 for HP Pavilion Power 580-030ng"
          ∷ layout 13 "InsanelyDeepak - Realtek ALC891"
          ∷ [],
    )
    ∷ (
      "10EC-0892",
      layout 1 "ALC892, Toleda"
          ∷ layout 2 "ALC892, Toleda"
          ∷ layout 3 "ALC892, Toleda"
          ∷ layout 4 "Mirone - Realtek ALC892 for Laptop"
          ∷ layout 5 "ALC892, Mirone"
          ∷ layout 7 "ALC892, Mirone"
          ∷ layout 11 "ALC892 for MSI GF72-8RE"
          ∷ layout 12 "MSI GP70/CR70 by Slava77"
          ∷ layout 15 "MacPeet - alc892 for MSi Z97S SLI Krait Edition"
          ∷ layout 16 "MacPeet - alc892 for MSI GL73-8RD"
          ∷ layout 17 "MacPeet - alc892 for MSI B150M MORTAR - SwitchMode"
          ∷ layout 18 "MacPeet - alc892 for MSI B150M MORTAR - ManualMode"
          ∷ layout 20 "Custom ALC892 for GIGABYTE Z390M GAMING - Manual - by Bokey"
          ∷ layout 21 "Custom ALC892 for GIGABYTE B365M AORUS ELITE"
          ∷ layout 22 "ASRock Z390m-ITX/ac by imEgo"
          ∷ layout 23 "ALC892 for ASRock B365 Pro4 By TheHackGuy"
          ∷ layout 28 "ALC892 for Clevo P751DMG by Cryse Hillmes"
          ∷ layout 31 "ALC892 for Clevo P65xSE/SA by Derek Zhu"
          ∷ layout 32 "Custom ALC892 for G4/G5mod by ATL"
          ∷ layout 90 "Custom ALC892 for GIGABYTE B360 M AORUS PRO"
          ∷ layout 92 "Custom ALC892 for GA-Z87-HD3 by BIM167"
          ∷ layout 97 "Custom ALC892 for HASEE K770e i7 D1 by gitawake"
          ∷ layout 98 "ALC892 with working SPDIF"
          ∷ layout 99 "Custom ALC892 DNS P150EM by Constanta"
          ∷ layout 100 "GeorgeWan - ALC892 for MSI-Z370-A PRO"
          ∷ [],
    )
    ∷ []

unfoldable pub layouts_from_10ec_0897 : Dict (List Layout)
layouts_from_10ec_0897 =
    (
      "10EC-0897",
      layout 11 "Custom ALC897 by Sergey_Galan  for GIGABYTE Z590M"
          ∷ layout 12 "Custom ALC897 by Sergey_Galan  for GIGABYTE Z590 Gaming X"
          ∷ layout 13 "GeorgeWan - ALC897 for MSI-Z590-A-PRO"
          ∷ layout 21 "OPS Computer ALC897 by Andres ZeroCross"
          ∷ layout 22 "Asus VivoBook 15 OLED M513UA by Andres ZeroCross"
          ∷ layout 23 "ALC897 for Chuwi-CoreBookX14 by weachy"
          ∷ layout 66 "Asus_PRIME_B460M-K_ALC897"
          ∷ layout 69 "ALC297 for MSI Z490-A Pro by MathCampbell"
          ∷ layout 77 "ONDA H510D4 IPC ALC897"
          ∷ layout 98 "liangyi - ALC897 for MSI PRO B760M-P DDR4"
          ∷ layout 99 "Custom ALC897 by Marcos_Vinicios  for HUANANZHI QD4"
          ∷ [],
    )
    ∷ (
      "10EC-0899",
      layout 1 "ALC898, Toleda"
          ∷ layout 2 "ALC898, Toleda"
          ∷ layout 3 "ALC898, Toleda"
          ∷ layout 5 "Mirone - Realtek ALC898"
          ∷ layout 7 "Mirone - Realtek ALC898"
          ∷ layout 11 "Custom ALC898 by Irving23 for MSI GT72S 6QF-065CN"
          ∷ layout 13 "InsanelyDeepak - Realtek ALC898 for MSI GS40"
          ∷ layout 28 "ALC898, Toleda"
          ∷ layout 65 "Realtek ALC898 for CLEVO P65xRS(-G) by datasone"
          ∷ layout 66 "Realtek ALC898 for Clevo P750DM2-G"
          ∷ layout 98 "Realtek ALC898 for MSI GE62 7RE Apache Pro by spectra"
          ∷ layout 99 "Realtek ALC898 for MSI GP62-6QG Leopard Pro"
          ∷ layout 101 "ALC898, 4 Line Out by Andrey1970"
          ∷ [],
    )
    ∷ (
      "10EC-0900",
      layout 1 "toleda - ALC1150 "
          ∷ layout 2 "toleda - ALC1150 "
          ∷ layout 3 "toleda - ALC1150 "
          ∷ layout 5 "Mirone - Realtek ALC1150"
          ∷ layout 7 "Mirone - Realtek ALC1150"
          ∷ layout 11 "Mirone - Realtek ALC1150 (mic boost)"
          ∷ layout 99 "ALC1150 for Gigabyte GA-Z97X-UD5H by DalianSky"
          ∷ [],
    )
    ∷ []

unfoldable pub layouts_from_10ec_1220 : Dict (List Layout)
layouts_from_10ec_1220 =
    (
      "10EC-1220",
      layout 1 "Toleda -  Realtek ALC1220"
          ∷ layout 2 "Toleda -  Realtek ALC1220"
          ∷ layout 3 "Toleda -  Realtek ALC1220"
          ∷ layout 5 "Mirone - Realtek ALC1220"
          ∷ layout 7 "Mirone - Realtek ALC1220"
          ∷ layout 11 "Custom Realtek ALC1220 by truesoldier"
          ∷ layout 13 "MacPeet - ALC1220 for Clevo P950HR"
          ∷ layout 15 "fleaplus - ALC1220 for MSI WT75"
          ∷ layout 16 "MacPeet - ALC1220 for Gigabyte Z390"
          ∷ layout 17 "NIBLIZE - ALC1220 for Gigabyte Z490 Vision G manual SP/HP"
          ∷ layout 18 "hgsshaanxi- ALC1220 for Gigabyte Z490 Aorus Master"
          ∷ layout 20 "CaseySJ - ALC1220 for Gigabyte B550 Vision D"
          ∷ layout 21 "ALC1220 for MSI GE63 Raider RGB 8RF"
          ∷ layout 25 "Realtek ALC1220 for MSI GE73 Raider RGB 8RF by Ardhi96"
          ∷ layout 27 "lostwolf - ALC1220 for Gigabyte Z370-HD3P"
          ∷ layout 28 "MacPeet- ALC1220 for Z390 Aorus Ultra - Output SP/HP Manualmode "
          ∷ layout 29 "MacPeet- ALC1220 for Z390 Aorus Ultra - Output SP/HP SwitchMode"
          ∷ layout 30 "MacPeet- ALC1220 for Z370 AORUS Gaming 7 - Output SP/HP SwitchMode"
          ∷ layout 34 "Custom ALC1220 for MSI P65 Creator by CleverCoder"
          ∷ layout 35 "Custom ALC1220 for MSI GP75 9SD by Win7GM"
          ∷ layout 69 "Lorys89 ALC1220 for AMD B450/B550 - SwitchMode"
          ∷ layout 98 "Custom ALC1220 for Mi Gaming Notebook Creator by Xsixu"
          ∷ layout 99 "MiBook 2019 by Dynamix1997"
          ∷ layout 100 "Hasee_G8-CU7PK"
          ∷ [],
    )
    ∷ []
