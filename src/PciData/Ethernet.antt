-- ===== src/PciData/Ethernet.antt =====
-- Ethernet controller IDs: Scripts/datasets/pci_data.py.
use freaky_ocs.Base.{String, List, [], ◌∷◌, ◌++◌}

unfoldable pub apple_igb_ids : List String
apple_igb_ids =
    "8086-034A" ∷ "8086-0438" ∷ "8086-043C" ∷ "8086-0440" ∷ "8086-10A7" ∷ "8086-10A9" ∷ "8086-10C9"
    ∷ "8086-10D6" ∷ "8086-10E6" ∷ "8086-10E7" ∷ "8086-10E8" ∷ "8086-150A" ∷ "8086-150D"
    ∷ "8086-150E" ∷ "8086-150F" ∷ "8086-1510" ∷ "8086-1511" ∷ "8086-1516" ∷ "8086-1518"
    ∷ "8086-1521" ∷ "8086-1522" ∷ "8086-1523" ∷ "8086-1524" ∷ "8086-1526" ∷ "8086-1527"
    ∷ "8086-1533" ∷ "8086-1534" ∷ "8086-1535" ∷ "8086-1536" ∷ "8086-1537" ∷ "8086-1538"
    ∷ "8086-1539" ∷ "8086-1546" ∷ "8086-157B" ∷ "8086-157C" ∷ "8086-1F40" ∷ "8086-1F41"
    ∷ "8086-1F45" ∷ []

unfoldable pub aquantia_aqtion_ids : List String
aquantia_aqtion_ids =
    "1D6A-00B1" ∷ "1D6A-80B1" ∷ "1D6A-0001" ∷ "1D6A-07B1" ∷ "1D6A-D107" ∷ "1D6A-80B1" ∷ "1D6A-87B1"
    ∷ "1D6A-88B1" ∷ "1D6A-89B1" ∷ "1D6A-91B1" ∷ "1D6A-92B1" ∷ "1D6A-00C0" ∷ "1D6A-04C0"
    ∷ "1D6A-14C0" ∷ "1D6A-34C0" ∷ "1D6A-93C0" ∷ "1D6A-94C0" ∷ []

unfoldable pub atheros_e2200_ids : List String
atheros_e2200_ids =
    "1969-1090" ∷ "1969-1091" ∷ "1969-10A0" ∷ "1969-10A1" ∷ "1969-E091" ∷ "1969-E0A1" ∷ "1969-E0B1"
    ∷ []

unfoldable pub broadcom_bcm57xx_ids : List String
broadcom_bcm57xx_ids =
    "14E4-1641" ∷ "14E4-1642" ∷ "14E4-1643" ∷ "14E4-1644" ∷ "14E4-1645" ∷ "14E4-1646" ∷ "14E4-1647"
    ∷ "14E4-1655" ∷ "14E4-1656" ∷ "14E4-1657" ∷ "14E4-1665" ∷ "14E4-1683" ∷ "14E4-1687"
    ∷ "14E4-1688" ∷ "14E4-1689" ∷ "14E4-1690" ∷ "14E4-1691" ∷ "14E4-1692" ∷ "14E4-1693"
    ∷ "14E4-1694" ∷ "14E4-1699" ∷ "14E4-16A0" ∷ "14E4-16B1" ∷ "14E4-16B2" ∷ "14E4-16B3"
    ∷ "14E4-16B5" ∷ "14E4-16B6" ∷ "14E4-16B7" ∷ "14E4-16F3" ∷ "14E4-1682" ∷ "14E4-1684"
    ∷ "14E4-1686" ∷ "14E4-16B0" ∷ "14E4-16B4" ∷ []

unfoldable pub intel_i22x_ids : List String
intel_i22x_ids =
    "8086-3102" ∷ "8086-125B" ∷ "8086-125C" ∷ "8086-125D" ∷ "8086-15F2" ∷ "8086-15F3" ∷ "8086-15F8"
    ∷ []

unfoldable pub intel_mausi_ids : List String
intel_mausi_ids =
    "8086-10EA" ∷ "8086-10EB" ∷ "8086-10EF" ∷ "8086-10F0" ∷ "8086-1502" ∷ "8086-1503" ∷ "8086-153A"
    ∷ "8086-153B" ∷ "8086-155A" ∷ "8086-1559" ∷ "8086-15A0" ∷ "8086-15A1" ∷ "8086-15A2"
    ∷ "8086-15A3" ∷ "8086-156F" ∷ "8086-1570" ∷ "8086-15B7" ∷ "8086-15B8" ∷ "8086-15D7"
    ∷ "8086-15D8" ∷ "8086-15E3" ∷ "8086-15D6" ∷ "8086-15BD" ∷ "8086-15BE" ∷ "8086-15BB"
    ∷ "8086-15BC" ∷ "8086-15DF" ∷ "8086-15E0" ∷ "8086-15E1" ∷ "8086-15E2" ∷ "8086-15B9"
    ∷ "8086-0D4E" ∷ "8086-0D4F" ∷ "8086-0D4C" ∷ "8086-0D4D" ∷ "8086-0D53" ∷ "8086-0D55"
    ∷ "8086-0DC5" ∷ "8086-0DC6" ∷ "8086-0DC7" ∷ "8086-0DC8" ∷ "8086-15F4" ∷ "8086-15F5"
    ∷ "8086-15F9" ∷ "8086-15FA" ∷ "8086-15FB" ∷ "8086-15FC" ∷ "8086-1A1C" ∷ "8086-1A1D"
    ∷ "8086-1A1E" ∷ "8086-1A1F" ∷ "8086-550A" ∷ "8086-550B" ∷ "8086-550C" ∷ "8086-550D"
    ∷ "8086-550E" ∷ "8086-550F" ∷ "8086-5510" ∷ "8086-5511" ∷ []

unfoldable pub intel_x500_ids : List String
intel_x500_ids =
    "8086-10B6" ∷ "8086-10C6" ∷ "8086-10C7" ∷ "8086-10C8" ∷ "8086-10DB" ∷ "8086-10DD" ∷ "8086-10E1"
    ∷ "8086-10EC" ∷ "8086-10F1" ∷ "8086-10F7" ∷ "8086-10F8" ∷ "8086-10F9" ∷ "8086-10FB"
    ∷ "8086-10FC" ∷ "8086-1507" ∷ "8086-1508" ∷ "8086-150B" ∷ "8086-1514" ∷ "8086-1517"
    ∷ "8086-151C" ∷ "8086-1528" ∷ "8086-1529" ∷ "8086-152A" ∷ "8086-154A" ∷ "8086-154D"
    ∷ "8086-154F" ∷ "8086-1557" ∷ "8086-1558" ∷ "8086-1560" ∷ "8086-1563" ∷ "8086-15AA"
    ∷ "8086-15AB" ∷ "8086-15AC" ∷ "8086-15AD" ∷ "8086-15AE" ∷ "8086-15B0" ∷ "8086-15C2"
    ∷ "8086-15C3" ∷ "8086-15C4" ∷ "8086-15C6" ∷ "8086-15C7" ∷ "8086-15C8" ∷ "8086-15CE"
    ∷ "8086-15D1" ∷ "8086-15E4" ∷ "8086-15E5" ∷ []

unfoldable pub realtek_rtl8100_ids : List String
realtek_rtl8100_ids = "10EC-8136" ∷ []

unfoldable pub realtek_rtl8111_ids : List String
realtek_rtl8111_ids = "10EC-8168" ∷ "1186-8168" ∷ "10EC-2502" ∷ "10EC-2600" ∷ []

unfoldable pub realtek_rtl8125_ids : List String
realtek_rtl8125_ids = "10EC-3000" ∷ "10EC-8125" ∷ "1186-8125" ∷ []

unfoldable pub ethernet_ids : List String
unfolding apple_igb_ids aquantia_aqtion_ids atheros_e2200_ids broadcom_bcm57xx_ids intel_i22x_ids
    intel_mausi_ids intel_x500_ids realtek_rtl8100_ids realtek_rtl8111_ids realtek_rtl8125_ids
ethernet_ids =
    apple_igb_ids
    ++ (aquantia_aqtion_ids
        ++ (atheros_e2200_ids
            ++ (broadcom_bcm57xx_ids
                ++ (intel_i22x_ids
                    ++ (intel_mausi_ids
                        ++ (intel_x500_ids
                            ++ (realtek_rtl8100_ids
                                ++ (realtek_rtl8111_ids ++ (realtek_rtl8125_ids)))))))))
