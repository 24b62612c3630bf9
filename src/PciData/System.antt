-- ===== src/PciData/System.antt =====
-- Input device, GPU and system device IDs: Scripts/datasets/pci_data.py.
use freaky_ocs.Base.{String, List, [], ◌∷◌}
use freaky_ocs.Base.Dict.{Dict}

unfoldable pub input_ids : List String
input_ids =
    "044E1207" ∷ "044E120A" ∷ "044E120B" ∷ "044E120C" ∷ "044E120D" ∷ "044E1215" ∷ "044E1216"
    ∷ "044E1217" ∷ "044E121E" ∷ "044E121F" ∷ "ALP0001" ∷ "ALP000D" ∷ "ALP000E" ∷ "ALP000F"
    ∷ "ALP0011" ∷ "ALP0012" ∷ "ALP0013" ∷ "ALP0015" ∷ "ALP0016" ∷ "ALP001C" ∷ "ALPS07AP"
    ∷ "ALPS121E" ∷ "AUI1657" ∷ "AUI165C" ∷ "AUI1661" ∷ "AUI1664" ∷ "AUI1665" ∷ "AUI1666" ∷ "AUI1667"
    ∷ "AUI1669" ∷ "DELL07B7" ∷ "DELL07B8" ∷ "DELL080E" ∷ "DELL080F" ∷ "DELL0810" ∷ "DELL0811"
    ∷ "DELL0812" ∷ "DELL0814" ∷ "DELL0815" ∷ "DELL0816" ∷ "DELL0817" ∷ "DELL0818" ∷ "DELL0819"
    ∷ "DELL081A" ∷ "DELL081B" ∷ "DELL081C" ∷ "DELL0820" ∷ "DELL0823" ∷ "DELL0831" ∷ "DELL0832"
    ∷ "DELL0839" ∷ "DELL083A" ∷ "DELL0848" ∷ "DELL0849" ∷ "DELL0879" ∷ "DELL087A" ∷ "DELL08B6"
    ∷ "DELL08B7" ∷ "DELL0926" ∷ "DELL0927" ∷ "DELL099E" ∷ "DELL099F" ∷ "DLL079F" ∷ "DLL07A0"
    ∷ "DLL07A6" ∷ "DLL07A7" ∷ "DLL07A8" ∷ "DLL07A9" ∷ "DLL07AA" ∷ "DLL07AB" ∷ "DLL07B0" ∷ "DLL07B1"
    ∷ "DLL07D0" ∷ "DLL07D1" ∷ "DLL07F3" ∷ "O44E1220" ∷ "ELAN001D" ∷ "ELAN0028" ∷ "ELAN0200"
    ∷ "SYN1B7F" ∷ "SYN3054" ∷ "SYNA0000" ∷ "SYNA1202" ∷ "SYNA2393" ∷ "SYNA2B2C" ∷ "SYNA2B31"
    ∷ "SYNA2B33" ∷ "SYNA2B34" ∷ "SYNA2B5A" ∷ "SYNA2B61" ∷ "SYNA3083" ∷ "SYNA3105" ∷ "SYNA328B"
    ∷ "SYNA328E" ∷ "SYNA3602" ∷ "SYNA7500" ∷ "SYNA7501" ∷ "SYNA7DAB" ∷ "SYNA7DB5" ∷ []

unfoldable pub spoof_gpu_ids : Dict String
spoof_gpu_ids =
    ("1002-6611", "1002-6610")
    ∷ ("1002-6613", "1002-6610")
    ∷ ("1002-6617", "1002-6610")
    ∷ ("1002-6649", "1002-665C")
    ∷ ("1002-665C", "1002-6658")
    ∷ ("1002-679A", "1002-6798")
    ∷ ("1002-67B1", "1002-67B0")
    ∷ ("1002-6811", "1002-6810")
    ∷ ("1002-6819", "1002-6818")
    ∷ ("1002-682B", "1002-683D")
    ∷ ("1002-683F", "1002-683D")
    ∷ ("1002-6930", "1002-6938")
    ∷ ("1002-6939", "1002-6938")
    ∷ ("1002-699F", "1002-67FF")
    ∷ ("1002-6995", "1002-67FF")
    ∷ ("1002-73EF", "1002-73FF")
    ∷ ("1002-73E1", "1002-73E3")
    ∷ ("1002-73AF", "1002-73BF")
    ∷ ("1002-73A5", "1002-73BF")
    ∷ []

unfoldable pub yoga_hids : List String
yoga_hids = "INT33D5" ∷ "INTC1051" ∷ "INTC1054" ∷ "LEN0068" ∷ "LEN0268" ∷ "VPC2004" ∷ []
