-- ===== src/PciData/Bluetooth.antt =====
-- Bluetooth device IDs: Scripts/datasets/pci_data.py.
use freaky_ocs.Base.{String, List, [], ◌∷◌, ◌++◌}

unfoldable pub atheros_bluetooth_ids : List String
atheros_bluetooth_ids =
    "0489-E036" ∷ "0489-E03C" ∷ "0489-E04D" ∷ "0489-E04E" ∷ "0489-E056" ∷ "0489-E057" ∷ "0489-E05F"
    ∷ "0489-E076" ∷ "0489-E078" ∷ "0489-E095" ∷ "04C5-1330" ∷ "04CA-3004" ∷ "04CA-3005"
    ∷ "04CA-3006" ∷ "04CA-3007" ∷ "04CA-3008" ∷ "04CA-300B" ∷ "04CA-300D" ∷ "04CA-300F"
    ∷ "04CA-3010" ∷ "04CA-3014" ∷ "04CA-3018" ∷ "0930-0219" ∷ "0930-021C" ∷ "0930-0220"
    ∷ "0930-0227" ∷ "0B05-17D0" ∷ "0CF3-0036" ∷ "0CF3-3004" ∷ "0CF3-3008" ∷ "0CF3-311D"
    ∷ "0CF3-311E" ∷ "0CF3-311F" ∷ "0CF3-3121" ∷ "0CF3-817A" ∷ "0CF3-817B" ∷ "0CF3-E003"
    ∷ "0CF3-E004" ∷ "0CF3-E005" ∷ "0CF3-E006" ∷ "13D3-3362" ∷ "13D3-3375" ∷ "13D3-3393"
    ∷ "13D3-3395" ∷ "13D3-3402" ∷ "13D3-3408" ∷ "13D3-3423" ∷ "13D3-3432" ∷ "13D3-3472"
    ∷ "13D3-3474" ∷ "13D3-3487" ∷ "13D3-3490" ∷ []

unfoldable pub broadcom_bluetooth_ids : List String
broadcom_bluetooth_ids =
    "0489-E032" ∷ "0489-E042" ∷ "0489-E046" ∷ "0489-E047" ∷ "0489-E04F" ∷ "0489-E052" ∷ "0489-E055"
    ∷ "0489-E059" ∷ "0489-E062" ∷ "0489-E079" ∷ "0489-E07A" ∷ "0489-E087" ∷ "0489-E096"
    ∷ "0489-E0A1" ∷ "04CA-2003" ∷ "04CA-2004" ∷ "04CA-2005" ∷ "04CA-2006" ∷ "04CA-2007"
    ∷ "04CA-2009" ∷ "04CA-200A" ∷ "04CA-200B" ∷ "04CA-200C" ∷ "04CA-200E" ∷ "04CA-200F"
    ∷ "04CA-2012" ∷ "04CA-2016" ∷ "04F2-B49D" ∷ "04F2-B4A1" ∷ "050D-065A" ∷ "0930-021E"
    ∷ "0930-021F" ∷ "0930-0221" ∷ "0930-0223" ∷ "0930-0225" ∷ "0930-0226" ∷ "0930-0229"
    ∷ "0A5C-2167" ∷ "0A5C-2168" ∷ "0A5C-2169" ∷ "0A5C-216A" ∷ "0A5C-216B" ∷ "0A5C-216C"
    ∷ "0A5C-216D" ∷ "0A5C-216E" ∷ "0A5C-216F" ∷ "0A5C-21D3" ∷ "0A5C-21D6" ∷ "0A5C-21D7"
    ∷ "0A5C-21D8" ∷ "0A5C-21DC" ∷ "0A5C-21DE" ∷ "0A5C-21E1" ∷ "0A5C-21E3" ∷ "0A5C-21E6"
    ∷ "0A5C-21E8" ∷ "0A5C-21EC" ∷ "0A5C-21F1" ∷ "0A5C-21F3" ∷ "0A5C-21F4" ∷ "0A5C-21FB"
    ∷ "0A5C-21FD" ∷ "0A5C-21FE" ∷ "0A5C-640B" ∷ "0A5C-6410" ∷ "0A5C-6412" ∷ "0A5C-6413"
    ∷ "0A5C-6414" ∷ "0A5C-6417" ∷ "0A5C-6418" ∷ "0A5C-7460" ∷ "0B05-17B5" ∷ "0B05-17CB"
    ∷ "0B05-17CF" ∷ "0B05-180A" ∷ "0BB4-0306" ∷ "105B-E065" ∷ "105B-E066" ∷ "13D3-3384"
    ∷ "13D3-3388" ∷ "13D3-3389" ∷ "13D3-3392" ∷ "13D3-3404" ∷ "13D3-3411" ∷ "13D3-3413"
    ∷ "13D3-3418" ∷ "13D3-3427" ∷ "13D3-3435" ∷ "13D3-3456" ∷ "13D3-3482" ∷ "13D3-3484"
    ∷ "13D3-3504" ∷ "13D3-3508" ∷ "13D3-3517" ∷ "145F-01A3" ∷ "185F-2167" ∷ "19FF-0239"
    ∷ "413C-8143" ∷ "413C-8197" ∷ []

unfoldable pub intel_bluetooth_ids : List String
intel_bluetooth_ids =
    "8087-0025" ∷ "8087-0026" ∷ "8087-0029" ∷ "8087-0032" ∷ "8087-0033" ∷ "8087-0035" ∷ "8087-0036"
    ∷ "8087-0038" ∷ "8087-07DA" ∷ "8087-07DC" ∷ "8087-0A2A" ∷ "8087-0A2B" ∷ "8087-0AA7"
    ∷ "8087-0AAA" ∷ []

unfoldable pub bluetooth_ids : List String
unfolding atheros_bluetooth_ids broadcom_bluetooth_ids intel_bluetooth_ids
bluetooth_ids =
    atheros_bluetooth_ids
    ++ (broadcom_bluetooth_ids
        ++ (intel_bluetooth_ids
            ++ (("03F0-231D" ∷ "0489-E030" ∷ "0489-E097" ∷ "04B4-F901" ∷ "04CA-2013" ∷ "04CA-2014"
                ∷ "04F2-B4A2" ∷ "05AC-1000" ∷ "05AC-8203" ∷ "05AC-8204" ∷ "05AC-8205" ∷ "05AC-8206"
                ∷ "05AC-8207" ∷ "05AC-820F" ∷ "05AC-8210" ∷ "05AC-8213" ∷ "05AC-8215" ∷ "05AC-8216"
                ∷ "05AC-8217" ∷ "05AC-8218" ∷ "05AC-821A" ∷ "05AC-821B" ∷ "05AC-821D" ∷ "05AC-821F"
                ∷ "05AC-8281" ∷ "05AC-8286" ∷ "05AC-8289" ∷ "05AC-828A" ∷ "05AC-828B" ∷ "05AC-828C"
                ∷ "05AC-828D" ∷ "05AC-828F" ∷ "05AC-8290" ∷ "05AC-8291" ∷ "05AC-8294" ∷ "05AC-8296"
                ∷ "05AC-F007" ∷ "0A5C-217D" ∷ "0A5C-22BE" ∷ "0A5C-640A" ∷ "0A5C-640E" ∷ "0A5C-828D"
                ∷ "0A5C-828D" ∷ "0B05-178A" ∷ "0B05-181D" ∷ "13D3-3295" ∷ "13D3-3473" ∷ "13D3-3485"
                ∷ "13D3-3488" ∷ "13D3-3492" ∷ "2B54-5600" ∷ "2B54-5601" ∷ "2B54-5602" ∷ "33BA-03E8"
                ∷ "33BA-03E9" ∷ "0A12-0001" ∷ []))))
