-- ===== src/Chipsets.antt =====
-- The chipsets of the mainboards: Scripts/datasets/chipset_data.py.
use freaky_ocs.Base.{String, List, [], ◌∷◌}

unfoldable pub amd_chipsets : List String
amd_chipsets =
    "AMD" ∷ "AM1" ∷ "A68H" ∷ "A75" ∷ "A78" ∷ "A85X" ∷ "A88X" ∷ "A320" ∷ "B350" ∷ "X370" ∷ "X399"
    ∷ "B450" ∷ "X470" ∷ "A520" ∷ "B550" ∷ "X570" ∷ "TRX40" ∷ "TRX50" ∷ "A620" ∷ "B650" ∷ "X670"
    ∷ "X870" ∷ "X870E" ∷ []

unfoldable pub intel_chipsets : List String
intel_chipsets =
    "X58" ∷ "NM10" ∷ "P55" ∷ "PM55" ∷ "H55" ∷ "QM57" ∷ "H57" ∷ "HM55" ∷ "Q57" ∷ "HM57" ∷ "QS57"
    ∷ "Cougar Point" ∷ "Z68" ∷ "P67" ∷ "UM67" ∷ "HM65" ∷ "H67" ∷ "HM67" ∷ "Q65" ∷ "QS67" ∷ "Q67"
    ∷ "QM67" ∷ "B65" ∷ "C202" ∷ "C204" ∷ "C206" ∷ "H61" ∷ "C600/X79" ∷ "Panther Point" ∷ "Z77"
    ∷ "Z75" ∷ "Q77" ∷ "Q75" ∷ "B75" ∷ "H77" ∷ "C216" ∷ "QM77" ∷ "QS77" ∷ "HM77" ∷ "UM77" ∷ "HM76"
    ∷ "HM75" ∷ "HM70" ∷ "NM70" ∷ "Lynx Point" ∷ "Z87" ∷ "Z85" ∷ "HM86" ∷ "H87" ∷ "HM87" ∷ "Q85"
    ∷ "Q87" ∷ "QM87" ∷ "B85" ∷ "C222" ∷ "C224" ∷ "C226" ∷ "H81" ∷ "HM97" ∷ "Z97" ∷ "QM97" ∷ "H97"
    ∷ "C610/X99" ∷ "Wellsburg" ∷ "Wildcat Point-LP" ∷ "Sunrise Point-LP" ∷ "Sunrise Point"
    ∷ "Sunrise Point-H" ∷ "H110" ∷ "H170" ∷ "Z170" ∷ "Q170" ∷ "Q150" ∷ "B150" ∷ "C236" ∷ "C232"
    ∷ "QM170" ∷ "HM170" ∷ "CM236" ∷ "QMS180" ∷ "HM175" ∷ "QM175" ∷ "CM238" ∷ "QMU185" ∷ "H270"
    ∷ "Z270" ∷ "Q270" ∷ "Q250" ∷ "B250" ∷ "B365" ∷ "C422" ∷ "C621" ∷ "C622" ∷ "C624" ∷ "C625"
    ∷ "C626" ∷ "C627" ∷ "C628" ∷ "X299" ∷ "Lewisburg" ∷ "Cannon Point-LP" ∷ "C246" ∷ "B360" ∷ "C242"
    ∷ "QM370" ∷ "HM370" ∷ "CM246" ∷ "H310" ∷ "H370" ∷ "Z390" ∷ "Q370" ∷ "Z370" ∷ "Comet Lake"
    ∷ "HM470" ∷ "H310D" ∷ "H470" ∷ "Z490" ∷ "Q470" ∷ "QM480" ∷ "WM490" ∷ "W480" ∷ "H420E"
    ∷ "Ice Lake-LP" ∷ "Ice Lake" ∷ "B460" ∷ "H410" ∷ "QM580E" ∷ "Rocket Lake" ∷ "Q570" ∷ "Z590"
    ∷ "H570" ∷ "B560" ∷ "H510" ∷ "WM590" ∷ "QM580" ∷ "HM570" ∷ "C252" ∷ "C256" ∷ "W580" ∷ "RM590E"
    ∷ "R580E" ∷ "Tiger Lake-LP" ∷ "Gemini Lake" ∷ "Elkhart Lake" ∷ "Jasper Lake" ∷ "Alder Lake"
    ∷ "Alder Lake-N" ∷ "Q670" ∷ "Z690" ∷ "H670" ∷ "B660" ∷ "H610" ∷ "W680" ∷ "HM670" ∷ "WM690"
    ∷ "R680E" ∷ "Q670E" ∷ "H610E" ∷ "Raptor Lake-P" ∷ "Raptor Lake-PX" ∷ "Z790" ∷ "H770" ∷ "B760"
    ∷ "HM770" ∷ "WM790" ∷ "C266" ∷ "C262" ∷ "W790" ∷ "Meteor Lake-P" ∷ "Lunar Lake-M" ∷ "Q870"
    ∷ "Z890" ∷ "B860" ∷ "H810" ∷ "W880" ∷ "HM870" ∷ "WM880" ∷ []
