-- ===== src/CpuData.antt =====
-- The codenames of the CPU generations: Scripts/datasets/cpu_data.py.
use freaky_ocs.Base.{String, List, [], ◌∷◌}

unfoldable pub amd_cpu_generations : List String
amd_cpu_generations =
    "Summit Ridge" ∷ "Whitehaven" ∷ "Raven Ridge" ∷ "Great Horned Owl" ∷ "Dalí" ∷ "Banded Kestrel"
    ∷ "River Hawk" ∷ "Pinnacle Ridge" ∷ "Colfax" ∷ "Picasso" ∷ "Grey Hawk" ∷ "Matisse"
    ∷ "Castle Peak" ∷ "Renoir" ∷ "Lucienne" ∷ "Vermeer" ∷ "Cezanne" ∷ "Barceló" ∷ "Rembrandt"
    ∷ "Mendocino" ∷ "Barceló-R" ∷ "Rembrandt-R" ∷ "V3000" ∷ "Chagall" ∷ "Raphael" ∷ "Storm Peak"
    ∷ "Phoenix" ∷ "Dragon Range" ∷ "Hawk Point" ∷ "Granite Ridge" ∷ "Strix Point" ∷ []

unfoldable pub intel_cpu_generations : List String
intel_cpu_generations =
    "Arrow Lake-S" ∷ "Arrow Lake-H" ∷ "Arrow Lake-HX" ∷ "Arrow Lake-U" ∷ "Lunar Lake"
    ∷ "Meteor Lake-H" ∷ "Meteor Lake-U" ∷ "Raptor Lake-S" ∷ "Raptor Lake-E" ∷ "Raptor Lake-HX"
    ∷ "Raptor Lake-H" ∷ "Raptor Lake-PX" ∷ "Raptor Lake-P" ∷ "Raptor Lake-U" ∷ "Alder Lake-S"
    ∷ "Alder Lake-HX" ∷ "Alder Lake-H" ∷ "Alder Lake-P" ∷ "Alder Lake-U" ∷ "Alder Lake-N"
    ∷ "Lakefield" ∷ "Rocket Lake-S" ∷ "Rocket Lake-E" ∷ "Tiger Lake-H" ∷ "Tiger Lake-B"
    ∷ "Tiger Lake-UP3" ∷ "Tiger Lake-H35" ∷ "Tiger Lake-UP4" ∷ "Ice Lake-U" ∷ "Ice Lake-SP"
    ∷ "Comet Lake-S" ∷ "Comet Lake-W" ∷ "Comet Lake-H" ∷ "Comet Lake-U" ∷ "Coffee Lake-S"
    ∷ "Coffee Lake-E" ∷ "Coffee Lake-H" ∷ "Coffee Lake-U" ∷ "Cannon Lake-U" ∷ "Whiskey Lake-U"
    ∷ "Kaby Lake" ∷ "Kaby Lake-H" ∷ "Kaby Lake-X" ∷ "Kaby Lake-G" ∷ "Amber Lake-Y"
    ∷ "Cascade Lake-X" ∷ "Cascade Lake-P" ∷ "Cascade Lake-W" ∷ "Skylake" ∷ "Skylake-X" ∷ "Broadwell"
    ∷ "Broadwell-H" ∷ "Broadwell-U" ∷ "Broadwell-Y" ∷ "Broadwell-E" ∷ "Haswell" ∷ "Haswell-ULT"
    ∷ "Haswell-ULX" ∷ "Haswell-H" ∷ "Haswell-E" ∷ "Haswell-EP" ∷ "Haswell-EX" ∷ "Ivy Bridge"
    ∷ "Ivy Bridge-E" ∷ "Sandy Bridge" ∷ "Sandy Bridge-E" ∷ "Beckton" ∷ "Westmere-EX" ∷ "Gulftown"
    ∷ "Westmere-EP" ∷ "Clarkdale" ∷ "Arrandale" ∷ "Lynnfield" ∷ "Jasper Forest" ∷ "Clarksfield"
    ∷ "Gainestown" ∷ "Bloomfield" ∷ []
