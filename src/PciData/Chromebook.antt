-- ===== src/PciData/Chromebook.antt =====
-- The system devices of Chromebooks: Scripts/datasets/pci_data.py.
use freaky_ocs.Base.{String, List, [], ◌∷◌}
use freaky_ocs.Base.Dict.{Dict}

-- The parentheses around a single text make no tuple of it.
pub data Subsystems : Type 0 where
  one : String → Subsystems
  several : List String → Subsystems

unfoldable pub chromebook_ids : Dict Subsystems
chromebook_ids =
    ("1022-790E", several ("15101022" ∷ "780E1022" ∷ []))
    ∷ ("8086-0284", several ("02841028" ∷ "02848086" ∷ []))
    ∷ ("8086-0285", one "02858086")
    ∷ ("8086-1C49", one "C0001AE0")
    ∷ ("8086-1E57", one "C0001AE0")
    ∷ ("8086-1E5D", one "C0001AE0")
    ∷ ("8086-3197", several ("31978086" ∷ "72708086" ∷ []))
    ∷ ("8086-9C43", one "C0001AE0")
    ∷ ("8086-9C45", several ("0A111025" ∷ "9C458086" ∷ "C0001AE0" ∷ []))
    ∷ ("8086-9D43", several ("72708086" ∷ "9D438086" ∷ []))
    ∷ ("8086-9D46", one "9D468086")
    ∷ ("8086-9D4B", several ("006B1AE0" ∷ "006C1AE0" ∷ []))
    ∷ ("8086-9D4E", one "006C1AE0")
    ∷ []
