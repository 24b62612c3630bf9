-- ===== src/Codecs/Entry.antt =====
-- A layout of a codec: Scripts/datasets/codec_layouts.py.
use freaky_ocs.Base.{ℕ, String}

pub record Layout : Type 0 where
  pub id : ℕ
  pub comment : String

abbrev pub layout : ℕ → String → Layout
layout id comment = record { id = id; comment = comment }
