-- ===== src/Codecs.antt =====
-- The AppleALC layouts of the audio codecs: `data` in Scripts/datasets/codec_layouts.py.
pub mod Entry
mod Main
mod Analog
mod Realtek
mod RealtekHd
mod Desktop
mod Others
use freaky_ocs.Base.{String, List, [], ◌∷◌, ◌++◌}
use freaky_ocs.Base.Dict.{Dict, keys}
use freaky_ocs.Codecs.Entry.{Layout}
use freaky_ocs.Codecs.Main.{
  layouts_from_10ec_0295, layouts_from_10ec_1168, layouts_from_10ec_0256, layouts_from_10ec_0282,
  layouts_from_10ec_0269,
}
use freaky_ocs.Codecs.Analog.{
  layouts_from_111d_7695, layouts_from_11d4_989b, layouts_from_10ec_0236, layouts_from_10ec_0235,
  layouts_from_10ec_0255,
}
use freaky_ocs.Codecs.Realtek.{
  layouts_from_10ec_0257, layouts_from_10ec_0275, layouts_from_10ec_0286,
}
use freaky_ocs.Codecs.RealtekHd.{
  layouts_from_10ec_0288, layouts_from_10ec_0294, layouts_from_10ec_0668,
}
use freaky_ocs.Codecs.Desktop.{
  layouts_from_10ec_0882, layouts_from_10ec_0889, layouts_from_10ec_0897, layouts_from_10ec_1220,
}
use freaky_ocs.Codecs.Others.{
  layouts_from_10ec_0b00, layouts_from_14f1_506e, layouts_from_111d_7675, layouts_from_1106_8446,
}

unfoldable pub codec_layouts : Dict (List Layout)
unfolding layouts_from_10ec_0295 layouts_from_10ec_1168 layouts_from_10ec_0256
    layouts_from_10ec_0282 layouts_from_10ec_0269 layouts_from_111d_7695 layouts_from_11d4_989b
    layouts_from_10ec_0236 layouts_from_10ec_0235 layouts_from_10ec_0255 layouts_from_10ec_0257
    layouts_from_10ec_0275 layouts_from_10ec_0286 layouts_from_10ec_0288 layouts_from_10ec_0294
    layouts_from_10ec_0668 layouts_from_10ec_0882 layouts_from_10ec_0889 layouts_from_10ec_0897
    layouts_from_10ec_1220 layouts_from_10ec_0b00 layouts_from_14f1_506e layouts_from_111d_7675
    layouts_from_1106_8446
codec_layouts =
    layouts_from_10ec_0295
    ++ (layouts_from_10ec_1168
        ++ (layouts_from_10ec_0256
            ++ (layouts_from_10ec_0282
                ++ (layouts_from_10ec_0269
                    ++ (layouts_from_111d_7695
                        ++ (layouts_from_11d4_989b
                            ++ (layouts_from_10ec_0236
                                ++ (layouts_from_10ec_0235
                                    ++ (layouts_from_10ec_0255
                                        ++ (layouts_from_10ec_0257
                                            ++ (layouts_from_10ec_0275
                                                ++ (layouts_from_10ec_0286
                                                    ++ (layouts_from_10ec_0288
                                                        ++ (layouts_from_10ec_0294
                                                            ++ (layouts_from_10ec_0668
                                                            ++ (layouts_from_10ec_0882
                                                            ++ (layouts_from_10ec_0889
                                                            ++ (layouts_from_10ec_0897
                                                            ++ (layouts_from_10ec_1220
                                                            ++ (layouts_from_10ec_0b00
                                                            ++ (layouts_from_14f1_506e
                                                            ++ (layouts_from_111d_7675
                                                            ++ (layouts_from_1106_8446)))))))))))))))))))))))

unfoldable pub codec_layout_ids : List String
unfolding keys codec_layouts
codec_layout_ids = keys codec_layouts
