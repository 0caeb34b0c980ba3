-- ===== src/Mape/Rules/Rule38x20B.antt =====
-- Rows of `mapeRule38x20`: OCN.
use sixup.Common.{ℕ, List, [], ◌∷◌}

-- The key, and the three octets.
abbrev pub rules38x20_b : List (ℕ × (ℕ × ℕ × ℕ))
rules38x20_b =
    (0x24004051ac, (118, 0, 112))
    ∷ (0x24004051b0, (118, 7, 64))
    ∷ (0x24004051b4, (118, 7, 80))
    ∷ (0x24004051b8, (118, 7, 96))
    ∷ (0x24004051bc, (118, 7, 112))
    ∷ (0x24004051c0, (118, 8, 192))
    ∷ (0x24004051c4, (118, 8, 208))
    ∷ (0x24004051c8, (118, 8, 224))
    ∷ (0x24004051cc, (118, 8, 240))
    ∷ (0x24004051d0, (118, 9, 0))
    ∷ (0x24004051d4, (118, 9, 16))
    ∷ (0x24004051d8, (118, 9, 32))
    ∷ (0x24004051dc, (118, 9, 48))
    ∷ (0x24004051e0, (123, 218, 64))
    ∷ (0x24004051e4, (123, 218, 80))
    ∷ (0x24004051e8, (123, 218, 96))
    ∷ (0x24004051ec, (123, 218, 112))
    ∷ (0x24004051f0, (123, 220, 128))
    ∷ (0x24004051f4, (123, 220, 144))
    ∷ (0x24004051f8, (123, 220, 160))
    ∷ (0x24004051fc, (123, 220, 176))
    ∷ (0x2400405200, (123, 225, 192))
    ∷ (0x2400405204, (123, 225, 208))
    ∷ (0x2400405208, (123, 225, 224))
    ∷ (0x240040520c, (123, 225, 240))
    ∷ (0x2400405210, (153, 134, 0))
    ∷ (0x2400405214, (153, 134, 16))
    ∷ (0x2400405218, (153, 134, 32))
    ∷ (0x240040521c, (153, 134, 48))
    ∷ (0x2400405220, (153, 139, 128))
    ∷ (0x2400405224, (153, 139, 144))
    ∷ (0x2400405228, (153, 139, 160))
    ∷ (0x240040522c, (153, 139, 176))
    ∷ (0x2400405230, (153, 151, 64))
    ∷ (0x2400405234, (153, 151, 80))
    ∷ (0x2400405238, (153, 151, 96))
    ∷ (0x240040523c, (153, 151, 112))
    ∷ (0x2400405240, (153, 170, 64))
    ∷ (0x2400405244, (153, 170, 80))
    ∷ (0x2400405248, (153, 170, 96))
    ∷ (0x240040524c, (153, 170, 112))
    ∷ (0x2400405250, (153, 170, 192))
    ∷ (0x2400405254, (153, 170, 208))
    ∷ (0x2400405258, (153, 170, 224))
    ∷ (0x240040525c, (153, 170, 240))
    ∷ (0x2400405260, (61, 127, 128))
    ∷ (0x2400405264, (61, 127, 144))
    ∷ (0x2400405268, (114, 146, 0))
    ∷ (0x240040526c, (114, 146, 16))
    ∷ (0x2400405270, (114, 146, 128))
    ∷ (0x2400405274, (114, 146, 144))
    ∷ (0x2400405278, (114, 148, 64))
    ∷ (0x240040527c, (114, 148, 80))
    ∷ (0x2400405280, (114, 148, 160))
    ∷ (0x2400405284, (114, 148, 176))
    ∷ (0x2400405288, (114, 149, 0))
    ∷ (0x240040528c, (114, 149, 16))
    ∷ (0x2400405290, (114, 150, 160))
    ∷ (0x2400405294, (114, 150, 176))
    ∷ (0x2400405298, (114, 158, 0))
    ∷ (0x240040529c, (114, 158, 16))
    ∷ (0x2400405300, (114, 162, 128))
    ∷ (0x2400405304, (114, 162, 144))
    ∷ (0x2400405308, (114, 163, 0))
    ∷ (0x240040530c, (114, 163, 16))
    ∷ (0x2400405310, (114, 165, 224))
    ∷ (0x2400405314, (114, 165, 240))
    ∷ (0x2400405318, (114, 167, 192))
    ∷ (0x240040531c, (114, 167, 208))
    ∷ (0x2400405320, (114, 177, 128))
    ∷ (0x2400405324, (114, 177, 144))
    ∷ (0x2400405328, (114, 178, 224))
    ∷ (0x240040532c, (114, 178, 240))
    ∷ (0x2400405330, (118, 1, 0))
    ∷ (0x2400405334, (118, 1, 16))
    ∷ (0x2400405338, (118, 3, 192))
    ∷ (0x240040533c, (118, 3, 208))
    ∷ (0x2400405340, (118, 6, 64))
    ∷ (0x2400405344, (118, 6, 80))
    ∷ (0x2400405348, (118, 7, 160))
    ∷ (0x240040534c, (118, 7, 176))
    ∷ (0x2400405350, (118, 7, 192))
    ∷ (0x2400405354, (118, 7, 208))
    ∷ (0x2400405358, (118, 9, 64))
    ∷ (0x240040535c, (118, 9, 80))
    ∷ (0x2400405360, (118, 9, 128))
    ∷ (0x2400405364, (118, 9, 144))
    ∷ (0x2400405368, (118, 22, 128))
    ∷ (0x240040536c, (118, 22, 144))
    ∷ (0x2400405370, (122, 16, 0))
    ∷ (0x2400405374, (122, 16, 16))
    ∷ (0x2400405378, (123, 220, 0))
    ∷ (0x240040537c, (123, 220, 16))
    ∷ (0x2400405380, (153, 173, 0))
    ∷ (0x2400405384, (153, 173, 16))
    ∷ (0x2400405388, (153, 173, 32))
    ∷ (0x240040538c, (153, 173, 48))
    ∷ (0x2400405390, (153, 173, 64))
    ∷ (0x2400405394, (153, 173, 80))
    ∷ (0x2400405398, (153, 173, 96))
    ∷ (0x240040539c, (153, 173, 112))
    ∷ (0x24004053a0, (153, 173, 128))
    ∷ (0x24004053a4, (153, 173, 144))
    ∷ (0x24004053a8, (153, 173, 160))
    ∷ (0x24004053ac, (153, 173, 176))
    ∷ (0x24004053b0, (153, 173, 192))
    ∷ (0x24004053b4, (153, 173, 208))
    ∷ []
