-- ===== src/Mape/Rules/Rule38x20D.antt =====
-- Rows of `mapeRule38x20`: OCN.
use sixup.Common.{ℕ, List, [], ◌∷◌}

-- The key, and the three octets.
abbrev pub rules38x20_d : List (ℕ × (ℕ × ℕ × ℕ))
rules38x20_d =
    (0x24004151c4, (124, 84, 144))
    ∷ (0x24004151c8, (124, 98, 192))
    ∷ (0x24004151cc, (124, 98, 208))
    ∷ (0x24004151d0, (124, 100, 0))
    ∷ (0x24004151d4, (124, 100, 16))
    ∷ (0x24004151d8, (124, 100, 224))
    ∷ (0x24004151dc, (124, 100, 240))
    ∷ (0x2400415200, (180, 16, 0))
    ∷ (0x2400415204, (180, 16, 16))
    ∷ (0x2400415208, (180, 16, 32))
    ∷ (0x240041520c, (180, 16, 48))
    ∷ (0x2400415210, (180, 29, 128))
    ∷ (0x2400415214, (180, 29, 144))
    ∷ (0x2400415218, (180, 29, 160))
    ∷ (0x240041521c, (180, 29, 176))
    ∷ (0x2400415220, (180, 59, 64))
    ∷ (0x2400415224, (180, 59, 80))
    ∷ (0x2400415228, (180, 59, 96))
    ∷ (0x240041522c, (180, 59, 112))
    ∷ (0x2400415230, (219, 161, 0))
    ∷ (0x2400415234, (219, 161, 16))
    ∷ (0x2400415238, (219, 161, 32))
    ∷ (0x240041523c, (219, 161, 48))
    ∷ (0x2400415240, (153, 129, 160))
    ∷ (0x2400415244, (153, 129, 176))
    ∷ (0x2400415248, (153, 130, 0))
    ∷ (0x240041524c, (153, 130, 16))
    ∷ (0x2400415250, (153, 131, 96))
    ∷ (0x2400415254, (153, 131, 112))
    ∷ (0x2400415260, (153, 131, 128))
    ∷ (0x2400415264, (153, 131, 144))
    ∷ (0x2400415268, (153, 132, 128))
    ∷ (0x240041526c, (153, 132, 144))
    ∷ (0x2400415270, (153, 134, 64))
    ∷ (0x2400415274, (153, 134, 80))
    ∷ (0x2400415278, (153, 137, 0))
    ∷ (0x240041527c, (153, 137, 16))
    ∷ (0x2400415280, (153, 139, 192))
    ∷ (0x2400415284, (153, 139, 208))
    ∷ (0x2400415288, (153, 151, 32))
    ∷ (0x240041528c, (153, 151, 48))
    ∷ (0x2400415290, (153, 156, 96))
    ∷ (0x2400415294, (153, 156, 112))
    ∷ (0x2400415298, (153, 156, 128))
    ∷ (0x240041529c, (153, 156, 144))
    ∷ (0x2400415300, (153, 165, 96))
    ∷ (0x2400415304, (153, 165, 112))
    ∷ (0x2400415308, (153, 165, 160))
    ∷ (0x240041530c, (153, 165, 176))
    ∷ (0x2400415310, (153, 171, 224))
    ∷ (0x2400415314, (153, 171, 240))
    ∷ (0x2400415318, (153, 175, 0))
    ∷ (0x240041531c, (153, 175, 16))
    ∷ (0x2400415320, (153, 181, 0))
    ∷ (0x2400415324, (153, 181, 16))
    ∷ (0x2400415328, (153, 183, 224))
    ∷ (0x240041532c, (153, 183, 240))
    ∷ (0x2400415330, (153, 184, 128))
    ∷ (0x2400415334, (153, 184, 144))
    ∷ (0x2400415338, (153, 187, 224))
    ∷ (0x240041533c, (153, 187, 240))
    ∷ (0x2400415340, (220, 106, 32))
    ∷ (0x2400415344, (220, 106, 48))
    ∷ (0x2400415348, (153, 188, 0))
    ∷ (0x240041534c, (153, 188, 16))
    ∷ (0x2400415350, (153, 190, 128))
    ∷ (0x2400415354, (153, 190, 144))
    ∷ (0x2400415358, (153, 191, 64))
    ∷ (0x240041535c, (153, 191, 80))
    ∷ (0x2400415360, (153, 191, 192))
    ∷ (0x2400415364, (153, 191, 208))
    ∷ (0x2400415368, (153, 194, 96))
    ∷ (0x240041536c, (153, 194, 112))
    ∷ (0x2400415370, (220, 106, 64))
    ∷ (0x2400415374, (220, 106, 80))
    ∷ (0x2400415380, (180, 12, 128))
    ∷ (0x2400415384, (180, 12, 144))
    ∷ (0x2400415388, (180, 26, 96))
    ∷ (0x240041538c, (180, 26, 112))
    ∷ (0x2400415390, (180, 26, 160))
    ∷ (0x2400415394, (180, 26, 176))
    ∷ (0x2400415398, (180, 26, 224))
    ∷ (0x240041539c, (180, 26, 240))
    ∷ (0x24004153a0, (180, 30, 0))
    ∷ (0x24004153a4, (180, 30, 16))
    ∷ (0x24004153a8, (180, 31, 96))
    ∷ (0x24004153ac, (180, 31, 112))
    ∷ (0x24004153b0, (180, 32, 64))
    ∷ (0x24004153b4, (180, 32, 80))
    ∷ (0x24004153b8, (180, 34, 160))
    ∷ (0x24004153bc, (180, 34, 176))
    ∷ (0x24004153c0, (180, 46, 0))
    ∷ (0x24004153c4, (180, 46, 16))
    ∷ (0x24004153c8, (180, 48, 0))
    ∷ (0x24004153cc, (180, 48, 16))
    ∷ (0x24004153d0, (180, 50, 192))
    ∷ (0x24004153d4, (180, 50, 208))
    ∷ (0x24004153d8, (180, 53, 0))
    ∷ (0x24004153dc, (180, 53, 16))
    ∷ (0x24004153e0, (218, 230, 128))
    ∷ (0x24004153e4, (218, 230, 144))
    ∷ (0x24004153e8, (219, 161, 64))
    ∷ (0x24004153ec, (219, 161, 80))
    ∷ (0x24004153f0, (220, 96, 64))
    ∷ (0x24004153f4, (220, 96, 80))
    ∷ (0x24004153f8, (220, 99, 0))
    ∷ (0x24004153fc, (220, 99, 16))
    ∷ []
