-- ===== src/Mape/Rules/Rule38B.antt =====
-- Rows of `mapeRule38`: BIGLOBE and NURO.
use sixup.Common.{ℕ, List, [], ◌∷◌}

-- The key, and the three octets.
abbrev pub rules38_b : List (ℕ × (ℕ × ℕ × ℕ))
rules38_b =
    (0x24047a83b8, (122, 134, 52))
    ∷ (0x24047a83bc, (119, 244, 60))
    ∷ (0x24047a83c0, (119, 243, 100))
    ∷ (0x24047a83c4, (221, 170, 236))
    ∷ (0x24047a83c8, (221, 171, 48))
    ∷ (0x24047a83cc, (60, 238, 36))
    ∷ (0x24047a83d0, (125, 195, 236))
    ∷ (0x24047a83d4, (60, 236, 20))
    ∷ (0x24047a83d8, (118, 108, 76))
    ∷ (0x24047a83dc, (118, 110, 108))
    ∷ (0x24047a83e0, (118, 110, 112))
    ∷ (0x24047a83e4, (118, 111, 88))
    ∷ (0x24047a83e8, (118, 111, 228))
    ∷ (0x24047a83ec, (118, 111, 236))
    ∷ (0x24047a83f0, (119, 241, 148))
    ∷ (0x24047a83f4, (119, 242, 124))
    ∷ (0x24047a83f8, (125, 194, 28))
    ∷ (0x24047a83fc, (125, 194, 96))
    ∷ (0x24047a8600, (133, 204, 128))
    ∷ (0x24047a8604, (133, 204, 132))
    ∷ (0x24047a8608, (133, 204, 136))
    ∷ (0x24047a860c, (133, 204, 140))
    ∷ (0x24047a8610, (133, 204, 144))
    ∷ (0x24047a8614, (133, 204, 148))
    ∷ (0x24047a8618, (133, 204, 152))
    ∷ (0x24047a861c, (133, 204, 156))
    ∷ (0x24047a8620, (133, 204, 160))
    ∷ (0x24047a8624, (133, 204, 164))
    ∷ (0x24047a8628, (133, 204, 168))
    ∷ (0x24047a862c, (133, 204, 172))
    ∷ (0x24047a8630, (133, 204, 176))
    ∷ (0x24047a8634, (133, 204, 180))
    ∷ (0x24047a8638, (133, 204, 184))
    ∷ (0x24047a863c, (133, 204, 188))
    ∷ (0x24047a8640, (133, 203, 192))
    ∷ (0x24047a8644, (133, 203, 196))
    ∷ (0x24047a8648, (133, 203, 200))
    ∷ (0x24047a864c, (133, 203, 204))
    ∷ (0x24047a8650, (133, 203, 208))
    ∷ (0x24047a8654, (133, 203, 212))
    ∷ (0x24047a8658, (133, 203, 216))
    ∷ (0x24047a865c, (133, 203, 220))
    ∷ (0x24047a8660, (133, 204, 0))
    ∷ (0x24047a8664, (133, 204, 4))
    ∷ (0x24047a8668, (133, 204, 8))
    ∷ (0x24047a866c, (133, 204, 12))
    ∷ (0x24047a8670, (133, 204, 16))
    ∷ (0x24047a8674, (133, 204, 20))
    ∷ (0x24047a8678, (133, 204, 24))
    ∷ (0x24047a867c, (133, 204, 28))
    ∷ (0x24047a8680, (133, 204, 64))
    ∷ (0x24047a8684, (133, 204, 68))
    ∷ (0x24047a8688, (133, 204, 72))
    ∷ (0x24047a868c, (133, 204, 76))
    ∷ (0x24047a8690, (133, 204, 80))
    ∷ (0x24047a8694, (133, 204, 84))
    ∷ (0x24047a8698, (133, 204, 88))
    ∷ (0x24047a869c, (133, 204, 92))
    ∷ (0x24047a86a0, (221, 171, 112))
    ∷ (0x24047a86a4, (221, 171, 116))
    ∷ (0x24047a86a8, (221, 171, 120))
    ∷ (0x24047a86ac, (221, 171, 124))
    ∷ (0x24047a86b0, (125, 195, 184))
    ∷ (0x24047a86b4, (125, 196, 216))
    ∷ (0x24047a86b8, (221, 171, 108))
    ∷ (0x24047a86bc, (219, 107, 152))
    ∷ (0x24047a86c0, (60, 239, 128))
    ∷ (0x24047a86c4, (60, 239, 132))
    ∷ (0x24047a86c8, (60, 239, 136))
    ∷ (0x24047a86cc, (60, 239, 140))
    ∷ (0x24047a86d0, (118, 110, 80))
    ∷ (0x24047a86d4, (118, 110, 84))
    ∷ (0x24047a86d8, (118, 110, 88))
    ∷ (0x24047a86dc, (118, 110, 92))
    ∷ (0x24047a86e0, (125, 194, 176))
    ∷ (0x24047a86e4, (125, 194, 180))
    ∷ (0x24047a86e8, (125, 194, 184))
    ∷ (0x24047a86ec, (125, 194, 188))
    ∷ (0x24047a86f0, (60, 239, 112))
    ∷ (0x24047a86f4, (60, 239, 116))
    ∷ (0x24047a86f8, (60, 239, 120))
    ∷ (0x24047a86fc, (60, 239, 124))
    ∷ (0x24047a8700, (125, 195, 56))
    ∷ (0x24047a8704, (125, 195, 60))
    ∷ (0x24047a8708, (125, 196, 32))
    ∷ (0x24047a870c, (125, 196, 36))
    ∷ (0x24047a8710, (118, 108, 80))
    ∷ (0x24047a8714, (118, 108, 84))
    ∷ (0x24047a8718, (118, 111, 80))
    ∷ (0x24047a871c, (118, 111, 84))
    ∷ (0x24047a8720, (218, 227, 176))
    ∷ (0x24047a8724, (218, 227, 180))
    ∷ (0x24047a8728, (60, 239, 208))
    ∷ (0x24047a872c, (60, 239, 212))
    ∷ (0x24047a8730, (118, 109, 56))
    ∷ (0x24047a8734, (118, 109, 60))
    ∷ (0x24047a8738, (122, 131, 88))
    ∷ (0x24047a873c, (122, 131, 92))
    ∷ (0x24047a8740, (122, 131, 96))
    ∷ (0x24047a8744, (122, 131, 100))
    ∷ (0x24047a8748, (122, 130, 48))
    ∷ (0x24047a874c, (122, 130, 52))
    ∷ (0x24047a8750, (125, 198, 224))
    ∷ (0x24047a8754, (125, 198, 228))
    ∷ (0x24047a8758, (119, 243, 104))
    ∷ (0x24047a875c, (119, 243, 108))
    ∷ (0x24047a8760, (118, 109, 152))
    ∷ (0x24047a8764, (118, 109, 156))
    ∷ (0x24047a8768, (118, 111, 104))
    ∷ (0x24047a876c, (118, 111, 108))
    ∷ []
