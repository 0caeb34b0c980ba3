-- ===== src/Mape/Rules/Rule38A.antt =====
-- Rows of `mapeRule38`: BIGLOBE and NURO.
use sixup.Common.{ℕ, List, [], ◌∷◌}

-- The key, and the three octets.
abbrev pub rules38_a : List (ℕ × (ℕ × ℕ × ℕ))
rules38_a =
    (0x24047a8200, (125, 196, 208))
    ∷ (0x24047a8204, (125, 196, 212))
    ∷ (0x24047a8208, (125, 198, 140))
    ∷ (0x24047a820c, (125, 198, 144))
    ∷ (0x24047a8210, (125, 198, 212))
    ∷ (0x24047a8214, (125, 198, 244))
    ∷ (0x24047a8218, (122, 131, 104))
    ∷ (0x24047a821c, (125, 195, 20))
    ∷ (0x24047a8220, (133, 203, 160))
    ∷ (0x24047a8224, (133, 203, 164))
    ∷ (0x24047a8228, (133, 203, 168))
    ∷ (0x24047a822c, (133, 203, 172))
    ∷ (0x24047a8230, (133, 203, 176))
    ∷ (0x24047a8234, (133, 203, 180))
    ∷ (0x24047a8238, (133, 203, 184))
    ∷ (0x24047a823c, (133, 203, 188))
    ∷ (0x24047a8240, (133, 209, 0))
    ∷ (0x24047a8244, (133, 209, 4))
    ∷ (0x24047a8248, (133, 209, 8))
    ∷ (0x24047a824c, (133, 209, 12))
    ∷ (0x24047a8250, (133, 209, 16))
    ∷ (0x24047a8254, (133, 209, 20))
    ∷ (0x24047a8258, (133, 209, 24))
    ∷ (0x24047a825c, (133, 209, 28))
    ∷ (0x24047a8260, (133, 204, 192))
    ∷ (0x24047a8264, (133, 204, 196))
    ∷ (0x24047a8268, (133, 204, 200))
    ∷ (0x24047a826c, (133, 204, 204))
    ∷ (0x24047a8270, (133, 204, 208))
    ∷ (0x24047a8274, (133, 204, 212))
    ∷ (0x24047a8278, (133, 204, 216))
    ∷ (0x24047a827c, (133, 204, 220))
    ∷ (0x24047a8280, (133, 203, 224))
    ∷ (0x24047a8284, (133, 203, 228))
    ∷ (0x24047a8288, (133, 203, 232))
    ∷ (0x24047a828c, (133, 203, 236))
    ∷ (0x24047a8290, (133, 203, 240))
    ∷ (0x24047a8294, (133, 203, 244))
    ∷ (0x24047a8298, (133, 203, 248))
    ∷ (0x24047a829c, (133, 203, 252))
    ∷ (0x24047a82a0, (125, 194, 192))
    ∷ (0x24047a82a4, (125, 194, 196))
    ∷ (0x24047a82a8, (125, 194, 200))
    ∷ (0x24047a82ac, (125, 194, 204))
    ∷ (0x24047a82b0, (119, 239, 128))
    ∷ (0x24047a82b4, (119, 239, 132))
    ∷ (0x24047a82b8, (119, 239, 136))
    ∷ (0x24047a82bc, (119, 239, 140))
    ∷ (0x24047a82c0, (125, 194, 32))
    ∷ (0x24047a82c4, (125, 194, 36))
    ∷ (0x24047a82c8, (125, 194, 40))
    ∷ (0x24047a82cc, (125, 194, 44))
    ∷ (0x24047a82d0, (125, 195, 24))
    ∷ (0x24047a82d4, (125, 195, 28))
    ∷ (0x24047a82d8, (122, 130, 192))
    ∷ (0x24047a82dc, (122, 130, 196))
    ∷ (0x24047a82e0, (122, 135, 64))
    ∷ (0x24047a82e4, (122, 135, 68))
    ∷ (0x24047a82e8, (125, 192, 240))
    ∷ (0x24047a82ec, (125, 192, 244))
    ∷ (0x24047a82f0, (125, 193, 176))
    ∷ (0x24047a82f4, (125, 193, 180))
    ∷ (0x24047a82f8, (122, 130, 176))
    ∷ (0x24047a82fc, (122, 130, 180))
    ∷ (0x24047a8300, (122, 131, 24))
    ∷ (0x24047a8304, (122, 131, 28))
    ∷ (0x24047a8308, (122, 131, 32))
    ∷ (0x24047a830c, (122, 131, 36))
    ∷ (0x24047a8310, (119, 243, 112))
    ∷ (0x24047a8314, (119, 243, 116))
    ∷ (0x24047a8318, (219, 107, 136))
    ∷ (0x24047a831c, (219, 107, 140))
    ∷ (0x24047a8320, (220, 144, 224))
    ∷ (0x24047a8324, (220, 144, 228))
    ∷ (0x24047a8328, (125, 194, 64))
    ∷ (0x24047a832c, (125, 194, 68))
    ∷ (0x24047a8330, (221, 171, 40))
    ∷ (0x24047a8334, (221, 171, 44))
    ∷ (0x24047a8338, (110, 233, 80))
    ∷ (0x24047a833c, (110, 233, 84))
    ∷ (0x24047a8340, (119, 241, 184))
    ∷ (0x24047a8344, (119, 241, 188))
    ∷ (0x24047a8348, (119, 243, 56))
    ∷ (0x24047a834c, (119, 243, 60))
    ∷ (0x24047a8350, (125, 199, 8))
    ∷ (0x24047a8354, (125, 199, 12))
    ∷ (0x24047a8358, (125, 196, 96))
    ∷ (0x24047a835c, (125, 196, 100))
    ∷ (0x24047a8360, (122, 130, 104))
    ∷ (0x24047a8364, (122, 130, 108))
    ∷ (0x24047a8368, (122, 130, 112))
    ∷ (0x24047a836c, (122, 130, 116))
    ∷ (0x24047a8370, (49, 129, 152))
    ∷ (0x24047a8374, (49, 129, 156))
    ∷ (0x24047a8378, (49, 129, 192))
    ∷ (0x24047a837c, (49, 129, 196))
    ∷ (0x24047a8380, (49, 129, 120))
    ∷ (0x24047a8384, (49, 129, 124))
    ∷ (0x24047a8388, (221, 170, 40))
    ∷ (0x24047a838c, (221, 170, 44))
    ∷ (0x24047a8390, (60, 239, 108))
    ∷ (0x24047a8394, (60, 236, 24))
    ∷ (0x24047a8398, (122, 130, 120))
    ∷ (0x24047a839c, (60, 236, 84))
    ∷ (0x24047a83a0, (60, 239, 180))
    ∷ (0x24047a83a4, (60, 239, 184))
    ∷ (0x24047a83a8, (118, 110, 136))
    ∷ (0x24047a83ac, (119, 242, 136))
    ∷ (0x24047a83b0, (60, 238, 188))
    ∷ (0x24047a83b4, (60, 238, 204))
    ∷ []
