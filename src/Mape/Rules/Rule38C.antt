-- ===== src/Mape/Rules/Rule38C.antt =====
-- Rows of `mapeRule38`: BIGLOBE and NURO.
use sixup.Common.{ℕ, List, [], ◌∷◌}

-- The key, and the three octets.
abbrev pub rules38_c : List (ℕ × (ℕ × ℕ × ℕ))
rules38_c =
    (0x24047a8770, (119, 239, 48))
    ∷ (0x24047a8774, (119, 239, 52))
    ∷ (0x24047a8778, (122, 130, 16))
    ∷ (0x24047a877c, (122, 130, 20))
    ∷ (0x24047a8780, (125, 196, 128))
    ∷ (0x24047a8784, (125, 196, 132))
    ∷ (0x24047a8788, (122, 131, 48))
    ∷ (0x24047a878c, (122, 131, 52))
    ∷ (0x24047a8790, (122, 134, 104))
    ∷ (0x24047a8794, (122, 134, 108))
    ∷ (0x24047a8798, (60, 238, 208))
    ∷ (0x24047a879c, (60, 238, 212))
    ∷ (0x24047a87a0, (220, 144, 192))
    ∷ (0x24047a87a4, (220, 144, 196))
    ∷ (0x24047a87a8, (110, 233, 48))
    ∷ (0x24047a87ac, (122, 131, 84))
    ∷ (0x24047a87b0, (111, 169, 152))
    ∷ (0x24047a87b4, (119, 241, 132))
    ∷ (0x24047a87b8, (119, 241, 136))
    ∷ (0x24047a87bc, (119, 244, 68))
    ∷ (0x24047a87c0, (60, 236, 92))
    ∷ (0x24047a87c4, (60, 237, 108))
    ∷ (0x24047a87c8, (60, 238, 12))
    ∷ (0x24047a87cc, (60, 238, 44))
    ∷ (0x24047a87d0, (60, 238, 216))
    ∷ (0x24047a87d4, (60, 238, 232))
    ∷ (0x24047a87d8, (49, 129, 72))
    ∷ (0x24047a87dc, (110, 233, 4))
    ∷ (0x24047a87e0, (110, 233, 192))
    ∷ (0x24047a87e4, (119, 243, 20))
    ∷ (0x24047a87e8, (119, 243, 24))
    ∷ (0x24047a87ec, (125, 193, 4))
    ∷ (0x24047a87f0, (125, 193, 148))
    ∷ (0x24047a87f4, (118, 110, 76))
    ∷ (0x24047a87f8, (118, 110, 96))
    ∷ (0x24047a87fc, (125, 193, 152))
    ∷ (0x240d000f00, (219, 104, 128))
    ∷ (0x240d000f04, (219, 104, 132))
    ∷ (0x240d000f08, (219, 104, 136))
    ∷ (0x240d000f0c, (219, 104, 140))
    ∷ (0x240d000f10, (219, 104, 144))
    ∷ (0x240d000f14, (219, 104, 148))
    ∷ (0x240d000f18, (219, 104, 152))
    ∷ (0x240d000f1c, (219, 104, 156))
    ∷ (0x240d000f20, (219, 104, 160))
    ∷ (0x240d000f24, (219, 104, 164))
    ∷ (0x240d000f28, (219, 104, 168))
    ∷ (0x240d000f2c, (219, 104, 172))
    ∷ (0x240d000f30, (219, 104, 176))
    ∷ (0x240d000f34, (219, 104, 180))
    ∷ (0x240d000f38, (219, 104, 184))
    ∷ (0x240d000f3c, (219, 104, 188))
    ∷ (0x240d000f40, (219, 104, 192))
    ∷ (0x240d000f44, (219, 104, 196))
    ∷ (0x240d000f48, (219, 104, 200))
    ∷ (0x240d000f4c, (219, 104, 204))
    ∷ (0x240d000f50, (219, 104, 208))
    ∷ (0x240d000f54, (219, 104, 212))
    ∷ (0x240d000f58, (219, 104, 216))
    ∷ (0x240d000f5c, (219, 104, 220))
    ∷ (0x240d000f60, (219, 104, 224))
    ∷ (0x240d000f64, (219, 104, 228))
    ∷ (0x240d000f68, (219, 104, 232))
    ∷ (0x240d000f6c, (219, 104, 236))
    ∷ (0x240d000f70, (219, 104, 240))
    ∷ (0x240d000f74, (219, 104, 244))
    ∷ (0x240d000f78, (219, 104, 248))
    ∷ (0x240d000f7c, (219, 104, 252))
    ∷ (0x240d000f80, (219, 105, 0))
    ∷ (0x240d000f84, (219, 105, 4))
    ∷ (0x240d000f88, (219, 105, 8))
    ∷ (0x240d000f8c, (219, 105, 12))
    ∷ (0x240d000f90, (219, 105, 16))
    ∷ (0x240d000f94, (219, 105, 20))
    ∷ (0x240d000f98, (219, 105, 24))
    ∷ (0x240d000f9c, (219, 105, 28))
    ∷ (0x240d000fa0, (219, 105, 32))
    ∷ (0x240d000fa4, (219, 105, 36))
    ∷ (0x240d000fa8, (219, 105, 40))
    ∷ (0x240d000fac, (219, 105, 44))
    ∷ (0x240d000fb0, (219, 105, 48))
    ∷ (0x240d000fb4, (219, 105, 52))
    ∷ (0x240d000fb8, (219, 105, 56))
    ∷ (0x240d000fbc, (219, 105, 60))
    ∷ (0x240d000fc0, (219, 105, 64))
    ∷ (0x240d000fc4, (219, 105, 68))
    ∷ (0x240d000fc8, (219, 105, 72))
    ∷ (0x240d000fcc, (219, 105, 76))
    ∷ (0x240d000fd0, (219, 105, 80))
    ∷ (0x240d000fd4, (219, 105, 84))
    ∷ (0x240d000fd8, (219, 105, 88))
    ∷ (0x240d000fdc, (219, 105, 92))
    ∷ (0x240d000fe0, (219, 105, 96))
    ∷ (0x240d000fe4, (219, 105, 100))
    ∷ (0x240d000fe8, (219, 105, 104))
    ∷ (0x240d000fec, (219, 105, 108))
    ∷ (0x240d000ff0, (219, 105, 112))
    ∷ (0x240d000ff4, (219, 105, 116))
    ∷ (0x240d000ff8, (219, 105, 120))
    ∷ (0x240d000ffc, (219, 105, 124))
    ∷ (0x240d001000, (219, 105, 128))
    ∷ (0x240d001004, (219, 105, 132))
    ∷ (0x240d001008, (219, 105, 136))
    ∷ (0x240d00100c, (219, 105, 140))
    ∷ (0x240d001010, (219, 105, 144))
    ∷ (0x240d001014, (219, 105, 148))
    ∷ (0x240d001018, (219, 105, 152))
    ∷ (0x240d00101c, (219, 105, 156))
    ∷ []
