-- ===== src/Mape/Rules/Rule38x20A.antt =====
-- Rows of `mapeRule38x20`: OCN.
use sixup.Common.{ℕ, List, [], ◌∷◌}

-- The key, and the three octets.
abbrev pub rules38x20_a : List (ℕ × (ℕ × ℕ × ℕ))
rules38x20_a =
    (0x2400405000, (153, 240, 0))
    ∷ (0x2400405004, (153, 240, 16))
    ∷ (0x2400405008, (153, 240, 32))
    ∷ (0x240040500c, (153, 240, 48))
    ∷ (0x2400405010, (153, 240, 64))
    ∷ (0x2400405014, (153, 240, 80))
    ∷ (0x2400405018, (153, 240, 96))
    ∷ (0x240040501c, (153, 240, 112))
    ∷ (0x2400405020, (153, 240, 128))
    ∷ (0x2400405024, (153, 240, 144))
    ∷ (0x2400405028, (153, 240, 160))
    ∷ (0x240040502c, (153, 240, 176))
    ∷ (0x2400405030, (153, 240, 192))
    ∷ (0x2400405034, (153, 240, 208))
    ∷ (0x2400405038, (153, 240, 224))
    ∷ (0x240040503c, (153, 240, 240))
    ∷ (0x2400405040, (153, 241, 0))
    ∷ (0x2400405044, (153, 241, 16))
    ∷ (0x2400405048, (153, 241, 32))
    ∷ (0x240040504c, (153, 241, 48))
    ∷ (0x2400405050, (153, 241, 64))
    ∷ (0x2400405054, (153, 241, 80))
    ∷ (0x2400405058, (153, 241, 96))
    ∷ (0x240040505c, (153, 241, 112))
    ∷ (0x2400405060, (153, 241, 128))
    ∷ (0x2400405064, (153, 241, 144))
    ∷ (0x2400405068, (153, 241, 160))
    ∷ (0x240040506c, (153, 241, 176))
    ∷ (0x2400405070, (153, 241, 192))
    ∷ (0x2400405074, (153, 241, 208))
    ∷ (0x2400405078, (153, 241, 224))
    ∷ (0x240040507c, (153, 241, 240))
    ∷ (0x2400405080, (153, 242, 0))
    ∷ (0x2400405084, (153, 242, 16))
    ∷ (0x2400405088, (153, 242, 32))
    ∷ (0x240040508c, (153, 242, 48))
    ∷ (0x2400405090, (153, 242, 64))
    ∷ (0x2400405094, (153, 242, 80))
    ∷ (0x2400405098, (153, 242, 96))
    ∷ (0x240040509c, (153, 242, 112))
    ∷ (0x24004050a0, (153, 242, 128))
    ∷ (0x24004050a4, (153, 242, 144))
    ∷ (0x24004050a8, (153, 242, 160))
    ∷ (0x24004050ac, (153, 242, 176))
    ∷ (0x24004050b0, (153, 242, 192))
    ∷ (0x24004050b4, (153, 242, 208))
    ∷ (0x24004050b8, (153, 242, 224))
    ∷ (0x24004050bc, (153, 242, 240))
    ∷ (0x24004050c0, (153, 243, 0))
    ∷ (0x24004050c4, (153, 243, 16))
    ∷ (0x24004050c8, (153, 243, 32))
    ∷ (0x24004050cc, (153, 243, 48))
    ∷ (0x24004050d0, (153, 243, 64))
    ∷ (0x24004050d4, (153, 243, 80))
    ∷ (0x24004050d8, (153, 243, 96))
    ∷ (0x24004050dc, (153, 243, 112))
    ∷ (0x24004050e0, (153, 243, 128))
    ∷ (0x24004050e4, (153, 243, 144))
    ∷ (0x24004050e8, (153, 243, 160))
    ∷ (0x24004050ec, (153, 243, 176))
    ∷ (0x24004050f0, (153, 243, 192))
    ∷ (0x24004050f4, (153, 243, 208))
    ∷ (0x24004050f8, (153, 243, 224))
    ∷ (0x24004050fc, (153, 243, 240))
    ∷ (0x2400405100, (122, 26, 0))
    ∷ (0x2400405104, (122, 26, 16))
    ∷ (0x2400405108, (122, 26, 32))
    ∷ (0x240040510c, (122, 26, 48))
    ∷ (0x2400405110, (122, 26, 64))
    ∷ (0x2400405114, (122, 26, 80))
    ∷ (0x2400405118, (122, 26, 96))
    ∷ (0x240040511c, (122, 26, 112))
    ∷ (0x2400405120, (114, 146, 64))
    ∷ (0x2400405124, (114, 146, 80))
    ∷ (0x2400405128, (114, 146, 96))
    ∷ (0x240040512c, (114, 146, 112))
    ∷ (0x2400405130, (114, 148, 192))
    ∷ (0x2400405134, (114, 148, 208))
    ∷ (0x2400405138, (114, 148, 224))
    ∷ (0x240040513c, (114, 148, 240))
    ∷ (0x2400405140, (114, 150, 192))
    ∷ (0x2400405144, (114, 150, 208))
    ∷ (0x2400405148, (114, 150, 224))
    ∷ (0x240040514c, (114, 150, 240))
    ∷ (0x2400405150, (114, 163, 64))
    ∷ (0x2400405154, (114, 163, 80))
    ∷ (0x2400405158, (114, 163, 96))
    ∷ (0x240040515c, (114, 163, 112))
    ∷ (0x2400405160, (114, 163, 128))
    ∷ (0x2400405164, (114, 163, 144))
    ∷ (0x2400405168, (114, 163, 160))
    ∷ (0x240040516c, (114, 163, 176))
    ∷ (0x2400405170, (114, 167, 64))
    ∷ (0x2400405174, (114, 167, 80))
    ∷ (0x2400405178, (114, 167, 96))
    ∷ (0x240040517c, (114, 167, 112))
    ∷ (0x2400405180, (114, 172, 192))
    ∷ (0x2400405184, (114, 172, 208))
    ∷ (0x2400405188, (114, 172, 224))
    ∷ (0x240040518c, (114, 172, 240))
    ∷ (0x2400405190, (114, 177, 64))
    ∷ (0x2400405194, (114, 177, 80))
    ∷ (0x2400405198, (114, 177, 96))
    ∷ (0x240040519c, (114, 177, 112))
    ∷ (0x24004051a0, (118, 0, 64))
    ∷ (0x24004051a4, (118, 0, 80))
    ∷ (0x24004051a8, (118, 0, 96))
    ∷ []
