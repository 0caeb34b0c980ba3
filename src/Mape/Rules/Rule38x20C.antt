-- ===== src/Mape/Rules/Rule38x20C.antt =====
-- Rows of `mapeRule38x20`: OCN.
use sixup.Common.{ℕ, List, [], ◌∷◌}

-- The key, and the three octets.
abbrev pub rules38x20_c : List (ℕ × (ℕ × ℕ × ℕ))
rules38x20_c =
    (0x24004053b8, (153, 173, 224))
    ∷ (0x24004053bc, (153, 173, 240))
    ∷ (0x24004053c0, (153, 238, 0))
    ∷ (0x24004053c4, (153, 238, 16))
    ∷ (0x24004053c8, (153, 238, 32))
    ∷ (0x24004053cc, (153, 238, 48))
    ∷ (0x24004053d0, (153, 238, 64))
    ∷ (0x24004053d4, (153, 238, 80))
    ∷ (0x24004053d8, (153, 238, 96))
    ∷ (0x24004053dc, (153, 238, 112))
    ∷ (0x24004053e0, (153, 238, 128))
    ∷ (0x24004053e4, (153, 238, 144))
    ∷ (0x24004053e8, (153, 238, 160))
    ∷ (0x24004053ec, (153, 238, 176))
    ∷ (0x24004053f0, (153, 238, 192))
    ∷ (0x24004053f4, (153, 238, 208))
    ∷ (0x24004053f8, (153, 238, 224))
    ∷ (0x24004053fc, (153, 238, 240))
    ∷ (0x2400415000, (153, 239, 0))
    ∷ (0x2400415004, (153, 239, 16))
    ∷ (0x2400415008, (153, 239, 32))
    ∷ (0x240041500c, (153, 239, 48))
    ∷ (0x2400415010, (153, 239, 64))
    ∷ (0x2400415014, (153, 239, 80))
    ∷ (0x2400415018, (153, 239, 96))
    ∷ (0x240041501c, (153, 239, 112))
    ∷ (0x2400415020, (153, 239, 128))
    ∷ (0x2400415024, (153, 239, 144))
    ∷ (0x2400415028, (153, 239, 160))
    ∷ (0x240041502c, (153, 239, 176))
    ∷ (0x2400415030, (153, 239, 192))
    ∷ (0x2400415034, (153, 239, 208))
    ∷ (0x2400415038, (153, 239, 224))
    ∷ (0x240041503c, (153, 239, 240))
    ∷ (0x2400415040, (153, 252, 0))
    ∷ (0x2400415044, (153, 252, 16))
    ∷ (0x2400415048, (153, 252, 32))
    ∷ (0x240041504c, (153, 252, 48))
    ∷ (0x2400415050, (153, 252, 64))
    ∷ (0x2400415054, (153, 252, 80))
    ∷ (0x2400415058, (153, 252, 96))
    ∷ (0x240041505c, (153, 252, 112))
    ∷ (0x2400415060, (153, 252, 128))
    ∷ (0x2400415064, (153, 252, 144))
    ∷ (0x2400415068, (153, 252, 160))
    ∷ (0x240041506c, (153, 252, 176))
    ∷ (0x2400415070, (153, 252, 192))
    ∷ (0x2400415074, (153, 252, 208))
    ∷ (0x2400415078, (153, 252, 224))
    ∷ (0x240041507c, (153, 252, 240))
    ∷ (0x2400415080, (123, 222, 96))
    ∷ (0x2400415084, (123, 222, 112))
    ∷ (0x2400415088, (123, 225, 96))
    ∷ (0x240041508c, (123, 225, 112))
    ∷ (0x2400415090, (123, 225, 160))
    ∷ (0x2400415094, (123, 225, 176))
    ∷ (0x2400415098, (124, 84, 96))
    ∷ (0x240041509c, (124, 84, 112))
    ∷ (0x2400415100, (180, 60, 0))
    ∷ (0x2400415104, (180, 60, 16))
    ∷ (0x2400415108, (180, 60, 32))
    ∷ (0x240041510c, (180, 60, 48))
    ∷ (0x2400415110, (180, 60, 64))
    ∷ (0x2400415114, (180, 60, 80))
    ∷ (0x2400415118, (180, 60, 96))
    ∷ (0x240041511c, (180, 60, 112))
    ∷ (0x2400415120, (180, 60, 128))
    ∷ (0x2400415124, (180, 60, 144))
    ∷ (0x2400415128, (180, 60, 160))
    ∷ (0x240041512c, (180, 60, 176))
    ∷ (0x2400415130, (180, 60, 192))
    ∷ (0x2400415134, (180, 60, 208))
    ∷ (0x2400415138, (180, 60, 224))
    ∷ (0x240041513c, (180, 60, 240))
    ∷ (0x2400415140, (153, 139, 0))
    ∷ (0x2400415144, (153, 139, 16))
    ∷ (0x2400415148, (153, 139, 32))
    ∷ (0x240041514c, (153, 139, 48))
    ∷ (0x2400415150, (153, 139, 64))
    ∷ (0x2400415154, (153, 139, 80))
    ∷ (0x2400415158, (153, 139, 96))
    ∷ (0x240041515c, (153, 139, 112))
    ∷ (0x2400415160, (219, 161, 128))
    ∷ (0x2400415164, (219, 161, 144))
    ∷ (0x2400415168, (219, 161, 160))
    ∷ (0x240041516c, (219, 161, 176))
    ∷ (0x2400415170, (219, 161, 192))
    ∷ (0x2400415174, (219, 161, 208))
    ∷ (0x2400415178, (219, 161, 224))
    ∷ (0x240041517c, (219, 161, 240))
    ∷ (0x2400415180, (153, 187, 0))
    ∷ (0x2400415184, (153, 187, 16))
    ∷ (0x2400415188, (153, 187, 32))
    ∷ (0x240041518c, (153, 187, 48))
    ∷ (0x2400415190, (153, 191, 0))
    ∷ (0x2400415194, (153, 191, 16))
    ∷ (0x2400415198, (153, 191, 32))
    ∷ (0x240041519c, (153, 191, 48))
    ∷ (0x24004151a0, (180, 12, 64))
    ∷ (0x24004151a4, (180, 12, 80))
    ∷ (0x24004151a8, (180, 12, 96))
    ∷ (0x24004151ac, (180, 12, 112))
    ∷ (0x24004151b0, (180, 13, 0))
    ∷ (0x24004151b4, (180, 13, 16))
    ∷ (0x24004151b8, (180, 13, 32))
    ∷ (0x24004151bc, (180, 13, 48))
    ∷ (0x24004151c0, (124, 84, 128))
    ∷ []
