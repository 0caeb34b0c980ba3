-- ===== src/Mape/Rules.antt =====
-- The rule tables of mape_rules.go. A Go map here is a list of its rows: no key stands twice.
pub mod Rule38A
pub mod Rule38B
pub mod Rule38C
pub mod Rule38x20A
pub mod Rule38x20B
pub mod Rule38x20C
pub mod Rule38x20D
use sixup.Common.{ℕ, List, [], ◌∷◌, ◌++◌, Option, none, some, ◌==◌, if◌then◌else◌}
use Rule38A.{rules38_a}
use Rule38B.{rules38_b}
use Rule38C.{rules38_c}
use Rule38x20A.{rules38x20_a}
use Rule38x20B.{rules38x20_b}
use Rule38x20C.{rules38x20_c}
use Rule38x20D.{rules38x20_d}

-- The value of a key in a map.
unfoldable pub lookup : {A : Type 0} → ℕ → List (ℕ × A) → Option A
lookup key [] = none
lookup key ((k, a) ∷ rows) = if k == key then some a else lookup key rows

-- `mapeRule31`: JPNE v6plus and BIGLOBE, with two octets.
abbrev pub rules31 : List (ℕ × (ℕ × ℕ))
rules31 =
    (0x24047a80, (133, 200))
    ∷ (0x24047a84, (133, 206))
    ∷ (0x240b0010, (106, 72))
    ∷ (0x240b0012, (14, 8))
    ∷ (0x240b0250, (14, 10))
    ∷ (0x240b0252, (14, 12))
    ∷ []

abbrev pub rules38 : List (ℕ × (ℕ × ℕ × ℕ))
rules38 = rules38_a ++ rules38_b ++ rules38_c

abbrev pub rules38x20 : List (ℕ × (ℕ × ℕ × ℕ))
rules38x20 = rules38x20_a ++ rules38x20_b ++ rules38x20_c ++ rules38x20_d
