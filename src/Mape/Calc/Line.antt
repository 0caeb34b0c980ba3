-- ===== src/Mape/Calc/Line.antt =====
-- What the row of a prefix holds, in terms of the prefix's first 56 bits.
use native.Mathlib.Nat.{div-div-eq-div-mul}
use mathlib.Core.Option.{some-injective}
use sixup.Common.{
  ℕ, ◌+◌, ◌-◌, ◌*◌, ◌/◌, ◌%◌, ◌^◌, ◌<◌, ◌≡◌, ◌⊎◌, inl, inr, refl, Bool, true, ◌&&◌, List, [], ◌∷◌,
  some, ◌==◌, ltb, arith, Bool-cases, Option-cases, bit_and, bit_or, bit_and-mask, bit_and-div,
  bit_or-add, none_ne_some, bit_or-disjoint, be_bytes, from_be, u8,
}
use package.sixup.Mape.Rules.{lookup, rules31, rules38, rules38x20}
use package.sixup.Mape.Calc.{
  group, key31, key38, Row, row38, row31, row38x20, row_of, row_of_38, row_of_31, row_of_20,
  psid_of_row,
}

-- A test that every value of a table passes.
every : {A : Type 0} → (A → Bool) → List (ℕ × A) → Bool
every test [] = true
every test ((k, a) ∷ rows) = test a && every test rows

lookup-every :
    {A : Type 0} (test : A → Bool) (key : ℕ) (rows : List (ℕ × A)) (a : A)
    → every test rows ≡ true
    → lookup key rows ≡ some a
    → test a ≡ true
unfolding every lookup
lookup-every test key [] a all h = absurd (ground arith)
lookup-every test key ((k, x) ∷ rows) a all h = elim (Bool-cases (k == key)) [
  | inl here ↦ ground (arith)
  | inr further ↦ ground (arith, lookup-every test key rows a)
]

fits38 : ℕ × ℕ × ℕ → Bool
fits38 (a, b, c) = ltb a 256 && ltb b 256 && ltb c 256 && c % 4 == 0

fits20 : ℕ × ℕ × ℕ → Bool
fits20 (a, b, c) = ltb a 256 && ltb b 256 && ltb c 256 && c % 16 == 0

fits31 : ℕ × ℕ → Bool
fits31 (a, b) = ltb a 256 && ltb b 256 && b % 2 == 0

every-rules38 : every fits38 rules38 ≡ true
unfolding every fits38
every-rules38 = refl

every-rules38x20 : every fits20 rules38x20 ≡ true
unfolding every fits20
every-rules38x20 = refl

every-rules31 : every fits31 rules31 ≡ true
unfolding every fits31
every-rules31 = refl

-- The groups as fields of the number.
pub group1 : (a : ℕ) → group (be_bytes 16 a) 1 ≡ a / 2 ^ 96 % 2 ^ 16
unfolding group
group1 a = omega (arith, div-div-eq-div-mul a (256 ^ 12) 256)

pub group2 : (a : ℕ) → group (be_bytes 16 a) 2 ≡ a / 2 ^ 80 % 2 ^ 16
unfolding group
group2 a = omega (arith, div-div-eq-div-mul a (256 ^ 10) 256)

pub group3 : (a : ℕ) → group (be_bytes 16 a) 3 ≡ a / 2 ^ 64 % 2 ^ 16
unfolding group
group3 a = omega (arith, div-div-eq-div-mul a (256 ^ 8) 256)

-- The row's part of the line, from the 25 bits of the prefix that end at the 56th.
pub record IsRow (x g3 : ℕ) (row : Row) : Type 0 where
  pub shape :
      ((row.rule6_len ≡ 38) × (row.psid_len ≡ 8) × (row.offset ≡ 4))
      ⊎ (((row.rule6_len ≡ 31) × (row.psid_len ≡ 8) × (row.offset ≡ 4))
          ⊎ ((row.rule6_len ≡ 38) × (row.psid_len ≡ 6) × (row.offset ≡ 6)))
  pub rule_fits : from_be row.rule4 < 2 ^ 32
  pub rule_clear : from_be row.rule4 % 2 ^ (56 - row.rule6_len - row.psid_len) ≡ 0
  pub octet_is :
      from_be row.octet ≡ from_be row.rule4 + x % 2 ^ (56 - row.rule6_len) / 2 ^ row.psid_len
  pub psid_is : psid_of_row row.psid_len g3 ≡ x % 2 ^ (56 - row.rule6_len) % 2 ^ row.psid_len

-- The 25 bits.
abbrev pub low_bits : ℕ → ℕ → ℕ → ℕ
low_bits g1 g2 g3 = g1 % 2 * 2 ^ 24 + g2 * 2 ^ 8 + g3 / 2 ^ 8

module _ (g1 g2 g3 : ℕ) (l2 : g2 < 2 ^ 16) (l3 : g3 < 2 ^ 16) where
  psid8 : bit_and g3 0xff00 / 2 ^ 8 ≡ g3 / 2 ^ 8
  psid8 = omega (arith, bit_and-div 8 g3 0xff00, bit_and-mask 8 (g3 / 2 ^ 8))

  psid6 : bit_and g3 0x3f00 / 2 ^ 8 ≡ g3 / 2 ^ 8 % 2 ^ 6
  psid6 = omega (arith, bit_and-div 8 g3 0x3f00, bit_and-mask 6 (g3 / 2 ^ 8))

  row38-IsRow : (t : ℕ × ℕ × ℕ) → fits38 t ≡ true → IsRow (low_bits g1 g2 g3) g3 (row38 g2 t)
  unfolding row38 fits38 psid_of_row
  row38-IsRow (a, b, c) h =
      let m2 : bit_and g2 0x0300 / 2 ^ 8 ≡ g2 / 2 ^ 8 % 4 =
        omega (arith, bit_and-div 8 g2 0x0300, bit_and-mask 2 (g2 / 2 ^ 8)) in
      let clear : c % 4 ≡ 0 = ground arith in
      let third : bit_or c (u8 (bit_and g2 0x0300 / 2 ^ 8)) ≡ c + g2 / 2 ^ 8 % 4 =
        omega (arith, bit_or-add 2 c (u8 (bit_and g2 0x0300 / 2 ^ 8)) clear (omega arith)) in
      let fourth : u8 (bit_and g2 0xff) ≡ g2 % 2 ^ 8 = omega (arith, bit_and-mask 8 g2) in
      record {
        shape = inl (refl, refl, refl);
        rule_fits = ground arith;
        rule_clear = omega arith;
        octet_is = omega arith;
        psid_is = omega (arith, psid8);
      }

  row31-IsRow : (t : ℕ × ℕ) → fits31 t ≡ true → IsRow (low_bits g1 g2 g3) g3 (row31 g1 g2 t)
  unfolding row31 fits31 psid_of_row
  row31-IsRow (a, b) h =
      let clear : b % 2 ≡ 0 = ground arith in
      let second : bit_or b (u8 (bit_and g1 1)) ≡ b + g1 % 2 = omega (
        arith,
        bit_and-mask 1 g1,
        bit_or-add 1 b (u8 (bit_and g1 1)) clear (omega (arith, bit_and-mask 1 g1)),
      ) in
      let third : u8 (bit_and g2 0xff00 / 2 ^ 8) ≡ g2 / 2 ^ 8 =
        omega (arith, bit_and-div 8 g2 0xff00, bit_and-mask 8 (g2 / 2 ^ 8)) in
      let fourth : u8 (bit_and g2 0xff) ≡ g2 % 2 ^ 8 = omega (arith, bit_and-mask 8 g2) in
      record {
        shape = inr (inl (refl, refl, refl));
        rule_fits = ground arith;
        rule_clear = omega arith;
        octet_is = omega arith;
        psid_is = omega (arith, psid8);
      }

  row38x20-IsRow :
      (t : ℕ × ℕ × ℕ) → fits20 t ≡ true → IsRow (low_bits g1 g2 g3) g3 (row38x20 g2 g3 t)
  unfolding row38x20 fits20 psid_of_row
  row38x20-IsRow (a, b, c) h =
      let clear : c % 16 ≡ 0 = ground arith in
      let m4 : bit_and g2 0x03c0 / 2 ^ 6 ≡ g2 / 2 ^ 6 % 16 =
        omega (arith, bit_and-div 6 g2 0x03c0, bit_and-mask 4 (g2 / 2 ^ 6)) in
      let third : bit_or c (u8 (bit_and g2 0x03c0 / 2 ^ 6)) ≡ c + g2 / 2 ^ 6 % 16 =
        omega (arith, bit_or-add 4 c (u8 (bit_and g2 0x03c0 / 2 ^ 6)) clear (omega arith)) in
      let m2 : bit_and g3 0xc000 / 2 ^ 14 ≡ g3 / 2 ^ 14 =
        omega (arith, bit_and-div 14 g3 0xc000, bit_and-mask 2 (g3 / 2 ^ 14)) in
      let fourth : bit_or (bit_and g2 0x3f * 2 ^ 2) (bit_and g3 0xc000 / 2 ^ 14)
          ≡ g2 % 2 ^ 6 * 4 + g3 / 2 ^ 14 =
        omega (
          arith,
          bit_and-mask 6 g2,
          bit_or-disjoint 2 (bit_and g2 0x3f) (bit_and g3 0xc000 / 2 ^ 14) (omega arith),
        ) in
      record {
        shape = inr (inr (refl, refl, refl));
        rule_fits = ground arith;
        rule_clear = omega arith;
        octet_is = omega arith;
        psid_is = omega (arith, psid6);
      }

  pub row_of-IsRow :
      (h0 : ℕ) (row : Row) → row_of h0 g1 g2 g3 ≡ some row → IsRow (low_bits g1 g2 g3) g3 row
  unfolding row_of row_of_38 row_of_31 row_of_20
  row_of-IsRow h0 row h = elim (Option-cases (lookup {A = ℕ × ℕ × ℕ} (key38 h0 g1 g2) rules38)) [
    | inr (t, e) ↦
        rw (some-injective (row38 g2 t) row (rw e at h)) at
          (row38-IsRow t (lookup-every fits38 (key38 h0 g1 g2) rules38 t every-rules38 e))
    | inl e ↦ elim (Option-cases (lookup {A = ℕ × ℕ} (key31 h0 g1) rules31)) [
      | inr (t, f) ↦
          rw (some-injective (row31 g1 g2 t) row (rw (e, f) at h)) at
            (row31-IsRow t (lookup-every fits31 (key31 h0 g1) rules31 t every-rules31 f))
      | inl f ↦ elim (Option-cases (lookup {A = ℕ × ℕ × ℕ} (key38 h0 g1 g2) rules38x20)) [
        | inr (t, g) ↦ rw (some-injective (row38x20 g2 g3 t) row (rw (e, f, g) at h)) at (
            row38x20-IsRow t (lookup-every fits20 (key38 h0 g1 g2) rules38x20 t every-rules38x20 g))
        | inl g ↦ absurd (none_ne_some {A = Row} (rw (e, f, g) at h))
      ]
    ]
  ]
