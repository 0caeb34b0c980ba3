-- ===== src/Mape/Spans/Shape.antt =====
-- The spans in closed form, for fields that fit in 16 bits.
use native.Mathlib.Nat.{pow-le-pow_right, mul-le-mul_right}
use sixup.Common.{
  ℕ, ◌+◌, ◌-◌, ◌*◌, ◌^◌, ◌≤◌, ◌<◌, ◌≡◌, ◌∙◌, bit_or, false, [], ◌∷◌, ◌==◌, ltb, arith, u8,
  bit_or-disjoint, ap, pow_add, two_pow_pos,
}
use package.sixup.Mape.Spans.{PortSpan, shl32, sub64, span_of, spans_from, port_spans}

pub shl32_small : (x k : ℕ) → k ≤ 16 → x * 2 ^ k < 2 ^ 32 → shl32 x k ≡ x * 2 ^ k
unfolding shl32
shl32_small x k h b = ground arith

sub64_small : (a b : ℕ) → b ≤ a → a < 2 ^ 64 → sub64 a b ≡ a - b
unfolding sub64
sub64_small a b h l = omega arith

sub64_places : (o k : ℕ) → o + k ≤ 16 → sub64 (sub64 16 o) k ≡ 16 - o - k
sub64_places o k h =
    rw (sub64_small 16 o (omega arith) (omega arith))
      (sub64_small (16 - o) k (omega arith) (omega arith))

-- The three fields of a port fill 16 bits.
pub field_bits : (o k : ℕ) → o + k ≤ 16 → 2 ^ o * (2 ^ k * 2 ^ (16 - o - k)) ≡ 65536
field_bits o k h =
    let e : o + (k + (16 - o - k)) ≡ 16 = omega arith in
    rw (← pow_add k (16 - o - k), ← pow_add o (k + (16 - o - k)), e)

pub low_bits : (o k : ℕ) → o + k ≤ 16 → 2 ^ k * 2 ^ (16 - o - k) ≡ 2 ^ (16 - o)
low_bits o k h = let e : k + (16 - o - k) ≡ 16 - o = omega arith in rw (← pow_add k (16 - o - k), e)

span_top : (a p b k m : ℕ) → b * (k * m) ≡ 65536 → p < k → a < b → (a * k + p) * m + m ≤ 65536
span_top a p b k m e hp ha =
    let rows : a * k + p + 1 ≤ b * k = omega (arith, mul-le-mul_right k ha) in
    omega (arith, e, mul-le-mul_right m rows)

module _ (o k psid : ℕ) (fits : o + k ≤ 16) (small : psid < 2 ^ k) where
  abbrev pub closed_span : ℕ → PortSpan
  closed_span a = record {
    start = (a * 2 ^ k + psid) * 2 ^ (16 - o - k);
    end = (a * 2 ^ k + psid) * 2 ^ (16 - o - k) + (2 ^ (16 - o - k) - 1);
  }

  pub closed_span-le :
      (a : ℕ) → a < 2 ^ o → (a * 2 ^ k + psid) * 2 ^ (16 - o - k) + 2 ^ (16 - o - k) ≤ 65536
  closed_span-le a h =
      span_top a psid (2 ^ o) (2 ^ k) (2 ^ (16 - o - k)) (field_bits o k fits) small h

  psid-lt : psid * 2 ^ (16 - o - k) < 2 ^ (16 - o)
  psid-lt = omega (
    arith,
    low_bits o k fits,
    two_pow_pos (16 - o - k),
    mul-le-mul_right (2 ^ (16 - o - k)) small,
  )

  or_fields :
      (a : ℕ)
      → bit_or (a * 2 ^ (16 - o)) (psid * 2 ^ (16 - o - k)) ≡ (a * 2 ^ k + psid) * 2 ^ (16 - o - k)
  or_fields a = omega (
    arith,
    bit_or-disjoint (16 - o) a (psid * 2 ^ (16 - o - k)) psid-lt,
    ap (λ (t : ℕ). a * t) (low_bits o k fits),
  )

  pub span_of_lem : (a : ℕ) → a < 2 ^ o → span_of o k psid (2 ^ (16 - o - k)) a ≡ closed_span a
  unfolding span_of
  span_of_lem a h =
      let top = closed_span-le a h in
      let split = or_fields a in
      let row : a * 2 ^ (16 - o) ≤ 65536 =
        omega (arith, ap (λ (t : ℕ). a * t) (low_bits o k fits)) in
      rw
        (
          sub64_places o k fits,
          sub64_small 16 o (omega arith) (omega arith),
          shl32_small a (16 - o) (omega arith) (omega arith),
          shl32_small psid (16 - o - k) (omega arith) (omega (arith, psid-lt)),
          split,
        )
        (ground (arith, two_pow_pos (16 - o - k)))

two_pow-le : (k : ℕ) → k ≤ 16 → 2 ^ k ≤ 65536
two_pow-le k h = pow-le-pow_right {n = 2} (omega arith) h

pub shl32_one : (k : ℕ) → k ≤ 16 → shl32 1 k ≡ 2 ^ k
shl32_one k h = shl32_small 1 k h (omega (arith, two_pow-le k h)) ∙ omega arith

fits_test : (o k : ℕ) → o + k ≤ 16 → ltb 16 (u8 (o + k)) ≡ false
fits_test o k h = ground arith

pub whole_field : (k : ℕ) → k ≤ 16 → 2 ^ k * 2 ^ (16 - k) ≡ 65536
whole_field k h = low_bits 0 k (omega arith)

pub whole_top : (k psid : ℕ) → k ≤ 16 → psid < 2 ^ k → psid * 2 ^ (16 - k) + 2 ^ (16 - k) ≤ 65536
whole_top k psid h small = omega (arith, whole_field k h, mul-le-mul_right (2 ^ (16 - k)) small)

-- The two shapes of the result.
pub port_spans_fields :
    (o k psid : ℕ)
    → 0 < o
    → o + k ≤ 16
    → port_spans o k psid ≡ spans_from (2 ^ o - 1) 1 o k psid (2 ^ (16 - o - k))
unfolding port_spans
port_spans_fields o k psid p h =
    let nonzero : (o == 0) ≡ false = ground arith in
    rw (
      fits_test o k h,
      nonzero,
      shl32_one o (omega arith),
      sub64_places o k h,
      shl32_one (16 - o - k) (omega arith),
    )

pub port_spans_whole :
    (k psid : ℕ)
    → k ≤ 16
    → psid < 2 ^ k
    → port_spans 0 k psid
      ≡ record { start = psid * 2 ^ (16 - k); end = psid * 2 ^ (16 - k) + (2 ^ (16 - k) - 1) } ∷ []
unfolding port_spans
port_spans_whole k psid h small =
    let top = whole_top k psid h small in
    rw
      (
        fits_test 0 k (omega arith),
        sub64_places 0 k (omega arith),
        shl32_one (16 - k) (omega arith),
        shl32_small psid (16 - k) (omega arith) (omega arith),
      )
      (ground (arith, two_pow_pos (16 - k)))
