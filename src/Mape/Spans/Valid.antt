-- ===== src/Mape/Spans/Valid.antt =====
-- The spans that `portSpans` makes are well formed, and how many ports they hold.
use sixup.Common.{
  [], ◌∷◌, List, refl, ap, ◌∙◌, ℕ, zero, suc, ◌+◌, ◌-◌, ◌*◌, ◌^◌, ◌≤◌, ◌<◌, ◌≡◌, All, arith,
  two_pow_pos, if◌then◌else◌, ◌==◌,
}
use package.sixup.Mape.Spans.{PortSpan, span_of, spans_from, port_spans, width, port_count}
use package.sixup.Mape.Spans.Count.{IsSpan}
use package.sixup.Mape.Spans.Shape.{
  low_bits, closed_span, span_of_lem, closed_span-le, whole_top, port_spans_fields,
  port_spans_whole,
}

module _ (o k psid : ℕ) (fits : o + k ≤ 16) (small : psid < 2 ^ k) where
  span_of-IsSpan : (a : ℕ) → a < 2 ^ o → IsSpan (span_of o k psid (2 ^ (16 - o - k)) a)
  span_of-IsSpan a h =
      rw (span_of_lem o k psid fits small a h)
        (omega (arith, closed_span-le o k psid fits small a h, two_pow_pos (16 - o - k)))

  width-span_of :
      (a : ℕ) → a < 2 ^ o → width (span_of o k psid (2 ^ (16 - o - k)) a) ≡ 2 ^ (16 - o - k)
  unfolding width
  width-span_of a h =
      rw (span_of_lem o k psid fits small a h) (omega (arith, two_pow_pos (16 - o - k)))

  spans_from-All :
      (n a : ℕ) → a + n ≤ 2 ^ o → All IsSpan (spans_from n a o k psid (2 ^ (16 - o - k)))
  unfolding spans_from
  spans_from-All zero a h = tt
  spans_from-All (suc n) a h =
      (span_of-IsSpan a (omega arith), spans_from-All n (a + 1) (omega arith))

  port_count-spans_from :
      (n a : ℕ)
      → a + n ≤ 2 ^ o
      → port_count (spans_from n a o k psid (2 ^ (16 - o - k))) ≡ n * 2 ^ (16 - o - k)
  unfolding spans_from port_count
  port_count-spans_from zero a h = omega arith
  port_count-spans_from (suc n) a h =
      omega (arith, width-span_of a (omega arith), port_count-spans_from n (a + 1) (omega arith))

-- Every span lies within the 16-bit ports.
pub port_spans-IsSpan :
    (o k psid : ℕ) → o + k ≤ 16 → psid < 2 ^ k → All IsSpan (port_spans o k psid)
port_spans-IsSpan zero k psid h small =
    rw (port_spans_whole k psid (omega arith) small)
      (omega (arith, whole_top k psid (omega arith) small, two_pow_pos (16 - k)))
port_spans-IsSpan (suc o) k psid h small =
    rw (port_spans_fields (suc o) k psid (omega arith) h)
      (spans_from-All (suc o) k psid h small (2 ^ suc o - 1) 1 (omega (arith, two_pow_pos (suc o))))

-- For fields of together at most 16 bits and a PSID that fits, the spans hold all blocks of the
-- PSID but the one of the system ports, or its whole block where there is no A field.
pub port_count-port_spans :
    (o k psid : ℕ)
    → o + k ≤ 16
    → psid < 2 ^ k
    → port_count (port_spans o k psid)
      ≡ (if o == 0 then 2 ^ (16 - k) else (2 ^ o - 1) * 2 ^ (16 - o - k))
unfolding port_count
port_count-port_spans zero k psid h small =
    rw (port_spans_whole k psid (omega arith) small) (omega (arith, two_pow_pos (16 - k)))
port_count-port_spans (suc o) k psid h small =
    rw (port_spans_fields (suc o) k psid (omega arith) h) (
      ground (
        arith,
        port_count-spans_from (suc o) k psid h small (2 ^ suc o - 1) 1
            (omega (arith, two_pow_pos (suc o))),
      ))

-- The spans of RFC 7597 section 5.1 in unbounded numbers: a block for each value of the A field,
-- from 1 on where there is such a field.
unfoldable pub plain_span : ℕ → ℕ → ℕ → ℕ → PortSpan
plain_span o k psid a = record {
  start = a * 2 ^ (16 - o) + psid * 2 ^ (16 - o - k);
  end = a * 2 ^ (16 - o) + psid * 2 ^ (16 - o - k) + 2 ^ (16 - o - k) - 1;
}

unfoldable pub plain_from : ℕ → ℕ → ℕ → ℕ → ℕ → List PortSpan
plain_from zero a o k psid = []
plain_from (suc n) a o k psid = plain_span o k psid a ∷ plain_from n (a + 1) o k psid

unfoldable pub plain_spans : ℕ → ℕ → ℕ → List PortSpan
plain_spans zero k psid = plain_span 0 k psid 0 ∷ []
plain_spans (suc o) k psid = plain_from (2 ^ suc o - 1) 1 (suc o) k psid

module _ (o k psid : ℕ) (fits : o + k ≤ 16) (small : psid < 2 ^ k) where
  closed-plain : (a : ℕ) → closed_span o k psid fits small a ≡ plain_span o k psid a
  unfolding plain_span
  closed-plain a =
      let row : (a * 2 ^ k + psid) * 2 ^ (16 - o - k) ≡ a * 2 ^ (16 - o) + psid * 2 ^ (16 - o - k) =
        omega (arith, ap (λ (t : ℕ). a * t) (low_bits o k fits)) in
      let last : a * 2 ^ (16 - o) + psid * 2 ^ (16 - o - k) + (2 ^ (16 - o - k) - 1)
          ≡ a * 2 ^ (16 - o) + psid * 2 ^ (16 - o - k) + 2 ^ (16 - o - k) - 1 =
        omega (arith, two_pow_pos (16 - o - k)) in
      rw (row, last) refl

  spans_from-plain :
      (n a : ℕ)
      → a + n ≤ 2 ^ o
      → spans_from n a o k psid (2 ^ (16 - o - k)) ≡ plain_from n a o k psid
  unfolding spans_from plain_from
  spans_from-plain zero a h = refl
  spans_from-plain (suc n) a h =
      rw
        (
          span_of_lem o k psid fits small a (omega arith),
          closed-plain a,
          spans_from-plain n (a + 1) (omega arith),
        )
        refl

-- For fields of together at most 16 bits and a PSID that fits its length, portSpans, which
-- computes in 32-bit and 16-bit words, makes exactly the spans of RFC 7597 computed in unbounded
-- numbers, a block for each A value from 1 on, or one block without an A field, and each of them
-- lies within the 16-bit ports.
pub port_spans-plain :
    (o k psid : ℕ)
    → o + k ≤ 16
    → psid < 2 ^ k
    → (port_spans o k psid ≡ plain_spans o k psid) × All IsSpan (plain_spans o k psid)
unfolding plain_spans plain_span
port_spans-plain zero k psid h small =
    let last : psid * 2 ^ (16 - k) + (2 ^ (16 - k) - 1)
        ≡ 0 + psid * 2 ^ (16 - k) + 2 ^ (16 - k) - 1 =
      omega (arith, two_pow_pos (16 - k)) in
    let first : psid * 2 ^ (16 - k) ≡ 0 + psid * 2 ^ (16 - k) = omega arith in
    let same : port_spans zero k psid ≡ plain_spans zero k psid =
      port_spans_whole k psid (omega arith) small
      ∙ ap (λ (x : ℕ). record { start = x; end = psid * 2 ^ (16 - k) + (2 ^ (16 - k) - 1) } ∷ [])
          first
      ∙ ap (λ (y : ℕ). record { start = 0 + psid * 2 ^ (16 - k); end = y } ∷ []) last in
    (same, rw same at (port_spans-IsSpan zero k psid h small))
port_spans-plain (suc o) k psid h small =
    let same =
      port_spans_fields (suc o) k psid (omega arith) h
      ∙ spans_from-plain (suc o) k psid h small (2 ^ suc o - 1) 1
          (omega (arith, two_pow_pos (suc o))) in
    (same, rw same at (port_spans-IsSpan (suc o) k psid h small))
