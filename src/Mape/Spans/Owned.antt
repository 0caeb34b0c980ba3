-- ===== src/Mape/Spans/Owned.antt =====
-- Which ports the spans of a PSID hold: RFC 7597 section 5.1.
use native.Mathlib.Nat.{
  mod-eq_of_lt, mul_comm, div-div-eq-div-mul, div-eq_of_lt-le, div-mul-le_self, lt-div-mul-add,
  div-lt_iff_lt-mul,
}
use sixup.Common.{
  ℕ, zero, suc, ◌+◌, ◌-◌, ◌*◌, ◌/◌, ◌%◌, ◌^◌, ◌≤◌, ◌<◌, ◌≡◌, sym, ◌∙◌, ◌||◌, ◌&&◌, ◌==◌, ltb, leb,
  arith, ap, two_pow_pos,
}
use package.sixup.Mape.Spans.{span_of, spans_from, port_spans, in_spans}
use package.sixup.Mape.Spans.Shape.{
  span_of_lem, field_bits, low_bits, whole_field, port_spans_fields, port_spans_whole,
}

row_test : (e r m : ℕ) → 0 < m → (leb (r * m) e && leb e (r * m + (m - 1))) ≡ (e / m == r)
row_test e r m h =
    grind (arith, div-mul-le_self e m, lt-div-mul-add {a = e} h, div-eq_of_lt-le {k = r} m {m = e})

field_test : (q a p k : ℕ) → p < k → (q == a * k + p) ≡ (q / k == a && q % k == p)
field_test q a p k h = grind arith

test_rows :
    (q a n p k : ℕ)
    → (leb a (q / k) && ltb (q / k) (a + suc n) && q % k == p) ≡ (
        (q / k == a && q % k == p)
        || (leb (a + 1) (q / k) && ltb (q / k) (a + 1 + n) && q % k == p))
test_rows q a n p k = ground arith

module _ (o k psid : ℕ) (fits : o + k ≤ 16) (small : psid < 2 ^ k) where
  in_span_of :
      (a e : ℕ)
      → a < 2 ^ o
      → let s = span_of o k psid (2 ^ (16 - o - k)) a in
        let q = e / 2 ^ (16 - o - k) in
        (leb s.start e && leb e s.end) ≡ (q / 2 ^ k == a && q % 2 ^ k == psid)
  in_span_of a e h = rw (span_of_lem o k psid fits small a h) (
      row_test e (a * 2 ^ k + psid) (2 ^ (16 - o - k)) (two_pow_pos (16 - o - k))
      ∙ field_test (e / 2 ^ (16 - o - k)) a psid (2 ^ k) small)

  in_spans_from :
      (n a e : ℕ)
      → a + n ≤ 2 ^ o
      → let q = e / 2 ^ (16 - o - k) in
        in_spans (spans_from n a o k psid (2 ^ (16 - o - k))) e
        ≡ (leb a (q / 2 ^ k) && ltb (q / 2 ^ k) (a + n) && q % 2 ^ k == psid)
  unfolding in_spans spans_from
  in_spans_from zero a e h = ground arith
  in_spans_from (suc n) a e h =
      rw (in_span_of a e (omega arith), in_spans_from n (a + 1) e (omega arith))
        (sym (test_rows (e / 2 ^ (16 - o - k)) a n psid (2 ^ k)))

-- The quotients and bounds that the two shapes of port sets share.
row_field : (o k e : ℕ) → o + k ≤ 16 → e / 2 ^ (16 - o - k) / 2 ^ k ≡ e / 2 ^ (16 - o)
row_field o k e h = rw (
  div-div-eq-div-mul e (2 ^ (16 - o - k)) (2 ^ k),
  mul_comm (2 ^ (16 - o - k)) (2 ^ k),
  low_bits o k h,
)

row_bound : (o k e : ℕ) → o + k ≤ 16 → e < 65536 → e / 2 ^ (16 - o - k) / 2 ^ k < 2 ^ o
row_bound o k e h l = rw (row_field o k e h) (
    (div-lt_iff_lt-mul (two_pow_pos (16 - o))).1
      (omega (arith, field_bits o k h, ap (λ (t : ℕ). 2 ^ o * t) (low_bits o k h))))

whole_block :
    (k psid e : ℕ)
    → k ≤ 16
    → psid < 2 ^ k
    → e < 65536
    → in_spans (port_spans 0 k psid) e ≡ (e / 2 ^ (16 - k) % 2 ^ k == psid)
unfolding in_spans
whole_block k psid e h small l =
    let short : e / 2 ^ (16 - k) < 2 ^ k =
      (div-lt_iff_lt-mul (two_pow_pos (16 - k))).1 (omega (arith, whole_field k h)) in
    let row = row_test e psid (2 ^ (16 - k)) (two_pow_pos (16 - k)) in
    rw (port_spans_whole k psid h small, row, mod-eq_of_lt short) (ground arith)

-- For an offset and a PSID length of together at most 16 bits and a PSID that fits: a port below
-- 65536 is in the spans of the PSID exactly when its middle field is the PSID and, where there is
-- an A field, the A field is not 0 (RFC 7597 section 5.1).
pub owned_ports :
    (o k psid e : ℕ)
    → o + k ≤ 16
    → psid < 2 ^ k
    → e < 65536
    → in_spans (port_spans o k psid) e
      ≡ ((o == 0 || ltb 0 (e / 2 ^ (16 - o))) && e / 2 ^ (16 - o - k) % 2 ^ k == psid)
owned_ports zero k psid e h small l = whole_block k psid e (omega arith) small l
owned_ports (suc o) k psid e h small l =
    let all : 1 + (2 ^ suc o - 1) ≤ 2 ^ suc o = omega (arith, two_pow_pos (suc o)) in
    rw
      (
        port_spans_fields (suc o) k psid (omega arith) h,
        in_spans_from (suc o) k psid h small (2 ^ suc o - 1) 1 e all,
        row_field (suc o) k e h,
      )
      (ground (arith, row_bound (suc o) k e h l, row_field (suc o) k e h))
