-- ===== src/Mape/Spans.antt =====
-- The ports of a MAP-E line: `portSpan`, `portSpans` and `portCount` of mape.go, `nthPort` of
-- pcp.go. Spans end where or after they start, so that the count of one is not negative.
pub mod Count
pub mod Owned
pub mod Shape
pub mod Valid
use sixup.Common.{
  ℕ, zero, suc, ◌+◌, ◌-◌, ◌*◌, ◌%◌, ◌^◌, bit_or, Bool, true, false, ◌&&◌, List, [], ◌∷◌, ◌==◌, ltb,
  leb, if◌then◌else◌, any, u8, u16, u32, u64,
}

pub record PortSpan : Type 0 where
  pub start : ℕ
  pub end : ℕ

-- `x << k` on a uint32, 0 from 32 places on.
unfoldable pub shl32 : ℕ → ℕ → ℕ
shl32 x k = elim (ltb k 32) [ true ↦ u32 (x * 2 ^ k) | false ↦ 0 ]

-- `16 - uint(offset)` and `16 - uint(offset) - uint(psidLen)`, on a 64-bit uint.
sub64 : ℕ → ℕ → ℕ
sub64 a b = u64 (a + 2 ^ 64 - b)

-- The span that a value of the A field owns.
pub span_of : ℕ → ℕ → ℕ → ℕ → ℕ → PortSpan
unfolding shl32 sub64
span_of offset psid_len psid block a =
    let low = sub64 (sub64 16 offset) psid_len in
    let first = bit_or (shl32 a (sub64 16 offset)) (shl32 psid low) in
    record { start = u16 first; end = u16 (u32 (first + block + 2 ^ 32 - 1)) }

-- The loop over A, by the rounds left.
pub spans_from : ℕ → ℕ → ℕ → ℕ → ℕ → ℕ → List PortSpan
unfolding span_of
spans_from zero a offset psid_len psid block = []
spans_from (suc n) a offset psid_len psid block =
    span_of offset psid_len psid block a ∷ spans_from n (a + 1) offset psid_len psid block

unfoldable pub port_spans : ℕ → ℕ → ℕ → List PortSpan
unfolding shl32 sub64 spans_from
port_spans offset psid_len psid =
    let block = shl32 1 (sub64 (sub64 16 offset) psid_len) in
    let whole = shl32 psid (sub64 16 psid_len) in
    let fields = spans_from (shl32 1 offset - 1) 1 offset psid_len psid block in
    if ltb 16 (u8 (offset + psid_len))
    then []
    else if offset == 0
    then record { start = u16 whole; end = u16 (u32 (whole + block + 2 ^ 32 - 1)) } ∷ []
    else fields

-- The ports of one span, in Go `int(p.End) - int(p.Start) + 1`.
unfoldable pub width : PortSpan → ℕ
width s = s.end + 1 - s.start

unfoldable pub port_count : List PortSpan → ℕ
unfolding width
port_count [] = 0
port_count (s ∷ spans) = width s + port_count spans

unfoldable pub nth_port : List PortSpan → ℕ → ℕ
unfolding width
nth_port [] i = 0
nth_port (s ∷ spans) i =
    if ltb i (width s) then u16 (s.start + u16 i) else nth_port spans (i - width s)

-- Is the port in one of the spans? The test that `pickPort` makes.
unfoldable pub in_spans : List PortSpan → ℕ → Bool
in_spans spans e = any (λ s. leb s.start e && leb e s.end) spans
