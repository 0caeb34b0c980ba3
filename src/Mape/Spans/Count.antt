-- ===== src/Mape/Spans/Count.antt =====
-- Counting through spans: `portCount` and `nthPort` agree on which ports there are.
use sixup.Common.{
  ℕ, ◌+◌, ◌-◌, ◌≤◌, ◌<◌, ◌≡◌, true, ◌&&◌, List, [], ◌∷◌, leb, All, arith, Bool-cases, inl, inr,
}
use package.sixup.Mape.Spans.{PortSpan, width, port_count, nth_port, in_spans}

-- A span of 16-bit ports that ends where or after it starts.
pub record IsSpan (s : PortSpan) : Type 0 where
  pub ordered : s.start ≤ s.end
  pub bounded : s.end < 65536

-- Over well-formed spans every index below the count names a port of the spans.
nth_port-in_spans :
    (spans : List PortSpan) (i : ℕ)
    → All IsSpan spans
    → i < port_count spans
    → in_spans spans (nth_port spans i) ≡ true
unfolding port_count nth_port in_spans
nth_port-in_spans [] i ok h = absurd (omega arith)
nth_port-in_spans (s ∷ spans) i ok h =
    ground (arith, ok.0.ordered, ok.0.bounded, nth_port-in_spans spans (i - width s) ok.1)

-- Every port of the spans has an index below the count.
pub index_of :
    (spans : List PortSpan) (e : ℕ)
    → All IsSpan spans
    → in_spans spans e ≡ true
    → (i : ℕ) × (i < port_count spans) × (nth_port spans i ≡ e)
unfolding port_count nth_port in_spans
index_of [] e ok h = absurd (ground arith)
index_of (s ∷ spans) e ok h = elim (Bool-cases (leb s.start e && leb e s.end)) [
  | inl here ↦ (e - s.start, ground (arith, ok.0.bounded), ground (arith, ok.0.bounded))
  | inr later ↦
      let (i, below, e') = index_of spans e ok.1 (ground arith) in
      (width s + i, omega arith, ground arith)
]
