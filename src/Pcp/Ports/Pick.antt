-- ===== src/Pcp/Ports/Pick.antt =====
-- `pickPort` finds a usable port exactly when there is one.
use sixup.Common.{
  ℕ, zero, suc, ◌+◌, ◌-◌, ◌%◌, ◌≤◌, ◌<◌, ◌≡◌, Bool, true, false, List, none, some, ◌==◌, length,
  All, arith, inl, inr, Bool-cases, leb,
}
use sixup.Mape.Spans.{PortSpan, port_count, nth_port, in_spans}
use sixup.Mape.Spans.Count.{IsSpan, index_of}
use package.sixup.Pcp.Ports.{usable, search_from, all_spans, pick_port}
use sixup.Pcp.State.{PcpServer, Host}

module _ (test : ℕ → Bool) (spans : List PortSpan) (n start : ℕ) where
  search_from-usable :
      (rounds i e : ℕ) → search_from test spans n start rounds i ≡ some e → test e ≡ true
  unfolding search_from
  search_from-usable zero i e h = absurd (ground arith)
  search_from-usable (suc rounds) i e h = ground (arith, search_from-usable rounds (i + 1) e)

  search_from-none :
      (rounds i j : ℕ)
      → search_from test spans n start rounds i ≡ none
      → i ≤ j
      → j < i + rounds
      → test (nth_port spans ((start + j) % n)) ≡ false
  unfolding search_from
  search_from-none zero i j h l u = absurd (omega arith)
  search_from-none (suc rounds) i j h l u = elim (Bool-cases (i == j)) [
    | inl e ↦ ground arith
    | inr e ↦ ground (arith, search_from-none rounds (i + 1) j)
  ]

-- Every index is reached from any start.
rotate : (start n i : ℕ) → i < n → (j : ℕ) × (j < n) × ((start + j) % n ≡ i)
rotate start n i h = elim (Bool-cases (leb (start % n) i)) [
  | inl ahead ↦ (i - start % n, ground arith, grind arith)
  | inr behind ↦ (i + n - start % n, ground arith, grind arith)
]

-- A search over all ports of the spans that fails has tried each of them.
search_from-none_inside :
    (test : ℕ → Bool) (spans : List PortSpan) (start e : ℕ)
    → All IsSpan spans
    → search_from test spans (port_count spans) start (port_count spans) 0 ≡ none
    → in_spans spans e ≡ true
    → test e ≡ false
search_from-none_inside test spans start e ok h inside =
    let (i, below, named) = index_of spans e ok inside in
    let (j, small, turned) = rotate start (port_count spans) i below in
    let tried =
      search_from-none test spans (port_count spans) start (port_count spans) 0 j h (omega arith)
        (omega arith) in
    rw (turned, named) at tried

all_spans-IsSpan : (p : PcpServer) → All IsSpan p.ports → All IsSpan (all_spans p)
unfolding all_spans
all_spans-IsSpan p ok = elim (Bool-cases (length p.ports == 0)) [
  | inl none_given ↦ rw (none_given, all_spans) (omega arith)
  | inr given ↦ rw (given, all_spans) ok
]

usable-in_spans :
    (local : ℕ → Bool) (p : PcpServer) (proto e : ℕ)
    → e < 65536
    → usable local p proto e ≡ true
    → in_spans (all_spans p) e ≡ true
unfolding usable all_spans in_spans
usable-in_spans local p proto e l h = ground arith

abbrev tester : Host → PcpServer → ℕ → ℕ → Bool
tester host p proto = usable (host.local_ports proto p.ipv4) p proto

-- A port that pick_port finds is usable.
pub pick_port-usable :
    (host : Host) (p : PcpServer) (proto internal suggested : ℕ) (prefer : Bool) (e : ℕ)
    → pick_port host p proto internal suggested prefer ≡ some e
    → tester host p proto e ≡ true
unfolding pick_port
pick_port-usable host p proto internal suggested prefer e h = ground (
  arith,
  search_from-usable (tester host p proto) (all_spans p) (port_count (all_spans p))
      (host.int_n (port_count (all_spans p))) (port_count (all_spans p)) 0 e,
)

-- Over well-formed spans and without PREFER_FAILURE, pick_port finds no port only if every port
-- below 65536 is unusable.
pub pick_port-none :
    (host : Host) (p : PcpServer) (proto internal suggested e : ℕ)
    → All IsSpan p.ports
    → e < 65536
    → pick_port host p proto internal suggested false ≡ none
    → tester host p proto e ≡ false
unfolding pick_port
pick_port-none host p proto internal suggested e ok l h =
    elim (Bool-cases (tester host p proto e)) [
      | inr unusable ↦ unusable
      | inl found ↦
          search_from-none_inside (tester host p proto) (all_spans p)
            (host.int_n (port_count (all_spans p))) e (all_spans-IsSpan p ok) (ground arith)
            (usable-in_spans (host.local_ports proto p.ipv4) p proto e l found)
    ]
