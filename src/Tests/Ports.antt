-- ===== src/Tests/Ports.antt =====
-- The port sets of a MAP-E line.
use sixup.Common.{◌≡◌, refl, true, arith, All}
use sixup.Mape.Spans.{port_spans, in_spans, port_count, nth_port}
use sixup.Mape.Spans.Count.{IsSpan}
use sixup.Mape.Spans.Owned.{owned_ports}
use sixup.Mape.Spans.Valid.{plain_spans, port_spans-plain}

-- Offset 4, PSID 0x56 of 8 bits: 15 blocks of 16 ports.
jpne_count : port_count (port_spans 4 8 0x56) ≡ 240
unfolding port_count port_spans
jpne_count = refl

jpne_first : nth_port (port_spans 4 8 0x56) 0 ≡ 5472
unfolding nth_port port_spans
jpne_first = refl

owned_ports_example : in_spans (port_spans 4 8 0x56) 5475 ≡ true
owned_ports_example = owned_ports 4 8 0x56 5475 (omega arith) (omega arith) (omega arith)

port_spans-plain_example :
    (port_spans 4 8 0x56 ≡ plain_spans 4 8 0x56) × All IsSpan (plain_spans 4 8 0x56)
port_spans-plain_example = port_spans-plain 4 8 0x56 (omega arith) (omega arith)
