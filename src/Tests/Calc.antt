-- ===== src/Tests/Calc.antt =====
-- A line of the rule tables: BIGLOBE's `2404:7a82:412:3400::/56`.
use sixup.Common.{◌≡◌, refl, some, true, All, ◌⊎◌}
use sixup.Netip.{
  Addr, ip6, ip4, Prefix, is6, masked, prefix_valid, bits, clear_host, as16, prefix_contains,
}
use sixup.Mape.{MapeResult}
use sixup.Mape.S46.{mape_from_s46, s46}
use sixup.Mape.Spans.{port_count}
use sixup.Mape.Spans.Count.{IsSpan}
use sixup.Mape.Calc.{
  calc_mape, line_if, line_of, relay, row_of, row_of_38, row_of_31, row_of_20, row38, group, key38,
  key31, Row,
}
use sixup.Mape.Calc.Agrees.{calc_mape-s46, calc_mape-share}
use sixup.Mape.Rules.{lookup}

abbrev delegated : Prefix
delegated = record { ip = ip6 0x24047a82041234000000000000000000; bits_plus_one = 57 }

relay_addr : Addr
relay_addr = ip6 0x20010260070000010000000000010275

row : Row
row = row38 0x0412 (125, 196, 212)

line : MapeResult
line = line_of delegated (as16 delegated.ip) relay_addr row

delegated_line : calc_mape delegated ≡ some line
unfolding calc_mape line_if relay row_of row_of_38 row_of_31 row_of_20 row group key38 key31 lookup
    masked prefix_valid bits clear_host as16 line relay_addr
delegated_line = refl

delegated_ipv4 : line.ipv4 ≡ ip4 0x7dc4d412
unfolding line line_of row row38
delegated_ipv4 = refl

calc_mape-s46_example :
    (ce : Addr) × (mape_from_s46 (some (s46 line)) delegated ≡ some (record line { ce = ce }))
calc_mape-s46_example = calc_mape-s46 delegated line (unfold is6 in refl) delegated_line

calc_mape-share_example :
    (prefix_contains line.rule4 line.ipv4 ≡ true)
    × All IsSpan line.ports
    × ((port_count line.ports ≡ 240) ⊎ (port_count line.ports ≡ 1008))
calc_mape-share_example = calc_mape-share delegated line (unfold is6 in refl) delegated_line
