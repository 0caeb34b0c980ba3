-- ===== src/Tests/Mape.antt =====
-- A line whose parameters come in DHCPv6 option 94.
use sixup.Common.{
  ◌-◌, ◌/◌, ◌%◌, ◌^◌, ◌==◌, ◌&&◌, ◌||◌, ltb, ℕ, ◌≡◌, refl, true, false, [], ◌∷◌, none, some,
  be_bytes, arith,
}
use sixup.Netip.{
  as16, ip4, ip6, is4, Prefix, prefix_valid, bits, masked, clear_host, same_network,
  prefix_contains,
}
use sixup.Mape.{S46Rule, S46Cont, MapeResult}
use sixup.Mape.S46.{
  bit_at, bits_from, bits_at, ipv4_of, better, bmr_from, bmr_for, psid_len_of, lengths, result_of,
  mape_from_s46, s46,
}
use sixup.Mape.S46.Field.{bits_at_field}
use sixup.Mape.S46.Rule.{IsMostSpecific, bmr_for-IsMostSpecific}
use sixup.Mape.S46.Address.{mape_from_s46-rule4, ea_bits, mape_from_s46-ports}
use sixup.Mape.S46.RoundTrip.{mape_from_s46-s46}
use sixup.Mape.Spans.{in_spans}

-- `2001:db8:1234::/56`, under `2001:db8::/32` with 192.0.2.0/24 and 16 EA bits.
abbrev delegated : ℕ
delegated = 0x20010db8123400000000000000000000

abbrev pd : Prefix
pd = record { ip = ip6 delegated; bits_plus_one = 57 }

abbrev rule : S46Rule
rule = record {
  fmr = false;
  ea_len = 16;
  ipv4_prefix = record { ip = ip4 0xc0000200; bits_plus_one = 25 };
  ipv6_prefix = record { ip = ip6 0x20010db8000000000000000000000000; bits_plus_one = 33 };
  psid_offset = none;
  psid_len = none;
  psid = none;
}

-- A rule for more, and one for another prefix.
abbrev wide_rule : S46Rule
wide_rule = record rule {
  ipv6_prefix = record { ip = ip6 0x20010000000000000000000000000000; bits_plus_one = 17 };
}

abbrev container : S46Cont
container = record { br = ip6 1 ∷ []; dmr = none; rules = wide_rule ∷ (rule ∷ []); bind = none }

line : MapeResult
line = result_of (ip6 1) rule pd 8

container-line : mape_from_s46 (some container) pd ≡ some line
unfolding line mape_from_s46 bmr_for bmr_from better lengths psid_len_of prefix_contains
    same_network prefix_valid bits is4
container-line = refl

line_ipv4 : line.ipv4 ≡ ip4 0xc0000212
unfolding line result_of ipv4_of as16 bits_at bits_from bit_at masked clear_host prefix_valid bits
line_ipv4 = refl

bits_at_field_example : bits_at (be_bytes 16 delegated) 32 16 ≡ 0x1234
bits_at_field_example = bits_at_field delegated 32 16 (omega arith) (omega arith)

bmr_for-IsMostSpecific_example : IsMostSpecific pd container.rules (bmr_for container.rules pd)
bmr_for-IsMostSpecific_example = bmr_for-IsMostSpecific container.rules pd

mape_from_s46-rule4_example : prefix_contains line.rule4 line.ipv4 ≡ true
mape_from_s46-rule4_example =
    mape_from_s46-rule4 container pd line container-line
      (unfold line result_of masked prefix_valid bits in refl)

mape_from_s46-ports_example :
    (line.psid ≡ ea_bits pd line % 2 ^ line.psid_len)
    × (in_spans line.ports 4928 ≡ (
        (line.offset == 0 || ltb 0 (4928 / 2 ^ (16 - line.offset)))
        && 4928 / 2 ^ (16 - line.offset - line.psid_len) % 2 ^ line.psid_len
          == ea_bits pd line % 2 ^ line.psid_len))
mape_from_s46-ports_example =
    mape_from_s46-ports container pd line 4928 container-line (unfold line result_of in omega arith)
      (unfold line result_of in omega arith) (omega arith)

mape_from_s46-s46_example : mape_from_s46 (some (s46 line)) pd ≡ some line
mape_from_s46-s46_example = mape_from_s46-s46 container pd line container-line
