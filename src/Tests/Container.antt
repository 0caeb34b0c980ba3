-- ===== src/Tests/Container.antt =====
-- A container of option 94 on the wire: a border relay and one rule with port parameters.
use sixup.Common.{
  ℕ, ◌≡◌, ◌<◌, refl, false, List, [], ◌∷◌, none, some, leb, any, replicate, All, arith,
}
use sixup.Netip.{ip4, ip6, addr_valid, bit_len, prefix_from, prefix_valid, bits, masked, clear_host}
use sixup.Mape.{S46Cont}
use sixup.Tunnel.{
  after, walk_from, walk_options, prefix_from_bits, shr16, psid_field, rule_option, rule_head,
  rule_tail, parse_s46_rule, cont_option, parse_s46_cont,
}
use sixup.Tunnel.Walk.{Tlv, write_tlv, write_tlvs, visit, walk_options-write_tlvs}
use sixup.Tunnel.Rule.{IsRule, parse_s46_cont-IsRule}

abbrev relay : Tlv
relay = record { code = 90; payload = replicate 16 1 }

-- 192.0.2.0/24 and 2001:db8::/32 with 16 EA bits, offset 6, PSID 0x34 of 8 bits.
abbrev rule_bytes : List ℕ
rule_bytes =
    0
    ∷ (16
        ∷ (24
            ∷ (192
                ∷ (0
                    ∷ (2
                        ∷ (0
                            ∷ (32
                                ∷ (0x20
                                    ∷ (0x01
                                        ∷ (0x0d
                                            ∷ (0xb8
                                                ∷ (0
                                                    ∷ (93
                                                        ∷ (0
                                                            ∷ (4
                                                            ∷ (6
                                                            ∷ (8
                                                            ∷ (0x34 ∷ (0 ∷ [])))))))))))))))))))

abbrev tlvs : List Tlv
tlvs = relay ∷ (record { code = 89; payload = rule_bytes } ∷ [])

abbrev nothing : S46Cont
nothing = record { br = []; dmr = none; rules = []; bind = none }

abbrev container : S46Cont
container = record {
  br = ip6 0x01010101010101010101010101010101 ∷ [];
  dmr = none;
  rules =
      record {
        fmr = false;
        ea_len = 16;
        ipv4_prefix = record { ip = ip4 0xc0000200; bits_plus_one = 25 };
        ipv6_prefix = record { ip = ip6 0x20010db8000000000000000000000000; bits_plus_one = 33 };
        psid_offset = some 6;
        psid_len = some 8;
        psid = some 0x34;
      }
      ∷ [];
  bind = none;
}

wire-container : parse_s46_cont (write_tlvs tlvs) ≡ some container
unfolding write_tlv write_tlvs parse_s46_cont cont_option parse_s46_rule rule_tail rule_head
    rule_option psid_field shr16 prefix_from_bits walk_options walk_from after prefix_from
    prefix_valid bits masked clear_host addr_valid bit_len
wire-container = refl

bytes_below : (bs : List ℕ) → any (λ x. leb 256 x) bs ≡ false → All (λ x. x < 256) bs
bytes_below [] h = tt
bytes_below (x ∷ bs) h = (ground arith, bytes_below bs (ground arith))

wire_bytes : All (λ x. x < 256) (write_tlvs tlvs)
unfolding write_tlv write_tlvs
wire_bytes = bytes_below (write_tlvs tlvs) refl

parse_s46_cont-IsRule_example : All IsRule container.rules
parse_s46_cont-IsRule_example =
    parse_s46_cont-IsRule (write_tlvs tlvs) container wire_bytes wire-container

walk_options-write_tlvs_example :
    walk_options cont_option (write_tlvs tlvs) nothing ≡ visit cont_option tlvs nothing
walk_options-write_tlvs_example =
    walk_options-write_tlvs cont_option tlvs nothing
      ((omega arith, omega arith), ((omega arith, omega arith), tt))
