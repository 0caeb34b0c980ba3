-- ===== src/Mape/S46.antt =====
-- MAP-E from a DHCPv6 option 94 container: `bitsAt`, `bmrFor`, `mapeFromS46` and `s46` of mape.go.
pub mod Field
pub mod Rule
pub mod RoundTrip
pub mod Address
use sixup.Common.{
  ℕ, zero, suc, ◌+◌, ◌-◌, ◌*◌, ◌/◌, ◌%◌, ◌^◌, bit_and, bit_or, Bool, true, false, not, ◌&&◌, ◌||◌,
  List, [], ◌∷◌, Option, none, some, ◌==◌, ltb, if◌then◌else◌, length, get_or, take, replicate,
  copy, be_bytes, from_be, u16, u32, u64,
}
use sixup.Netip.{
  Addr, no_addr, ip4, ip6, is4, as16, Prefix, prefix_valid, bits, masked, prefix_contains,
}
use package.sixup.Mape.{MapeResult, S46Rule, S46Cont}
use package.sixup.Mape.Spans.{port_spans}

-- The bit of an address, counted from the first byte's highest.
unfoldable pub bit_at : List ℕ → ℕ → ℕ
bit_at b bit = bit_and (get_or b (bit / 8) 0 / 2 ^ (7 - bit % 8)) 1

-- The loop of `bitsAt`, by the rounds left; `bit` is `start + i`.
unfoldable pub bits_from : List ℕ → ℕ → ℕ → ℕ → ℕ
unfolding bit_at
bits_from b bit zero v = v
bits_from b bit (suc n) v = bits_from b (bit + 1) n (bit_or (u64 (v * 2)) (bit_at b bit))

unfoldable pub bits_at : List ℕ → ℕ → ℕ → ℕ
unfolding bits_from
bits_at b start n = bits_from b start n 0

-- The loop of `bmrFor`; `best` is `none` while nothing is found.
unfoldable pub better : Prefix → Option S46Rule → S46Rule → Option S46Rule
better pd none r =
    if not (prefix_valid r.ipv6_prefix) || not (prefix_contains r.ipv6_prefix pd.ip)
    then none
    else some r
better pd (some best) r =
    if not (prefix_valid r.ipv6_prefix) || not (prefix_contains r.ipv6_prefix pd.ip)
    then some best
    else if ltb (bits best.ipv6_prefix) (bits r.ipv6_prefix)
    then some r
    else some best

unfoldable pub bmr_from : Prefix → Option S46Rule → List S46Rule → Option S46Rule
bmr_from pd best [] = best
bmr_from pd best (r ∷ rules) = bmr_from pd (better pd best r) rules

-- `none` for its false.
unfoldable pub bmr_for : List S46Rule → Prefix → Option S46Rule
bmr_for rules pd = bmr_from pd none rules

abbrev pub value_or : Option ℕ → ℕ → ℕ
value_or none d = d
value_or (some x) d = x

-- `psidLen := eaLen - v4Bits`, unless the rule says it; `none` for a negative one.
unfoldable pub psid_len_of : S46Rule → ℕ → Option ℕ
psid_len_of rule v4_bits = elim rule.psid_len [
  | some len ↦ some len
  | none ↦ if ltb rule.ea_len v4_bits then none else some (rule.ea_len - v4_bits)
]

-- The lengths that `mapeFromS46` accepts: of the IPv4 suffix and of the PSID.
unfoldable pub lengths : S46Rule → Prefix → Option (ℕ × ℕ)
lengths rule pd =
    let rule4_len = bits rule.ipv4_prefix in
    let v4_bits = 32 - rule4_len in
    if not (prefix_valid rule.ipv4_prefix) || not (is4 rule.ipv4_prefix.ip)
    then none
    else if ltb (bits pd) (bits rule.ipv6_prefix + rule.ea_len) || ltb 64 rule.ea_len
    then none
    else elim (psid_len_of rule v4_bits) [
      | none ↦ none
      | some psid_len ↦
          if ltb 16 psid_len || ltb 32 rule4_len || ltb rule.ea_len (psid_len + v4_bits)
          then none
          else some (v4_bits, psid_len)
    ]

-- `As4`, as a number.
abbrev pub as4_number : Addr → ℕ
as4_number (ip4 a) = a
as4_number _ = 0

-- `psid`: of the EA bits, or the rule's own where there are none.
unfoldable pub psid_of : S46Rule → ℕ → ℕ → ℕ
psid_of rule psid_len ea =
    let low = u16 (bit_and ea (2 ^ psid_len - 1)) in
    if rule.ea_len == 0 then value_or rule.psid low else low

unfoldable pub ipv4_of : S46Rule → ℕ → ℕ → ℕ
ipv4_of rule psid_len ea =
    bit_or (as4_number (masked rule.ipv4_prefix).ip) (u32 (ea / 2 ^ psid_len))

-- The tunnel's own address.
unfoldable pub ce_of : List ℕ → ℕ → ℕ → List ℕ
ce_of pdb v4 psid =
    copy 14 (be_bytes 2 psid) (copy 10 (be_bytes 4 v4) (copy 0 (take 8 pdb) (replicate 16 0)))

unfoldable pub result_of : Addr → S46Rule → Prefix → ℕ → MapeResult
result_of br rule pd psid_len =
    let pdb = as16 (masked pd).ip in
    let ea = bits_at pdb (bits rule.ipv6_prefix) rule.ea_len in
    let psid = psid_of rule psid_len ea in
    let v4 = ipv4_of rule psid_len ea in
    let offset = value_or rule.psid_offset 6 in
    record {
      br = br;
      ipv4 = ip4 v4;
      rule4 = masked rule.ipv4_prefix;
      rule6 = masked rule.ipv6_prefix;
      ea_len = rule.ea_len;
      psid_len = psid_len;
      offset = offset;
      psid = psid;
      ce = ip6 (from_be (ce_of pdb v4 psid));
      ports = port_spans offset psid_len psid;
    }

-- `none` for its false.
unfoldable pub mape_from_s46 : Option S46Cont → Prefix → Option MapeResult
mape_from_s46 none pd = none
mape_from_s46 (some c) pd = elim c.br [
  | [] ↦ none
  | br ∷ brs ↦ if not (prefix_valid pd) then none else elim (bmr_for c.rules pd) [
    | none ↦ none
    | some rule ↦ elim (lengths rule pd) [
      | none ↦ none
      | some (v4_bits, psid_len) ↦ some (result_of br rule pd psid_len)
    ]
  ]
]

-- `s46`: the result of the rule table as a container.
unfoldable pub s46 : MapeResult → S46Cont
s46 r = record {
  br = r.br ∷ [];
  dmr = none;
  bind = none;
  rules =
      record {
        fmr = false;
        ea_len = r.ea_len;
        ipv4_prefix = r.rule4;
        ipv6_prefix = r.rule6;
        psid_offset = some r.offset;
        psid_len = some r.psid_len;
        psid = some r.psid;
      }
      ∷ [];
}
