-- ===== src/Mape/Calc/Container.antt =====
-- A row of the tables, and the container that `s46` makes of its line.
use native.Mathlib.Nat.{div-add-mod, mul-div_left, pow-le-pow_right, mod-lt, div-lt_iff_lt-mul}
use sixup.Common.{
  ℕ, ◌+◌, ◌-◌, ◌*◌, ◌/◌, ◌%◌, ◌^◌, ◌<◌, ◌≤◌, ◌≡◌, ◌⊎◌, inl, inr, refl, ap, ◌∙◌, true, false, some,
  arith, be_bytes, from_be, bit_or-add, bit_and-mask, two_pow_pos, pow_add, u32, u8, ltb,
}
use sixup.Netip.{
  Addr, ip4, ip6, is4, as16, Prefix, prefix_valid, bits, masked, clear_host, prefix_contains,
  same_network,
}
use sixup.Netip.Laws.{masked_clear, masked_six}
use package.sixup.Mape.{MapeResult, S46Rule}
use package.sixup.Mape.Spans.{port_spans}
use package.sixup.Mape.S46.{
  bits_at, lengths, psid_len_of, psid_of, ipv4_of, result_of, mape_from_s46, s46,
}
use package.sixup.Mape.S46.Field.{bits_at_field}
use package.sixup.Mape.S46.Rule.{covers, bmr_for-only}
use package.sixup.Mape.Calc.{line_of, group, Row, psid_of_row}
use package.sixup.Mape.Calc.Line.{IsRow}

-- A delegation of 56 bits or more, and a line of `v4` suffix bits and `psid_len` PSID bits.
module _ (a n len6 v4 psid_len offset r : ℕ) (br : Addr) (long : 56 < n)
    (split : len6 + v4 + psid_len ≡ 56) (suffix : v4 ≤ 32) (some_bits : 0 < psid_len)
    (small : psid_len ≤ 16) (clear : r % 2 ^ v4 ≡ 0) where
  pd : Prefix
  pd = record { ip = ip6 a; bits_plus_one = n }

  number : ℕ
  number = a / 2 ^ (128 - (n - 1)) * 2 ^ (128 - (n - 1))

  -- The EA bits.
  ea : ℕ
  ea = number / 2 ^ 72 % 2 ^ (56 - len6)

  rule : S46Rule
  rule = record {
    fmr = false;
    ea_len = 56 - len6;
    ipv4_prefix = record { ip = ip4 r; bits_plus_one = 32 - v4 + 1 };
    ipv6_prefix = record {
      ip = ip6 (a / 2 ^ (128 - len6) * 2 ^ (128 - len6));
      bits_plus_one = len6 + 1;
    };
    psid_offset = some offset;
    psid_len = some psid_len;
    psid = some (ea % 2 ^ psid_len);
  }

  rule-covers : covers pd rule ≡ true
  unfolding covers rule pd prefix_valid prefix_contains bits same_network
  rule-covers =
      let back : len6 + 1 - 1 ≡ len6 = omega arith in
      rw (back, mul-div_left (a / 2 ^ (128 - len6)) (two_pow_pos (128 - len6))) (ground arith)

  rule-lengths : lengths rule pd ≡ some (v4, psid_len)
  unfolding lengths rule pd prefix_valid bits is4 psid_len_of
  rule-lengths = ground arith

  rule-ea : bits_at (as16 (masked pd).ip) (bits rule.ipv6_prefix) rule.ea_len ≡ ea
  unfolding ea number masked pd rule prefix_valid bits as16 clear_host
  rule-ea =
      let whole : ltb 0 n ≡ true = ground arith in
      let at : 128 - len6 - (56 - len6) ≡ 72 = omega arith in
      let back : len6 + 1 - 1 ≡ len6 = omega arith in
      rw (whole, back)
        (bits_at_field (a / 2 ^ (128 - (n - 1)) * 2 ^ (128 - (n - 1))) len6 (56 - len6)
            (omega arith) (omega arith)
          ∙ ap (λ (t : ℕ). a / 2 ^ (128 - (n - 1)) * 2 ^ (128 - (n - 1)) / 2 ^ t % 2 ^ (56 - len6))
              at)

  rule-psid : psid_of rule psid_len ea ≡ ea % 2 ^ psid_len
  unfolding psid_of rule
  rule-psid =
      let top : 2 ^ psid_len ≤ 2 ^ 16 =
        pow-le-pow_right (omega arith) {i = psid_len} {j = 16} small in
      ground (arith, bit_and-mask psid_len ea, mod-lt ea (two_pow_pos psid_len))

  rule4-clear : r / 2 ^ v4 * 2 ^ v4 ≡ r
  rule4-clear = omega (arith, div-add-mod r (2 ^ v4))

  ea-suffix : ea / 2 ^ psid_len < 2 ^ v4
  unfolding ea
  ea-suffix =
      let at : 56 - len6 ≡ v4 + psid_len = omega arith in
      let all : 2 ^ (56 - len6) ≡ 2 ^ v4 * 2 ^ psid_len = rw (at, pow_add v4 psid_len) refl in
      (div-lt_iff_lt-mul (two_pow_pos psid_len)).1
        (omega (arith, all, mod-lt (number / 2 ^ 72) (two_pow_pos (56 - len6))))

  rule4-masked : masked rule.ipv4_prefix ≡ rule.ipv4_prefix
  unfolding rule masked prefix_valid bits clear_host
  rule4-masked =
      let length : 32 - (32 - v4 + 1 - 1) ≡ v4 = omega arith in
      let whole : ltb 0 (32 - v4 + 1) ≡ true = ground arith in rw (whole, length, rule4-clear) refl

  rule-ipv4 : ipv4_of rule psid_len ea ≡ r + ea / 2 ^ psid_len
  unfolding ipv4_of rule
  rule-ipv4 =
      let top : 2 ^ v4 ≤ 2 ^ 32 = pow-le-pow_right (omega arith) {i = v4} {j = 32} suffix in
      let word : u32 (ea / 2 ^ psid_len) ≡ ea / 2 ^ psid_len = ground (arith, ea-suffix) in
      rw (rule4-masked, word) (bit_or-add v4 r (ea / 2 ^ psid_len) clear ea-suffix)

  rule6-masked : masked rule.ipv6_prefix ≡ rule.ipv6_prefix
  unfolding rule masked prefix_valid bits clear_host
  rule6-masked =
      let back : len6 + 1 - 1 ≡ len6 = omega arith in
      let whole : ltb 0 (len6 + 1) ≡ true = ground arith in
      rw (back, whole, mul-div_left (a / 2 ^ (128 - len6)) (two_pow_pos (128 - len6))) refl

  -- The line that the container gives, with its own address for the tunnel.
  again : MapeResult
  again = result_of br rule pd psid_len

  again-is : again ≡ record {
    br = br;
    ipv4 = ip4 (r + ea / 2 ^ psid_len);
    rule4 = rule.ipv4_prefix;
    rule6 = rule.ipv6_prefix;
    ea_len = 56 - len6;
    psid_len = psid_len;
    offset = offset;
    psid = ea % 2 ^ psid_len;
    ce = again.ce;
    ports = port_spans offset psid_len (ea % 2 ^ psid_len);
  }
  unfolding again result_of rule
  again-is = rw (rule-ea, rule-psid, rule-ipv4, rule4-masked, rule6-masked) refl

  -- The line with another own address.
  line : Addr → MapeResult
  line ce = record {
    br = br;
    ipv4 = ip4 (r + ea / 2 ^ psid_len);
    rule4 = rule.ipv4_prefix;
    rule6 = rule.ipv6_prefix;
    ea_len = 56 - len6;
    psid_len = psid_len;
    offset = offset;
    psid = ea % 2 ^ psid_len;
    ce = ce;
    ports = port_spans offset psid_len (ea % 2 ^ psid_len);
  }

  line-s46 : (ce : Addr) → mape_from_s46 (some (s46 (line ce))) pd ≡ some (line again.ce)
  unfolding mape_from_s46 s46 line rule result_of again
  line-s46 ce =
      let whole : prefix_valid pd ≡ true = unfold pd prefix_valid in ground arith in
      rw (whole, bmr_for-only rule pd rule-covers, rule-lengths) (ap some again-is)

  module _ (row : Row) (at_len6 : row.rule6_len ≡ len6) (at_psid : row.psid_len ≡ psid_len)
      (at_offset : row.offset ≡ offset) (at_rule : from_be row.rule4 ≡ r)
      (octet : from_be row.octet ≡ r + ea / 2 ^ psid_len)
      (psid : psid_of_row psid_len (group (be_bytes 16 number) 3) ≡ ea % 2 ^ psid_len) where
    made : MapeResult
    made = line_of pd (be_bytes 16 number) br row

    made-line : made ≡ line made.ce
    unfolding made line_of line rule pd
    made-line =
        let rest : 56 - len6 - psid_len ≡ v4 = omega arith in
        let byte : u8 (56 - len6) ≡ 56 - len6 = ground arith in
        let back : 32 - (32 - v4) ≡ v4 = omega arith in
        rw
          (
            at_len6,
            at_psid,
            at_offset,
            at_rule,
            octet,
            psid,
            byte,
            rest,
            masked_six a len6 (omega arith),
            masked_clear r (32 - v4) (omega arith) (rw back clear),
          )
          refl

    made-s46 : mape_from_s46 (some (s46 made)) pd ≡ some (record made { ce = again.ce })
    unfolding line
    made-s46 = rw made-line (line-s46 made.ce)

    made-exact : made.psid_len + (32 - bits made.rule4) ≡ made.ea_len
    unfolding line rule bits
    made-exact = rw made-line (omega arith)

-- The row's numbers are in the bounds of the section above.
module _ (x g3 : ℕ) (row : Row) (good : IsRow (x % 2 ^ 25) g3 row) where
  row-split : row.rule6_len + (56 - row.rule6_len - row.psid_len) + row.psid_len ≡ 56
  row-split = ground (arith, good.shape)

  row-field : x % 2 ^ 25 % 2 ^ (56 - row.rule6_len) ≡ x % 2 ^ (56 - row.rule6_len)
  row-field = elim good.shape [
    | inl (l, p, o) ↦ rw l (omega arith)
    | inr (inl (l, p, o)) ↦ rw l (omega arith)
    | inr (inr (l, p, o)) ↦ rw l (omega arith)
  ]

-- The answer of the container that `s46` makes of a line is the line, but for its own address.
pub record Agrees (pd : Prefix) (r : MapeResult) : Type 0 where
  pub ce : Addr
  pub again : mape_from_s46 (some (s46 r)) pd ≡ some (record r { ce = ce })
  pub exact : r.psid_len + (32 - bits r.rule4) ≡ r.ea_len
  pub ports : r.ports ≡ port_spans r.offset r.psid_len r.psid
  pub share : (r.offset ≡ 4) × (r.psid_len ≡ 8) ⊎ ((r.offset ≡ 6) × (r.psid_len ≡ 6))
  pub psid_fits : r.psid < 2 ^ r.psid_len

pub row-Agrees :
    (a n : ℕ) (br : Addr) (row : Row)
    → 56 < n
    → IsRow
        (a / 2 ^ (128 - (n - 1)) * 2 ^ (128 - (n - 1)) / 2 ^ 72 % 2 ^ 25)
        (group (be_bytes 16 (a / 2 ^ (128 - (n - 1)) * 2 ^ (128 - (n - 1)))) 3)
        row
    → Agrees
        (record { ip = ip6 a; bits_plus_one = n })
        (line_of
          (record { ip = ip6 a; bits_plus_one = n })
          (be_bytes 16 (a / 2 ^ (128 - (n - 1)) * 2 ^ (128 - (n - 1))))
          br
          row)
unfolding pd number ea made line_of
row-Agrees a n br row long good =
    let top = a / 2 ^ (128 - (n - 1)) * 2 ^ (128 - (n - 1)) in
    let g3 = group (be_bytes 16 top) 3 in
    let field = row-field (top / 2 ^ 72) g3 row good in
    let v4 = 56 - row.rule6_len - row.psid_len in
    let split = row-split (top / 2 ^ 72) g3 row good in
    let suffix : v4 ≤ 32 = omega arith in
    let some_bits : 0 < row.psid_len = ground (arith, good.shape) in
    let small : row.psid_len ≤ 16 = ground (arith, good.shape) in
    let octet = rw field at good.octet_is in
    let psid = rw field at good.psid_is in
    record {
      ce = _;
      again =
          made-s46 a n row.rule6_len v4 row.psid_len row.offset (from_be row.rule4) br long split
            suffix some_bits small good.rule_clear row refl refl refl refl octet psid;
      exact =
          made-exact a n row.rule6_len v4 row.psid_len row.offset (from_be row.rule4) br long split
            suffix some_bits small good.rule_clear row refl refl refl refl octet psid;
      ports = refl;
      share = ground (arith, good.shape);
      psid_fits =
          rw psid (mod-lt (top / 2 ^ 72 % 2 ^ (56 - row.rule6_len)) (two_pow_pos row.psid_len));
    }
