-- ===== src/Mape/S46/Address.antt =====
-- Which IPv4 address and PSID `mapeFromS46` reads out of the delegated prefix, and its round trip
-- through `s46`.
use native.Mathlib.Nat.{
  mul-add-div_right, div-lt_iff_lt-mul, div-eq_of_lt, pow-le-pow_right, mod-lt,
}
use mathlib.Core.Option.{some-injective}
use sixup.Common.{
  ◌%◌, ◌&&◌, ◌||◌, ◌==◌, ltb, refl, ℕ, ◌+◌, ◌-◌, ◌*◌, ◌/◌, ◌^◌, ◌≤◌, ◌<◌, ◌≡◌, bit_or, true, List,
  some, arith, inl, inr, Bool-cases, Option-cases, List-cases, bit_and-mask, bit_or-disjoint,
  pow_add, two_pow_pos, ==_refl, u32,
}
use sixup.Netip.{
  Addr, ip4, is4, as16, Prefix, prefix_valid, bits, masked, prefix_contains, clear_host,
  same_network,
}
use sixup.Netip.Laws.{is4-cases, masked_valid, bits-masked, prefix_contains-masked}
use package.sixup.Mape.{MapeResult, S46Rule, S46Cont}
use package.sixup.Mape.S46.{
  bits_at, bmr_for, lengths, psid_len_of, as4_number, psid_of, ipv4_of, result_of, mape_from_s46,
  value_or,
}
use package.sixup.Mape.S46.Field.{bits_at-lt}
use sixup.Mape.Spans.{in_spans}
use sixup.Mape.Spans.Owned.{owned_ports}
use package.sixup.Mape.S46.Rule.{covers, bmr_for-covers}

-- What `lengths` accepts.
pub lengths_bounds :
    (rule : S46Rule) (pd : Prefix) (v4_bits psid_len : ℕ)
    → lengths rule pd ≡ some (v4_bits, psid_len)
    → (prefix_valid rule.ipv4_prefix ≡ true)
      × (is4 rule.ipv4_prefix.ip ≡ true)
      × (bits rule.ipv4_prefix + v4_bits ≡ 32)
      × (psid_len + v4_bits ≤ rule.ea_len)
      × (psid_len ≤ 16)
      × (rule.ea_len ≤ 64)
      × (bits rule.ipv6_prefix + rule.ea_len ≤ bits pd)
unfolding lengths
lengths_bounds rule pd v4_bits psid_len h =
    elim (Option-cases (psid_len_of rule (32 - bits rule.ipv4_prefix))) [
      | inl negative ↦ absurd (ground arith)
      | inr (len, found) ↦ ground arith
    ]

-- The suffix lies below the prefix.
or_suffix :
    (a n x : ℕ) → n ≤ 32 → x < 2 ^ n → bit_or (a / 2 ^ n * 2 ^ n) (u32 x) / 2 ^ n ≡ a / 2 ^ n
or_suffix a n x h l =
    let top : 2 ^ n ≤ 2 ^ 32 = pow-le-pow_right (omega arith) {i = n} {j = 32} h in
    let fits : u32 x ≡ x = ground arith in
    rw (fits, bit_or-disjoint n (a / 2 ^ n) x l)
      (omega (arith, mul-add-div_right (two_pow_pos n) (a / 2 ^ n) x, div-eq_of_lt l))

-- What `mapeFromS46` has found when it answers.
pub record Found (c : S46Cont) (pd : Prefix) (r : MapeResult) : Type 0 where
  pub br : Addr
  pub rule : S46Rule
  pub v4_bits : ℕ
  pub psid_len : ℕ
  pub valid : prefix_valid pd ≡ true
  pub picked : bmr_for c.rules pd ≡ some rule
  pub fits : lengths rule pd ≡ some (v4_bits, psid_len)
  pub is : result_of br rule pd psid_len ≡ r

pub mape_from_s46-Found :
    (c : S46Cont) (pd : Prefix) (r : MapeResult) → mape_from_s46 (some c) pd ≡ some r → Found c pd r
unfolding mape_from_s46
mape_from_s46-Found c pd r h = elim (List-cases c.br) [
  | inl none_given ↦ absurd (ground arith)
  | inr (br, brs, given) ↦ elim (Bool-cases (prefix_valid pd)) [
    | inr invalid ↦ absurd (ground arith)
    | inl valid ↦ elim (Option-cases (bmr_for c.rules pd)) [
      | inl nothing ↦ absurd (ground arith)
      | inr (rule, picked) ↦ elim (Option-cases (lengths rule pd)) [
        | inl refused ↦ absurd (ground arith)
        | inr ((v4_bits, psid_len), fits) ↦ record {
          br = br;
          rule = rule;
          v4_bits = v4_bits;
          psid_len = psid_len;
          valid = valid;
          picked = picked;
          fits = fits;
          is = some-injective (result_of br rule pd psid_len) r (ground arith);
        }
      ]
    ]
  ]
]

-- The EA bits that are left of the PSID number the address within the rule's IPv4 prefix.
suffix_bound :
    (b : List ℕ) (start ea_len psid_len v4_bits : ℕ)
    → ea_len ≤ 64
    → psid_len + v4_bits ≡ ea_len
    → bits_at b start ea_len / 2 ^ psid_len < 2 ^ v4_bits
suffix_bound b start ea_len psid_len v4_bits l e =
    let split : 2 ^ ea_len ≡ 2 ^ v4_bits * 2 ^ psid_len =
      rw (← e, pow_add psid_len v4_bits) (omega arith) in
    (div-lt_iff_lt-mul (two_pow_pos psid_len)).1 (rw split at (bits_at-lt b start ea_len l))

rule4-contains :
    (p : Prefix) (suffix v4_bits : ℕ)
    → prefix_valid p ≡ true
    → is4 p.ip ≡ true
    → bits p + v4_bits ≡ 32
    → suffix < 2 ^ v4_bits
    → prefix_contains (masked p) (ip4 (bit_or (as4_number (masked p).ip) (u32 suffix))) ≡ true
unfolding prefix_contains same_network clear_host
rule4-contains p suffix v4_bits valid four e l =
    let (x, at) = is4-cases p.ip four in
    let n : 32 - bits p ≡ v4_bits = omega arith in
    let whole =
      prefix_contains-masked p (ip4 (bit_or (as4_number (masked p).ip) (u32 suffix))) valid in
    rw (whole, masked_valid p valid, at, valid, n)
      (rw (or_suffix x v4_bits suffix (omega arith) l) (==_refl (x / 2 ^ v4_bits)))

-- Where the IPv4 suffix and the PSID together are as long as the EA bits, the shared IPv4 address
-- that mapeFromS46 finds lies in the rule's IPv4 prefix.
pub mape_from_s46-rule4 :
    (c : S46Cont) (pd : Prefix) (r : MapeResult)
    → mape_from_s46 (some c) pd ≡ some r
    → r.psid_len + (32 - bits r.rule4) ≡ r.ea_len
    → prefix_contains r.rule4 r.ipv4 ≡ true
unfolding result_of ipv4_of
mape_from_s46-rule4 c pd r h exact =
    let f = mape_from_s46-Found c pd r h in
    let (valid, four, sum, within, small, wide, long) =
      lengths_bounds f.rule pd f.v4_bits f.psid_len f.fits in
    let full = rw (← f.is) at exact in
    rw (← f.is) (
      rule4-contains f.rule.ipv4_prefix
        (bits_at (as16 (masked pd).ip) (bits f.rule.ipv6_prefix) f.rule.ea_len / 2 ^ f.psid_len)
        f.v4_bits valid four sum
        (suffix_bound (as16 (masked pd).ip) (bits f.rule.ipv6_prefix) f.rule.ea_len f.psid_len
          f.v4_bits wide (omega (arith, full, bits-masked f.rule.ipv4_prefix valid))))

rule6-valid :
    (rules : List S46Rule) (pd : Prefix) (r : S46Rule)
    → bmr_for rules pd ≡ some r
    → prefix_valid r.ipv6_prefix ≡ true
unfolding covers
rule6-valid rules pd r h = ground (arith, bmr_for-covers rules pd r h)

psid_of-mod :
    (rule : S46Rule) (psid_len ea : ℕ)
    → psid_len ≤ 16
    → 0 < rule.ea_len
    → psid_of rule psid_len ea ≡ ea % 2 ^ psid_len
unfolding psid_of
psid_of-mod rule psid_len ea small some_bits =
    let top : 2 ^ psid_len ≤ 2 ^ 16 =
      pow-le-pow_right (omega arith) {i = psid_len} {j = 16} small in
    ground (arith, bit_and-mask psid_len ea, mod-lt ea (two_pow_pos psid_len))

-- The EA bits of a delegated prefix under the rule of a result.
unfoldable pub ea_bits : Prefix → MapeResult → ℕ
ea_bits pd r = bits_at (as16 (masked pd).ip) (bits r.rule6) r.ea_len

-- With EA bits, and an offset that together with the PSID's length is at most 16: the PSID of a
-- result of mapeFromS46 is the low bits, of the PSID's length, of the EA bits, those of the
-- delegated prefix after the rule's IPv6 prefix, and a 16-bit port lies in its spans exactly if
-- its PSID field is these bits and its A field is not 0, where there is one.
pub mape_from_s46-ports :
    (c : S46Cont) (pd : Prefix) (r : MapeResult) (e : ℕ)
    → mape_from_s46 (some c) pd ≡ some r
    → 0 < r.ea_len
    → r.offset + r.psid_len ≤ 16
    → e < 65536
    → (r.psid ≡ ea_bits pd r % 2 ^ r.psid_len)
      × (in_spans r.ports e ≡ (
          (r.offset == 0 || ltb 0 (e / 2 ^ (16 - r.offset)))
          && e / 2 ^ (16 - r.offset - r.psid_len) % 2 ^ r.psid_len
            == ea_bits pd r % 2 ^ r.psid_len))
unfolding result_of ea_bits
mape_from_s46-ports c pd r e h some_bits room port =
    let f = mape_from_s46-Found c pd r h in
    let (valid, four, sum, within, small, wide, long) =
      lengths_bounds f.rule pd f.v4_bits f.psid_len f.fits in
    let any = rw (← f.is) at some_bits in
    let fits = rw (← f.is) at room in
    let ea = bits_at (as16 (masked pd).ip) (bits f.rule.ipv6_prefix) f.rule.ea_len in
    let length = bits-masked f.rule.ipv6_prefix (rule6-valid c.rules pd f.rule f.picked) in
    let psid = psid_of-mod f.rule f.psid_len ea small any in
    rw (← f.is, length, psid)
      (
        refl,
        owned_ports (value_or f.rule.psid_offset 6) f.psid_len (ea % 2 ^ f.psid_len) e fits
            (mod-lt ea (two_pow_pos f.psid_len)) port,
      )
