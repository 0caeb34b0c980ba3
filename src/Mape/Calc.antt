-- ===== src/Mape/Calc.antt =====
-- MAP-E from the rule tables: `calcMAPE` of mape.go.
pub mod Line
pub mod Container
pub mod Agrees
use sixup.Common.{
  ℕ, ◌+◌, ◌-◌, ◌*◌, ◌/◌, ◌%◌, ◌^◌, bit_and, bit_or, Bool, true, false, not, ◌&&◌, ◌||◌, List, [],
  ◌∷◌, Option, none, some, ◌==◌, ltb, leb, if◌then◌else◌, slice, copy, replicate, be_bytes, from_be,
  u8, u16,
}
use sixup.Netip.{Addr, ip4, ip6, as16, Prefix, prefix_from, prefix_valid, bits, masked}
use package.sixup.Mape.{MapeResult}
use package.sixup.Mape.Spans.{port_spans}
use package.sixup.Mape.Rules.{lookup, rules31, rules38, rules38x20}

-- `h[i]`: a 16-bit group of the address.
unfoldable pub group : List ℕ → ℕ → ℕ
group b i = from_be (slice (i * 2) (i * 2 + 2) b)

-- The border relay of the provider that owns the range; `none` for an unknown one.
unfoldable pub relay : ℕ → ℕ → Option Addr
relay h0 h1 =
    if h0 == 0x240b
    then some (ip6 0x24049200022501000000000000000064)
    else if h0 == 0x2404 && leb 0x7a80 h1 && ltb h1 0x7a84
    then some (ip6 0x20010260070000010000000000010275)
    else if h0 == 0x2404 && leb 0x7a84 h1 && ltb h1 0x7a88
    then some (ip6 0x20010260070000010000000000010276)
    else if h0 == 0x2400
    then some (ip6 0x20010380a12000000000000000000009)
    else if h0 == 0x240d
    then some (ip6 0x200103b802000ff90000000000000001)
    else none

-- The keys; a group has 16 bits, so that no shift leaves the 64-bit word.
unfoldable pub key38 : ℕ → ℕ → ℕ → ℕ
key38 h0 h1 h2 = bit_or (bit_or (h0 * 2 ^ 24) (h1 * 2 ^ 8)) (bit_and h2 0xfc00 / 2 ^ 8)

unfoldable pub key31 : ℕ → ℕ → ℕ
key31 h0 h1 = bit_or (h0 * 2 ^ 16) (bit_and h1 0xfffe)

-- What a case of the `switch` over the tables sets.
pub record Row : Type 0 where
  pub octet : List ℕ
  pub rule4 : List ℕ
  pub rule6_len : ℕ
  pub psid_len : ℕ
  pub offset : ℕ

unfoldable pub row38 : ℕ → ℕ × ℕ × ℕ → Row
row38 h2 (t0, t1, t2) = record {
  octet = t0 ∷ (t1 ∷ (bit_or t2 (u8 (bit_and h2 0x0300 / 2 ^ 8)) ∷ (u8 (bit_and h2 0xff) ∷ [])));
  rule4 = t0 ∷ (t1 ∷ (t2 ∷ (0 ∷ [])));
  rule6_len = 38;
  psid_len = 8;
  offset = 4;
}

unfoldable pub row31 : ℕ → ℕ → ℕ × ℕ → Row
row31 h1 h2 (t0, t1) = record {
  octet =
      t0
      ∷ (bit_or t1 (u8 (bit_and h1 1))
          ∷ (u8 (bit_and h2 0xff00 / 2 ^ 8) ∷ (u8 (bit_and h2 0xff) ∷ [])));
  rule4 = t0 ∷ (t1 ∷ (0 ∷ (0 ∷ [])));
  rule6_len = 31;
  psid_len = 8;
  offset = 4;
}

unfoldable pub row38x20 : ℕ → ℕ → ℕ × ℕ × ℕ → Row
row38x20 h2 h3 (t0, t1, t2) = record {
  octet =
      t0
      ∷ (t1
          ∷ (bit_or t2 (u8 (bit_and h2 0x03c0 / 2 ^ 6))
              ∷ (u8 (bit_or (bit_and h2 0x3f * 2 ^ 2) (bit_and h3 0xc000 / 2 ^ 14)) ∷ [])));
  rule4 = t0 ∷ (t1 ∷ (t2 ∷ (0 ∷ [])));
  rule6_len = 38;
  psid_len = 6;
  offset = 6;
}

-- The first of the tables that has the key.
unfoldable pub row_of_20 : ℕ → ℕ → Option (ℕ × ℕ × ℕ) → Option Row
row_of_20 h2 h3 none = none
row_of_20 h2 h3 (some t) = some (row38x20 h2 h3 t)

unfoldable pub row_of_31 : ℕ → ℕ → Option (ℕ × ℕ) → Option Row → Option Row
row_of_31 h1 h2 none rest = rest
row_of_31 h1 h2 (some t) rest = some (row31 h1 h2 t)

unfoldable pub row_of_38 : ℕ → Option (ℕ × ℕ × ℕ) → Option Row → Option Row
row_of_38 h2 none rest = rest
row_of_38 h2 (some t) rest = some (row38 h2 t)

unfoldable pub row_of : ℕ → ℕ → ℕ → ℕ → Option Row
row_of h0 h1 h2 h3 = row_of_38 h2 (lookup {A = ℕ × ℕ × ℕ} (key38 h0 h1 h2) rules38) (
    row_of_31 h1 h2 (lookup {A = ℕ × ℕ} (key31 h0 h1) rules31)
      (row_of_20 h2 h3 (lookup {A = ℕ × ℕ × ℕ} (key38 h0 h1 h2) rules38x20)))

-- The `switch` over the length of the PSID.
unfoldable pub psid_of_row : ℕ → ℕ → ℕ
psid_of_row psid_len h3 =
    if psid_len == 8
    then u16 (bit_and h3 0xff00 / 2 ^ 8)
    else if psid_len == 6
    then u16 (bit_and h3 0x3f00 / 2 ^ 8)
    else 0

-- The leading 56 bits, a subnet of zeros, and the interface's part.
unfoldable pub ce_of_row : List ℕ → List ℕ → ℕ → List ℕ
ce_of_row b octet psid =
    copy 13 (be_bytes 2 psid) (copy 9 octet (copy 0 (slice 0 7 b) (replicate 16 0)))

unfoldable pub line_of : Prefix → List ℕ → Addr → Row → MapeResult
line_of prefix b br row =
    let ea_len = u8 (56 - row.rule6_len) in
    let rule4_len = 32 - (ea_len - row.psid_len) in
    let psid = psid_of_row row.psid_len (group b 3) in
    record {
      br = br;
      ipv4 = ip4 (from_be row.octet);
      rule4 = masked (prefix_from (ip4 (from_be row.rule4)) rule4_len);
      rule6 = masked (prefix_from prefix.ip row.rule6_len);
      ea_len = ea_len;
      psid_len = row.psid_len;
      offset = row.offset;
      psid = psid;
      ce = ip6 (from_be (ce_of_row b row.octet psid));
      ports = port_spans row.offset row.psid_len psid;
    }

unfoldable pub line_if : Prefix → List ℕ → Option Addr → Option Row → Option MapeResult
line_if prefix b none row = none
line_if prefix b (some br) none = none
line_if prefix b (some br) (some row) = some (line_of prefix b br row)

-- `none` for its false.
unfoldable pub calc_mape : Prefix → Option MapeResult
calc_mape prefix =
    let b = as16 (masked prefix).ip in
    if not (prefix_valid prefix) || ltb (bits prefix) 56
    then none
    else line_if prefix b (relay (group b 0) (group b 1))
        (row_of (group b 0) (group b 1) (group b 2) (group b 3))
