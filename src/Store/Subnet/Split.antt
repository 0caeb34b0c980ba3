-- ===== src/Store/Subnet/Split.antt =====
-- The /64s that `splitLAN` (prefix.go) numbers in a prefix.
use mathlib.Core.Option.{some-injective}
use native.Mathlib.Nat.{
  div-div-eq-div-mul, div-add-mod, mul-div_left, mul-add-div_right, div-eq_of_lt, mul_assoc,
  div-lt_iff_lt-mul, mul-le-mul_right,
}
use sixup.Common.{
  ℕ, suc, bit_or-disjoint, ◌+◌, ◌-◌, ◌*◌, ◌/◌, ◌%◌, ◌^◌, ◌<◌, ◌≤◌, ◌≡◌, ◌≢◌, refl, ap, sym, ◌∙◌,
  true, false, ◌&&◌, some, ltb, leb, arith, Bool-cases, inl, inr, none_ne_some, take, copy,
  be_bytes, from_be, from_be_acc-be_bytes, be_bytes-append, bit_or, pow_add, two_pow_pos, u64,
}
use sixup.Netip.{
  ip6, as16, Prefix, prefix_from, prefix_valid, bits, bit_len, addr_valid, masked, clear_host,
  prefix_contains, prefix_overlaps, same_network,
}
use package.sixup.Store.Subnet.{split_lan, numbered}

-- The bytes that are written, as a number.
high_half : (a : ℕ) → from_be (take 8 (be_bytes 16 a)) ≡ a / 2 ^ 64 % 2 ^ 64
high_half a =
    ap (λ l. from_be (take 8 l)) (be_bytes-append 8 8 a)
    ∙ omega (arith, from_be_acc-be_bytes 0 8 (a / 256 ^ 8))

written :
    (v a : ℕ) → from_be (copy 0 (be_bytes 8 v) (be_bytes 16 a)) ≡ v % 2 ^ 64 * 2 ^ 64 + a % 2 ^ 64
written v a =
    from_be_acc-be_bytes (from_be (be_bytes 8 v)) 8 a ∙ omega (arith, from_be_acc-be_bytes 0 8 v)

-- The number of the /64.
slot : ℕ → ℕ → ℕ → ℕ
slot a n i = (a / 2 ^ (128 - n) * 2 ^ (64 - n) + i) * 2 ^ 64

module _ (a n i : ℕ) (fits : a < 2 ^ 128) (word : i < 2 ^ 63) (short : n ≤ 64) where
  net : ℕ
  net = a / 2 ^ (128 - n) * 2 ^ (128 - n)

  net-split : net ≡ a / 2 ^ (128 - n) * 2 ^ (64 - n) * 2 ^ 64
  unfolding net
  net-split =
      let e : 128 - n ≡ 64 - n + 64 = omega arith in
      let p : 2 ^ (128 - n) ≡ 2 ^ (64 - n) * 2 ^ 64 =
        ap (λ (t : ℕ). 2 ^ t) e ∙ pow_add (64 - n) 64 in
      ap (λ (t : ℕ). a / 2 ^ (128 - n) * t) p
      ∙ sym (mul_assoc (a / 2 ^ (128 - n)) (2 ^ (64 - n)) (2 ^ 64))

  net-le : net ≤ a
  unfolding net
  net-le = omega (arith, div-add-mod a (2 ^ (128 - n)))

  -- The subnet's number and its prefix's together stay in 64 bits.
  subnet-fits : i < 2 ^ (64 - n) → a / 2 ^ (128 - n) * 2 ^ (64 - n) + i < 2 ^ 64
  subnet-fits small =
      let e : 128 ≡ n + (128 - n) = omega arith in
      let whole : a < 2 ^ n * 2 ^ (128 - n) = rw (← pow_add n (128 - n), ← e) fits in
      let q : a / 2 ^ (128 - n) < 2 ^ n = (div-lt_iff_lt-mul (two_pow_pos (128 - n))).1 whole in
      let f : 64 ≡ n + (64 - n) = omega arith in
      let all : 2 ^ 64 ≡ 2 ^ n * 2 ^ (64 - n) = ap (λ (t : ℕ). 2 ^ t) f ∙ pow_add n (64 - n) in
      let room : suc (a / 2 ^ (128 - n)) * 2 ^ (64 - n) ≤ 2 ^ n * 2 ^ (64 - n) =
        mul-le-mul_right (2 ^ (64 - n)) q in
      grind (arith, room, all)

  numbered-slot : i < 2 ^ (64 - n) → from_be (numbered (be_bytes 16 net) i) ≡ slot a n i
  unfolding numbered slot
  numbered-slot small =
      let top = subnet-fits small in
      let q = a / 2 ^ (128 - n) * 2 ^ (64 - n) in
      let word_i : u64 i ≡ i = omega arith in
      let half : from_be (take 8 (be_bytes 16 net)) ≡ q =
        high_half net ∙ omega (arith, net-split) in
      ap (λ (t : ℕ). from_be (copy 0 (be_bytes 8 (bit_or t (u64 i))) (be_bytes 16 net))) half
      ∙ ap (λ (t : ℕ). from_be (copy 0 (be_bytes 8 (bit_or q t)) (be_bytes 16 net))) word_i
      ∙ written (bit_or q i) net
      ∙ omega (arith, net-split, bit_or-disjoint (64 - n) (a / 2 ^ (128 - n)) i small)

  masked-net : (masked (record { ip = ip6 a; bits_plus_one = n + 1 })).ip ≡ ip6 net
  unfolding masked prefix_valid bits clear_host net
  masked-net =
      let back : n + 1 - 1 ≡ n = omega arith in
      let valid : ltb 0 (n + 1) ≡ true = ground arith in rw (valid, back) refl

  split_lan-slot :
      (q : Prefix)
      → split_lan (record { ip = ip6 a; bits_plus_one = n + 1 }) i ≡ some q
      → (i < 2 ^ (64 - n)) × (q ≡ record { ip = ip6 (slot a n i); bits_plus_one = 65 })
  unfolding split_lan bits prefix_from bit_len addr_valid
  split_lan-slot q h =
      let back : n + 1 - 1 ≡ n = omega arith in
      let fine : ltb 64 n ≡ false = ground arith in
      let word_i : u64 i ≡ i = omega arith in
      let bytes : as16 (ip6 net) ≡ be_bytes 16 net = unfold as16 in refl in
      elim (Bool-cases (ltb (64 - n) 64 && leb (2 ^ (64 - n)) i)) [
        | inl over ↦
            absurd (none_ne_some {A = Prefix} (rw (masked-net, back, fine, word_i, over) at h))
        | inr room ↦
            let small : i < 2 ^ (64 - n) = elim (Bool-cases (ltb (64 - n) 64)) [
              | inl some_free ↦ ground arith
              | inr all_free ↦ let e : 64 - n ≡ 64 = ground arith in rw e (omega arith)
            ] in
            (
              small,
              sym (
                  some-injective (record { ip = ip6 (slot a n i); bits_plus_one = 65 }) q
                    (rw (masked-net, bytes, back, fine, word_i, room, numbered-slot small) at h)),
            )
      ]

  slot-network : i < 2 ^ (64 - n) → slot a n i / 2 ^ (128 - n) ≡ a / 2 ^ (128 - n)
  unfolding slot
  slot-network small =
      let q = a / 2 ^ (128 - n) in
      let e : 128 - n ≡ 64 + (64 - n) = omega arith in
      ap (λ (t : ℕ). slot a n i / 2 ^ t) e
      ∙ ap (λ (t : ℕ). slot a n i / t) (pow_add 64 (64 - n))
      ∙ sym (div-div-eq-div-mul (slot a n i) (2 ^ 64) (2 ^ (64 - n)))
      ∙ ap (λ (t : ℕ). t / 2 ^ (64 - n)) (mul-div_left (q * 2 ^ (64 - n) + i) (two_pow_pos 64))
      ∙ omega (arith, mul-add-div_right (two_pow_pos (64 - n)) q i, div-eq_of_lt small)

-- For an IPv6 prefix of at most 64 bits and a number below 2^63, a subnet that splitLAN gives has
-- 64 bits and lies in the prefix.
pub split_lan-inside :
    (a n i : ℕ) (q : Prefix)
    → a < 2 ^ 128
    → n ≤ 64
    → i < 2 ^ 63
    → split_lan (record { ip = ip6 a; bits_plus_one = n + 1 }) i ≡ some q
    → (bits q ≡ 64) × (prefix_contains (record { ip = ip6 a; bits_plus_one = n + 1 }) q.ip ≡ true)
unfolding bits prefix_contains prefix_valid same_network
split_lan-inside a n i q fits short word h =
    let (small, is) = split_lan-slot a n i fits word short q h in
    let back : n + 1 - 1 ≡ n = omega arith in
    rw (is, back, slot-network a n i fits word short small) (ground arith)

-- For an IPv6 prefix of at most 64 bits, the subnets that splitLAN gives two different numbers
-- below 2^63 do not overlap.
pub split_lan-apart :
    (a n i j : ℕ) (q r : Prefix)
    → a < 2 ^ 128
    → n ≤ 64
    → i < 2 ^ 63
    → j < 2 ^ 63
    → i ≢ j
    → split_lan (record { ip = ip6 a; bits_plus_one = n + 1 }) i ≡ some q
    → split_lan (record { ip = ip6 a; bits_plus_one = n + 1 }) j ≡ some r
    → prefix_overlaps q r ≡ false
unfolding bits prefix_overlaps prefix_valid same_network slot
split_lan-apart a n i j q r fits short word word' differ h h' =
    let (small, is) = split_lan-slot a n i fits word short q h in
    let (small', is') = split_lan-slot a n j fits word' short r h' in
    let b = a / 2 ^ (128 - n) * 2 ^ (64 - n) in
    rw (is, is', mul-div_left (b + i) (two_pow_pos 64), mul-div_left (b + j) (two_pow_pos 64))
      (ground (arith, differ))
