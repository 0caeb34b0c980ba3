-- ===== src/Netip/Laws.antt =====
-- Laws of the addresses: equality decides, and 16 bytes stand for one address.
use native.Mathlib.Nat.{mul-div_left, div-add-mod}
use sixup.Common.{
  ℕ, ◌+◌, ◌≤◌, ◌%◌, leb, ltb, ◌-◌, ◌*◌, ◌/◌, ◌^◌, ◌≡◌, ◌↔◌, refl, true, arith, inl, inr, Bool-cases,
  two_pow_pos, ap, ◌∙◌,
}
use package.sixup.Netip.{
  Addr, no_addr, ip4, ip6, is4, is6, addr_eq, prefix_eq, AddrPort, addr_port_eq, Prefix,
  prefix_valid, bits, masked, clear_host, same_network, prefix_contains, prefix_from, bit_len,
  addr_valid,
}

pub addr_eq_iff : (a b : Addr) → (addr_eq a b ≡ true) ↔ (a ≡ b)
unfolding addr_eq
addr_eq_iff no_addr no_addr = ground arith
addr_eq_iff no_addr (ip4 b) = ground arith
addr_eq_iff no_addr (ip6 b) = ground arith
addr_eq_iff (ip4 a) no_addr = ground arith
addr_eq_iff (ip4 a) (ip4 b) = ground arith
addr_eq_iff (ip4 a) (ip6 b) = ground arith
addr_eq_iff (ip6 a) no_addr = ground arith
addr_eq_iff (ip6 a) (ip4 b) = ground arith
addr_eq_iff (ip6 a) (ip6 b) = ground arith

pub addr_port_eq_iff : (a b : AddrPort) → (addr_port_eq a b ≡ true) ↔ (a ≡ b)
unfolding addr_port_eq
addr_port_eq_iff a b = ground (arith, addr_eq_iff a.addr b.addr)

pub is4-cases : (a : Addr) → is4 a ≡ true → (x : ℕ) × (a ≡ ip4 x)
unfolding is4
is4-cases no_addr h = absurd (ground arith)
is4-cases (ip4 x) h = (x, refl)
is4-cases (ip6 x) h = absurd (ground arith)

pub is6-cases : (a : Addr) → is6 a ≡ true → (x : ℕ) × (a ≡ ip6 x)
unfolding is6
is6-cases no_addr h = absurd (ground arith)
is6-cases (ip4 x) h = absurd (ground arith)
is6-cases (ip6 x) h = (x, refl)

-- A masked prefix is as valid, as long, and contains the same addresses; masking it again changes
-- nothing.
pub masked_valid :
    (p : Prefix) → prefix_valid p ≡ true → masked p ≡ record p { ip = clear_host (bits p) p.ip }
unfolding masked
masked_valid p h = rw h refl

clear-network : (a n : ℕ) → a / 2 ^ n * 2 ^ n / 2 ^ n ≡ a / 2 ^ n
clear-network a n = mul-div_left (a / 2 ^ n) (two_pow_pos n)

clear_host-clear_host : (n : ℕ) (a : Addr) → clear_host n (clear_host n a) ≡ clear_host n a
unfolding clear_host
clear_host-clear_host n no_addr = refl
clear_host-clear_host n (ip4 a) = rw (clear-network a (32 - n)) refl
clear_host-clear_host n (ip6 a) = rw (clear-network a (128 - n)) refl

same_network-clear_host :
    (n : ℕ) (a b : Addr) → same_network n (clear_host n a) b ≡ same_network n a b
unfolding clear_host same_network
same_network-clear_host n no_addr b = refl
same_network-clear_host n (ip4 a) no_addr = refl
same_network-clear_host n (ip4 a) (ip4 b) = rw (clear-network a (32 - n)) refl
same_network-clear_host n (ip4 a) (ip6 b) = refl
same_network-clear_host n (ip6 a) no_addr = refl
same_network-clear_host n (ip6 a) (ip4 b) = refl
same_network-clear_host n (ip6 a) (ip6 b) = rw (clear-network a (128 - n)) refl

pub prefix_valid-masked : (p : Prefix) → prefix_valid (masked p) ≡ prefix_valid p
unfolding prefix_valid
prefix_valid-masked p = elim (Bool-cases (prefix_valid p)) [
  | inl valid ↦ rw (masked_valid p valid) refl
  | inr invalid ↦ unfold masked in rw invalid (ground arith)
]

pub bits-masked : (p : Prefix) → prefix_valid p ≡ true → bits (masked p) ≡ bits p
unfolding bits
bits-masked p valid = rw (masked_valid p valid) refl

pub masked-masked : (p : Prefix) → prefix_valid p ≡ true → masked (masked p) ≡ masked p
unfolding prefix_valid bits
masked-masked p valid = rw (masked_valid p valid) (
    masked_valid (record p { ip = clear_host (bits p) p.ip }) valid
    ∙ ap (λ (a : Addr). record p { ip = a }) (clear_host-clear_host (bits p) p.ip))

pub prefix_contains-masked :
    (p : Prefix) (a : Addr)
    → prefix_valid p ≡ true
    → prefix_contains (masked p) a ≡ prefix_contains p a
unfolding prefix_contains bits prefix_valid
prefix_contains-masked p a valid =
    rw (masked_valid p valid, same_network-clear_host (bits p) p.ip a) refl

-- A prefix that `PrefixFrom` makes, masked.
pub masked_clear :
    (r n : ℕ)
    → n ≤ 32
    → r % 2 ^ (32 - n) ≡ 0
    → masked (prefix_from (ip4 r) n) ≡ record { ip = ip4 r; bits_plus_one = n + 1 }
unfolding masked prefix_from prefix_valid bits clear_host bit_len addr_valid
masked_clear r n fits clear =
    let same : r / 2 ^ (32 - n) * 2 ^ (32 - n) ≡ r = omega (arith, div-add-mod r (2 ^ (32 - n))) in
    let short : leb n 32 ≡ true = ground arith in
    let some_bits : ltb 0 (n + 1) ≡ true = ground arith in
    let back : n + 1 - 1 ≡ n = omega arith in rw (short, some_bits, back, same) refl

pub masked_six :
    (a n : ℕ)
    → n ≤ 128
    → masked (prefix_from (ip6 a) n)
      ≡ record { ip = ip6 (a / 2 ^ (128 - n) * 2 ^ (128 - n)); bits_plus_one = n + 1 }
unfolding masked prefix_from prefix_valid bits clear_host bit_len addr_valid
masked_six a n fits =
    let short : leb n 128 ≡ true = ground arith in
    let some_bits : ltb 0 (n + 1) ≡ true = ground arith in
    let back : n + 1 - 1 ≡ n = omega arith in rw (short, some_bits, back) refl

pub prefix_eq_iff : (p o : Prefix) → (prefix_eq p o ≡ true) ↔ (p ≡ o)
unfolding prefix_eq
prefix_eq_iff p o = ground (arith, addr_eq_iff p.ip o.ip)
