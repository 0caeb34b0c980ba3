-- ===== src/Mape/S46/Field.antt =====
-- `bitsAt` reads a field of the address, as a quotient and a remainder.
use native.Mathlib.Nat.{div-div-eq-div-mul, pow-suc, div-add-mod, mod-lt, pow-le-pow_right}
use sixup.Common.{
  ℕ, zero, suc, ◌+◌, ◌-◌, ◌*◌, ◌/◌, ◌%◌, ◌^◌, ◌≤◌, ◌<◌, ◌≡◌, refl, bit_and, bit_or, arith, get_or,
  be_bytes, pow_add, two_pow_pos, bit_and-mask, bit_or-disjoint, u64, ap, ◌∙◌, List,
}
use package.sixup.Mape.S46.{bit_at, bits_from, bits_at}

get_or-be_bytes : (k j a : ℕ) → j < k → get_or (be_bytes k a) j 0 ≡ a / 256 ^ (k - 1 - j) % 256
get_or-be_bytes zero j a h = absurd (omega arith)
get_or-be_bytes (suc k) zero a h = ap (λ (t : ℕ). a / 256 ^ t % 256) (omega arith)
get_or-be_bytes (suc k) (suc j) a h =
    get_or-be_bytes k j a (omega arith) ∙ ap (λ (t : ℕ). a / 256 ^ t % 256) (omega arith)

div-pow_add : (a i j : ℕ) → a / 2 ^ i / 2 ^ j ≡ a / 2 ^ (i + j)
div-pow_add a i j = rw (pow_add i j) (div-div-eq-div-mul a (2 ^ i) (2 ^ j))

-- A low bit of a byte is one of the number.
bit_of_byte : (x s : ℕ) → s < 8 → x % 256 / 2 ^ s % 2 ≡ x / 2 ^ s % 2
bit_of_byte x zero h = omega arith
bit_of_byte x (suc zero) h = omega arith
bit_of_byte x (suc (suc zero)) h = omega arith
bit_of_byte x (suc (suc (suc zero))) h = omega arith
bit_of_byte x (suc (suc (suc (suc zero)))) h = omega arith
bit_of_byte x (suc (suc (suc (suc (suc zero))))) h = omega arith
bit_of_byte x (suc (suc (suc (suc (suc (suc zero)))))) h = omega arith
bit_of_byte x (suc (suc (suc (suc (suc (suc (suc zero))))))) h = omega arith
bit_of_byte x (suc (suc (suc (suc (suc (suc (suc (suc s)))))))) h = absurd (omega arith)

-- Bit `i` of a remainder below it is that of the number.
mod-pow_suc : (x i : ℕ) → x % 2 ^ suc i ≡ (x / 2) % 2 ^ i * 2 + x % 2
mod-pow_suc x i =
    let double : 2 ^ suc i ≡ 2 * 2 ^ i = omega (arith, pow-suc 2 i) in
    rw double (
      omega (
        arith,
        div-add-mod x (2 * 2 ^ i),
        div-add-mod (x / 2) (2 ^ i),
        ap (λ (t : ℕ). 2 ^ i * t) (div-div-eq-div-mul x 2 (2 ^ i)),
      ))

pow-256 : (k : ℕ) → 256 ^ k ≡ 2 ^ (8 * k)
pow-256 zero = refl
pow-256 (suc k) =
    let e : 8 * suc k ≡ 8 * k + 8 = omega arith in
    rw (e, pow_add (8 * k) 8) (omega (arith, pow-suc 256 k, pow-256 k))

pub bit_at-be_bytes : (a bit : ℕ) → bit < 128 → bit_at (be_bytes 16 a) bit ≡ a / 2 ^ (127 - bit) % 2
unfolding bit_at
bit_at-be_bytes a bit h =
    let e : 8 * (15 - bit / 8) + (7 - bit % 8) ≡ 127 - bit = omega arith in
    rw (
      bit_and-mask 1,
      get_or-be_bytes 16 (bit / 8) a (omega arith),
      bit_of_byte (a / 256 ^ (15 - bit / 8)) (7 - bit % 8) (omega arith),
      pow-256 (15 - bit / 8),
      div-pow_add a (8 * (15 - bit / 8)) (7 - bit % 8),
      e,
    )

-- A round: the value so far moves up by one place, and the bit comes in.
round : (v d i : ℕ) → v < 2 ^ i → i < 64 → d < 2 → bit_or (u64 (v * 2)) d ≡ v * 2 + d
round v d i small l bit =
    let top : 2 ^ suc i ≤ 2 ^ 64 =
      pow-le-pow_right (omega arith) {i = suc i} {j = 64} (omega arith) in
    let fits : u64 (v * 2) ≡ v * 2 ^ 1 = omega (arith, pow-suc 2 i, top) in
    rw (fits, bit_or-disjoint 1 v d bit)

module _ (b : List ℕ) (a start : ℕ)
    (reads : (bit : ℕ) → bit < 128 → bit_at b bit ≡ a / 2 ^ (127 - bit) % 2) where
  bits_from_field :
      (n i bit v t : ℕ)
      → bit ≡ start + i
      → t ≡ i + n
      → bit + n ≤ 128
      → t ≤ 64
      → v ≡ a / 2 ^ (128 - bit) % 2 ^ i
      → bits_from b bit n v ≡ a / 2 ^ (128 - start - t) % 2 ^ t
  unfolding bits_from
  bits_from_field zero i bit v t at all h l e =
      let p : 128 - start - t ≡ 128 - bit = omega arith in
      let q : t ≡ i = omega arith in rw (p, q) e
  bits_from_field (suc n) i bit v t at all h l e =
      let fits : v < 2 ^ i = rw e (mod-lt (a / 2 ^ (128 - bit)) (two_pow_pos i)) in
      let d = a / 2 ^ (127 - bit) % 2 in
      let p : 128 - bit ≡ 127 - bit + 1 = omega arith in
      let q : 128 - (bit + 1) ≡ 127 - bit = omega arith in
      let turn : bit_or (u64 (v * 2)) (bit_at b bit) ≡ a / 2 ^ (128 - (bit + 1)) % 2 ^ suc i = rw (
        reads bit (omega arith),
        round v d i fits (omega arith) (omega arith),
        q,
        mod-pow_suc (a / 2 ^ (127 - bit)) i,
        div-pow_add a (127 - bit) 1,
        ← p,
        e,
      ) in
      bits_from_field n (suc i) (bit + 1) (bit_or (u64 (v * 2)) (bit_at b bit)) t (omega arith)
        (omega arith) (omega arith) l turn

module _ (b : List ℕ) where
  bits_from-lt : (n i bit v t : ℕ) → t ≡ i + n → t ≤ 64 → v < 2 ^ i → bits_from b bit n v < 2 ^ t
  unfolding bits_from bit_at
  bits_from-lt zero i bit v t all l small = let q : t ≡ i = omega arith in rw q small
  bits_from-lt (suc n) i bit v t all l small =
      let d = bit_and (get_or b (bit / 8) 0 / 2 ^ (7 - bit % 8)) 1 in
      let single : d < 2 =
        omega (arith, bit_and-mask 1 (get_or b (bit / 8) 0 / 2 ^ (7 - bit % 8))) in
      bits_from-lt n (suc i) (bit + 1) (bit_or (u64 (v * 2)) d) t (omega arith) l
        (rw (round v d i small (omega arith) single) (omega (arith, pow-suc 2 i)))

-- What is read fits in the bits read.
pub bits_at-lt : (b : List ℕ) (start n : ℕ) → n ≤ 64 → bits_at b start n < 2 ^ n
unfolding bits_at
bits_at-lt b start n l = bits_from-lt b n 0 start 0 n (omega arith) l (omega arith)

-- On the 16 bytes of an address, for a field of at most 64 bits within the 128, bitsAt is the
-- address's field of n bits after the first start ones, as a quotient and a remainder.
pub bits_at_field :
    (a start n : ℕ)
    → start + n ≤ 128
    → n ≤ 64
    → bits_at (be_bytes 16 a) start n ≡ a / 2 ^ (128 - start - n) % 2 ^ n
unfolding bits_at
bits_at_field a start n h l =
    bits_from_field (be_bytes 16 a) a start (bit_at-be_bytes a) n 0 start 0 n (omega arith)
      (omega arith) h l (omega arith)
