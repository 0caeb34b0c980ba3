-- ===== src/Common/Bits.antt =====
-- Bit operations on words, and `|` of disjoint fields and `&` with a low mask as arithmetic.
use Prim.Native.Nat.{
  ℕ, zero, suc, ◌+◌, ◌-◌, ◌*◌, ◌/◌, ◌%◌, ◌^◌, ◌≤◌, ◌<◌, min, max, bit_and, bit_or, digits, bitwise,
  bit_and-bitwise, bit_or-bitwise,
}
use mathlib.Core.Path.{◌≡◌, refl, ap, ◌∙◌}
use native.Mathlib.Nat.{
  pow-suc, one-le-pow, zero-add, suc-add, mul_right_comm, div-one, div-add-mod, div-div-eq-div-mul,
}
use native.Mathlib.Omega.{arith}

-- The fuel of the native operations: a round more than needed changes nothing.
module _ (rest : ℕ → ℕ) (op : ℕ → ℕ → ℕ) where
  spare_round : (left x y : ℕ) → x ≤ left → digits rest op (suc left) x y ≡ digits rest op left x y
  spare_round zero zero y fits = refl
  spare_round (suc left) zero y fits = refl
  spare_round zero (suc x) y fits = absurd (omega arith)
  spare_round (suc left) (suc x) y fits =
      omega (arith, spare_round left (suc x / 2) (y / 2) (omega arith))

  spare_rounds :
      (more left x y : ℕ) → left ≡ more + x → digits rest op left x y ≡ bitwise rest op x y
  spare_rounds zero left x y same = ap (λ (t : ℕ). digits rest op t x y) (same ∙ zero-add x)
  spare_rounds (suc more) zero x y same = absurd (omega arith)
  spare_rounds (suc more) (suc left) x y same =
      spare_round left x y (omega arith) ∙ spare_rounds more left x y (omega arith)

  halve :
      (x y : ℕ)
      → bitwise rest op (suc x) y ≡ bitwise rest op (suc x / 2) (y / 2) * 2 + op (suc x % 2) (y % 2)
  halve x y = omega (arith, spare_rounds (x - suc x / 2) x (suc x / 2) (y / 2) (omega arith))

bit_or-half : (a b : ℕ) → bit_or a b ≡ bit_or (a / 2) (b / 2) * 2 + max (a % 2) (b % 2)
bit_or-half zero b = simp bit_or-bitwise (omega arith)
bit_or-half (suc a) b = simp bit_or-bitwise (halve (λ y. y) max a b)

bit_and-half : (a b : ℕ) → bit_and a b ≡ bit_and (a / 2) (b / 2) * 2 + min (a % 2) (b % 2)
bit_and-half zero b = simp bit_and-bitwise (omega arith)
bit_and-half (suc a) b = simp bit_and-bitwise (halve (λ y. 0) min a b)

bit_or-zero_below : (n a : ℕ) → a ≤ n → bit_or a 0 ≡ a
bit_or-zero_below n zero h = refl
bit_or-zero_below zero (suc a) h = absurd (omega arith)
bit_or-zero_below (suc n) (suc a) h =
    omega (arith, bit_or-half (suc a) 0, bit_or-zero_below n (suc a / 2) (omega arith))

bit_and-zero_below : (n a : ℕ) → a ≤ n → bit_and a 0 ≡ 0
bit_and-zero_below n zero h = refl
bit_and-zero_below zero (suc a) h = absurd (omega arith)
bit_and-zero_below (suc n) (suc a) h =
    omega (arith, bit_and-half (suc a) 0, bit_and-zero_below n (suc a / 2) (omega arith))

double_field : (q k : ℕ) → q * 2 ^ suc k ≡ 2 * (q * 2 ^ k)
double_field q k = omega (arith, ap (λ (t : ℕ). q * t) (pow-suc 2 k))

-- `q << k | r` is a sum when `r` fits in `k` bits.
pub bit_or-disjoint : (k q r : ℕ) → r < 2 ^ k → bit_or (q * 2 ^ k) r ≡ q * 2 ^ k + r
bit_or-disjoint zero q r h = ground (arith, bit_or-zero_below q q)
bit_or-disjoint (suc k) q r h =
    ground (arith, bit_or-half (q * 2 ^ suc k) r, double_field q k, bit_or-disjoint k q (r / 2))

-- A number that has no bit below `k`, and one that has no other.
pub bit_or-add : (k c x : ℕ) → c % 2 ^ k ≡ 0 → x < 2 ^ k → bit_or c x ≡ c + x
bit_or-add k c x clear fits =
    let whole : c / 2 ^ k * 2 ^ k ≡ c = omega (arith, div-add-mod c (2 ^ k)) in
    rw whole at (bit_or-disjoint k (c / 2 ^ k) x fits)

bit_and-field : (k q r : ℕ) → r < 2 ^ k → bit_and (q * 2 ^ k + r) (2 ^ k - 1) ≡ r
bit_and-field zero q r h = omega (arith, bit_and-zero_below (q * 1 + r) (q * 1 + r))
bit_and-field (suc k) q r h = ground (
  arith,
  bit_and-half (q * 2 ^ suc k + r) (2 ^ suc k - 1),
  double_field q k,
  pow-suc 2 k,
  one-le-pow k 2,
  bit_and-field k q (r / 2),
)

-- A mask of `k` ones is the remainder by `2 ^ k`.
pub bit_and-mask : (k a : ℕ) → bit_and a (2 ^ k - 1) ≡ a % 2 ^ k
bit_and-mask k a = ground (arith, one-le-pow k 2, bit_and-field k (a / 2 ^ k) (a % 2 ^ k))

-- A field under a mask, moved down.
pub bit_and-div : (k a b : ℕ) → bit_and a b / 2 ^ k ≡ bit_and (a / 2 ^ k) (b / 2 ^ k)
bit_and-div zero a b = rw (div-one (bit_and a b), div-one a, div-one b) refl
bit_and-div (suc k) a b =
    let half : bit_and a b / 2 ≡ bit_and (a / 2) (b / 2) = omega (arith, bit_and-half a b) in
    let twice : 2 ^ suc k ≡ 2 * 2 ^ k = omega (arith, pow-suc 2 k) in
    rw
      (
        twice,
        ← div-div-eq-div-mul (bit_and a b) 2 (2 ^ k),
        ← div-div-eq-div-mul a 2 (2 ^ k),
        ← div-div-eq-div-mul b 2 (2 ^ k),
        half,
      )
      (bit_and-div k (a / 2) (b / 2))

pub pow_add : (a b : ℕ) → 2 ^ (a + b) ≡ 2 ^ a * 2 ^ b
pow_add zero b = rw zero-add (omega arith)
pow_add (suc a) b =
    rw (suc-add, pow-suc 2 (a + b), pow_add a b, pow-suc 2 a) (mul_right_comm (2 ^ a) (2 ^ b) 2)

pub two_pow_pos : (k : ℕ) → 0 < 2 ^ k
two_pow_pos k = one-le-pow k 2 (omega arith)

-- Conversions to the machine's words.
abbrev pub u8 : ℕ → ℕ
u8 n = n % 2 ^ 8

abbrev pub u16 : ℕ → ℕ
u16 n = n % 2 ^ 16

abbrev pub u32 : ℕ → ℕ
u32 n = n % 2 ^ 32

abbrev pub u64 : ℕ → ℕ
u64 n = n % 2 ^ 64
