-- ===== src/Common/Bytes.antt =====
-- Numbers as big-endian bytes: `binary.BigEndian`.
use Prim.Native.Nat.{ℕ, zero, suc, ◌+◌, ◌*◌, ◌/◌, ◌%◌, ◌^◌}
use mathlib.Core.List.{List, [], ◌∷◌, ◌++◌}
use mathlib.Core.Path.{◌≡◌, refl, ap, sym, ◌∙◌}
use native.Mathlib.Nat.{pow-suc, zero-add, suc-add, div-div-eq-div-mul, div-add-mod}
use native.Mathlib.Omega.{arith}

-- The low `k` bytes of a number, and the number that bytes stand for.
abbrev pub be_bytes : ℕ → ℕ → List ℕ
be_bytes zero n = []
be_bytes (suc k) n = n / 256 ^ k % 256 ∷ be_bytes k n

abbrev pub from_be_acc : ℕ → List ℕ → ℕ
from_be_acc acc [] = acc
from_be_acc acc (b ∷ bs) = from_be_acc (acc * 256 + b) bs

abbrev pub from_be : List ℕ → ℕ
from_be = from_be_acc 0

-- What stands in the low `k` bytes.
pub from_be_acc-be_bytes :
    (acc k n : ℕ) → from_be_acc acc (be_bytes k n) ≡ acc * 256 ^ k + n % 256 ^ k
from_be_acc-be_bytes acc zero n = omega arith
from_be_acc-be_bytes acc (suc k) n =
    let low : n % 256 ^ suc k ≡ n / 256 ^ k % 256 * 256 ^ k + n % 256 ^ k = rw (pow-suc 256 k) (
      grind (
        arith,
        div-add-mod n (256 ^ k * 256),
        div-add-mod n (256 ^ k),
        ap (λ (t : ℕ). 256 ^ k * t) (div-add-mod (n / 256 ^ k) 256),
        ap (λ (t : ℕ). 256 ^ k * 256 * t) (div-div-eq-div-mul n (256 ^ k) 256),
      )) in
    from_be_acc-be_bytes (acc * 256 + n / 256 ^ k % 256) k n ∙ rw (low, pow-suc 256 k) (omega arith)

pow256_add : (j k : ℕ) → 256 ^ (j + k) ≡ 256 ^ k * 256 ^ j
pow256_add zero k = rw zero-add (omega arith)
pow256_add (suc j) k =
    rw (suc-add, pow-suc 256 (j + k), pow256_add j k, pow-suc 256 j) (grind arith)

pub be_bytes-append : (j k n : ℕ) → be_bytes (j + k) n ≡ be_bytes j (n / 256 ^ k) ++ be_bytes k n
be_bytes-append zero k n = rw zero-add refl
be_bytes-append (suc j) k n =
    let high : n / 256 ^ (j + k) ≡ n / 256 ^ k / 256 ^ j =
      rw (pow256_add j k) (sym (div-div-eq-div-mul n (256 ^ k) (256 ^ j))) in
    rw (suc-add, high, be_bytes-append j k n) refl
