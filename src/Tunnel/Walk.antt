-- ===== src/Tunnel/Walk.antt =====
-- `walkOptions` visits exactly the options that were written, and ends within its fuel.
use mathlib.Core.Option.{some-injective}
use mathlib.Core.Path.{subst}
use sixup.Common.{
  none_ne_some, ℕ, zero, suc, ◌+◌, ◌-◌, ◌≤◌, ◌<◌, ◌≡◌, refl, sym, false, List, [], ◌∷◌, ◌++◌,
  Option, some, ltb, length, drop, slice, be_bytes, from_be, All, All-take, All-drop, arith,
  length-append, take_front, drop_front, Bool-cases, Option-cases, inl, inr,
}
use package.sixup.Tunnel.{after, walk_from, walk_options}

-- A DHCPv6 option.
pub record Tlv : Type 0 where
  pub code : ℕ
  pub payload : List ℕ

unfoldable pub write_tlv : Tlv → List ℕ
write_tlv o = be_bytes 2 o.code ++ (be_bytes 2 (length o.payload) ++ o.payload)

unfoldable pub write_tlvs : List Tlv → List ℕ
write_tlvs [] = []
write_tlvs (o ∷ os) = write_tlv o ++ write_tlvs os

-- Code and length fit in their fields.
abbrev pub IsTlv : Tlv → Type 0
IsTlv o = (o.code < 65536) × (length o.payload < 65536)

module _ (o : Tlv) (rest : List ℕ) where
  read_code : IsTlv o → from_be (slice 0 2 (write_tlv o ++ rest)) ≡ o.code
  unfolding write_tlv
  read_code h = omega (arith, h.0)

  read_size : IsTlv o → from_be (slice 2 4 (write_tlv o ++ rest)) ≡ length o.payload
  unfolding write_tlv
  read_size h = omega (arith, h.1)

  read_payload : slice 4 (4 + length o.payload) (write_tlv o ++ rest) ≡ o.payload
  unfolding write_tlv
  read_payload = take_front (4 + length o.payload - 4) o.payload rest (omega arith)

  length-write_tlv : length (write_tlv o) ≡ 4 + length o.payload
  unfolding write_tlv
  length-write_tlv = omega arith

  skip_tlv : drop (4 + length o.payload) (write_tlv o ++ rest) ≡ rest
  skip_tlv = drop_front (4 + length o.payload) (write_tlv o) rest (sym length-write_tlv)

module _ {A : Type 0} (fn : A → ℕ → List ℕ → Option A) where
  -- `fn` on each option in turn, until its first error.
  unfoldable pub visit : List Tlv → A → Option A
  unfolding after
  visit [] a = some a
  visit (o ∷ os) a = after (visit os) (fn a o.code o.payload)

  walk_from_step :
      (o : Tlv) (rest : List ℕ) (n : ℕ) (a : A)
      → IsTlv o
      → walk_from fn (suc n) (write_tlv o ++ rest) a
        ≡ after (walk_from fn n rest) (fn a o.code o.payload)
  unfolding walk_from write_tlv
  walk_from_step o rest n a h =
      let all = length-append (write_tlv o) rest in
      let whole : ltb (length (write_tlv o ++ rest)) 4 ≡ false =
        ground (arith, length-write_tlv o) in
      let inside : ltb (length (write_tlv o ++ rest)) (4 + length o.payload) ≡ false =
        ground (arith, length-write_tlv o) in
      rw (read_size o rest h, read_payload o rest, read_code o rest h, whole, inside)
        (rw (skip_tlv o rest) refl)

  visit-walk_from :
      (os : List Tlv) (rounds : ℕ) (a : A)
      → All IsTlv os
      → length (write_tlvs os) ≤ rounds
      → walk_from fn rounds (write_tlvs os) a ≡ visit os a
  unfolding visit write_tlvs after
  visit-walk_from [] rounds a h l = unfold walk_from in refl
  visit-walk_from (o ∷ os) zero a h l =
      absurd (omega (arith, length-append (write_tlv o) (write_tlvs os), length-write_tlv o))
  visit-walk_from (o ∷ os) (suc n) a h l =
      let fewer : length (write_tlvs os) ≤ n =
        omega (arith, length-append (write_tlv o) (write_tlvs os), length-write_tlv o) in
      rw (walk_from_step o (write_tlvs os) n a h.0) (elim (Option-cases (fn a o.code o.payload)) [
        | inl failed ↦ rw failed refl
        | inr (a', passed) ↦ rw passed (visit-walk_from os n a' h.1 fewer)
      ])

  -- On the bytes of options whose code and length fit their fields, walkOptions calls fn with the
  -- code and the data of each of them in turn, until the first error, and ends without an error
  -- of its own.
  pub walk_options-write_tlvs :
      (os : List Tlv) (a : A) → All IsTlv os → walk_options fn (write_tlvs os) a ≡ visit os a
  unfolding walk_options
  walk_options-write_tlvs os a h = visit-walk_from os (length (write_tlvs os)) a h (omega arith)

-- What `fn` keeps, the walk keeps.
module _ {A : Type 0} (fn : A → ℕ → List ℕ → Option A) (Kept : A → Type 0)
    (keeps : (a b : A) (code : ℕ) (pv : List ℕ)
      → All (λ x. x < 256) pv
      → Kept a
      → fn a code pv ≡ some b
      → Kept b) where
  walk_from-Kept :
      (rounds : ℕ) (v : List ℕ) (a b : A)
      → All (λ x. x < 256) v
      → Kept a
      → walk_from fn rounds v a ≡ some b
      → Kept b
  unfolding walk_from after
  walk_from-Kept rounds [] a b bytes kept h = subst Kept (some-injective a b h) kept
  walk_from-Kept zero (x ∷ v) a b bytes kept h = absurd (ground arith)
  walk_from-Kept (suc rounds) (x ∷ v) a b bytes kept h =
      let code = from_be (slice 0 2 (x ∷ v)) in
      let len = from_be (slice 2 4 (x ∷ v)) in
      let payload = slice 4 (4 + len) (x ∷ v) in
      elim (Bool-cases (ltb (length (x ∷ v)) 4)) [
        | inl short ↦ absurd (none_ne_some (rw short at h))
        | inr long ↦ elim (Bool-cases (ltb (length (x ∷ v)) (4 + len))) [
          | inl over ↦ absurd (none_ne_some (rw (long, over) at h))
          | inr fits ↦ elim (Option-cases (fn a code payload)) [
            | inl failed ↦ absurd (none_ne_some (rw (long, fits, failed) at h))
            | inr (c, passed) ↦
                walk_from-Kept rounds (drop (4 + len) (x ∷ v)) c b
                  (All-drop (λ y. y < 256) (4 + len) (x ∷ v) bytes)
                  (keeps a c code payload
                    (All-take (λ y. y < 256) (4 + len - 4) (drop 4 (x ∷ v))
                      (All-drop (λ y. y < 256) 4 (x ∷ v) bytes))
                    kept passed)
                  (rw (long, fits, passed) at h)
          ]
        ]
      ]

  pub walk_options-Kept :
      (v : List ℕ) (a b : A) → All (λ x. x < 256) v → Kept a → walk_options fn v a ≡ some b → Kept b
  unfolding walk_options
  walk_options-Kept v a b bytes kept h = walk_from-Kept (length v) v a b bytes kept h
