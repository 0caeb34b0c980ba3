-- ===== src/Leases/Alone.antt =====
-- Lists of leases (dhcp6s.go), and the addresses in them.
use sixup.Common.{
  ◌∙◌, or-left, or-right, none_ne_some, if-holds, ℕ, ◌+◌, ◌*◌, ◌/◌, ◌%◌, ◌^◌, zero, suc, ◌≡◌, ◌⊎◌,
  inl, inr, true, false, List, [], ◌∷◌, some, ◌==◌, arith, Bool-cases, Option-cases, AllValues, put,
  get, delete, put-AllValues, get-AllValues, delete-AllValues, any, if◌then◌else◌, Bool, u64, sym,
  ap,
}
use mathlib.Core.Option.{some-injective}
use sixup.Netip.Laws.{addr_eq_iff}
use sixup.Netip.{masked, Addr, addr_eq, Prefix}
use package.sixup.Leases.{
  LeaseKey, lease_key_eq, Lease, StaticBind, LeaseServer, LeaseHost, number16, with_iid,
  static_addr, static_for, binds, leased, is_used, search_pool, from_pool, or_pool, pool_size,
  allocate,
}
use package.sixup.Leases.Assign.{keep_leases}

-- A static binding gives the address, in one prefix or another.
unfoldable pub is_of : StaticBind → Addr → Bool
is_of st a =
    if number16 st.addr / 2 ^ 64 == 0
    then number16 a % 2 ^ 64 == number16 st.addr
    else number16 a == number16 st.addr

unfoldable pub is_static : List StaticBind → Addr → Bool
is_static sts a = any (λ (st : StaticBind). is_of st a) sts

module _ (sts : List StaticBind) where
  unfoldable pub IsOther : Addr → Lease → Type 0
  IsOther a m = (addr_eq a m.addr ≡ false) ⊎ (is_static sts a ≡ true)

  -- Every two leases.
  unfoldable pub IsAlone : List (LeaseKey × Lease) → Type 0
  IsAlone [] = Unit
  IsAlone ((k, l) ∷ ls) = AllValues (IsOther l.addr) ls × IsAlone ls

  -- Another lease of the same address changes nothing for the others.
  IsOther-sym : (l m : Lease) → IsOther l.addr m → IsOther m.addr l
  unfolding IsOther
  IsOther-sym l m h = elim (Bool-cases (addr_eq m.addr l.addr)) [
    | inr differ ↦ inl differ
    | inl same ↦
        let is : m.addr ≡ l.addr = (addr_eq_iff m.addr l.addr).0 same in
        elim h [ inl differ ↦ inl (rw is (rw is at differ)) | inr static ↦ inr (rw is static) ]
  ]

  pub put-IsAlone :
      (key : LeaseKey) (l : Lease) (ls : List (LeaseKey × Lease))
      → AllValues (IsOther l.addr) ls
      → IsAlone ls
      → IsAlone (put lease_key_eq key l ls)
  unfolding put IsAlone
  put-IsAlone key l [] other alone = (tt, tt)
  put-IsAlone key l ((k, m) ∷ ls) other alone = elim (Bool-cases (lease_key_eq k key)) [
    | inl here ↦ rw here (other.1, alone.1)
    | inr further ↦ rw further (
      put-AllValues lease_key_eq (IsOther m.addr) key l ls (IsOther-sym l m other.0) alone.0,
      put-IsAlone key l ls other.1 alone.1,
    )
  ]

  same-IsOther : (l m : Lease) (a : Addr) → m.addr ≡ l.addr → IsOther a l → IsOther a m
  unfolding IsOther
  same-IsOther l m a same h = rw same h

  -- A lease that is written again with its address.
  pub put-IsAlone_same :
      (key : LeaseKey) (l old : Lease) (ls : List (LeaseKey × Lease))
      → get lease_key_eq key ls ≡ some old
      → l.addr ≡ old.addr
      → IsAlone ls
      → IsAlone (put lease_key_eq key l ls)
  unfolding put get IsAlone
  put-IsAlone_same key l old [] found same alone = (tt, tt)
  put-IsAlone_same key l old ((k, m) ∷ ls) found same alone =
      elim (Bool-cases (lease_key_eq k key)) [
        | inl here ↦
            let is : m ≡ old = some-injective m old (rw here at found) in
            rw here (rw (same, sym is) alone.0, alone.1)
        | inr further ↦
            let later = rw further at found in
            rw further (
              put-AllValues lease_key_eq (IsOther m.addr) key l ls
                  (same-IsOther old l m.addr same
                    (get-AllValues lease_key_eq (IsOther m.addr) key ls old alone.0 later))
                  alone.0,
              put-IsAlone_same key l old ls later same alone.1,
            )
      ]

  pub delete-IsAlone :
      (key : LeaseKey) (ls : List (LeaseKey × Lease))
      → IsAlone ls
      → IsAlone (delete lease_key_eq key ls)
  unfolding delete IsAlone
  delete-IsAlone key [] alone = tt
  delete-IsAlone key ((k, m) ∷ ls) alone = elim (Bool-cases (lease_key_eq k key)) [
    | inl here ↦ rw here (delete-IsAlone key ls alone.1)
    | inr further ↦ rw further (
      delete-AllValues lease_key_eq (IsOther m.addr) key ls alone.0,
      delete-IsAlone key ls alone.1,
    )
  ]

  keep_leases-AllValues :
      (P : Lease → Type 0) (test : Lease → Bool) (ls : List (LeaseKey × Lease))
      → AllValues P ls
      → AllValues P (keep_leases test ls)
  unfolding keep_leases
  keep_leases-AllValues P test [] all = tt
  keep_leases-AllValues P test ((k, m) ∷ ls) all =
      if-holds (AllValues P) (test m) ((k, m) ∷ keep_leases test ls) (keep_leases test ls)
        (all.0, keep_leases-AllValues P test ls all.1) (keep_leases-AllValues P test ls all.1)

  pub keep_leases-IsAlone :
      (test : Lease → Bool) (ls : List (LeaseKey × Lease))
      → IsAlone ls
      → IsAlone (keep_leases test ls)
  unfolding keep_leases IsAlone
  keep_leases-IsAlone test [] alone = tt
  keep_leases-IsAlone test ((k, m) ∷ ls) alone =
      if-holds IsAlone (test m) ((k, m) ∷ keep_leases test ls) (keep_leases test ls)
        (
          keep_leases-AllValues (IsOther m.addr) test ls alone.0,
          keep_leases-IsAlone test ls alone.1,
        )
        (keep_leases-IsAlone test ls alone.1)

-- What allocate finds is of a static binding, or nobody else's.
other_way : (a b : Addr) → addr_eq a b ≡ false → addr_eq b a ≡ false
other_way a b differ = elim (Bool-cases (addr_eq b a)) [
  | inr so ↦ so
  | inl same ↦ let is : b ≡ a = (addr_eq_iff b a).0 same in rw is (rw is at differ)
]

part_of : (h n : ℕ) → n / 2 ^ 64 == 0 ≡ true → (h * 2 ^ 64 + n % 2 ^ 64) % 2 ^ 64 == n ≡ true
part_of h n small = ground (arith, small)

static_addr-is_of : (st : StaticBind) (prefix : Prefix) → is_of st (static_addr st prefix) ≡ true
unfolding is_of static_addr with_iid number16
static_addr-is_of st prefix = elim (Bool-cases (number16 st.addr / 2 ^ 64 == 0)) [
  | inl part ↦ rw part (part_of (number16 (masked prefix).ip / 2 ^ 64) (number16 st.addr) part)
  | inr whole ↦ rw whole (ground arith)
]

all-IsOther :
    (sts : List StaticBind) (a : Addr) (ls : List (LeaseKey × Lease))
    → (leased ls a ≡ false) ⊎ (is_static sts a ≡ true)
    → AllValues (λ (m : Lease). IsOther sts a m) ls
unfolding leased IsOther
all-IsOther sts a [] h = tt
all-IsOther sts a ((k, m) ∷ ls) (inr static) = (inr static, all-IsOther sts a ls (inr static))
all-IsOther sts a ((k, m) ∷ ls) (inl free) = (
  inl (other_way m.addr a (ground (arith, free))),
  all-IsOther sts a ls (inl (ground (arith, free))),
)

static_for-is_static :
    (sts : List StaticBind) (prefix : Prefix) (duid mac : List ℕ) (a : Addr)
    → static_for sts prefix duid mac ≡ some a
    → is_static sts a ≡ true
unfolding static_for is_static
static_for-is_static [] prefix duid mac a h = absurd (none_ne_some h)
static_for-is_static (st ∷ sts) prefix duid mac a h = elim (Bool-cases (binds st duid mac)) [
  | inl bound ↦
      let is : static_addr st prefix ≡ a =
        some-injective (static_addr st prefix) a (rw bound at h) in
      or-left (is_of st a) _ (rw is at (static_addr-is_of st prefix))
  | inr other ↦ or-right (is_of st a) _ (static_for-is_static sts prefix duid mac a (rw other at h))
]

search_pool-unused :
    (used : Addr → Bool) (prefix : Prefix) (first size start rounds i : ℕ) (a : Addr)
    → search_pool used prefix first size start rounds i ≡ some a
    → used a ≡ false
unfolding search_pool
search_pool-unused used prefix first size start zero i a h = absurd (none_ne_some h)
search_pool-unused used prefix first size start (suc rounds) i a h =
    let b = with_iid prefix (u64 (first + u64 (start + i) % size)) in
    elim (Bool-cases (used b)) [
      | inl taken ↦ search_pool-unused used prefix first size start rounds (i + 1) a (rw taken at h)
      | inr free ↦ let is : b ≡ a = some-injective b a (rw free at h) in rw is at free
    ]

pub allocate-IsOther :
    (s : LeaseServer) (host : LeaseHost) (prefix : Prefix) (key : LeaseKey) (mac : List ℕ)
    (a : Addr)
    → (allocate s host prefix key mac).0 ≡ some a
    → AllValues (λ (m : Lease). IsOther s.statics a m) s.leases
unfolding allocate or_pool from_pool is_used IsOther
allocate-IsOther s host prefix key mac a h =
    elim (Option-cases (static_for s.statics prefix key.duid mac)) [
      | inr (b, found) ↦
          let is : b ≡ a = some-injective b a (rw found at h) in
          all-IsOther s.statics a s.leases
            (inr (static_for-is_static s.statics prefix key.duid mac a (found ∙ ap some is)))
      | inl missing ↦
          let unused =
            search_pool-unused (is_used s host.now) prefix s.pool_start (pool_size s)
              (host.hash key % pool_size s) (pool_size s) 0 a (rw missing at h) in
          all-IsOther s.statics a s.leases (inl (ground (arith, unused)))
    ]
