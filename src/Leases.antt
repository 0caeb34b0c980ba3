-- ===== src/Leases.antt =====
-- The addresses that the DHCPv6 server of a LAN leases (dhcp6s.go): the choice of the prefix, the
-- allocation, assign, and what takes leases back.
pub mod Assign
pub mod Alone
pub mod World
pub mod Lifetimes
use sixup.Common.{
  ℕ, zero, suc, ◌+◌, ◌-◌, ◌*◌, ◌/◌, ◌%◌, ◌^◌, min, Bool, true, false, not, ◌&&◌, ◌||◌, List, [],
  ◌∷◌, Option, none, some, ◌==◌, ltb, leb, if◌then◌else◌, any, length, put, get, delete, bytes_eq,
  u64, map,
}
use sixup.Netip.{
  Addr, no_addr, ip4, ip6, addr_valid, addr_eq, Prefix, masked, prefix_contains, mapped_prefix,
}
use sixup.Store.{LinePrefix, Snapshot, is_ula, preferred_left, valid_left}
use sixup.Store.Subnet.{lan_of}
use sixup.PdPool.{PdKey, PdLease}

-- The key of `leases`: the code joins its parts in a text.
pub record LeaseKey : Type 0 where
  pub duid : List ℕ
  pub iaid : ℕ

unfoldable pub lease_key_eq : LeaseKey → LeaseKey → Bool
lease_key_eq a b = bytes_eq a.duid b.duid && a.iaid == b.iaid

pub record Lease : Type 0 where
  pub duid : List ℕ
  pub iaid : ℕ
  pub addr : Addr
  pub expires : ℕ
  pub mac : List ℕ
  pub hostname : List ℕ
  pub peer : Addr
  pub reconf_key : List ℕ

pub record StaticBind : Type 0 where
  pub mac : List ℕ
  pub duid : List ℕ
  pub addr : Addr

-- The part of `dhcpServer` that its leases go by; `pd` are the leases of the pool of delegations.
pub record LeaseServer : Type 0 where
  pub ifname : List ℕ
  pub statics : List StaticBind
  pub pool_start : ℕ
  pub pool_end : ℕ
  pub preferred : ℕ
  pub valid : ℕ
  pub pd : List (PdKey × PdLease)
  pub snap : Snapshot
  pub leases : List (LeaseKey × Lease)
  pub declined : List (Addr × ℕ)

-- What an IA_NA of a message asks, with the message's own part of it; `mac` is macFromDUID of it.
pub record IaRequest : Type 0 where
  pub duid : List ℕ
  pub iaid : ℕ
  pub mac : List ℕ
  pub addrs : List Addr
  pub is_renew : Bool
  pub hostname : Option (List ℕ)
  pub peer : Addr
  pub commit : Bool
  pub wants_reconf : Bool

-- The time, FNV-1a over the key's bytes, and a new Reconfigure key.
pub record LeaseHost : Type 0 where
  pub now : ℕ
  pub hash : LeaseKey → ℕ
  pub new_key : List ℕ

-- `activePrefix`: the first prefix in use that is no ULA, else the first ULA.
unfoldable pub active_from : List LinePrefix → Option LinePrefix → Option LinePrefix
active_from [] ula = ula
active_from (p ∷ ps) none =
    let rest = active_from ps none in
    let after_ula = active_from ps (some p) in
    if p.deprecated then rest else if is_ula p.source then after_ula else some p
active_from (p ∷ ps) (some u) =
    let rest = active_from ps (some u) in if p.deprecated || is_ula p.source then rest else some p

unfoldable pub active_prefix : LeaseServer → Option LinePrefix
active_prefix s = active_from (lan_of s.snap.lan s.ifname) none

-- `lifetimes`, the preferred and the valid one.
unfoldable pub lifetimes : LeaseServer → LinePrefix → ℕ → ℕ × ℕ
lifetimes s p now =
    let pref = min s.preferred (preferred_left now p) in
    let valid = min s.valid (valid_left now p) in (min pref valid, valid)

-- `As16` as a number.
unfoldable pub number16 : Addr → ℕ
number16 no_addr = 0
number16 (ip4 a) = mapped_prefix * 2 ^ 32 + a
number16 (ip6 a) = a

-- An address with the upper half of the prefix's.
unfoldable pub with_iid : Prefix → ℕ → Addr
with_iid prefix iid = ip6 (number16 (masked prefix).ip / 2 ^ 64 * 2 ^ 64 + iid % 2 ^ 64)

-- `strings.EqualFold` of a MAC address as Go prints it, which is ASCII.
unfoldable pub lower : ℕ → ℕ
lower c = if leb 65 c && leb c 90 then c + 32 else c

unfoldable pub equal_fold : List ℕ → List ℕ → Bool
equal_fold a b = bytes_eq (map lower a) (map lower b)

unfoldable pub binds : StaticBind → List ℕ → List ℕ → Bool
binds st duid mac =
    (ltb 0 (length st.duid) && bytes_eq st.duid duid)
    || (ltb 0 (length st.mac) && equal_fold st.mac mac)

-- The address of a static binding: a full one, or an interface's part of one.
unfoldable pub static_addr : StaticBind → Prefix → Addr
static_addr st prefix =
    if number16 st.addr / 2 ^ 64 == 0
    then with_iid prefix (number16 st.addr)
    else ip6 (number16 st.addr)

unfoldable pub static_for : List StaticBind → Prefix → List ℕ → List ℕ → Option Addr
static_for [] prefix duid mac = none
static_for (st ∷ sts) prefix duid mac =
    let rest = static_for sts prefix duid mac in
    if binds st duid mac then some (static_addr st prefix) else rest

-- `used`, by its three loops.
unfoldable pub leased : List (LeaseKey × Lease) → Addr → Bool
leased [] a = false
leased ((k, l) ∷ ls) a = addr_eq l.addr a || leased ls a

unfoldable pub static_has : List StaticBind → Addr → Bool
static_has sts a = any (λ (st : StaticBind). addr_eq st.addr a) sts

unfoldable pub still_declined : List (Addr × ℕ) → ℕ → List (Addr × ℕ)
still_declined [] now = []
still_declined ((a, until) ∷ ds) now =
    let rest = still_declined ds now in if ltb now until then (a, until) ∷ rest else rest

unfoldable pub declined_has : List (Addr × ℕ) → Addr → Bool
declined_has [] a = false
declined_has ((b, until) ∷ ds) a = addr_eq b a || declined_has ds a

unfoldable pub is_used : LeaseServer → ℕ → Addr → Bool
is_used s now a =
    leased s.leases a || static_has s.statics a || declined_has (still_declined s.declined now) a

-- The loop over the pool, by the rounds left.
unfoldable pub search_pool : (Addr → Bool) → Prefix → ℕ → ℕ → ℕ → ℕ → ℕ → Option Addr
search_pool used prefix first size start zero i = none
search_pool used prefix first size start (suc rounds) i =
    let rest = search_pool used prefix first size start rounds (i + 1) in
    let a = with_iid prefix (u64 (first + u64 (start + i) % size)) in
    if used a then rest else some a

unfoldable pub pool_size : LeaseServer → ℕ
pool_size s = u64 (s.pool_end + 2 ^ 64 - s.pool_start + 1)

unfoldable pub from_pool : LeaseServer → LeaseHost → Prefix → LeaseKey → Option Addr
from_pool s host prefix key =
    search_pool (is_used s host.now) prefix s.pool_start (pool_size s) (host.hash key % pool_size s)
      (pool_size s) 0

-- `allocate`, and `declined` after it.
unfoldable pub or_pool :
    Option Addr → LeaseServer → LeaseHost → Prefix → LeaseKey → Option Addr × List (Addr × ℕ)
or_pool (some a) s host prefix key = (some a, s.declined)
or_pool none s host prefix key = (from_pool s host prefix key, still_declined s.declined host.now)

unfoldable pub allocate :
    LeaseServer → LeaseHost → Prefix → LeaseKey → List ℕ → Option Addr × List (Addr × ℕ)
allocate s host prefix key mac =
    or_pool (static_for s.statics prefix key.duid mac) s host prefix key
