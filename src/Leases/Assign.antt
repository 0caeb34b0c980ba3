-- ===== src/Leases/Assign.antt =====
-- How the DHCPv6 server answers an IA_NA, and what ends leases: assign, the releases in handle,
-- onPrefixChange and expireLeases of dhcp6s.go.
use sixup.Common.{
  ◌-◌, ◌^◌, u64, ℕ, ◌+◌, ◌*◌, ◌/◌, Bool, false, not, ◌&&◌, ◌||◌, List, [], ◌∷◌, Option, none, some,
  ltb, if◌then◌else◌, any, length, put, get, delete, bytes_eq,
}
use sixup.Netip.{Addr, no_addr, addr_valid, addr_eq, prefix_contains}
use sixup.Store.{LinePrefix, Snapshot}
use sixup.PdPool.{PdKey, PdLease}
use package.sixup.Leases.{
  LeaseKey, lease_key_eq, Lease, LeaseServer, IaRequest, LeaseHost, active_prefix, lifetimes,
  allocate,
}

-- What the reply's IA_NA holds: the addresses that it takes back, and a status or an address with
-- its lifetimes and times of renewal, each a 64-bit word of nanoseconds in two's complement.
pub data IaResult : Type 0 where
  no_addrs_avail no_binding : IaResult
  granted : (addr : Addr) (preferred valid t1 t2 : ℕ) → IaResult

pub record IaAnswer : Type 0 where
  pub withdrawn : List Addr
  pub result : IaResult

unfoldable pub key_of : IaRequest → LeaseKey
key_of q = record { duid = q.duid; iaid = q.iaid }

-- The addresses of the client outside of the prefix.
unfoldable pub outside : LinePrefix → List Addr → List Addr
outside p [] = []
outside p (a ∷ as_) =
    let rest = outside p as_ in if prefix_contains p.prefix a then rest else a ∷ rest

unfoldable pub lease_in : LinePrefix → Option Lease → Option Lease
lease_in p none = none
lease_in p (some l) = if prefix_contains p.prefix l.addr then some l else none

-- `knownKey`, empty while the client has none, and `reconfKey`.
unfoldable pub pd_key_of : List (PdKey × PdLease) → List ℕ → List ℕ
pd_key_of [] duid = []
pd_key_of ((k, l) ∷ ls) duid =
    let rest = pd_key_of ls duid in
    if bytes_eq l.duid duid && ltb 0 (length l.reconf_key) then l.reconf_key else rest

unfoldable pub known_key : List (LeaseKey × Lease) → List (PdKey × PdLease) → List ℕ → List ℕ
known_key [] pd duid = pd_key_of pd duid
known_key ((k, l) ∷ ls) pd duid =
    let rest = known_key ls pd duid in
    if bytes_eq l.duid duid && ltb 0 (length l.reconf_key) then l.reconf_key else rest

unfoldable pub reconf_key_of : LeaseServer → LeaseHost → List ℕ → List ℕ
reconf_key_of s host duid =
    let k = known_key s.leases s.pd duid in if ltb 0 (length k) then k else host.new_key

-- What a commit writes into the lease; the name is the first label of an FQDN option.
unfoldable pub name_or : Option (List ℕ) → List ℕ → List ℕ
name_or none old = old
name_or (some name) old = name

unfoldable pub refreshed : LeaseServer → LeaseHost → IaRequest → ℕ → Lease → Lease
refreshed s host q valid l = record l {
  expires = host.now + valid;
  peer = q.peer;
  hostname = name_or q.hostname l.hostname;
  reconf_key =
      if q.wants_reconf && not (ltb 0 (length l.reconf_key))
      then reconf_key_of s host q.duid
      else l.reconf_key;
}

-- A tenth of a 64-bit duration: Go divides towards 0.
unfoldable pub tenth : ℕ → ℕ
tenth x = if ltb x (2 ^ 63) then x / 10 else u64 (2 ^ 64 - (2 ^ 64 - x) / 10)

-- The end of `assign`, with a lease in the prefix.
unfoldable pub grant :
    LeaseServer → LeaseHost → LinePrefix → IaRequest → Lease → LeaseServer × IaAnswer
grant s host p q l =
    let (pref, valid) = lifetimes s p host.now in
    let leases = put lease_key_eq (key_of q) (refreshed s host q valid l) s.leases in
    let result = granted l.addr pref valid (pref / 2) (tenth (u64 (pref * 8))) in
    (
      if q.commit then record s { leases = leases } else s,
      record { withdrawn = outside p q.addrs; result = result },
    )

unfoldable pub grant_new :
    LeaseServer
    → LeaseHost
    → LinePrefix
    → IaRequest
    → Option Addr × List (Addr × ℕ)
    → LeaseServer × IaAnswer
grant_new s host p q (none, declined) = (
  record s { declined = declined },
  record { withdrawn = outside p q.addrs; result = no_addrs_avail },
)
grant_new s host p q (some a, declined) =
    grant (record s { declined = declined }) host p q
      (record {
        duid = q.duid;
        iaid = q.iaid;
        addr = a;
        expires = 0;
        mac = q.mac;
        hostname = [];
        peer = no_addr;
        reconf_key = [];
      })

unfoldable pub assign_in :
    LeaseServer → LeaseHost → LinePrefix → IaRequest → Option Lease → LeaseServer × IaAnswer
assign_in s host p q (some l) = grant s host p q l
assign_in s host p q none =
    let found = grant_new s host p q (allocate s host p.prefix (key_of q) q.mac) in
    if q.is_renew then (s, record { withdrawn = outside p q.addrs; result = no_binding }) else found

unfoldable pub assign_with :
    LeaseServer → LeaseHost → IaRequest → Option LinePrefix → LeaseServer × IaAnswer
assign_with s host q none = (s, record { withdrawn = []; result = no_addrs_avail })
assign_with s host q (some p) =
    assign_in s host p q (lease_in p (get lease_key_eq (key_of q) s.leases))

-- `assign`.
unfoldable pub assign : LeaseServer → LeaseHost → IaRequest → LeaseServer × IaAnswer
assign s host q = assign_with s host q (active_prefix s)

-- `declineHold`.
abbrev pub decline_hold : ℕ
decline_hold = 3600 * 1000000000

-- A Release or a Decline of an IA_NA.
unfoldable pub decline : ℕ → List Addr → Option Lease → List (Addr × ℕ) → List (Addr × ℕ)
decline now addrs none declined = declined
decline now addrs (some l) declined =
    if any (addr_eq l.addr) addrs
    then put addr_eq l.addr (now + decline_hold) declined
    else declined

unfoldable pub release : LeaseServer → ℕ → Bool → LeaseKey → List Addr → LeaseServer
release s now is_decline key addrs =
    let declined = decline now addrs (get lease_key_eq key s.leases) s.declined in
    record s {
      leases = delete lease_key_eq key s.leases;
      declined = if is_decline then declined else s.declined;
    }

-- `expireLeases`, and the leases that `onPrefixChange` drops: those outside of the prefix whose
-- client cannot be told.
unfoldable pub keep_leases : (Lease → Bool) → List (LeaseKey × Lease) → List (LeaseKey × Lease)
keep_leases test [] = []
keep_leases test ((k, l) ∷ ls) =
    let rest = keep_leases test ls in if test l then (k, l) ∷ rest else rest

unfoldable pub expire_leases : LeaseServer → ℕ → LeaseServer
expire_leases s now = record s { leases = keep_leases (λ l. not (ltb l.expires now)) s.leases }

unfoldable pub in_prefix : Option LinePrefix → Addr → Bool
in_prefix none a = false
in_prefix (some p) a = prefix_contains p.prefix a

unfoldable pub stays : Option LinePrefix → Lease → Bool
stays p l = in_prefix p l.addr || (ltb 0 (length l.reconf_key) && addr_valid l.peer)

-- A new snapshot, and `onPrefixChange` where it added or revoked.
unfoldable pub on_snapshot : LeaseServer → Snapshot → Bool → LeaseServer
on_snapshot s snap changed =
    let t = record s { snap = snap } in
    if changed then record t { leases = keep_leases (stays (active_prefix t)) s.leases } else t
