-- ===== src/Pcp/Steps/Requests.antt =====
-- Every request, PCP or NAT-PMP, is a step of the relation, on every branch.
use sixup.Common.{ℕ, ◌≡◌, ◌⊎◌, true, List, ◌==◌, Bool-cases, inl, inr, arith}
use sixup.Netip.{Addr, is4, addr_valid}
use sixup.Pcp.State.{PcpServer, Host}
use sixup.Pcp.Mapping.{mapping4, mapping}
use sixup.Pcp.Natpmp.{natpmp, natpmp_map, pmp_ask, pmp_request, release_all}
use sixup.Pcp.Respond.{handle, dispatch}
use package.sixup.Pcp.Steps.{Change, same, released}
use package.sixup.Pcp.Steps.Handlers.{mapping4-Change, mapping-Change, clamp_lifetime-IsClamped}

release_all-Change :
    (p : PcpServer) (host : Host) (proto : ℕ) (src : Addr)
    → Change host src p (release_all p proto src)
unfolding release_all
release_all-Change p host proto src = released p proto

pmp_ask-Change :
    (p : PcpServer) (host : Host) (req : List ℕ) (src : Addr)
    → is4 src ≡ true
    → Change host src p (mapping4 p host (pmp_ask (pmp_request req) src)).0
unfolding pmp_ask
pmp_ask-Change p host req src four =
    mapping4-Change p host (pmp_ask (pmp_request req) src)
      (clamp_lifetime-IsClamped (pmp_request req).lifetime) four

natpmp_map-Change :
    (p : PcpServer) (host : Host) (req : List ℕ) (src : Addr)
    → is4 src ≡ true
    → Change host src p (natpmp_map p host req src).0
unfolding natpmp_map
natpmp_map-Change p host req src four = elim (Bool-cases (addr_valid p.ipv4)) [
  | inr nothing ↦ rw nothing (same p)
  | inl there ↦ rw there (elim (Bool-cases ((pmp_request req).internal == 0)) [
    | inr port ↦ rw port (pmp_ask-Change p host req src four)
    | inl all ↦ rw all (elim (Bool-cases ((pmp_request req).lifetime == 0)) [
      | inl release ↦ rw release (release_all-Change p host (pmp_request req).proto src)
      | inr refused ↦ rw refused (same p)
    ])
  ])
]

natpmp_cases :
    (p : PcpServer) (host : Host) (req : List ℕ) (src : Addr)
    → ((natpmp p host req src).0 ≡ p) ⊎ ((natpmp p host req src).0 ≡ (natpmp_map p host req src).0)
unfolding natpmp
natpmp_cases p host req src = ground arith

pub dispatch_cases :
    (p : PcpServer) (host : Host) (req : List ℕ) (src : Addr)
    → ((dispatch p host req src).0 ≡ p) ⊎ ((dispatch p host req src).0 ≡ (mapping p host req src).0)
unfolding dispatch
dispatch_cases p host req src = ground arith

natpmp-Change :
    (p : PcpServer) (host : Host) (req : List ℕ) (src : Addr)
    → is4 src ≡ true
    → Change host src p (natpmp p host req src).0
natpmp-Change p host req src four = elim (natpmp_cases p host req src) [
  | inl unchanged ↦ rw unchanged (same p)
  | inr mapped ↦ rw mapped (natpmp_map-Change p host req src four)
]

dispatch-Change :
    (p : PcpServer) (host : Host) (req : List ℕ) (src : Addr)
    → Change host src p (dispatch p host req src).0
dispatch-Change p host req src = elim (dispatch_cases p host req src) [
  | inl unchanged ↦ rw unchanged (same p)
  | inr mapped ↦ rw mapped (mapping-Change p host req src)
]

handle_cases :
    (p : PcpServer) (host : Host) (req : List ℕ) (src : Addr)
    → ((handle p host req src).0 ≡ p)
      ⊎ ((is4 src ≡ true) × ((handle p host req src).0 ≡ (natpmp p host req src).0))
      ⊎ ((handle p host req src).0 ≡ (dispatch p host req src).0)
unfolding handle
handle_cases p host req src = ground arith

-- Whatever the bytes and the source of a request, PCP or NAT-PMP, what handle does to the state
-- is a sequence of the abstract steps: renew, remove or release mappings of the source host, or
-- grant one of its ports within its quota of 16, at a usable port over IPv4 and at its own port
-- over IPv6, for two minutes to a day, and push it.
pub handle-Change :
    (p : PcpServer) (host : Host) (req : List ℕ) (src : Addr)
    → Change host src p (handle p host req src).0
handle-Change p host req src = elim (handle_cases p host req src) [
  | inl unchanged ↦ rw unchanged (same p)
  | inr (inl (four, old)) ↦ rw old (natpmp-Change p host req src four)
  | inr (inr new) ↦ rw new (dispatch-Change p host req src)
]
