-- ===== src/SynReject.antt =====
-- The dropped SYNs that wait for an ICMPv6 error: `parseSYN`, `add` and `due` of synreject.go.
-- NFLOG, conntrack and the socket are netlink and I/O: what they answer is a parameter of a step.
pub mod Pending
use sixup.Common.{
  ℕ, suc, ◌+◌, ◌-◌, ◌/◌, bit_and, Bool, true, false, not, ◌&&◌, ◌||◌, List, [], ◌∷◌, Option, none,
  some, ◌==◌, ltb, leb, if◌then◌else◌, length, get_or, drop, slice, from_be,
}
use sixup.Netip.{Addr, ip6, AddrPort, addr_port_eq}

-- `synFlow`: from the remote end, to the LAN.
pub record SynFlow : Type 0 where
  pub from : AddrPort
  pub to : AddrPort

unfoldable pub flow_eq : SynFlow → SynFlow → Bool
flow_eq f g = addr_port_eq f.from g.from && addr_port_eq f.to g.to

-- `synWait`, 6 seconds.
abbrev pub syn_wait : ℕ
syn_wait = 6000000000

abbrev pub syn_pending_max : ℕ
syn_pending_max = 4096

-- `pending`, the timers that `add` has set, each with the time it is due, and the errors that
-- were sent, the latest first.
pub record SynRejecter : Type 0 where
  pub pending : List (SynFlow × List ℕ)
  pub timers : List (SynFlow × ℕ)
  pub sent : List (SynFlow × List ℕ)

-- `none` for its false.
unfoldable pub parse_syn : List ℕ → Option SynFlow
parse_syn pkt =
    let tcp = drop 40 pkt in
    if ltb (length pkt) 60 || not (get_or pkt 0 0 / 16 == 6) || not (get_or pkt 6 0 == 6)
    then none
    else if not (bit_and (get_or tcp 13 0) 0x12 == 0x02)
    then none
    else some (record {
      from = record { addr = ip6 (from_be (slice 8 24 pkt)); port = from_be (slice 0 2 tcp) };
      to = record { addr = ip6 (from_be (slice 24 40 pkt)); port = from_be (slice 2 4 tcp) };
    })

-- The entry of a flow, and the deletion of it.
unfoldable pub entry {ℓ} : {A : Type ℓ} → SynFlow → List (SynFlow × A) → Option A
entry flow [] = none
entry flow ((f, a) ∷ es) = let rest = entry flow es in if flow_eq f flow then some a else rest

unfoldable pub without {ℓ} : {A : Type ℓ} → SynFlow → List (SynFlow × A) → List (SynFlow × A)
without flow [] = []
without flow ((f, a) ∷ es) =
    let rest = without flow es in if flow_eq f flow then rest else (f, a) ∷ rest

unfoldable pub waiting : Option (List ℕ) → Bool
waiting none = false
waiting (some pkt) = true

unfoldable pub add_flow : SynRejecter → ℕ → List ℕ → Option SynFlow → SynRejecter
unfolding waiting
add_flow r now pkt none = r
add_flow r now pkt (some flow) =
    if waiting (entry flow r.pending) || leb syn_pending_max (length r.pending)
    then r
    else record r { pending = (flow, pkt) ∷ r.pending; timers = (flow, now + syn_wait) ∷ r.timers }

unfoldable pub add : SynRejecter → ℕ → List ℕ → SynRejecter
add r now pkt = add_flow r now pkt (parse_syn pkt)

-- `due`: what conntrack says of the flow, none for an error, and whether the socket takes the
-- packet. A flow that is not pending has the nil packet of Go's map.
unfoldable pub due : SynRejecter → SynFlow → List ℕ → Option Bool → Bool → SynRejecter
due r flow pkt none takes = r
due r flow pkt (some opened) takes =
    if opened then r else if takes then record r { sent = (flow, pkt) ∷ r.sent } else r

packet_of : Option (List ℕ) → List ℕ
packet_of none = []
packet_of (some pkt) = pkt

-- The timer of a flow goes off; `stopped` says that the context has ended.
unfoldable pub fire : SynRejecter → SynFlow → Bool → Option Bool → Bool → SynRejecter
unfolding packet_of
fire r flow stopped conntrack takes =
    let pkt = packet_of (entry flow r.pending) in
    let left = record r { pending = without flow r.pending; timers = without flow r.timers } in
    if stopped then left else due left flow pkt conntrack takes
