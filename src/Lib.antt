-- ===== src/Lib.antt =====
-- sixup is an IPv6 router in one program. This library models its prefix store, which turns what
-- the line's sources say into snapshots and assigns the LANs their prefixes, the parameters of a
-- MAP-E line from the rule tables and from the DHCPv6 option on, the PCP and NAT-PMP server,
-- which hands ports out of that line's port set, the pool of prefix delegations, the leases of
-- the DHCPv6 server, and the rejecter of dropped SYNs.
--
-- Parts and how they interact. The DHCPv6 client, the listener of router advertisements, the
-- settings and the capture each send the store (prefix.go) what they know; the store recomputes
-- the snapshot, in it the tunnel's parameters (mape.go, mape_rules.go, tunnel.go) and the
-- prefixes of the LANs, and publishes it through one channel per consumer. natPlanFor
-- (nat_plan.go) reads the tunnel's IPv4 and port set out of a snapshot; the PCP server (pcp.go,
-- natpmp.go) follows them in setTunnel, answers requests of LAN hosts out of the port set, and
-- hands its mappings to the NAT and to the IPv6 filter through channels that hold one set each.
-- The firewall's SYN rejecter (synreject.go) answers dropped SYNs after six seconds. Beside it,
-- the DHCPv6 servers of all LANs delegate prefixes out of one pool (pd.go, dhcp6s.go) and lease
-- addresses in a prefix of the LAN.
--
-- Files, the store. Store: the types of prefix.go and their methods. Store/State: the state of
-- Store, and pickSource. Store/Subnet: splitLAN, spareSubnet, wanSubnet and sharedWith, with
-- Split and Spare (which subnets, and that one is found). recompute is in stages, in the order of
-- its body: Store/Stages (the sources and the tunnel), Store/Handout (addWAN, the loops over the
-- prefixes and the segments, the ULA), Store/Diff (what went, and the deprecate periods),
-- Store/Classify (the kind of change, with Quiet), and Store/Recompute (the whole, publish and
-- saveAdvertised). Handout/Keeps and Diff/Keeps are the lemma that a property of the work
-- survives those stages; Recompute/Published (when a channel gets the snapshot),
-- Recompute/Revoked with Segment, Withdrawn, Covers and Kept (withdrawals), Recompute/Granted,
-- Bounded and Within (expiries), and Recompute/Live and Lasting (what is still valid) use them;
-- Stages/Empty is where they start. Store/Messages: newStore, withdrawULA, nextExpiry and each
-- case of loop, with Wakes (nextExpiry). Store/World: the loop as steps in any order, with
-- Scheduled, Started and Granted.
--
-- Files, the lines. Mape: the types of mape.go and tunnel.go; Mape/Spans: portSpans, portCount
-- and pcp.go's nthPort, with Shape (closed form), Owned (which ports), Valid (the spans in plain
-- numbers, bounds, count) and Count (indices); Mape/S46: bitsAt, bmrFor, mapeFromS46 and s46,
-- with Field (bitsAt), Rule (bmrFor), Address and RoundTrip. Mape/Rules: the tables of
-- mape_rules.go, row by row. Mape/Calc: calcMAPE, with Line (its parts as numbers), Container
-- (its container) and Agrees. Tunnel: the containers of RFC 7598 as bytes (walkOptions,
-- parseS46Cont and its parts), with Walk (the options) and Rule (what a rule that was read is
-- like); Tunnel/Params: TunnelParams, resolve, endpoints and tunnelEqual. NatPlan: natPlanFor.
--
-- Files, the rest. Netip: net/netip of Go's standard library, as far as it is used. PdPool: the
-- pool of pd.go, with Pick (how a prefix is picked, and the commits of dhcp6s.go), Picked (what
-- is picked), Disjoint (lists of delegations) and World (the pool over time). Leases: the DHCPv6
-- server's leases (dhcp6s.go), activePrefix, allocate and lifetimes, with Assign (assign, and
-- what takes leases back), Alone (lists of leases), World (the leases over time) and Lifetimes.
-- SynReject: parseSYN and the table of waiting SYNs, with Pending (the table over time).
-- Pcp/Wire: messages as bytes (header, fail, mapResponse, pcpOptions), with RoundTrip. Pcp/State:
-- pcpServer, its map as an association list, push, expire, setTunnel, with Maps (laws of the
-- list). Pcp/Ports: pickPort, with Pick and Unique. Pcp/Mapping: mapping, mapping4, pinhole,
-- mapStateful. Pcp/Natpmp: natpmp. Pcp/Respond: respond, which is handle without its log.
-- Pcp/Steps: the abstract steps of a request, with Handlers and Requests (every handler is such
-- steps), Sound (the invariant), Synced (the channels), Frame, Tunnel and Expiry. Pcp/World: the
-- loop of run and the readers of the channels as steps in any order. Pcp/Nonce: protection by the
-- nonce. Tests: runs.
--
-- State and operations. A handler takes its component's state and returns the new one, with the
-- reply's bytes where there is a reply; no reply is none. An instant is a number of nanoseconds,
-- below the range of a 64-bit duration, and 0 is Go's zero time. Words keep their wrap-around
-- (u16, u32, u64). A request comes with a Host: the time, the ports that the router listens on
-- itself (from the kernel, or a test's listeners) and rand.IntN, over which every theorem ranges.
-- The maps of Go are association lists, read and written by get, put and delete, or by find and
-- put for mappings and lease_of and put_lease for the pool; a loop over a map takes them in the
-- list's order. A key of the pool or of a lease is a record, where the code joins its parts in a
-- text. recompute takes two instants, its own and the one that pickSource reads from the clock,
-- and the theorems hold for every two. nil and an empty slice are one list, except for the record
-- of a run before, whose nil is none. A timer is the instant at which it goes off. The number of
-- a subnet is not negative.
--
-- Bounds and fuel. walkOptions and pcpOptions take at least four bytes a round, so as many rounds
-- as there are bytes suffice (visit-walk_from in Tunnel/Walk, options_from_fuel in
-- Pcp/Wire/RoundTrip). The loops over spans, ports and spare subnets recur on the rounds left,
-- every other one on its list.
--
-- The router's own ULAs are in a run's theorem a set of prefixes, own, that has the subnets of
-- the configured ones and the recorded ones. The six seconds of a SYN's timer are nanoseconds,
-- and go_off is the timer that time.AfterFunc sets.
--
-- FNV-1a over a key's text is a function of the key that the theorems range over. The MAC address
-- in a DUID is a part of the request. A pool of all 2^64 interface parts, whose size is 0 in 64
-- bits and a division by 0 in Go, has no address here.
--
-- Not modelled: of the store the log and its warnings, the advice of describe and proxyAdvice,
-- and the file beside what is written to it, so that a write never fails, nor the order of its
-- entries; the provider's name in a MAP-E line, which is for the log; the reading of whole DHCPv6
-- messages (parseTunnel) and the resolver of the AFTR's name; the DHCPv6 server's replies as
-- messages, its Reconfigure messages and its lease file; files of the pool, which starts empty;
-- routes, sockets and which interface a request came in on, the announcements, and the other
-- parts of the router, among them the DHCPv6 client, the address manager and the kernel's
-- interfaces.
pub mod Common
pub mod Leases
pub mod Mape
pub mod NatPlan
pub mod Netip
pub mod Pcp
pub mod PdPool
pub mod Store
pub mod SynReject
pub mod Tests
pub mod Tunnel
