-- ===== src/Pcp.antt =====
-- The PCP and NAT-PMP server: pcp.go and natpmp.go.
pub mod Wire
pub mod State
pub mod Ports
pub mod Mapping
pub mod Natpmp
pub mod Respond
pub mod Steps
pub mod World
pub mod Nonce
