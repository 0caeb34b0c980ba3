-- ===== src/Tests.antt =====
-- Runs of the modelled code at concrete inputs, and the theorems at inputs that meet their
-- hypotheses.
pub mod Calc
pub mod Lan
pub mod Lease
pub mod Router
pub mod Server
pub mod Container
pub mod Delegation
pub mod History
pub mod Mape
pub mod Ports
pub mod Syn
