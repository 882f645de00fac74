-- ===== src/Tests.antt =====
-- Concrete inputs: runs of the model, and the theorems at inputs that meet their hypotheses.
pub mod Samples
pub mod Histories
pub mod Proposals
pub mod Records
pub mod Contracts
pub mod Graphs
pub mod Audits
pub mod Requests
pub mod Authority
pub mod Packets
pub mod Deltas
