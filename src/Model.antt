-- ===== src/Model.antt =====
-- internal/model: the data that the components exchange.
pub mod Snapshot
pub mod Event
pub mod Proposal
pub mod Certificate
pub mod Journal
pub mod PredictiveGraph
pub mod Posterior
