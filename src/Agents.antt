-- ===== src/Agents.antt =====
-- apps/api/app/agents: plans, the values that later steps take from earlier ones, and the master
-- agent that runs a plan through the tool gateway.
pub mod Contracts
pub mod Bindings
pub mod Execute
pub mod Verification
pub mod Resume
pub mod Handle
