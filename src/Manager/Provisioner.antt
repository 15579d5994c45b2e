-- ===== src/Manager/Provisioner.antt =====
-- The task provisioner (src/janus_manager/implementation/mod.rs): the training sessions of one
-- aggregator, and the four requests that it handles. `Provision` writes tasks to the datastore.
pub mod Provision
pub mod State
pub mod Handlers
pub mod Provisioned
pub mod Start
pub mod Create
pub mod Query
pub mod StartedQuery
pub mod Machine
pub mod Invariant
pub mod Race
pub mod Sessions
pub mod Gains
pub mod Same
pub mod Frame
pub mod Swap
