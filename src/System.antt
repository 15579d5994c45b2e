-- ===== src/System.antt =====
-- The parts together: the two janus managers behind a network that may lose requests and answers,
-- as the world that the controller and the clients call.
pub mod World
pub mod Delivery
pub mod Both
pub mod Create
pub mod Round
pub mod Finish
pub mod Retries
pub mod Delivered
pub mod Progress
pub mod Rely
pub mod Queries
pub mod Rounds
pub mod Exchanges
pub mod Attempts
pub mod InRound
pub mod Exclusive
pub mod Setup
pub mod Addresses
pub mod Client
pub mod Lifecycle
pub mod Tasks
pub mod Collision
