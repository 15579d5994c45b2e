-- ===== src/Manager.antt =====
-- The janus manager (src/janus_manager): its messages, the task provisioner, the server's endpoints
-- and the client of the controller.
pub mod Messages
pub mod Keyring
pub mod Provisioner
pub mod Http
pub mod Network
pub mod Server
pub mod Consumer
pub mod Launch
