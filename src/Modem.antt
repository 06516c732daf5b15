-- ===== src/Modem.antt =====
-- The modem subsystem (src/modem).
pub mod Types
pub mod Buffer
pub mod Commands
pub mod Parsers
pub mod Handlers
pub mod StateMachine
pub mod Worker
pub mod Manager
pub mod Sender
pub mod Samples
