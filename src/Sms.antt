-- ===== src/Sms.antt =====
-- Messages between the modem and the database (src/sms).
pub mod Types
pub mod Multipart
pub mod Manager
pub mod Receiver
pub mod Encryption
pub mod Database
pub mod Service
pub mod Samples
