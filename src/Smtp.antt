-- ===== src/Smtp.antt =====
-- apps/smtp: the SMTP client.
pub mod Types
pub mod Base64
pub mod Verify
pub mod Response
pub mod Prepare
pub mod Auth
pub mod Process
pub mod Callbacks
pub mod Send
mod Examples
