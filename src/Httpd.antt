-- ===== src/Httpd.antt =====
-- apps/httpserver_raw: the HTTP server on the raw API.
pub mod Params
pub mod Write
pub mod Ssi
pub mod State
pub mod Headers
pub mod Send
pub mod Files
pub mod Response
pub mod Request
pub mod Post
mod Examples
