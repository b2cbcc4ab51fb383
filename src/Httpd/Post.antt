-- ===== src/Httpd/Post.antt =====
-- apps/httpserver_raw/httpd.c with LWIP_HTTPD_SUPPORT_POST (and without LWIP_HTTPD_POST_MANUAL_WND): the
-- requests with the method POST, and what the configuration adds to `http_parse_request`, `http_recv`
-- and `http_close_or_abort_conn`.
pub mod Line
pub mod Handle
pub mod Receive
pub mod Delivery
pub mod Search
pub mod RequestLine
pub mod Begin
pub mod Answered
pub mod Refused
mod Examples
