-- ===== src/Httpd/Ssi.antt =====
-- apps/httpserver_raw/httpd.c: server-side includes, `http_send_data_ssi`, in the configuration with
-- the tag kept in the output (LWIP_HTTPD_SSI_INCLUDE_TAG) and without LWIP_HTTPD_SSI_MULTIPART.
-- The file is a list of bytes and the pointers `hs->file`, `ssi->parsed` and `ssi->tag_end` into it
-- are offsets; `tag_name` is the part of the array before `tag_index`, and `tag_insert` the
-- `tag_insert_len` bytes of the insert.
pub mod Scan
pub mod Insert
pub mod Loop
pub mod Expand
pub mod Delivery
