-- ===== src/Lib.antt =====
-- Applications and the Unix port of lwip-contrib.
--
-- The program is a set of applications on lwIP's raw API, each a group of callbacks that lwIP calls, and
-- the ports that give lwIP threads, mailboxes and a clock. Modelled are eight of them:
--   Smtp      apps/smtp/smtp.c, the mail client. Types has its constants and struct smtp_session; Send the settings and
--             smtp_send_mail*; Verify, Base64, Response, Prepare and Auth its text functions; Process smtp_process,
--             smtp_send_body, smtp_close and smtp_free; Callbacks the TCP and DNS callbacks.
--   Echo      apps/tcpecho_raw/echo.c, the echo server: one function per callback.
--   Mbox      ports/unix/sys_arch.c: sys_sem_*, sys_mbox_*, sys_now, sys_arch_protect and sys_arch_unprotect.
--   Netbios   apps/netbios/netbios.c: netbios_name_decoding and netbios_recv.
--   Sntp      apps/sntp/sntp.c: sntp_init, sntp_request, sntp_recv, sntp_retry and sntp_stop.
--   Httpd     apps/httpserver_raw/httpd.c and fs.c, the web server: one connection. Request has http_recv and
--             http_parse_request; Response http_find_file, http_init_file and get_http_headers; Files fs_open and the
--             search for a file; Params extract_uri_parameters; State struct http_state and http_close_conn; Headers
--             http_send_headers; Ssi http_send_data_ssi with its switch and get_tag_insert; Send http_send,
--             http_send_data_nonssi, http_sent, http_poll and http_err; Write http_write. A request leads from Request over
--             Response to Send; http_sent and http_poll enter at Send. The files and the handlers of CGI and SSI
--             are parameters, and Tcp has what lwIP answers during one callback. Response/Spec lists the status lines and
--             content types apart from the code.
--             Post adds what LWIP_HTTPD_SUPPORT_POST does: Line the request line and the Content-Length, Handle
--             http_post_request and http_post_rxpbuf, Receive http_recv. The application's functions are a parameter.
--   Makefsdata apps/httpserver_raw/makefsdata/makefsdata.c, the generator of the web server's files: process_file and
--             file_write_http_header. Reading is how a C compiler reads the array that it writes.
--   Netif     ports/unix/netif: List has list.c's list_new, list_push, list_pop and list_remove on nodes of a heap, where
--             malloc is a parameter; Queue is the bounded queue that they are to be. Fifo has fifo.c: fifoInit, and
--             fifoGet, fifoGetNonBlock and fifoPut as their critical sections, on the 2048 slots of FIFOSIZE.
-- Base has what all of them share: C's tests, arrays with indices, bytes, and a checked memcpy. Lwip has
-- err_t and the packet readers, which are a parameter since lwIP's sources are not in the repository;
-- Readers is an instance of it for the concrete runs in the modules Examples.
--
-- State is passed explicitly. A fault (a failed assertion, a write outside a buffer or through NULL, a read
-- past its end, the overflow of an int counter) is none. What lwIP or the other side answers is data of the
-- event, so that a list of events is an arbitrary order of callbacks, and the theorems on runs are by induction
-- on it. Integers of w bits wrap where the code can reach the bound: send_len, tx_len and offsets at 2^16, the
-- clock at 2^32, characters at 2^8, and the size_t of the login data's memcpy at 2^64.
--
-- Recursion is structural but for five loops. The search of smtp_is_response_finished has one unit of fuel per
-- byte and one more; each round moves on by six bytes at least. The loop of http_write has the length, which
-- each round halves; that of http_send_headers has the send buffer and one more, as each round but the last
-- sends a byte; that of http_send_data_ssi has a bound on the characters to parse and the bytes to send. That
-- of list_remove has the number of elements and one.
--
-- Configuration: the defaults of each file; for SMTP with SMTP_COPY_AUTHDATA, SMTP_CHECK_DATA and LWIP_DNS; for
-- the web server with LWIP_HTTPD_CGI, LWIP_HTTPD_SSI and its INCLUDE_TAG, LWIP_HTTPD_DYNAMIC_HEADERS,
-- LWIP_HTTPD_SUPPORT_REQUESTLIST and LWIP_HTTPD_SUPPORT_V09.
--
-- Not modelled: the throttling of a POST (LWIP_HTTPD_POST_MANUAL_WND), keep-alive, extended status pages and
-- files read in parts in the web server, and the list of its connections; the netconn web server, the
-- generator's walk through directories, its checksums and HTTP/1.1 headers, the small demo applications,
-- list_delete and list_map, a read that fails in fifoPut, the drivers and the other ports; debug output; the
-- freeing of packet buffers; in the Unix port the blocking itself (a thread that has to wait enters its
-- critical section again), thread creation, and the overflow of the protection lock's int depth; in the echo
-- server the order of echo_error, and of echo_recv with an error, among the other callbacks.
pub mod Base
pub mod Lwip
pub mod Readers
pub mod Smtp
pub mod Echo
pub mod Mbox
pub mod Netbios
pub mod Sntp
pub mod Httpd
pub mod Makefsdata
pub mod Netif
